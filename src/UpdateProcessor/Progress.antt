-- ===== src/UpdateProcessor/Progress.antt =====
-- What the keyed locks of the update processor are for: apps/bot/mitup_bot/update_processor.py.
pub mod Drain
use mitup_telegram_bot.Base.{
  ℕ, suc, ◌+◌, ◌≤◌, ◌≡◌, ◌≢◌, refl, sym, ap, ◌∙◌, Bool, true, false, ◌&&◌, Option, none, some, List,
  [], ◌∷◌, ◌==◌, ==_iff, ==_refl, if◌then◌else◌, count, count-cons, weight, All, arith, ◌↔◌,
  is_none, inl, inr, Bool-cases, Option-cases,
}
use mitup_telegram_bot.UpdateProcessor.{LockKey, key_eq, Task, Processor, Reachable}
use mitup_telegram_bot.UpdateProcessor.Locks.{
  IsValid, Held, Numbered, Distinct, Used, Counted, uses, runs, is_running, key_eq_iff, some-inj,
  some-not-none,
}
use mitup_telegram_bot.UpdateProcessor.Locks.Steps.{Reachable-IsValid}

-- The updates in flight with a key, and those of them that run.
abbrev pub has_key : LockKey → Task → Bool
has_key key task = key_eq key task.key

abbrev pub runs_with : LockKey → Task → Bool
runs_with key task = is_running task.phase && key_eq key task.key

module _ (locks : LockKey → Option ℕ) (key : LockKey) where
  -- A task of the key uses the lock of the key's entry.
  same_lock :
      (ref : ℕ) (task : Task)
      → locks key ≡ some ref
      → locks task.key ≡ some task.lock
      → has_key key task ≡ true
      → uses ref task ≡ true
  same_lock ref task e held same =
      let key_same = (key_eq_iff key task.key).0 same in
      (==_iff task.lock ref).1 (some-inj (sym held ∙ sym (ap locks key_same) ∙ e))

  count-runs_with :
      (ref : ℕ) (tasks : List Task)
      → locks key ≡ some ref
      → All (λ task. locks task.key ≡ some task.lock) tasks
      → count (runs_with key) tasks ≤ count (runs ref) tasks
  count-runs_with ref [] e held = omega arith
  count-runs_with ref (task ∷ tasks) e held =
      let rest = count-runs_with ref tasks e held.1 in
      let lock_same = same_lock ref task e held.0 in
      elim (Bool-cases (has_key key task)) [
        | inl same ↦ let used = lock_same same in ground (arith, rest, used)
        | inr other ↦ ground (arith, rest, other)
      ]

  -- Without an entry there is no task of the key.
  none_in_flight :
      (tasks : List Task)
      → locks key ≡ none
      → All (λ task. locks task.key ≡ some task.lock) tasks
      → count (has_key key) tasks ≡ 0
  none_in_flight [] e held = refl
  none_in_flight (task ∷ tasks) e held =
      let rest = none_in_flight tasks e held.1 in
      elim (Bool-cases (has_key key task)) [
        | inl same ↦
            let key_same = (key_eq_iff key task.key).0 same in
            absurd (some-not-none (sym held.0 ∙ sym (ap locks key_same) ∙ e))
        | inr other ↦ ground (arith, rest, other)
      ]

  count-uses :
      (ref : ℕ) (tasks : List Task)
      → locks key ≡ some ref
      → ((other : LockKey) → locks other ≡ some ref → key ≡ other)
      → All (λ task. locks task.key ≡ some task.lock) tasks
      → count (uses ref) tasks ≤ count (has_key key) tasks
  count-uses ref [] e distinct held = omega arith
  count-uses ref (task ∷ tasks) e distinct held =
      let rest = count-uses ref tasks e distinct held.1 in
      elim (Bool-cases (uses ref task)) [
        | inl mine ↦
            let own =
              distinct task.key (held.0 ∙ ap (λ r. some r) ((==_iff task.lock ref).0 mine)) in
            let same = (key_eq_iff key task.key).1 own in ground (arith, rest, same)
        | inr other ↦ ground (arith, rest, other)
      ]

count-runs_with-le :
    (key : LockKey) (tasks : List Task) → count (runs_with key) tasks ≤ count (has_key key) tasks
count-runs_with-le key [] = omega arith
count-runs_with-le key (task ∷ tasks) = ground (arith, count-runs_with-le key tasks)

-- In every state that arrivals, acquisitions, cancellations and ends lead to, at most one update of
-- a user and chat runs, however many are in flight.
pub runs_alone : (s : Processor) (key : LockKey) → Reachable s → count (runs_with key) s.tasks ≤ 1
runs_alone s key reached =
    let valid = Reachable-IsValid s reached in
    elim (Option-cases (s.locks key)) [
      | inl e ↦
          let nobody = none_in_flight s.locks key s.tasks e valid.held in
          omega (arith, count-runs_with-le key s.tasks)
      | inr (ref, e) ↦
          let bound = count-runs_with s.locks key ref s.tasks e valid.held in
          let locked = (valid.numbered key ref e).1.1 in ground (arith, bound, locked)
    ]

-- In every such state the table has an entry for a key exactly while an update with that key is in
-- flight: none is dropped early, and none is left behind.
pub entry_iff_in_flight :
    (s : Processor) (key : LockKey)
    → Reachable s
    → (is_none (s.locks key) ≡ true) ↔ (count (has_key key) s.tasks ≡ 0)
entry_iff_in_flight s key reached =
    let valid = Reachable-IsValid s reached in
    elim (Option-cases (s.locks key)) [
      | inl e ↦ (λ _. none_in_flight s.locks key s.tasks e valid.held, λ _. ap is_none e)
      | inr (ref, e) ↦
          let used = valid.used key ref e in
          let bound =
            count-uses s.locks key ref s.tasks e (λ other f. valid.distinct key other ref e f)
              valid.held in
          (λ gone. absurd (cc (gone, ap is_none e)), λ nobody. absurd (omega arith))
    ]
