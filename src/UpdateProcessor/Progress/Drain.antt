-- ===== src/UpdateProcessor/Progress/Drain.antt =====
-- The updates in flight can all be brought to an end: apps/bot/mitup_bot/update_processor.py.
use mitup_telegram_bot.Base.{
  ℕ, zero, suc, ◌+◌, ◌≤◌, ◌≡◌, refl, ap, subst, Bool, true, false, not, Option, none, some, List,
  [], ◌∷◌, ◌++◌, length, length-append, ◌==◌, count, count-cons, weight, All, arith, ◌⊎◌, inl, inr,
  Bool-cases, and_left, is_none,
}
use mitup_telegram_bot.UpdateProcessor.{
  LockKey, Phase, waiting, running, Task, Processor, acquire, leave, finish, acquires, finishes,
  Reachable, after,
}
use mitup_telegram_bot.UpdateProcessor.Locks.{IsValid, runs, is_running}
use mitup_telegram_bot.UpdateProcessor.Locks.OneTask.{tally, count-one}
use mitup_telegram_bot.UpdateProcessor.Locks.Steps.{Reachable-IsValid}
use mitup_telegram_bot.UpdateProcessor.Progress.{entry_iff_in_flight, has_key}

abbrev pub waits : Task → Bool
waits task = not (is_running task.phase)

-- What is left to do: each update still ends, and a waiting one gets its lock before.
abbrev pub remaining_steps : Processor → ℕ
remaining_steps s = length s.tasks + count waits s.tasks

-- Steps of the updates in flight alone: nothing arrives and nothing is cancelled.
pub data Work : ℕ → Processor → Processor → Type 0 where
  idle : (s : Processor) → Work 0 s s
  acquires_next :
      (n : ℕ) (s t : Processor) (front : List Task) (task : Task) (back : List Task)
      → s.tasks ≡ front ++ task ∷ back
      → task.phase ≡ waiting
      → (s.objects task.lock).locked ≡ false
      → Work n (acquire front task back s) t
      → Work (suc n) s t
  finishes_next :
      (n : ℕ) (s t : Processor) (front : List Task) (task : Task) (back : List Task)
      → s.tasks ≡ front ++ task ∷ back
      → task.phase ≡ running
      → Work n (finish front task back s) t
      → Work (suc n) s t

-- A counted element, where it stands.
located :
    (p : Task → Bool) (tasks : List Task)
    → 1 ≤ count p tasks
    → (front : List Task) × (task : Task) × (back : List Task) × (tasks ≡ front ++ task ∷ back)
      × (p task ≡ true)
located p [] h = absurd (omega arith)
located p (task ∷ tasks) h = elim (Bool-cases (p task)) [
  | inl here ↦ ([], task, tasks, refl, here)
  | inr other ↦
      let (front, found, back, e, f) =
        located p tasks (ground (arith, count-cons p task tasks, other, h)) in
      (task ∷ front, found, back, ap (λ ts. task ∷ ts) e, f)
]

Phase-cases : (phase : Phase) → (phase ≡ waiting) ⊎ (phase ≡ running)
Phase-cases waiting = inl refl
Phase-cases running = inr refl

is_running-phase : (phase : Phase) → is_running phase ≡ true → phase ≡ running
is_running-phase waiting e = cc e
is_running-phase running e = refl

List-cases :
    (tasks : List Task)
    → (tasks ≡ []) ⊎ ((task : Task) × (rest : List Task) × (tasks ≡ task ∷ rest))
List-cases [] = inl refl
List-cases (task ∷ rest) = inr (task, rest, refl)

-- An update in flight that can go on.
pub CanWork : Processor → List Task → Task → List Task → Type 0
CanWork s front task back =
    (s.tasks ≡ front ++ task ∷ back)
    × ((task.phase ≡ running) ⊎ ((task.phase ≡ waiting) × ((s.objects task.lock).locked ≡ false)))

some-CanWork :
    (s : Processor) (task : Task) (tasks : List Task)
    → s.tasks ≡ task ∷ tasks
    → IsValid s
    → (front : List Task) × (t : Task) × (back : List Task) × CanWork s front t back
unfolding CanWork
some-CanWork s task tasks e valid = elim (Phase-cases task.phase) [
  | inr runs_now ↦ ([], task, tasks, (e, inl runs_now))
  | inl waits_now ↦ elim (Bool-cases (s.objects task.lock).locked) [
    | inr free ↦ ([], task, tasks, (e, inr (waits_now, free)))
    | inl taken ↦
        let own = (subst (λ ts. All (λ t. s.locks t.key ≡ some t.lock) ts) e valid.held).0 in
        let counted = (valid.numbered task.key task.lock own).1.1 in
        let (front, t, back, f, now) =
          located (runs task.lock) s.tasks (ground (arith, counted, taken)) in
        (
          front,
          t,
          back,
          (
            f,
            inl (
                is_running-phase t.phase (and_left (is_running t.phase) (t.lock == task.lock) now)),
          ),
        )
  ]
]

module _ (s : Processor) (front : List Task) (task : Task) (back : List Task)
    (e : s.tasks ≡ front ++ task ∷ back) where
  tally_waits : count waits s.tasks ≡ weight (waits task) + count waits (front ++ back)
  tally_waits = tally waits s.tasks front task back e

  length-one : length s.tasks ≡ suc (length (front ++ back))
  length-one =
      let whole = ap length e in
      omega (arith, whole, length-append front (task ∷ back), length-append front back)

  remaining_steps-acquire :
      task.phase ≡ waiting → remaining_steps s ≡ suc (remaining_steps (acquire front task back s))
  unfolding acquire
  remaining_steps-acquire waits_now =
      let gets = record task { phase = running } in
      let old = tally_waits in
      let now = count-one waits front gets back in
      let size = length-append front (gets ∷ back) in
      let waiting_one = ap (λ phase. weight (not (is_running phase))) waits_now in
      omega (arith, old, now, size, waiting_one, length-one, length-append front back)

  remaining_steps-finish :
      task.phase ≡ running → remaining_steps s ≡ suc (remaining_steps (finish front task back s))
  unfolding finish leave
  remaining_steps-finish runs_now =
      let old = tally_waits in
      let running_one = ap (λ phase. weight (not (is_running phase))) runs_now in
      omega (arith, old, running_one, length-one)

drain :
    (n : ℕ) (s : Processor)
    → Reachable s
    → remaining_steps s ≡ n
    → (t : Processor) × Work n s t × (t.tasks ≡ []) × Reachable t
unfolding CanWork
drain zero s reached e = elim (List-cases s.tasks) [
  | inl nobody ↦ (s, idle s, nobody, reached)
  | inr (task, rest, f) ↦ let one = length-one s [] task rest f in absurd (omega arith)
]
drain (suc n) s reached e = elim (List-cases s.tasks) [
  | inl nobody ↦
      let none_left = ap (λ ts. length ts + count waits ts) nobody in absurd (omega arith)
  | inr (task, rest, f) ↦
      let (front, t, back, (g, state)) = some-CanWork s task rest f (Reachable-IsValid s reached) in
      elim state [
        | inl runs_now ↦
            let fewer = remaining_steps-finish s front t back g runs_now in
            let (final, work, nobody, end) =
              drain n (finish front t back s)
                (after s _ reached (finishes s front t back g runs_now)) (omega arith) in
            (final, finishes_next n s final front t back g runs_now work, nobody, end)
        | inr (waits_now, free) ↦
            let fewer = remaining_steps-acquire s front t back g waits_now in
            let (final, work, nobody, end) =
              drain n (acquire front t back s)
                (after s _ reached (acquires s front t back g waits_now free)) (omega arith) in
            (final, acquires_next n s final front t back g waits_now free work, nobody, end)
      ]
]

is_none-none : (o : Option ℕ) → is_none o ≡ true → o ≡ none
is_none-none none e = refl
is_none-none (some n) e = cc e

-- From every state that arrivals, acquisitions, cancellations and ends lead to, the updates in
-- flight can all be brought to their end without another arrival or a cancellation: no set of
-- updates waits for each other. It takes one step for each that runs and two for each that waits,
-- and the table is empty afterwards.
pub updates_drain :
    (s : Processor)
    → Reachable s
    → (t : Processor) × Work (remaining_steps s) s t
      × (t.tasks ≡ [])
      × ((key : LockKey) → t.locks key ≡ none)
updates_drain s reached =
    let (t, work, nobody, end) = drain (remaining_steps s) s reached refl in
    (
      t,
      work,
      nobody,
      λ key.
          is_none-none (t.locks key)
            ((entry_iff_in_flight t key end).1 (ap (count (has_key key)) nobody)),
    )
