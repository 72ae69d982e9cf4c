-- ===== src/UpdateProcessor/Locks/Entering.antt =====
-- An update that enters, with the lock of its key or a new one:
-- apps/bot/mitup_bot/update_processor.py.
use mitup_telegram_bot.Base.{
  Bool-cases, Option-cases, All-imp, ℕ, suc, ◌<◌, ◌≤◌, ◌≡◌, refl, sym, ap, ◌∙◌, subst, false,
  Option, none, some, List, [], ◌∷◌, if◌then◌else◌, count, All, arith, ◌⊎◌, inl, inr,
}
use mitup_telegram_bot.UpdateProcessor.{
  LockKey, key_eq, Task, Processor, set_key, joins, creates, looked_up, arrive,
}
use mitup_telegram_bot.UpdateProcessor.Locks.{
  IsValid, Held, Numbered, Distinct, Used, Counted, uses, runs, key_eq_iff, some-inj, some-not-none,
}

joins-Counted :
    (key : LockKey) (ref r : ℕ) (s : Processor) → Counted s r → Counted (joins key ref s) r
joins-Counted key ref r s counted = ground (arith, counted)

joins-Used :
    (key : LockKey) (ref : ℕ) (s : Processor)
    → ((other : LockKey) (r : ℕ)
        → s.locks other ≡ some r
        → (r ≡ ref) ⊎ (1 ≤ count (uses r) s.tasks))
    → Used (joins key ref s)
joins-Used key ref s used other r e = ground (arith, used other r e)

joins-IsValid :
    (key : LockKey) (ref : ℕ) (s : Processor)
    → s.locks key ≡ some ref
    → Held s
    → Numbered s
    → Distinct s
    → ((other : LockKey) (r : ℕ)
        → s.locks other ≡ some r
        → (r ≡ ref) ⊎ (1 ≤ count (uses r) s.tasks))
    → IsValid (joins key ref s)
joins-IsValid key ref s e held numbered distinct used = record {
  held = (e, held);
  numbered = λ k r f. ((numbered k r f).0, joins-Counted key ref r s (numbered k r f).1);
  distinct = distinct;
  used = joins-Used key ref s used;
}

-- No task uses a lock that is not yet made.
count-below :
    (locks : LockKey → Option ℕ) (next : ℕ) (tasks : List Task)
    → ((key : LockKey) (ref : ℕ) → locks key ≡ some ref → ref < next)
    → All (λ task. locks task.key ≡ some task.lock) tasks
    → (count (uses next) tasks ≡ 0) × (count (runs next) tasks ≡ 0)
count-below locks next [] below held = (refl, refl)
count-below locks next (task ∷ tasks) below held =
    let rest = count-below locks next tasks below held.1 in
    let older = below task.key task.lock held.0 in ground (arith, rest, older)

set_key-same :
    (key : LockKey) (value : Option ℕ) (table : LockKey → Option ℕ)
    → set_key key value table key ≡ value
set_key-same key value table = rw ((key_eq_iff key key).1 refl) refl

-- Other entries stay.
set_key-kept :
    (key k : LockKey) (table : LockKey → Option ℕ) (value : Option ℕ) (ref : ℕ)
    → table key ≡ none
    → table k ≡ some ref
    → set_key key value table k ≡ some ref
set_key-kept key k table value ref free e = elim (Bool-cases (key_eq key k)) [
  | inl same ↦ absurd (some-not-none (sym e ∙ sym (ap table ((key_eq_iff key k).0 same)) ∙ free))
  | inr other ↦ ap (λ b. if b then value else table k) other ∙ e
]

-- An entry of the table after a change is the changed one, or one of another key.
pub set_key-cases :
    (key k : LockKey) (value : Option ℕ) (table : LockKey → Option ℕ) (ref : ℕ)
    → set_key key value table k ≡ some ref
    → ((key ≡ k) × (value ≡ some ref)) ⊎ ((key_eq key k ≡ false) × (table k ≡ some ref))
set_key-cases key k value table ref e = elim (Bool-cases (key_eq key k)) [
  | inl same ↦
      inl ((key_eq_iff key k).0 same, sym (ap (λ b. if b then value else table k) same) ∙ e)
  | inr other ↦ inr (other, sym (ap (λ b. if b then value else table k) other) ∙ e)
]

creates-Counted :
    (key : LockKey) (s : Processor)
    → (count (uses s.next) s.tasks ≡ 0) × (count (runs s.next) s.tasks ≡ 0)
    → Counted (creates key s) s.next
creates-Counted key s zeros = ground (arith, zeros)

creates-Counted-other :
    (key : LockKey) (ref : ℕ) (s : Processor)
    → ref < s.next
    → Counted s ref
    → Counted (creates key s) ref
creates-Counted-other key ref s older counted = ground (arith, counted)

creates-Numbered : (key : LockKey) (s : Processor) → Held s → Numbered s → Numbered (creates key s)
creates-Numbered key s held numbered k ref e =
    let zeros = count-below s.locks s.next s.tasks (λ k' r f. (numbered k' r f).0) held in
    elim (set_key-cases key k (some s.next) s.locks ref e) [
      | inl (same, fresh) ↦
          subst (λ r. (r < suc s.next) × Counted (creates key s) r) (some-inj fresh)
            (omega arith, creates-Counted key s zeros)
      | inr (other, f) ↦
          let old = numbered k ref f in
          let older = old.0 in (omega arith, creates-Counted-other key ref s old.0 old.1)
    ]

creates-Held : (key : LockKey) (s : Processor) → s.locks key ≡ none → Held s → Held (creates key s)
creates-Held key s free held =
    All-imp (λ task. s.locks task.key ≡ some task.lock)
      (λ task. set_key key (some s.next) s.locks task.key ≡ some task.lock)
      (λ task e. set_key-kept key task.key s.locks (some s.next) task.lock free e) s.tasks held

creates-Distinct :
    (key : LockKey) (s : Processor) → Numbered s → Distinct s → Distinct (creates key s)
creates-Distinct key s numbered distinct k other ref e f =
    elim (set_key-cases key k (some s.next) s.locks ref e) [
      | inl (same, fresh) ↦ elim (set_key-cases key other (some s.next) s.locks ref f) [
        | inl (same', fresh') ↦ sym same ∙ same'
        | inr (_, old) ↦
            let older = (numbered other ref old).0 in
            let new = some-inj fresh in absurd (omega arith)
      ]
      | inr (_, old) ↦ elim (set_key-cases key other (some s.next) s.locks ref f) [
        | inl (same, fresh) ↦
            let older = (numbered k ref old).0 in let new = some-inj fresh in absurd (omega arith)
        | inr (_, old') ↦ distinct k other ref old old'
      ]
    ]

pub arrive-IsValid : (key : LockKey) (s : Processor) → IsValid s → IsValid (arrive key s)
unfolding arrive
arrive-IsValid key s valid = elim (Option-cases (s.locks key)) [
  | inl e ↦
      subst (λ found. IsValid (looked_up key s found)) (sym e)
        (joins-IsValid key s.next (creates key s) (set_key-same key (some s.next) s.locks)
          (creates-Held key s e valid.held) (creates-Numbered key s valid.held valid.numbered)
          (creates-Distinct key s valid.numbered valid.distinct)
          (λ other r f. elim (set_key-cases key other (some s.next) s.locks r f) [
            | inl (same, fresh) ↦ inl (sym (some-inj fresh))
            | inr (_, old) ↦ inr (valid.used other r old)
          ]))
  | inr (ref, e) ↦
      subst (λ found. IsValid (looked_up key s found)) (sym e)
        (joins-IsValid key ref s e valid.held valid.numbered valid.distinct
          (λ other r f. inr (valid.used other r f)))
]
