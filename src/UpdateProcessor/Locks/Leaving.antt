-- ===== src/UpdateProcessor/Locks/Leaving.antt =====
-- A task that leaves, and the entry that the last one drops: apps/bot/mitup_bot/update_processor.py.
use mitup_telegram_bot.Base.{
  Bool-cases, count-cons, ℕ, ◌-◌, ◌+◌, ◌<◌, ◌≤◌, ◌≡◌, refl, sym, ap, ◌∙◌, subst, Bool, true, false,
  Option, none, some, List, [], ◌∷◌, ◌++◌, ◌==◌, ==_iff, ==_refl, if◌then◌else◌, count, weight, All,
  arith, inl, inr,
}
use mitup_telegram_bot.UpdateProcessor.{LockKey, key_eq, Task, Processor, set_key, leave}
use mitup_telegram_bot.UpdateProcessor.Locks.Entering.{set_key-cases}
use mitup_telegram_bot.UpdateProcessor.Locks.{
  IsValid, Distinct, Counted, uses, runs, key_eq_iff, some-inj, some-not-none,
}

-- What `leave` asks of the rest: the users are counted, and the lock is locked while one of the
-- tasks that stay runs.
abbrev pub Stays : List Task → Task → List Task → Processor → ℕ → Type 0
Stays front task back s ref =
    ((s.objects ref).waiters ≡ weight (uses ref task) + count (uses ref) (front ++ back))
    × (weight (s.objects ref).locked ≡ count (runs ref) (front ++ back))

leave-Counted :
    (front : List Task) (task : Task) (back : List Task) (s : Processor) (ref : ℕ)
    → Stays front task back s ref
    → Counted (leave front task back s) ref
unfolding leave
leave-Counted front task back s ref stays = elim (Bool-cases (task.lock == ref)) [
  | inl same ↦
      let own = (==_iff task.lock ref).0 same in
      let users = ap (λ r. (s.objects r).waiters) own in
      let locked = ap (λ r. weight (s.objects r).locked) own in ground (arith, stays, users, locked)
  | inr other ↦ ground (arith, stays)
]

-- A task of another lock has another key, whose entry stays when this one's is dropped.
drop-kept :
    (key : LockKey) (lock : ℕ) (table : LockKey → Option ℕ)
    → table key ≡ some lock
    → (t : Task) → (uses lock t ≡ false)
    → table t.key ≡ some t.lock
    → set_key key none table t.key ≡ some t.lock
drop-kept key lock table own t other e = elim (Bool-cases (key_eq key t.key)) [
  | inl same ↦
      let key_same = (key_eq_iff key t.key).0 same in
      let lock_same = some-inj (sym e ∙ sym (ap table key_same) ∙ own) in
      absurd (ground (arith, lock_same, other))
  | inr differs ↦ ap (λ b. if b then none else table t.key) differs ∙ e
]

All-drop-kept :
    (key : LockKey) (lock : ℕ) (table : LockKey → Option ℕ)
    → table key ≡ some lock
    → (tasks : List Task) → count (uses lock) tasks ≡ 0
    → All (λ t. table t.key ≡ some t.lock) tasks
    → All (λ t. set_key key none table t.key ≡ some t.lock) tasks
All-drop-kept key lock table own [] zero_users held = tt
All-drop-kept key lock table own (t ∷ tasks) zero_users held =
    let first = count-cons (uses lock) t tasks in
    elim (Bool-cases (uses lock t)) [
      | inl mine ↦ absurd (ground (arith, first, mine, zero_users))
      | inr other ↦ (
        drop-kept key lock table own t other held.0,
        All-drop-kept key lock table own tasks (ground (arith, first, other, zero_users)) held.1,
      )
    ]

-- The table after the last user dropped its entry, or after another one left.
table_after : Bool → LockKey → Processor → LockKey → Option ℕ
table_after drops key s = if drops then set_key key none s.locks else s.locks

left_by : Bool → List Task → Task → List Task → Processor → Processor
left_by drops front task back s = record (leave front task back s) {
  locks = table_after drops task.key s;
}

module _ (front : List Task) (task : Task) (back : List Task) (s : Processor)
    (own : s.locks task.key ≡ some task.lock)
    (others : All (λ t. s.locks t.key ≡ some t.lock) (front ++ back))
    (stays : (key : LockKey) (ref : ℕ)
      → s.locks key ≡ some ref
      → (ref < s.next) × Stays front task back s ref)
    (distinct : Distinct s)
    (used : (key : LockKey) (ref : ℕ)
      → s.locks key ≡ some ref
      → 1 ≤ weight (uses ref task) + count (uses ref) (front ++ back)) where
  -- An entry that is left is an old one, and not of the task's key if that was dropped.
  left_by-entry :
      (drops : Bool) (key : LockKey) (ref : ℕ)
      → (left_by drops front task back s).locks key ≡ some ref
      → (s.locks key ≡ some ref) × ((drops ≡ true) → key_eq task.key key ≡ false)
  unfolding left_by table_after
  left_by-entry false key ref e = (e, λ f. cc f)
  left_by-entry true key ref e = elim (set_key-cases task.key key none s.locks ref e) [
    | inl (same, nothing) ↦ absurd (some-not-none (sym nothing))
    | inr (other, old) ↦ (old, λ _. other)
  ]

  left_by-Held :
      (drops : Bool)
      → ((drops ≡ true) → count (uses task.lock) (front ++ back) ≡ 0)
      → All (λ t. (left_by drops front task back s).locks t.key ≡ some t.lock) (front ++ back)
  unfolding left_by table_after
  left_by-Held false last = others
  left_by-Held true last =
      All-drop-kept task.key task.lock s.locks own (front ++ back) (last refl) others

  left_by-Used :
      (drops : Bool)
      → ((drops ≡ false) → 1 ≤ count (uses task.lock) (front ++ back))
      → (key : LockKey) (ref : ℕ) → (left_by drops front task back s).locks key ≡ some ref
      → 1 ≤ count (uses ref) (front ++ back)
  left_by-Used drops more key ref e =
      let (old, kept) = left_by-entry drops key ref e in
      let some_user = used key ref old in
      elim (Bool-cases (task.lock == ref)) [
        | inl same ↦
            let same_lock = (==_iff task.lock ref).0 same in
            elim (Bool-cases drops) [
              | inl gone ↦
                  let same_key = distinct task.key key ref (own ∙ ap (λ r. some r) same_lock) old in
                  absurd (cc (kept gone, (key_eq_iff task.key key).1 same_key))
              | inr stay ↦ subst (λ r. 1 ≤ count (uses r) (front ++ back)) same_lock (more stay)
            ]
        | inr other ↦ ground (arith, some_user)
      ]

  pub leave-IsValid : IsValid (leave front task back s)
  unfolding leave left_by table_after
  leave-IsValid =
      let left = (s.objects task.lock).waiters - 1 in
      let drops = left == 0 in
      let mine = (stays task.key task.lock own).1 in
      let self = ==_refl task.lock in
      record {
        held = left_by-Held drops (λ gone. ground (arith, gone, mine.0, self));
        numbered = λ key ref e.
            let old = stays key ref (left_by-entry drops key ref e).0 in
            (old.0, leave-Counted front task back s ref old.1);
        distinct = λ key other ref e f.
            distinct key other ref (left_by-entry drops key ref e).0
              (left_by-entry drops other ref f).0;
        used = left_by-Used drops (λ stay. ground (arith, stay, mine.0, self));
      }
