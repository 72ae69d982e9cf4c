-- ===== src/UpdateProcessor/Locks/Acquiring.antt =====
-- A task that gets the lock of its key: apps/bot/mitup_bot/update_processor.py.
use mitup_telegram_bot.Base.{
  Bool-cases, ℕ, ◌≡◌, sym, subst, false, some, List, ◌∷◌, ◌++◌, ◌==◌, ==_iff, ==_refl, All, arith,
  inl, inr,
}
use mitup_telegram_bot.UpdateProcessor.{waiting, running, Task, Processor, acquire}
use mitup_telegram_bot.UpdateProcessor.Locks.{IsValid, Counted, uses, runs}
use mitup_telegram_bot.UpdateProcessor.Locks.OneTask.{
  count-one, All-one, All-put, tally, waits-idle,
}

acquire-Counted-own :
    (front : List Task) (task : Task) (back : List Task) (s : Processor)
    → s.tasks ≡ front ++ task ∷ back
    → task.phase ≡ waiting
    → (s.objects task.lock).locked ≡ false
    → Counted s task.lock
    → Counted (acquire front task back s) task.lock
unfolding acquire
acquire-Counted-own front task back s e waits free counted =
    let gets = record task { phase = running } in
    let users = tally (uses task.lock) s.tasks front task back e in
    let runners = tally (runs task.lock) s.tasks front task back e in
    let users' = count-one (uses task.lock) front gets back in
    let runners' = count-one (runs task.lock) front gets back in
    let idle = waits-idle task task.lock waits in
    let own = ==_refl task.lock in
    ground (arith, counted, users, runners, users', runners', idle, own, free)

acquire-Counted :
    (front : List Task) (task : Task) (back : List Task) (s : Processor) (ref : ℕ)
    → s.tasks ≡ front ++ task ∷ back
    → task.phase ≡ waiting
    → (s.objects task.lock).locked ≡ false
    → Counted s ref
    → Counted (acquire front task back s) ref
unfolding acquire
acquire-Counted front task back s ref e waits free counted =
    let gets = record task { phase = running } in
    let users = tally (uses ref) s.tasks front task back e in
    let runners = tally (runs ref) s.tasks front task back e in
    let users' = count-one (uses ref) front gets back in
    let runners' = count-one (runs ref) front gets back in
    let idle = waits-idle task ref waits in
    elim (Bool-cases (task.lock == ref)) [
      | inl same ↦
          let own = (==_iff task.lock ref).0 same in
          subst (Counted (acquire front task back s)) own (
            acquire-Counted-own front task back s e waits free
              (subst (Counted s) (sym own) counted))
      | inr other ↦ ground (arith, counted, users, runners, users', runners', idle)
    ]

pub acquire-IsValid :
    (front : List Task) (task : Task) (back : List Task) (s : Processor)
    → s.tasks ≡ front ++ task ∷ back
    → task.phase ≡ waiting
    → (s.objects task.lock).locked ≡ false
    → IsValid s
    → IsValid (acquire front task back s)
unfolding acquire
acquire-IsValid front task back s e waits free valid =
    let gets = record task { phase = running } in
    let apart =
      All-one (λ t. s.locks t.key ≡ some t.lock) front task back
        (subst (λ ts. All (λ t. s.locks t.key ≡ some t.lock) ts) e valid.held) in
    record {
      held = All-put (λ t. s.locks t.key ≡ some t.lock) front gets back apart.0 apart.1;
      numbered = λ key ref f. (
        (valid.numbered key ref f).0,
        acquire-Counted front task back s ref e waits free (valid.numbered key ref f).1,
      );
      distinct = valid.distinct;
      used = λ key ref f.
          let users = tally (uses ref) s.tasks front task back e in
          let users' = count-one (uses ref) front gets back in
          let some_user = valid.used key ref f in omega arith;
    }
