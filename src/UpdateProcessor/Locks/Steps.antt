-- ===== src/UpdateProcessor/Locks/Steps.antt =====
-- Every state that the processor reaches keeps its locks in order:
-- apps/bot/mitup_bot/update_processor.py.
use mitup_telegram_bot.Base.{
  Bool-cases, ℕ, ◌+◌, ◌≤◌, ◌≡◌, ap, subst, false, some, List, ◌∷◌, ◌++◌, ◌==◌, ==_iff, count,
  weight, All, arith, inl, inr,
}
use mitup_telegram_bot.UpdateProcessor.{
  LockKey, waiting, running, Task, Processor, set_object, leave, finish, Step, arrives, acquires,
  is_cancelled, finishes, Reachable, at_start, after,
}
use mitup_telegram_bot.UpdateProcessor.Locks.{new_processor-IsValid, IsValid, Counted, uses, runs}
use mitup_telegram_bot.UpdateProcessor.Locks.OneTask.{All-one, tally, waits-idle, runs_under}
use mitup_telegram_bot.UpdateProcessor.Locks.Entering.{arrive-IsValid}
use mitup_telegram_bot.UpdateProcessor.Locks.Acquiring.{acquire-IsValid}
use mitup_telegram_bot.UpdateProcessor.Locks.Leaving.{Stays, leave-IsValid}

-- A task out of the list, of which the table has the lock.
module _ (s : Processor) (front : List Task) (task : Task) (back : List Task)
    (e : s.tasks ≡ front ++ task ∷ back) (valid : IsValid s) where
  held_apart :
      (s.locks task.key ≡ some task.lock) × All (λ t. s.locks t.key ≡ some t.lock) (front ++ back)
  held_apart =
      All-one (λ t. s.locks t.key ≡ some t.lock) front task back
        (subst (λ ts. All (λ t. s.locks t.key ≡ some t.lock) ts) e valid.held)

  used_apart :
      (key : LockKey) (ref : ℕ)
      → s.locks key ≡ some ref
      → 1 ≤ weight (uses ref task) + count (uses ref) (front ++ back)
  used_apart key ref f =
      subst (λ n. 1 ≤ n) (tally (uses ref) s.tasks front task back e) (valid.used key ref f)

  cancel-IsValid : task.phase ≡ waiting → IsValid (leave front task back s)
  cancel-IsValid waits =
      leave-IsValid front task back s held_apart.0 held_apart.1
        (λ key ref f.
          let old = valid.numbered key ref f in
          let users = tally (uses ref) s.tasks front task back e in
          let runners = tally (runs ref) s.tasks front task back e in
          let idle = waits-idle task ref waits in
          let counted = old.1 in (old.0, (omega arith, omega arith)))
        valid.distinct used_apart

  finish-Stays :
      (ref : ℕ)
      → task.phase ≡ running
      → Counted s ref
      → Stays front task back
          (record s {
            objects =
                set_object task.lock (record (s.objects task.lock) { locked = false }) s.objects;
          })
          ref
  finish-Stays ref runs_now counted =
      let users = tally (uses ref) s.tasks front task back e in
      let runners = tally (runs ref) s.tasks front task back e in
      let one = runs_under task ref runs_now in
      elim (Bool-cases (task.lock == ref)) [
        | inl same ↦
            let own = (==_iff task.lock ref).0 same in
            let at_lock = ap (λ r. (s.objects r).waiters) own in
            ground (arith, counted, users, runners, one, at_lock)
        | inr other ↦ ground (arith, counted, users, runners, one)
      ]

  finish-IsValid : task.phase ≡ running → IsValid (finish front task back s)
  unfolding finish
  finish-IsValid runs_now =
      leave-IsValid front task back _ held_apart.0 held_apart.1
        (λ key ref f.
          let old = valid.numbered key ref f in (old.0, finish-Stays ref runs_now old.1))
        valid.distinct used_apart

Step-IsValid : (s t : Processor) → Step s t → IsValid s → IsValid t
Step-IsValid s t (arrives s' key) valid = arrive-IsValid key s' valid
Step-IsValid s t (acquires s' front task back e waits free) valid =
    acquire-IsValid front task back s' e waits free valid
Step-IsValid s t (is_cancelled s' front task back e waits) valid =
    cancel-IsValid s' front task back e valid waits
Step-IsValid s t (finishes s' front task back e runs_now) valid =
    finish-IsValid s' front task back e valid runs_now

pub Reachable-IsValid : (s : Processor) → Reachable s → IsValid s
Reachable-IsValid s at_start = new_processor-IsValid
Reachable-IsValid s (after before t reached step) =
    Step-IsValid before t step (Reachable-IsValid before reached)
