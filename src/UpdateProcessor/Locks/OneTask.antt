-- ===== src/UpdateProcessor/Locks/OneTask.antt =====
-- One task of the tasks in flight, and the rest of them:
-- apps/bot/mitup_bot/update_processor.py.
use mitup_telegram_bot.Base.{
  ℕ, ◌+◌, ◌≡◌, refl, sym, ap, ◌∙◌, subst, Bool, ◌&&◌, List, [], ◌∷◌, ◌++◌, ◌==◌, count,
  count-append, weight, All, arith,
}
use mitup_telegram_bot.UpdateProcessor.{waiting, running, Task}
use mitup_telegram_bot.UpdateProcessor.Locks.{uses, runs, is_running}

-- One task of a list, and the rest of the list.
module _ (p : Task → Bool) (front : List Task) (task : Task) (back : List Task) where
  pub count-one : count p (front ++ task ∷ back) ≡ weight (p task) + count p (front ++ back)
  count-one = ground (arith, count-append p front (task ∷ back), count-append p front back)

module _ (P : Task → Type 0) where
  pub All-one :
      (front : List Task) (task : Task) (back : List Task)
      → All P (front ++ task ∷ back)
      → P task × All P (front ++ back)
  All-one [] task back h = h
  All-one (t ∷ front) task back h =
      let rest = All-one front task back h.1 in (rest.0, (h.0, rest.1))

  pub All-put :
      (front : List Task) (task : Task) (back : List Task)
      → P task
      → All P (front ++ back)
      → All P (front ++ task ∷ back)
  All-put [] task back h k = (h, k)
  All-put (t ∷ front) task back h k = (k.0, All-put front task back h k.1)

pub tally :
    (p : Task → Bool) (tasks front : List Task) (task : Task) (back : List Task)
    → tasks ≡ front ++ task ∷ back
    → count p tasks ≡ weight (p task) + count p (front ++ back)
tally p tasks front task back e = ap (count p) e ∙ count-one p front task back

-- A task that waits does not run under any lock.
pub waits-idle : (task : Task) (ref : ℕ) → task.phase ≡ waiting → weight (runs ref task) ≡ 0
waits-idle task ref waits =
    subst (λ phase. weight (is_running phase && (task.lock == ref)) ≡ 0) (sym waits) refl

-- A task that runs does so under its own lock and no other.
pub runs_under :
    (task : Task) (ref : ℕ) → task.phase ≡ running → weight (runs ref task) ≡ weight (uses ref task)
runs_under task ref runs_now =
    subst (λ phase. weight (is_running phase && (task.lock == ref)) ≡ weight (task.lock == ref))
      (sym runs_now) refl
