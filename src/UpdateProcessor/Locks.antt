-- ===== src/UpdateProcessor/Locks.antt =====
-- What the locks of the update processor keep: apps/bot/mitup_bot/update_processor.py.
mod Entering
pub mod OneTask
mod Acquiring
mod Leaving
pub mod Steps
use mitup_telegram_bot.Base.{
  Bool-cases, Option-cases, All-imp, ◌≢◌, ℕ, zero, suc, ◌-◌, ◌+◌, ◌<◌, ◌≤◌, ◌≡◌, refl, sym, ap, ◌∙◌,
  subst, Bool, true, false, ◌&&◌, Option, none, some, List, [], ◌∷◌, ◌++◌, ◌==◌, ==_iff, ==_refl,
  opt_eq, if◌then◌else◌, count, count-append, weight, All, All-append, arith, ◌↔◌, ◌⊎◌, inl, inr,
}
use mitup_telegram_bot.UpdateProcessor.{
  LockKey, key_eq, KeyedLock, Phase, waiting, running, Task, Processor, set_key, set_object,
  new_processor, joins, creates, looked_up, arrive, acquire, leave, finish, Step, arrives, acquires,
  is_cancelled, finishes, Reachable, at_start, after,
}

pub some-not-none : {a : ℕ} → some a ≢ none
some-not-none e = cc e

pub some-inj : {a b : ℕ} → some a ≡ some b → a ≡ b
some-inj e = cc e

opt_eq_iff : (a b : Option ℕ) → (opt_eq a b ≡ true) ↔ (a ≡ b)
opt_eq_iff none none = ground arith
opt_eq_iff none (some b) = ground arith
opt_eq_iff (some a) none = ground arith
opt_eq_iff (some a) (some b) = ground arith

pub key_eq_iff : (a b : LockKey) → (key_eq a b ≡ true) ↔ (a ≡ b)
key_eq_iff (a, b) (c, d) = grind (arith, opt_eq_iff a c, opt_eq_iff b d)

abbrev pub is_running : Phase → Bool
is_running waiting = false
is_running running = true

-- The tasks that use a lock, and those that run under it.
abbrev pub uses : ℕ → Task → Bool
uses ref task = task.lock == ref

abbrev pub runs : ℕ → Task → Bool
runs ref task = is_running task.phase && (task.lock == ref)

-- A lock counts its users, and is locked while exactly one of them runs.
abbrev pub Counted : Processor → ℕ → Type 0
Counted s ref =
    ((s.objects ref).waiters ≡ count (uses ref) s.tasks)
    × (weight (s.objects ref).locked ≡ count (runs ref) s.tasks)

-- Tasks refer to the lock that the table has for their key.
abbrev pub Held : Processor → Type 0
Held s = All (λ task. s.locks task.key ≡ some task.lock) s.tasks

abbrev pub Numbered : Processor → Type 0
Numbered s = (key : LockKey) (ref : ℕ) → s.locks key ≡ some ref → (ref < s.next) × Counted s ref

abbrev pub Distinct : Processor → Type 0
Distinct s =
    (key other : LockKey) (ref : ℕ)
    → s.locks key ≡ some ref
    → s.locks other ≡ some ref
    → key ≡ other

-- No entry is without a user.
abbrev pub Used : Processor → Type 0
Used s = (key : LockKey) (ref : ℕ) → s.locks key ≡ some ref → 1 ≤ count (uses ref) s.tasks

pub record IsValid (s : Processor) : Type 0 where
  pub held : Held s
  pub numbered : Numbered s
  pub distinct : Distinct s
  pub used : Used s

pub new_processor-IsValid : IsValid new_processor
unfolding new_processor
new_processor-IsValid = record {
  held = tt;
  numbered = λ key ref e. cc;
  distinct = λ key other ref e f. cc;
  used = λ key ref e. cc;
}
