-- ===== src/UpdateProcessor.antt =====
-- The processing of updates one at a time per user and chat:
-- apps/bot/mitup_bot/update_processor.py. A lock is an object with an identity, which the table and
-- every task that waits for it refer to; the table is a dictionary read as a function. The
-- handler's own work is the time between acquiring and finishing, and logs and traces are left out.
pub mod Locks
pub mod Progress
mod Tests
use mitup_telegram_bot.Base.{
  ℕ, suc, ◌-◌, ◌+◌, ◌≡◌, Bool, true, false, ◌&&◌, Option, none, some, List, [], ◌∷◌, ◌++◌, ◌==◌,
  opt_eq, if◌then◌else◌, is_none,
}

-- What the queue delivers: a Telegram update with its effective user and chat, or anything else.
pub data Received : Type 0 where
  other_object : Received
  update : (effective_user effective_chat : Option ℕ) → Received

abbrev pub LockKey : Type 0
LockKey = Option ℕ × Option ℕ

abbrev pub key_eq : LockKey → LockKey → Bool
key_eq a b = opt_eq a.0 b.0 && opt_eq a.1 b.1

pub update_lock_key : Received → Option LockKey
update_lock_key other_object = none
update_lock_key (update user chat) =
    if is_none user && is_none chat then none else some (user, chat)

-- `_KeyedLock`.
pub record KeyedLock : Type 0 where
  pub locked : Bool
  pub waiters : ℕ

-- Where a task stands in `do_process_update`.
pub data Phase : Type 0 where
  waiting : Phase
  running : Phase

-- An update in flight: its key, and the lock that it looked up.
pub record Task : Type 0 where
  pub key : LockKey
  pub lock : ℕ
  pub phase : Phase

pub record Processor : Type 0 where
  pub locks : LockKey → Option ℕ
  pub objects : ℕ → KeyedLock
  pub next : ℕ
  pub tasks : List Task

abbrev pub set_key : LockKey → Option ℕ → (LockKey → Option ℕ) → LockKey → Option ℕ
set_key key value table k = if key_eq key k then value else table k

abbrev pub set_object : ℕ → KeyedLock → (ℕ → KeyedLock) → ℕ → KeyedLock
set_object ref o objects r = if ref == r then o else objects r

pub new_processor : Processor
new_processor = record {
  locks = λ key. none;
  objects = λ ref. record { locked = false; waiters = 0 };
  next = 0;
  tasks = [];
}

abbrev pub joins : LockKey → ℕ → Processor → Processor
joins key ref s = record s {
  objects =
      set_object ref (record (s.objects ref) { waiters = suc (s.objects ref).waiters }) s.objects;
  tasks = record { key = key; lock = ref; phase = waiting } ∷ s.tasks;
}

-- A fresh lock in the table.
abbrev pub creates : LockKey → Processor → Processor
creates key s = record s {
  locks = set_key key (some s.next) s.locks;
  objects = set_object s.next (record { locked = false; waiters = 0 }) s.objects;
  next = suc s.next;
}

abbrev pub looked_up : LockKey → Processor → Option ℕ → Processor
looked_up key s none = joins key s.next (creates key s)
looked_up key s (some ref) = joins key ref s

-- Up to the acquisition, which no other task can interrupt: the lock of the key is looked up, or
-- made and entered, and its users are one more.
pub arrive : LockKey → Processor → Processor
arrive key s = looked_up key s (s.locks key)

-- `async with keyed_lock.lock`, where the lock is free.
pub acquire : List Task → Task → List Task → Processor → Processor
acquire front task back s = record s {
  objects = set_object task.lock (record (s.objects task.lock) { locked = true }) s.objects;
  tasks = front ++ record task { phase = running } ∷ back;
}

-- The `finally` clause: the users are one less, and the last one drops the entry.
pub leave : List Task → Task → List Task → Processor → Processor
leave front task back s =
    let left = (s.objects task.lock).waiters - 1 in
    record s {
      locks = if left == 0 then set_key task.key none s.locks else s.locks;
      objects = set_object task.lock (record (s.objects task.lock) { waiters = left }) s.objects;
      tasks = front ++ back;
    }

-- The end of `async with`, with or without an exception, and the clause after it.
pub finish : List Task → Task → List Task → Processor → Processor
finish front task back s =
    let released = record s {
      objects = set_object task.lock (record (s.objects task.lock) { locked = false }) s.objects;
    } in
    leave front task back released

-- What can happen next: an update with a key arrives, a waiting task gets the free lock or is
-- cancelled, and a running one ends.
pub data Step : Processor → Processor → Type 0 where
  arrives : (s : Processor) (key : LockKey) → Step s (arrive key s)
  acquires :
      (s : Processor) (front : List Task) (task : Task) (back : List Task)
      → s.tasks ≡ front ++ task ∷ back
      → task.phase ≡ waiting
      → (s.objects task.lock).locked ≡ false
      → Step s (acquire front task back s)
  is_cancelled :
      (s : Processor) (front : List Task) (task : Task) (back : List Task)
      → s.tasks ≡ front ++ task ∷ back
      → task.phase ≡ waiting
      → Step s (leave front task back s)
  finishes :
      (s : Processor) (front : List Task) (task : Task) (back : List Task)
      → s.tasks ≡ front ++ task ∷ back
      → task.phase ≡ running
      → Step s (finish front task back s)

pub data Reachable : Processor → Type 0 where
  at_start : Reachable new_processor
  after : (s t : Processor) → Reachable s → Step s t → Reachable t
