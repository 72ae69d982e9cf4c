-- ===== src/UpdateProcessor/Tests.antt =====
-- A run of the update processor, and instances of the theorems about it.
use mitup_telegram_bot.Base.{◌≡◌, ◌≤◌, ◌↔◌, refl, none, some, true, is_none, [], ◌∷◌, count}
use mitup_telegram_bot.UpdateProcessor.{
  LockKey, Task, waiting, Processor, new_processor, arrive, acquire, update_lock_key, other_object,
  update, Reachable, at_start, after, arrives, acquires,
}
use mitup_telegram_bot.UpdateProcessor.Progress.{
  runs_with, has_key, runs_alone, entry_iff_in_flight,
}
use mitup_telegram_bot.UpdateProcessor.Progress.Drain.{Work, remaining_steps, updates_drain}

abbrev one_user : LockKey
one_user = (some 5, some 9)

-- Two updates of one user arrive, and the first of them gets the lock.
abbrev two_arrived : Processor
two_arrived = arrive one_user (arrive one_user new_processor)

abbrev second : Task
second = record { key = one_user; lock = 0; phase = waiting }

abbrev one_runs : Processor
one_runs = acquire (second ∷ []) second [] two_arrived

one_runs-Reachable : Reachable one_runs
unfolding arrive new_processor
one_runs-Reachable =
    after two_arrived one_runs
      (after (arrive one_user new_processor) two_arrived
        (after new_processor (arrive one_user new_processor) at_start
          (arrives new_processor one_user))
        (arrives (arrive one_user new_processor) one_user))
      (acquires two_arrived (second ∷ []) second [] refl refl refl)

-- An update without a user and a chat is not serialized, a user alone is enough for a key.
keys_test :
    (update_lock_key other_object ≡ none)
    × (update_lock_key (update none none) ≡ none)
    × (update_lock_key (update (some 5) none) ≡ some (some 5, none))
unfolding update_lock_key
keys_test = (refl, refl, refl)

waits_test : (one_runs.objects 0).waiters ≡ 2
unfolding arrive acquire new_processor
waits_test = refl

runs_alone_example : count (runs_with one_user) one_runs.tasks ≤ 1
runs_alone_example = runs_alone one_runs one_user one_runs-Reachable

entry_iff_in_flight_example :
    (is_none (one_runs.locks one_user) ≡ true) ↔ (count (has_key one_user) one_runs.tasks ≡ 0)
entry_iff_in_flight_example = entry_iff_in_flight one_runs one_user one_runs-Reachable

updates_drain_example :
    (t : Processor) × Work (remaining_steps one_runs) one_runs t
    × (t.tasks ≡ [])
    × ((key : LockKey) → t.locks key ≡ none)
updates_drain_example = updates_drain one_runs one_runs-Reachable
