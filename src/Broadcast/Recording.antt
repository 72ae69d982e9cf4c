-- ===== src/Broadcast/Recording.antt =====
-- The recording phase: events/broadcast/recording.py. One transaction; `none` is its rollback.
use mitup_telegram_bot.Base.{
  ℕ, ◌+◌, ◌-◌, ◌==◌, false, Option, none, some, List, [], ◌∷◌, map, filter, count, mem,
  if◌then◌else◌,
}
use mitup_telegram_bot.Users.{User, mark_inactive}
use mitup_telegram_bot.Broadcast.{
  BroadcastDelivery, BroadcastDeliveryStatus, PendingDelivery, DeliveryOutcome, BatchResult,
  retry_pending, sent, skipped_inactive, delivery_failed, is_delivery,
}

abbrev pub Rows : Type 0
Rows = List BroadcastDelivery

abbrev pub with_status : BroadcastDeliveryStatus → List DeliveryOutcome → List DeliveryOutcome
with_status status = filter (λ o. is_delivery o.status status)

abbrev pub outcome_ids : List DeliveryOutcome → List ℕ
outcome_ids = map (λ o. o.delivery_id)

abbrev pub some_or : Option ℕ → Option ℕ → Option ℕ
some_or none old = old
some_or (some new) old = some new

-- `sent_time` is written only where it is given.
unfoldable pub mark_deliveries :
    List DeliveryOutcome → BroadcastDeliveryStatus → Option ℕ → Rows → Rows
mark_deliveries outcomes status sent_time = map (λ row.
    if mem row.id (outcome_ids outcomes)
    then record row { status = status; sent_time = some_or sent_time row.sent_time }
    else row)

unfoldable pub schedule_retries : List DeliveryOutcome → Rows → Rows
schedule_retries [] rows = rows
schedule_retries (o ∷ outcomes) rows = schedule_retries outcomes (
    map
      (λ row.
        if row.id == o.delivery_id
        then record row { status = retry_pending; next_attempt_time = o.next_attempt_time }
        else row)
      rows)

-- A claimed delivery has at least one attempt, so that the subtraction does not stop at 0.
unfoldable pub release_unattempted : ℕ → List PendingDelivery → ℕ → Rows → Rows
release_unattempted now unattempted flood_backoff = map (λ row.
    if mem row.id (map (λ p. p.delivery_id) unattempted)
    then record row {
      status = retry_pending;
      next_attempt_time = some (now + flood_backoff);
      attempt_count = row.attempt_count - 1;
    }
    else row)

-- The users after, and how many became LEFT.
unfoldable pub deactivate_skipped_users : ℕ → List DeliveryOutcome → List User → List User × ℕ
deactivate_skipped_users now skipped users =
    let user_ids = map (λ (o : DeliveryOutcome). o.user_id) skipped in
    (
      map (λ user. if mem user.id user_ids then (mark_inactive now user).0 else user) users,
      count (λ user. if mem user.id user_ids then (mark_inactive now user).1 else false) users,
    )

-- An empty group of outcomes writes nothing, which is what its statement would do.
abbrev pub record_outcomes : ℕ → List DeliveryOutcome → Rows → Rows
record_outcomes now outcomes rows =
    mark_deliveries (with_status skipped_inactive outcomes) skipped_inactive none (
      schedule_retries (with_status retry_pending outcomes) (
        mark_deliveries (with_status delivery_failed outcomes) delivery_failed none
          (mark_deliveries (with_status sent outcomes) sent (some now) rows)))

abbrev pub released : ℕ → List PendingDelivery → Option ℕ → Rows → Option Rows
released now [] flood_backoff rows = some rows
released now (p ∷ ps) none rows = none
released now (p ∷ ps) (some backoff) rows = some (release_unattempted now (p ∷ ps) backoff rows)

abbrev pub with_users : Option Rows → List User × ℕ → Option (Rows × List User × ℕ)
with_users none left = none
with_users (some rows) (users, deactivated) = some (rows, users, deactivated)

unfoldable pub record_batch_outcomes :
    ℕ → BatchResult → Rows → List User → Option (Rows × List User × ℕ)
record_batch_outcomes now result rows users =
    with_users
      (released now result.unattempted result.flood_backoff
        (record_outcomes now result.outcomes rows))
      (deactivate_skipped_users now (with_status skipped_inactive result.outcomes) users)
