-- ===== src/Broadcast/Delivery.antt =====
-- The delivery phase: events/broadcast/delivery.py. What Telegram does with a message is the
-- argument `send`, by the delivery; a raised exception is `none`.
use mitup_telegram_bot.Base.{
  ℕ, zero, suc, ◌+◌, ◌*◌, ◌-◌, leb, not, true, false, Option, none, some, List, [], ◌∷◌, mem,
  if◌then◌else◌,
}
use mitup_telegram_bot.Broadcast.{
  PendingDelivery, DeliveryClassification, DeliveryOutcome, BatchResult, retry_pending, sent,
  skipped_inactive, delivery_failed, is_delivery, max_delivery_attempts, retry_backoff_base_seconds,
  retry_after_margin_seconds,
}

-- How `send_message_to_user` ends: it returns, or raises InactiveUserInteraction, RetryAfter,
-- BadRequest, another NetworkError, or anything else.
pub data SendResult : Type 0 where
  returned inactive_user_interaction bad_request network_error unexpected_error : SendResult
  retry_after : ℕ → SendResult

-- A message that Telegram was handed, and how the call ended.
pub record Sent : Type 0 where
  pub delivery_id : ℕ
  pub result : SendResult

abbrev pub two_to : ℕ → ℕ
two_to zero = 1
two_to (suc n) = 2 * two_to n

abbrev pub flood_control_backoff : ℕ → ℕ
flood_control_backoff window = window + retry_after_margin_seconds

-- A claimed delivery has at least one attempt, so that the exponent does not fall below 0.
unfoldable pub deliver_one : SendResult → ℕ → Option DeliveryClassification
deliver_one inactive_user_interaction attempt_count =
    some (record { status = skipped_inactive; retry_delay = none; flood_control = false })
deliver_one (retry_after seconds) attempt_count = some (record {
  status = retry_pending;
  retry_delay = some (flood_control_backoff seconds);
  flood_control = true;
})
deliver_one bad_request attempt_count =
    some (record { status = delivery_failed; retry_delay = none; flood_control = false })
deliver_one network_error attempt_count = none
deliver_one unexpected_error attempt_count = some (record {
  status = retry_pending;
  retry_delay = some (retry_backoff_base_seconds * two_to (attempt_count - 1));
  flood_control = false;
})
deliver_one returned attempt_count =
    some (record { status = sent; retry_delay = none; flood_control = false })

abbrev pub outcome : PendingDelivery → DeliveryClassification → DeliveryOutcome
outcome p c = record {
  delivery_id = p.delivery_id;
  user_id = p.user_id;
  status = c.status;
  next_attempt_time = none;
}

-- `none` is the AssertionError of a retry without a backoff.
unfoldable pub resolve_delivery_outcome :
    ℕ → PendingDelivery → DeliveryClassification → Option DeliveryOutcome
resolve_delivery_outcome now p c =
    if not (is_delivery c.status retry_pending)
    then some (outcome p c)
    else if leb max_delivery_attempts p.attempt_count
    then some (record (outcome p c) { status = delivery_failed })
    else elim c.retry_delay [
      | none ↦ none
      | some delay ↦ some (record (outcome p c) { next_attempt_time = some (now + delay) })
    ]

abbrev pub prepend :
    DeliveryOutcome → List Sent × Option BatchResult → List Sent × Option BatchResult
prepend o (log, none) = (log, none)
prepend o (log, some result) = (log, some (record result { outcomes = o ∷ result.outcomes }))

abbrev pub logged : Sent → List Sent × Option BatchResult → List Sent × Option BatchResult
logged s (log, result) = (s ∷ log, result)

-- What follows one send: a halt on flood control, or the rest of the batch.
abbrev pub after_send :
    DeliveryClassification
    → Option DeliveryOutcome
    → List PendingDelivery
    → List Sent × Option BatchResult
    → List Sent × Option BatchResult
after_send c none batch rest = ([], none)
after_send c (some o) batch rest =
    if c.flood_control
    then (
      [],
      some (record {
        outcomes = o ∷ [];
        flood_control = true;
        unattempted = batch;
        flood_backoff = c.retry_delay;
      }),
    )
    else prepend o rest

abbrev pub classified :
    ℕ
    → PendingDelivery
    → Option DeliveryClassification
    → List PendingDelivery
    → List Sent × Option BatchResult
    → List Sent × Option BatchResult
classified now p none batch rest = ([], none)
classified now p (some c) batch rest = after_send c (resolve_delivery_outcome now p c) batch rest

-- The messages sent, and the result of the batch or the exception that ended it. `languages` are
-- those that have a view: `views[…]` of another raises KeyError before anything is sent.
unfoldable pub deliver_batch :
    ℕ
    → (PendingDelivery → SendResult)
    → List ℕ
    → List PendingDelivery
    → List Sent × Option BatchResult
deliver_batch now send languages [] = (
  [],
  some (record { outcomes = []; flood_control = false; unattempted = []; flood_backoff = none }),
)
deliver_batch now send languages (p ∷ batch) =
    let rest = deliver_batch now send languages batch in
    if not (mem p.language_sent languages)
    then ([], none)
    else logged (record { delivery_id = p.delivery_id; result = send p })
        (classified now p (deliver_one (send p) p.attempt_count) batch rest)
