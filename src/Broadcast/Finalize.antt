-- ===== src/Broadcast/Finalize.antt =====
-- The finalize phase and the run: events/broadcast/finalize.py and runner.py. Metrics, logs and
-- the text of the operators' message are left out; whether they are messaged is a result.
pub mod Totals
pub mod Twice
use mitup_telegram_bot.Base.{
  ℕ, suc, ◌+◌, ◌==◌, ltb, not, ◌&&◌, Bool, true, false, Option, none, some, List, [], ◌∷◌, map,
  filter, find, count, if◌then◌else◌,
}
use mitup_telegram_bot.Users.{User}
use mitup_telegram_bot.Broadcast.{
  Broadcast, BroadcastMessage, BroadcastStatus, BroadcastDelivery, BroadcastDeliveryStatus,
  PendingDelivery, ClaimedBroadcast, BatchResult, sending, done, failed, in_progress, sent,
  skipped_inactive, delivery_failed, is_broadcast, is_delivery,
}
use mitup_telegram_bot.Broadcast.Claiming.{
  unfinished_of, claim_pending_batch, count_unfinished_deliveries, reset_broadcast_attempts,
}
use mitup_telegram_bot.Broadcast.Delivery.{SendResult, Sent, deliver_batch}
use mitup_telegram_bot.Broadcast.Recording.{Rows, record_batch_outcomes}

pub record LanguageBreakdown : Type 0 where
  pub language : ℕ
  pub sent : ℕ
  pub failed : ℕ
  pub skipped : ℕ
  pub orphaned : ℕ

pub record BroadcastSummary : Type 0 where
  pub broadcast_id : ℕ
  pub status : BroadcastStatus
  pub attempts : ℕ
  pub total : ℕ
  pub sent : ℕ
  pub failed : ℕ
  pub skipped : ℕ
  pub orphaned : ℕ
  pub breakdown : List LanguageBreakdown

unfoldable pub fail_unattempted_deliveries : ℕ → Rows → Rows × ℕ
fail_unattempted_deliveries broadcast_id rows = (
  map
      (λ row.
        if unfinished_of broadcast_id row then record row { status = delivery_failed } else row)
      rows,
  count (unfinished_of broadcast_id) rows,
)

-- `counts.get((language, status), 0)` of `aggregate_delivery_counts`.
pub aggregate_delivery_counts : ℕ → Rows → ℕ → BroadcastDeliveryStatus → ℕ
aggregate_delivery_counts broadcast_id rows language status =
    count
      (λ row.
        row.broadcast_id == broadcast_id
        && (row.language_sent == language && is_delivery row.status status))
      rows

abbrev pub counted_message : (ℕ → BroadcastDeliveryStatus → ℕ) → BroadcastMessage → BroadcastMessage
counted_message counts message = record message {
  sent_count = counts message.language sent;
  failed_count = counts message.language delivery_failed;
  skipped_count = counts message.language skipped_inactive;
  orphan_count = counts message.language in_progress;
}

abbrev pub breakdown_line : BroadcastMessage → LanguageBreakdown
breakdown_line message = record {
  language = message.language;
  sent = message.sent_count;
  failed = message.failed_count;
  skipped = message.skipped_count;
  orphaned = message.orphan_count;
}

-- The broadcast with its messages' counts, and the breakdown.
pub build_language_breakdown :
    Broadcast → (ℕ → BroadcastDeliveryStatus → ℕ) → Broadcast × List LanguageBreakdown
build_language_breakdown b counts =
    let messages = map (counted_message counts) b.messages in
    (record b { messages = messages }, map breakdown_line messages)

-- `sum(field(line) for line in lines)`.
abbrev pub sum {ℓ} : {A : Type ℓ} → (A → ℕ) → List A → ℕ
sum field [] = 0
sum field (x ∷ xs) = field x + sum field xs

abbrev pub closes : ℕ → Broadcast → Bool
closes broadcast_id b = b.id == broadcast_id && is_broadcast b.status sending

-- Whether exactly one row was changed.
pub transition_to_terminal : ℕ → ℕ → BroadcastStatus → List Broadcast → List Broadcast × Bool
transition_to_terminal now broadcast_id final_status broadcasts = (
  map
      (λ b.
        if closes broadcast_id b
        then record b { status = final_status; completed_time = some now }
        else b)
      broadcasts,
  count (closes broadcast_id) broadcasts == 1,
)

abbrev pub total_or_zero : Option ℕ → ℕ
total_or_zero none = 0
total_or_zero (some total) = total

abbrev pub with_totals : Broadcast → List LanguageBreakdown → Broadcast
with_totals b breakdown = record b {
  sent_count = sum (λ line. line.sent) breakdown;
  failed_count = sum (λ line. line.failed) breakdown;
  skipped_count = sum (λ line. line.skipped) breakdown;
  orphan_count = sum (λ line. line.orphaned) breakdown;
}

abbrev pub rolled_up : ℕ → Rows → Broadcast → Broadcast
rolled_up broadcast_id rows b =
    let counted = build_language_breakdown b (aggregate_delivery_counts broadcast_id rows) in
    with_totals counted.0 counted.1

abbrev pub summary_of : BroadcastStatus → Broadcast → BroadcastSummary
summary_of final_status b = record {
  broadcast_id = b.id;
  status = final_status;
  attempts = b.attempts;
  total = total_or_zero b.total_recipients;
  sent = b.sent_count;
  failed = b.failed_count;
  skipped = b.skipped_count;
  orphaned = b.orphan_count;
  breakdown = map breakdown_line b.messages;
}

-- The summary, whether this call closed the broadcast, and how many deliveries it failed; `none`
-- is the AssertionError of a broadcast that is not there.
pub finalize_broadcast :
    ℕ
    → ℕ
    → BroadcastStatus
    → List Broadcast
    → Rows
    → Option (List Broadcast × Rows × BroadcastSummary × Bool × ℕ)
finalize_broadcast now broadcast_id final_status broadcasts rows =
    let flipped = fail_unattempted_deliveries broadcast_id rows in
    elim (find (λ b. b.id == broadcast_id) broadcasts) [
      | none ↦ none
      | some b ↦
          let b' = rolled_up broadcast_id flipped.0 b in
          let closed =
            transition_to_terminal now broadcast_id final_status
              (map (λ row. if row.id == broadcast_id then b' else row) broadcasts) in
          some (closed.0, flipped.0, summary_of final_status b', closed.1, flipped.1)
    ]

unfoldable pub purge_deliveries : ℕ → Rows → Rows
purge_deliveries broadcast_id = filter (λ row. not (row.broadcast_id == broadcast_id))

-- The tables after, and the summary that the operators are sent, if they are.
pub finalize_and_report :
    ℕ
    → ℕ
    → BroadcastStatus
    → List Broadcast
    → Rows
    → Option (List Broadcast × Rows × Option BroadcastSummary)
finalize_and_report now broadcast_id final_status broadcasts rows =
    elim (finalize_broadcast now broadcast_id final_status broadcasts rows) [
      | none ↦ none
      | some (broadcasts', rows', summary, won, bulk_failed) ↦
          some
            (broadcasts', purge_deliveries broadcast_id rows', (if won then some summary else none))
    ]

-- Whether finalization is held back; then the attempts are reset.
abbrev pub defer_for_pending_retries : ℕ → List Broadcast → Rows → List Broadcast × Bool
defer_for_pending_retries broadcast_id broadcasts rows =
    if count_unfinished_deliveries broadcast_id rows == 0
    then (broadcasts, false)
    else (reset_broadcast_attempts broadcast_id broadcasts, true)
