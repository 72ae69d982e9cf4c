-- ===== src/Broadcast.antt =====
-- The mass-broadcast sender: apps/events/mitup_bot/events/broadcast over the tables of
-- libs/data/mitup_bot/models/broadcasts.py. A table is the list of its rows, moments are seconds,
-- and the clock is an argument of whatever reads it. Languages and names are numbers.
pub mod Claiming
pub mod Audience
pub mod Delivery
pub mod Recording
pub mod Finalize
pub mod Once
mod Tests
use mitup_telegram_bot.Base.{ℕ, ◌==◌, Bool, true, false, Option, List, ◌||◌}

pub data BroadcastStatus : Type 0 where
  draft queued sending done failed cancelled : BroadcastStatus

pub data BroadcastDeliveryStatus : Type 0 where
  pending in_progress retry_pending sent skipped_inactive delivery_failed : BroadcastDeliveryStatus

pub record BroadcastMessage : Type 0 where
  pub language : ℕ
  pub sent_count : ℕ
  pub failed_count : ℕ
  pub skipped_count : ℕ
  pub orphan_count : ℕ

pub record Broadcast : Type 0 where
  pub id : ℕ
  pub status : BroadcastStatus
  pub author_tg_id : ℕ
  pub attempts : ℕ
  pub total_recipients : Option ℕ
  pub sent_count : ℕ
  pub failed_count : ℕ
  pub skipped_count : ℕ
  pub orphan_count : ℕ
  pub sending_started_time : Option ℕ
  pub completed_time : Option ℕ
  pub messages : List BroadcastMessage

pub record BroadcastDelivery : Type 0 where
  pub id : ℕ
  pub broadcast_id : ℕ
  pub user_id : ℕ
  pub language_sent : ℕ
  pub status : BroadcastDeliveryStatus
  pub attempt_count : ℕ
  pub next_attempt_time : Option ℕ
  pub sent_time : Option ℕ

abbrev broadcast_index : BroadcastStatus → ℕ
broadcast_index draft = 0
broadcast_index queued = 1
broadcast_index sending = 2
broadcast_index done = 3
broadcast_index failed = 4
broadcast_index cancelled = 5

abbrev pub is_broadcast : BroadcastStatus → BroadcastStatus → Bool
is_broadcast a b = broadcast_index a == broadcast_index b

abbrev delivery_index : BroadcastDeliveryStatus → ℕ
delivery_index pending = 0
delivery_index in_progress = 1
delivery_index retry_pending = 2
delivery_index sent = 3
delivery_index skipped_inactive = 4
delivery_index delivery_failed = 5

-- `is` on the members of the enumeration, and `==` on the column.
abbrev pub is_delivery : BroadcastDeliveryStatus → BroadcastDeliveryStatus → Bool
is_delivery a b = delivery_index a == delivery_index b

-- The statuses of a delivery that is not finished: PENDING and RETRY_PENDING.
abbrev pub unfinished : BroadcastDeliveryStatus → Bool
unfinished status = is_delivery status pending || is_delivery status retry_pending

-- types.py.
abbrev pub max_broadcast_attempts : ℕ
max_broadcast_attempts = 5

abbrev pub broadcast_batch_size : ℕ
broadcast_batch_size = 50

abbrev pub max_delivery_attempts : ℕ
max_delivery_attempts = 3

abbrev pub retry_backoff_base_seconds : ℕ
retry_backoff_base_seconds = 60

abbrev pub retry_after_margin_seconds : ℕ
retry_after_margin_seconds = 5

pub record ClaimedBroadcast : Type 0 where
  pub broadcast_id : ℕ
  pub author_tg_id : ℕ
  pub attempts : ℕ
  pub terminal_failure : Bool

-- The recipient's row is named by its id.
pub record PendingDelivery : Type 0 where
  pub delivery_id : ℕ
  pub user_id : ℕ
  pub language_sent : ℕ
  pub attempt_count : ℕ

-- Less the error's text, which is logged.
pub record DeliveryClassification : Type 0 where
  pub status : BroadcastDeliveryStatus
  pub retry_delay : Option ℕ
  pub flood_control : Bool

pub record DeliveryOutcome : Type 0 where
  pub delivery_id : ℕ
  pub user_id : ℕ
  pub status : BroadcastDeliveryStatus
  pub next_attempt_time : Option ℕ

pub record BatchResult : Type 0 where
  pub outcomes : List DeliveryOutcome
  pub flood_control : Bool
  pub unattempted : List PendingDelivery
  pub flood_backoff : Option ℕ
