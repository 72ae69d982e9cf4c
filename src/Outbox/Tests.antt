-- ===== src/Outbox/Tests.antt =====
-- Runs of the drain, and instances of the theorems about it.
use mitup_telegram_bot.Base.{ℕ, ◌≤◌, ◌≡◌, refl, false, none, List, [], ◌∷◌, map, length}
use mitup_telegram_bot.Outbox.{
  returned, network_error, nothing, read_timeout, connect_error, Ending, Attempt, QueuedApiCall,
  ApiOutbox, drain_outbox, drain_calls, drain_queued_call, invoke_queued_with_retry,
  queued_call_is_retryable, classified, record_outcome, network_failure_outcome,
}
use mitup_telegram_bot.Outbox.{Answer, accepted, refused, confirmed_digest}
use mitup_telegram_bot.Outbox.Cards.{
  MeetingMessageEdit, queued_meeting_message_edit, edit_meeting_message_now,
  retry_without_custom_emoji,
}
use mitup_telegram_bot.Base.{Bool, true, some, if◌then◌else◌}
use mitup_telegram_bot.Outbox.Sends.{drain_outbox-posts_once}
use mitup_telegram_bot.Outbox.Healthy.{drain_outbox-in_order}

-- A message to send, whose first attempt cannot connect and whose second one is cut off.
abbrev unlucky : List Attempt → Ending
unlucky [] = network_error connect_error
unlucky (a ∷ before) = network_error read_timeout

abbrev send_of : ℕ → (List Attempt → Ending) → QueuedApiCall
send_of token invoke = record {
  token = token;
  invoke = invoke;
  idempotent = false;
  inline_message_id = none;
}

abbrev outbox_of : List QueuedApiCall → ApiOutbox
outbox_of calls = record {
  calls = calls;
  dead_message_ids = [];
  inactive_tg_user_ids = [];
  confirmed_render_digests = [];
  meeting_refreshes = [];
}

-- The connection is tried again, the message that may have arrived is not.
unlucky_attempts : length (drain_outbox (outbox_of (send_of 1 unlucky ∷ [])) []).attempts ≡ 2
unfolding drain_outbox drain_calls drain_queued_call invoke_queued_with_retry
    queued_call_is_retryable classified record_outcome network_failure_outcome
unlucky_attempts = refl

-- Four dead calls: the third one ends the drain, and the fourth is abandoned.
abbrev down : List QueuedApiCall
down =
    send_of 1 (λ before. network_error connect_error)
    ∷ send_of 2 (λ before. network_error connect_error)
    ∷ send_of 3 (λ before. network_error connect_error)
    ∷ send_of 4 (λ before. network_error connect_error)
    ∷ []

down_abandoned : (drain_outbox (outbox_of down) []).report.abandoned ≡ 4 ∷ []
unfolding drain_outbox drain_calls drain_queued_call invoke_queued_with_retry
    queued_call_is_retryable classified record_outcome network_failure_outcome
down_abandoned = refl

drain_outbox-posts_once_example : 1 ≤ 1
unfolding drain_outbox drain_calls drain_queued_call invoke_queued_with_retry
    queued_call_is_retryable classified record_outcome network_failure_outcome
drain_outbox-posts_once_example = drain_outbox-posts_once 1 (outbox_of (send_of 1 unlucky ∷ [])) []

abbrev answered : ApiOutbox
answered =
    outbox_of (send_of 7 (λ before. returned nothing) ∷ send_of 5 (λ before. returned nothing) ∷ [])

abbrev in_order : List ℕ
in_order = 7 ∷ 5 ∷ []

drain_outbox-in_order_example : map (λ a. a.token) (drain_outbox answered []).attempts ≡ in_order
drain_outbox-in_order_example =
    drain_outbox-in_order answered [] ((λ before. refl), ((λ before. refl), tt))

-- A card that Telegram refuses for its custom emoji and takes without them: its digest is confirmed.
abbrev no_premium : Bool → Answer
no_premium without_custom_emoji =
    if without_custom_emoji then accepted else refused false false true

abbrev card_3 : MeetingMessageEdit
card_3 = record {
  message_db_id = some 3;
  inline_message_id = none;
  carries_custom_emoji = true;
  digest = 40;
}

stripped_card : queued_meeting_message_edit card_3 no_premium ≡ returned (confirmed_digest 3 40)
unfolding queued_meeting_message_edit edit_meeting_message_now retry_without_custom_emoji
stripped_card = refl
