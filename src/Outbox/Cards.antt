-- ===== src/Outbox/Cards.antt =====
-- The queued edit of a meeting's card: libs/telegram/mitup_bot/api_wrapper.py. What Telegram answers
-- to the card, sent with its custom emoji or without, is an argument.
use mitup_telegram_bot.Base.{
  ℕ, ◌≡◌, refl, Bool, true, false, ◌&&◌, Option, none, some, List, [], ◌∷◌, ◌++◌, opt_eq,
  if◌then◌else◌, ◌↔◌,
}
use mitup_telegram_bot.Outbox.{
  Answer, accepted, refused, forbidden, unreached, failed, nothing, dead_message, confirmed_digest,
  Ending, returned, bad_request, network_error, other_error, Attempt, QueuedApiCall, ApiOutbox,
}

-- The fields of an edit that its run reads; the digest is that of its rendered message.
pub record MeetingMessageEdit : Type 0 where
  pub message_db_id : Option ℕ
  pub inline_message_id : Option ℕ
  pub carries_custom_emoji : Bool
  pub digest : ℕ

abbrev pub rejects_custom_emoji : Answer → Bool
rejects_custom_emoji accepted = false
rejects_custom_emoji (refused not_modified not_found custom_emoji) = custom_emoji
rejects_custom_emoji forbidden = false
rejects_custom_emoji (unreached cause) = false
rejects_custom_emoji failed = false

-- The answer that decides: the flag is `without_custom_emoji`.
unfoldable pub retry_without_custom_emoji : (Bool → Answer) → Bool → Answer
retry_without_custom_emoji send carries =
    if carries && rejects_custom_emoji (send false) then send true else send false

-- Whether the card is unreachable, or what the edit raises.
pub data CardEdit : Type 0 where
  edited : (unreachable : Bool) → CardEdit
  raises : Ending → CardEdit

abbrev pub of_answer : Answer → CardEdit
of_answer accepted = edited false
of_answer (refused not_modified not_found custom_emoji) =
    if not_modified
    then edited false
    else if not_found
    then edited true
    else raises (bad_request false)
of_answer forbidden = edited true
of_answer (unreached cause) = raises (network_error cause)
of_answer failed = raises other_error

unfoldable pub edit_meeting_message_now : MeetingMessageEdit → (Bool → Answer) → CardEdit
edit_meeting_message_now edit send =
    of_answer (retry_without_custom_emoji send edit.carries_custom_emoji)

abbrev pub recorded : MeetingMessageEdit → Option ℕ → CardEdit → Ending
recorded edit id (raises ending) = ending
recorded edit none (edited unreachable) = returned nothing
recorded edit (some id) (edited true) = returned (dead_message id)
recorded edit (some id) (edited false) = returned (confirmed_digest id edit.digest)

unfoldable pub queued_meeting_message_edit : MeetingMessageEdit → (Bool → Answer) → Ending
queued_meeting_message_edit edit send =
    recorded edit edit.message_db_id (edit_meeting_message_now edit send)

-- The call that `_call_or_enqueue` queues for an edit: one that may be repeated.
pub card_call : ℕ → MeetingMessageEdit → (List Attempt → Bool → Answer) → QueuedApiCall
card_call token edit telegram = record {
  token = token;
  invoke = λ before. queued_meeting_message_edit edit (telegram before);
  idempotent = true;
  inline_message_id = edit.inline_message_id;
}

-- `update_single_meeting_message` under capture: a card whose stored digest is the edit's is passed
-- over.
pub queue_card :
    ℕ → MeetingMessageEdit → Option ℕ → (List Attempt → Bool → Answer) → ApiOutbox → ApiOutbox
queue_card token edit render_digest telegram o =
    if opt_eq render_digest (some edit.digest)
    then o
    else record o { calls = o.calls ++ (card_call token edit telegram ∷ []) }

-- Telegram shows the content.
abbrev pub is_shown : Answer → Bool
is_shown accepted = true
is_shown (refused not_modified not_found custom_emoji) = not_modified
is_shown forbidden = false
is_shown (unreached cause) = false
is_shown failed = false

recorded-shown :
    (edit : MeetingMessageEdit) (id : ℕ) (answer : Answer)
    → (recorded edit (some id) (of_answer answer) ≡ returned (confirmed_digest id edit.digest))
      ↔ (is_shown answer ≡ true)
recorded-shown edit id accepted = (λ e. refl, λ e. refl)
recorded-shown edit id (refused true not_found custom_emoji) = (λ e. refl, λ e. refl)
recorded-shown edit id (refused false true custom_emoji) = (λ e. cc e, λ e. cc e)
recorded-shown edit id (refused false false custom_emoji) = (λ e. cc e, λ e. cc e)
recorded-shown edit id forbidden = (λ e. cc e, λ e. cc e)
recorded-shown edit id (unreached cause) = (λ e. cc e, λ e. cc e)
recorded-shown edit id failed = (λ e. cc e, λ e. cc e)

-- The edit of a stored card confirms its digest exactly where Telegram shows the content by the
-- answer that decides: the one to the card as rendered or, where it carries custom emoji and
-- Telegram rejects them, the one to the card without them.
queued_meeting_message_edit-confirms :
    (edit : MeetingMessageEdit) (send : Bool → Answer) (id : ℕ)
    → edit.message_db_id ≡ some id
    → (queued_meeting_message_edit edit send ≡ returned (confirmed_digest id edit.digest)) ↔ (
        is_shown (
          if edit.carries_custom_emoji && rejects_custom_emoji (send false)
          then send true
          else send false)
        ≡ true)
unfolding queued_meeting_message_edit edit_meeting_message_now retry_without_custom_emoji
queued_meeting_message_edit-confirms edit send id stored =
    rw stored (recorded-shown edit id (retry_without_custom_emoji send edit.carries_custom_emoji))
