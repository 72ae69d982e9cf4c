-- ===== src/Messages.antt =====
-- The messages that show a meeting: libs/data/mitup_bot/models/messages.py, and the part of a
-- Telegram update that finds them. Identifiers of Telegram are only compared, so numbers stand for
-- them, the textual ones included. The stored keyboard is the view layer's and is left out.
use mitup_telegram_bot.Base.{
  ℕ, Bool, false, ◌&&◌, Option, none, some, List, is_none, opt_eq, find, bind, if◌then◌else◌,
}

-- `update.callback_query`.
pub record CallbackQuery : Type 0 where
  pub inline_message_id : Option ℕ
  pub chat_instance : Option ℕ

-- `update.effective_message`.
pub record TgMessage : Type 0 where
  pub message_id : ℕ
  pub chat_id : ℕ

-- `update.effective_chat`.
pub record TgChat : Type 0 where
  pub id : ℕ
  pub is_private : Bool

pub record Update : Type 0 where
  pub effective_message : Option TgMessage
  pub effective_chat : Option TgChat
  pub callback_query : Option CallbackQuery

pub record Message : Type 0 where
  pub message_id : Option ℕ
  pub chat_id : Option ℕ
  pub inline_message_id : Option ℕ
  pub chat_instance : Option ℕ
  pub meetup_id : ℕ
  pub render_digest : Option ℕ

-- The inline message that a callback query acts on, when the update has one.
abbrev pub query_inline_id : Update → Option ℕ
query_inline_id update = bind update.callback_query (λ q. q.inline_message_id)

-- `query.chat_instance if query else None`.
abbrev pub query_chat_instance : Update → Option ℕ
query_chat_instance update = bind update.callback_query (λ q. q.chat_instance)

-- `Message.capture_chat_instance`: stored once, and for inline messages only.
abbrev pub capture_chat_instance : Message → Update → Message
capture_chat_instance message update =
    if is_none message.chat_instance
    then elim (query_inline_id update) [
      | none ↦ message
      | some _ ↦ record message { chat_instance = query_chat_instance update }
    ]
    else message

-- `Message.from_update`; `none` is NoMessageAvailable.
abbrev pub from_update : Update → ℕ → Option Message
from_update update meeting =
    let built : Message = record {
      message_id = bind update.effective_message (λ m. some m.message_id);
      chat_id = bind update.effective_chat (λ c. some c.id);
      inline_message_id = query_inline_id update;
      chat_instance = bind (query_inline_id update) (λ _. query_chat_instance update);
      meetup_id = meeting;
      render_digest = none;
    } in
    if is_none built.message_id && is_none built.inline_message_id then none else some built

abbrev pub shows : TgMessage → Message → Bool
shows eff message =
    opt_eq message.message_id (some eff.message_id) && opt_eq message.chat_id (some eff.chat_id)

-- How the tapped message is looked for: by message and chat, else by inline message, else not.
abbrev pub tapped_by : Option TgMessage → Option ℕ → Option (Message → Bool)
tapped_by (some eff) inline = some (shows eff)
tapped_by none (some inline) = some (λ message. opt_eq message.inline_message_id (some inline))
tapped_by none none = none

abbrev pub tapped : Update → Option (Message → Bool)
tapped update = tapped_by update.effective_message (query_inline_id update)

-- `Meetup.message_from_update`, on the meeting's messages.
unfoldable pub message_from_update : List Message → Update → Option Message
message_from_update messages update = bind (tapped update) (λ test. find test messages)

-- `Message.meetup_id_for_inline_message`, over every stored message in the order of the table.
unfoldable pub meetup_id_for_inline_message : List Message → ℕ → Option ℕ
meetup_id_for_inline_message table inline =
    bind (find (λ message. opt_eq message.inline_message_id (some inline)) table)
      (λ message. some message.meetup_id)

-- guards.in_bot_chat.
abbrev pub in_bot_chat : Update → Bool
in_bot_chat update = elim update.effective_chat [ none ↦ false | some chat ↦ chat.is_private ]
