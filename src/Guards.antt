-- ===== src/Guards.antt =====
-- Who may act on a meeting: libs/telegram/mitup_bot/guards.py. The rejections stand without the
-- screen that the error handler later shows for them, and the metrics that a grant emits are left
-- out. A user is the id of their row; `none` is a caller without an account.
pub mod Access
pub mod Shared
mod Tests
use mitup_telegram_bot.Base.{
  ℕ, Bool, true, false, not, ◌&&◌, ◌||◌, Option, none, some, List, is_none, opt_eq, ◌==◌, any,
  if◌then◌else◌,
}
use mitup_telegram_bot.Messages.{
  Update, Message, message_from_update, meetup_id_for_inline_message, query_inline_id,
  query_chat_instance,
}
use mitup_telegram_bot.Meeting.{Meetup, has_participant, has_invited_participant}

-- `Meetup.is_owned_by`.
abbrev pub is_owned_by : Meetup → ℕ → Bool
is_owned_by m user = m.owner_id == user

abbrev of_user : (ℕ → Bool) → Option ℕ → Bool
of_user test none = false
of_user test (some user) = test user

pub data MeetingAccess : Type 0 where
  owner owner_any_state owner_or_joined owner_or_public : MeetingAccess

pub data Rejection : Type 0 where
  meeting_not_owned meeting_gone meeting_inactive_owner : Rejection
  shared_meeting_gone shared_meeting_denied shared_meeting_finished : Rejection

pub data Guarded : Type 0 where
  granted : Meetup → Guarded
  rejected : Rejection → Guarded

abbrev active_access : MeetingAccess → Meetup → Option ℕ → Guarded
active_access access m user = if of_user (is_owned_by m) user then granted m else elim access [
  | owner_or_joined ↦
      if of_user (has_participant m) user then granted m else rejected meeting_not_owned
  | owner_or_public ↦ if m.public then granted m else rejected meeting_not_owned
  | _ ↦ rejected meeting_not_owned
]

abbrev found_access : MeetingAccess → Meetup → Option ℕ → Guarded
found_access access m user =
    if m.active
    then active_access access m user
    else if of_user (is_owned_by m) user
    then rejected meeting_inactive_owner
    else rejected meeting_not_owned

-- guards.meeting, on what the lookup found.
pub meeting : MeetingAccess → Option Meetup → Option ℕ → Guarded
meeting owner_any_state none user = rejected meeting_not_owned
meeting owner_any_state (some m) user =
    if of_user (is_owned_by m) user then granted m else rejected meeting_not_owned
meeting access none user = rejected meeting_gone
meeting access (some m) user = found_access access m user

-- The arms of the rule that stand on the message that was tapped: a message of this meeting, a
-- chat that already has one, an inline card that the stored messages give to this meeting.
pub message_bound : List Message → Meetup → Update → Bool
message_bound table m update =
    not (is_none (message_from_update m.messages update))
    || (not (is_none (query_chat_instance update))
        && any (λ message. opt_eq message.chat_instance (query_chat_instance update)) m.messages)
    || elim (query_inline_id update) [
      | none ↦ false
      | some inline ↦ opt_eq (meetup_id_for_inline_message table inline) (some m.id)
    ]

pub meeting_interaction_allowed : List Message → Option ℕ → Meetup → Update → Bool
meeting_interaction_allowed table user m update =
    if m.public
    then true
    else if of_user (λ u. is_owned_by m u || has_participant m u || has_invited_participant m u)
        user
    then true
    else message_bound table m update

pub shared_meeting : List Message → Option Meetup → Option ℕ → Update → Bool → Guarded
shared_meeting table none user update require_active = rejected shared_meeting_gone
shared_meeting table (some m) user update require_active =
    if not (meeting_interaction_allowed table user m update)
    then rejected shared_meeting_denied
    else if require_active && not m.active
    then rejected shared_meeting_finished
    else granted m
