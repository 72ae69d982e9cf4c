-- ===== src/JoinLeave.antt =====
-- Joining and leaving a meeting: apps/bot/mitup_bot/handlers/meeting/join_leave.py. A handler works
-- on the meeting that the row lock holds; what it sends to Telegram afterwards is left out, and
-- the answer that it shows is its result. The rows and stamps that the database makes are arguments.
pub mod Invariant
pub mod History
pub mod Handler
mod Tests
use mitup_telegram_bot.Base.{
  ℕ, Bool, true, false, not, ◌&&◌, Option, none, some, List, [], ◌∷◌, ◌++◌, is_none, find, ltb,
  ◌==◌, if◌then◌else◌,
}
use mitup_telegram_bot.Supporter.{LimitsConfig}
use mitup_telegram_bot.Messages.{
  Update, Message, message_from_update, capture_chat_instance, from_update, in_bot_chat,
}
use mitup_telegram_bot.Meeting.{
  JoinedUsers, Meetup, join_allowed, add_participant, remove_participant,
}
use mitup_telegram_bot.Guards.{Guarded, granted, rejected, Rejection, shared_meeting}

pub data Answer : Type 0 where
  join_already_joined join_full join_full_waiting_list join_success : Answer
  leave_success leave_not_joined join_locked : Answer

-- `User.joined_meeting`: the user's link on this meeting.
abbrev pub joined_meeting : Meetup → ℕ → Option JoinedUsers
joined_meeting m user = find (λ link. link.user_id == user) m.joined_links

-- `racy_flush` of libs/data/mitup_bot/db.py: where another transaction has already put the row
-- there, the unique constraint refuses this one, the savepoint takes back what the builder did,
-- and the meeting is read anew: `clash` is that reading.
abbrev pub racy_flush {ℓ} : {A : Type ℓ} → Option Meetup → Option A → Option A
racy_flush (some reread) built = none
racy_flush none built = built

abbrev pub reread_or : Meetup → Option Meetup → Meetup
reread_or m none = m
reread_or m (some reread) = reread

abbrev pub join_answer : JoinedUsers → Answer
join_answer link = if link.is_waiting_list then join_full_waiting_list else join_success

-- `id` and `created` are the new row's.
pub join_operation : LimitsConfig → Option Meetup → Option ℕ → ℕ → Meetup → ℕ → Meetup × Answer
join_operation config clash id created m user =
    if not (is_none (joined_meeting m user))
    then (m, join_already_joined)
    else if not (join_allowed config m)
    then (m, join_full)
    else elim (racy_flush clash (add_participant config m user none id created)) [
      | none ↦ (reread_or m clash, join_already_joined)
      | some (m', link) ↦ (m', join_answer link)
    ]

-- The second part of the result are the links that the departure promoted, who are notified.
-- `none` is the ValueError of `remove_participant`.
pub leave_operation : LimitsConfig → Meetup → ℕ → Option (Meetup × List JoinedUsers × Answer)
leave_operation config m user = elim (joined_meeting m user) [
  | none ↦ some (m, [], leave_not_joined)
  | some link ↦ elim (remove_participant config m link) [
    | none ↦ none
    | some (m', promoted) ↦ some (m', promoted, leave_success)
  ]
]
