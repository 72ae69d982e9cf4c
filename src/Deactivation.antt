-- ===== src/Deactivation.antt =====
-- The sweep that deactivates meetings: apps/events/mitup_bot/events/inactive_meetings.py. A row is
-- the join of a meeting with its owner and the owner's timeout. The edits of the meeting's messages
-- are queued for Telegram and left out, as are logs; the purges of users are functions of the user
-- table and of what the database says of each user.
pub mod Nomination
pub mod Locked
pub mod Named
pub mod Turns
pub mod Sweep
mod Tests
use mitup_telegram_bot.Base.{
  ℕ, suc, ◌+◌, ◌*◌, ◌≡◌, Bool, true, false, not, ◌&&◌, ◌||◌, Option, none, some, List, [], ◌∷◌, map,
  filter, count, length, ltb, ◌==◌, any, mem, find, bind, is_none, if◌then◌else◌,
}
use mitup_telegram_bot.Supporter.{SupporterLevel, level_eq}
use mitup_telegram_bot.Supporter.Lifecycle.{
  LifecyclePolicy, get, day, levels_by_duration, interval_days, free_policy,
}
use mitup_telegram_bot.Users.{User, UserStatus, left, joined_only, onboarding, status_eq}
use mitup_telegram_bot.Meeting.{Meetup, JoinedUsers}
use mitup_telegram_bot.Sweeps.{window_elapsed}

pub record Row : Type 0 where
  pub meeting : Meetup
  pub owner : User
  pub timeout : ℕ

pub data DeactivationReason : Type 0 where
  dateless_window left_owner_window past_end : DeactivationReason

pub data SkipReason : Type 0 where
  meeting_deleted already_inactive rescheduled owner_rejoined : SkipReason
  tier_window_extended predicate_no_longer_matches : SkipReason

abbrev pub left_owner_dateless_lifetime : ℕ
left_owner_dateless_lifetime = (get none).left_owner_dateless_lifetime

abbrev pub is_dated : Row → Bool
is_dated row = not (is_none row.meeting.datetime)

pub dateless_window_elapsed : ℕ → Row → Bool
dateless_window_elapsed now row =
    is_none row.meeting.datetime
    && window_elapsed (λ policy. policy.dateless_lifetime) (some row.meeting.activated_time) now
        row.meeting

pub left_owner_window_elapsed : ℕ → Row → Bool
left_owner_window_elapsed now row =
    is_none row.meeting.datetime
    && (status_eq row.owner.status left
        && ltb (row.meeting.activated_time + left_owner_dateless_lifetime) now)

-- `coalesce(end_datetime, datetime)`.
abbrev pub last_moment : ℕ → Option ℕ → ℕ
last_moment start none = start
last_moment start (some end_time) = end_time

abbrev pub ended_before : ℕ → ℕ → Option ℕ → Option ℕ → Bool
ended_before now timeout none end_time = false
ended_before now timeout (some start) end_time = ltb (last_moment start end_time + timeout * 60) now

pub past_end_plus_timeout : ℕ → Row → Bool
past_end_plus_timeout now row =
    ended_before now row.timeout row.meeting.datetime row.meeting.end_datetime

-- `DUE_FOR_DEACTIVATION`.
pub due_for_deactivation : ℕ → Row → Bool
due_for_deactivation now row =
    row.meeting.active
    && (dateless_window_elapsed now row
        || (left_owner_window_elapsed now row || past_end_plus_timeout now row))

-- `DEACTIVATION_REASON`, in the order of its branches.
pub deactivation_reason : ℕ → Row → DeactivationReason
deactivation_reason now row =
    if dateless_window_elapsed now row
    then dateless_window
    else if left_owner_window_elapsed now row
    then left_owner_window
    else past_end

pub record DueMeeting : Type 0 where
  pub meeting_id : ℕ
  pub owner_supporter_level : SupporterLevel
  pub reason : DeactivationReason

pub due_meeting : ℕ → Row → DueMeeting
due_meeting now row = record {
  meeting_id = row.meeting.id;
  owner_supporter_level = row.meeting.owner_level;
  reason = deactivation_reason now row;
}

-- `due_meetings`: one read of the table.
pub due_meetings : ℕ → List Row → List DueMeeting
due_meetings now rows = map (due_meeting now) (filter (due_for_deactivation now) rows)

-- `resolved_windows(duration_of)[level]`, with the grouping that the statement's branches come from.
pub resolved_window : (LifecyclePolicy → ℕ) → SupporterLevel → Option ℕ
resolved_window duration_of level =
    bind (find (λ group. any (λ l. level_eq l level) group.1) (levels_by_duration duration_of))
      (λ group. interval_days group.0)

abbrev pub window_of : SupporterLevel → DeactivationReason → Option ℕ
window_of level dateless_window = resolved_window (λ policy. policy.dateless_lifetime) level
window_of level left_owner_window = interval_days left_owner_dateless_lifetime
window_of level past_end = none

-- The window, in whole days, that the reason applied; a dated meeting has none.
pub window_days : DueMeeting → Option ℕ
window_days due = window_of due.owner_supporter_level due.reason

pub tier_window_days : SupporterLevel → Option ℕ
tier_window_days level = interval_days (get (some level)).dateless_lifetime

abbrev pub is_past_end : DeactivationReason → Bool
is_past_end past_end = true
is_past_end dateless_window = false
is_past_end left_owner_window = false

abbrev pub is_left_owner : DeactivationReason → Bool
is_left_owner left_owner_window = true
is_left_owner dateless_window = false
is_left_owner past_end = false

abbrev pub is_dateless : DeactivationReason → Bool
is_dateless dateless_window = true
is_dateless left_owner_window = false
is_dateless past_end = false

abbrev pub longer : Option ℕ → Option ℕ → Bool
longer none window = false
longer (some tier) none = false
longer (some tier) (some window) = ltb window tier

pub skip_reason : DueMeeting → Row → SkipReason
skip_reason due row =
    if not row.meeting.active
    then already_inactive
    else if is_dated row && not (is_past_end due.reason)
    then rescheduled
    else if is_left_owner due.reason && not (status_eq row.owner.status left)
    then owner_rejoined
    else if is_dateless due.reason
        && longer (tier_window_days row.meeting.owner_level) (window_days due)
    then tier_window_extended
    else predicate_no_longer_matches

pub record Cleared : Type 0 where
  pub invited_user_ids : List ℕ
  pub participants_removed : ℕ
  pub messages_deleted : ℕ

-- The links and the messages go. The rows of the invited users go first and take their links with
-- them (ON DELETE CASCADE), so that the links counted are those of the others.
pub clear_meeting_data : (ℕ → Bool) → Meetup → Meetup × Cleared
clear_meeting_data is_invited m = (
  record m { joined_links = []; messages = [] },
  record {
    invited_user_ids = filter is_invited (map (λ link. link.user_id) m.joined_links);
    participants_removed = count (λ link. not (is_invited link.user_id)) m.joined_links;
    messages_deleted = length m.messages;
  },
)

pub data Deactivation : Type 0 where
  skipped : SkipReason → Deactivation
  deactivated : Row → Cleared → Deactivation

-- Under the row's lock, the row found or nothing.
pub deactivate_meeting_locked : (ℕ → Bool) → ℕ → DueMeeting → Option Row → Deactivation
deactivate_meeting_locked is_invited now due none = skipped meeting_deleted
deactivate_meeting_locked is_invited now due (some row) =
    let cleared =
      clear_meeting_data is_invited
        (record row.meeting { active = false; expiration_time = some now }) in
    if due_for_deactivation now row
    then deactivated (record row { meeting = cleared.0 }) cleared.1
    else skipped (skip_reason due row)

-- What one meeting's transaction meets: its clock, whether it raises, and what the bot and the
-- other jobs have made of the rows since the transaction before, or since the nomination.
pub record MeetingRun : Type 0 where
  pub now : ℕ
  pub raises : Bool
  pub meanwhile : Row → Row

abbrev pub row_after : Row → Deactivation → Row
row_after row (skipped reason) = row
row_after row (deactivated row' cleared) = row'

-- The row of one nomination; a transaction that raised leaves the table as it was.
pub deactivate_row : (ℕ → Bool) → MeetingRun → DueMeeting → Row → Row
deactivate_row is_invited run due row =
    if not run.raises && (row.meeting.id == due.meeting_id)
    then row_after row (deactivate_meeting_locked is_invited run.now due (some row))
    else row

-- The loop of `run`, one transaction for each nomination.
pub deactivate_all : (ℕ → Bool) → (ℕ → MeetingRun) → List DueMeeting → List Row → List Row
deactivate_all is_invited runs [] rows = rows
deactivate_all is_invited runs (due ∷ nominated) rows =
    deactivate_all is_invited (λ n. runs (suc n)) nominated
      (map (deactivate_row is_invited (runs 0) due) (map (runs 0).meanwhile rows))

-- What the database says of a user in the two purges.
pub record UserFacts : Type 0 where
  pub owns_meeting : Bool
  pub has_active_link : Bool
  pub created_time : ℕ

abbrev pub onboarding_answer_window : ℕ
onboarding_answer_window = 7 * day

-- `JOINED_ONLY_WITHOUT_ACTIVE_LINKS_STATEMENT`.
abbrev pub joined_only_without_active_links : (ℕ → UserFacts) → User → Bool
joined_only_without_active_links facts user =
    status_eq user.status joined_only
    && (not (facts user.id).owns_meeting && not (facts user.id).has_active_link)

-- `ABANDONED_ONBOARDING_STATEMENT`.
abbrev pub abandoned_onboarding : ℕ → (ℕ → UserFacts) → User → Bool
abandoned_onboarding now facts user =
    status_eq user.status onboarding
    && (ltb ((facts user.id).created_time + onboarding_answer_window) now
        && (not (facts user.id).owns_meeting && not (facts user.id).has_active_link))

-- Users who left the status after the select keep their rows.
pub delete_users_still_in_status : List ℕ → UserStatus → List User → List User
delete_users_still_in_status user_ids status users =
    filter (λ user. not (mem user.id user_ids && status_eq user.status status)) users
