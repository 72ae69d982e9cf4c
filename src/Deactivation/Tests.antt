-- ===== src/Deactivation/Tests.antt =====
-- Runs of the deactivation sweep, and instances of the theorems about it.
use mitup_telegram_bot.Base.{
  ℕ, ◌+◌, ◌*◌, ◌≡◌, refl, true, false, none, some, List, [], ◌∷◌, Has, inl, ◌==◌, if◌then◌else◌,
  arith,
}
use mitup_telegram_bot.Supporter.{none_level}
use mitup_telegram_bot.Supporter.Lifecycle.{owner_tier_window_elapsed_lem, day, get}
use mitup_telegram_bot.Users.{User, member, left, onboarding}
use mitup_telegram_bot.Sweeps.{window_elapsed}
use mitup_telegram_bot.Deactivation.{
  Row, MeetingRun, due_for_deactivation, due_meeting, due_meetings, dateless_window_elapsed,
  left_owner_window_elapsed, past_end_plus_timeout, window_days, deactivate_meeting_locked,
  deactivate_all, delete_users_still_in_status,
}
use mitup_telegram_bot.Deactivation.Nomination.{Holds, due_meeting-Holds}
use mitup_telegram_bot.Deactivation.Locked.{Resolves, deactivate_meeting_locked-Resolves}
use mitup_telegram_bot.Deactivation.Turns.{LeftAlone}
use mitup_telegram_bot.Deactivation.Sweep.{Swept, deactivate_all-Swept}

-- A meeting without a date, whose owner left.
abbrev gone : Row
gone = record {
  meeting = record {
    id = 1;
    owner_id = 7;
    owner_level = none_level;
    waiting_list = false;
    public = false;
    lock_on_start = false;
    datetime = none;
    end_datetime = none;
    active = true;
    activated_time = 0;
    expiration_time = none;
    warned_time = none;
    expiration_notification_sent = false;
    started_notification_sent = false;
    max_members = none;
    messages = [];
    joined_links = [];
  };
  owner = record {
    id = 7;
    tg_user_id = some 70;
    language = 0;
    status = left;
    left_time = some 0;
    member_time = none;
  };
  timeout = 60;
}

gone_due : due_for_deactivation (31 * day) gone ≡ true
unfolding due_for_deactivation dateless_window_elapsed left_owner_window_elapsed window_elapsed
    past_end_plus_timeout get
gone_due =
    rw
      (owner_tier_window_elapsed_lem (λ policy. policy.dateless_lifetime) 0 (31 * day) none_level
        refl refl)
      refl

due_meeting-Holds_example :
    Holds
      (31 * day)
      gone
      (due_meeting (31 * day) gone).reason
      (window_days (due_meeting (31 * day) gone))
due_meeting-Holds_example = due_meeting-Holds (31 * day) gone gone_due

deactivate_meeting_locked-Resolves_example :
    Resolves
      (λ u. false)
      (40 * day)
      (due_meeting (31 * day) gone)
      gone
      (deactivate_meeting_locked (λ u. false) (40 * day) (due_meeting (31 * day) gone) (some gone))
deactivate_meeting_locked-Resolves_example =
    deactivate_meeting_locked-Resolves (λ u. false) (40 * day) (due_meeting (31 * day) gone) gone

-- A writer that gives the meeting 2 a date before every turn, and leaves the meeting 1 alone.
abbrev rescheduling : Row → Row
rescheduling row =
    if row.meeting.id == 2
    then record row { meeting = record row.meeting { datetime = some (60 * day) } }
    else row

abbrev daily : ℕ → MeetingRun
daily n = record { now = 31 * day + n; raises = false; meanwhile = rescheduling }

abbrev two_gone : List Row
two_gone = gone ∷ record gone { meeting = record gone.meeting { id = 2 } } ∷ []

gone_alone : LeftAlone daily 1
gone_alone n row e = rw e refl

deactivate_all-Swept_example :
    (after : Row) × (Has
        (λ r. r ≡ after)
        (deactivate_all (λ u. false) daily (due_meetings (31 * day) two_gone) two_gone)
      × Swept daily (due_for_deactivation (31 * day) gone) gone after)
deactivate_all-Swept_example =
    deactivate_all-Swept (λ u. false) (31 * day) daily two_gone gone (λ n. (omega arith, refl))
      (((λ e. cc e), tt), (tt, tt)) (inl refl) gone_alone

-- A user who finished onboarding after the select keeps their row.
onboarded : User
onboarded = record {
  id = 3;
  tg_user_id = some 30;
  language = 0;
  status = member;
  left_time = none;
  member_time = some 9;
}

still_test : delete_users_still_in_status (3 ∷ []) onboarding (onboarded ∷ []) ≡ onboarded ∷ []
unfolding delete_users_still_in_status onboarded
still_test = refl
