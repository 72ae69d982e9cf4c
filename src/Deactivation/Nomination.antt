-- ===== src/Deactivation/Nomination.antt =====
-- What a nomination for deactivation says, and what becomes of it under the lock:
-- apps/events/mitup_bot/events/inactive_meetings.py.
use mitup_telegram_bot.Base.{
  leb, leb→le, ltb→lt, false, ℕ, ◌+◌, ◌*◌, ◌<◌, ◌≤◌, ◌≡◌, refl, sym, ◌∙◌, subst, true, ◌&&◌, ◌||◌,
  Option, none, some, ltb, ltb_iff, and_iff, or_iff, is_none, arith, ◌⊎◌, inl, inr, Bool-cases, ◌↔◌,
}
use mitup_telegram_bot.Supporter.{SupporterLevel, none_level, host_1, host_2, host_3}
use mitup_telegram_bot.Supporter.Lifecycle.{get, day, levels_by_duration, interval_days}
use mitup_telegram_bot.Users.{
  UserStatus, member, onboarding, joined_only, deletion_requested, left, status_eq,
}
use mitup_telegram_bot.Sweeps.{window_elapsed}
use mitup_telegram_bot.Sweeps.Windows.{window_elapsed_iff}
use mitup_telegram_bot.Deactivation.{
  Row, DeactivationReason, dateless_window, left_owner_window, past_end, dateless_window_elapsed,
  left_owner_window_elapsed, past_end_plus_timeout, ended_before, due_for_deactivation,
  deactivation_reason, due_meeting, resolved_window, window_days, window_of, tier_window_days,
}

-- The label that the sweep logs is the window of the tier's own policy.
resolved_window-tier_window_days :
    (level : SupporterLevel)
    → resolved_window (λ policy. policy.dateless_lifetime) level ≡ tier_window_days level
unfolding resolved_window tier_window_days levels_by_duration interval_days get
resolved_window-tier_window_days none_level = refl
resolved_window-tier_window_days host_1 = refl
resolved_window-tier_window_days host_2 = refl
resolved_window-tier_window_days host_3 = refl

tier_window_days-exact :
    (level : SupporterLevel)
    → (days : ℕ) × (tier_window_days level ≡ some days)
      × (days * day ≡ (get (some level)).dateless_lifetime)
unfolding tier_window_days interval_days get
tier_window_days-exact none_level = (90, refl, refl)
tier_window_days-exact host_1 = (90, refl, refl)
tier_window_days-exact host_2 = (365, refl, refl)
tier_window_days-exact host_3 = (365, refl, refl)

-- The meeting's last moment and the owner's timeout, in minutes, are over.
abbrev pub PastEnd : ℕ → ℕ → Option ℕ → Option ℕ → Type 0
PastEnd now timeout none end_time = ⊥
PastEnd now timeout (some start) none = start + timeout * 60 < now
PastEnd now timeout (some start) (some end_time) = end_time + timeout * 60 < now

-- How long a meeting without a date stays active, by its owner's tier.
abbrev pub lifetime : Row → ℕ
lifetime row = (get (some row.meeting.owner_level)).dateless_lifetime

-- What each reason means of the row that was nominated, and the window that it names.
abbrev pub Holds : ℕ → Row → DeactivationReason → Option ℕ → Type 0
Holds now row dateless_window none = ⊥
Holds now row dateless_window (some days) =
    (row.meeting.datetime ≡ none)
    × ((days * day ≡ lifetime row) × (row.meeting.activated_time + days * day < now))
Holds now row left_owner_window none = ⊥
Holds now row left_owner_window (some days) =
    (row.meeting.datetime ≡ none)
    × ((row.owner.status ≡ left)
        × ((days ≡ 30)
            × ((row.meeting.activated_time + days * day < now)
                × (now ≤ row.meeting.activated_time + lifetime row))))
Holds now row past_end days =
    (days ≡ none) × PastEnd now row.timeout row.meeting.datetime row.meeting.end_datetime

over_by : (a b : ℕ) → leb a b ≡ false → b < a
over_by a b e = ground arith

is_none_iff : (o : Option ℕ) → (is_none o ≡ true) ↔ (o ≡ none)
is_none_iff none = (λ e. refl, λ e. refl)
is_none_iff (some n) = (λ e. cc, λ e. cc)

status_left_iff : (s : UserStatus) → (status_eq s left ≡ true) ↔ (s ≡ left)
status_left_iff member = (λ e. cc, λ e. cc)
status_left_iff onboarding = (λ e. cc, λ e. cc)
status_left_iff joined_only = (λ e. cc, λ e. cc)
status_left_iff left = (λ e. refl, λ e. refl)
status_left_iff deletion_requested = (λ e. cc, λ e. cc)

-- The dateless arms, as they read on a row.
dateless_iff :
    (now : ℕ) (row : Row)
    → (dateless_window_elapsed now row ≡ true) ↔ (
        (row.meeting.datetime ≡ none)
        × (row.meeting.activated_time + (get (some row.meeting.owner_level)).dateless_lifetime
            < now))
unfolding dateless_window_elapsed
dateless_iff now row =
    let past =
      window_elapsed_iff (λ policy. policy.dateless_lifetime) (some row.meeting.activated_time) now
        row.meeting refl refl in
    and_iff (is_none row.meeting.datetime)
      (window_elapsed (λ policy. policy.dateless_lifetime) (some row.meeting.activated_time) now
        row.meeting)
      (is_none_iff row.meeting.datetime) past

left_owner_iff :
    (now : ℕ) (row : Row)
    → (left_owner_window_elapsed now row ≡ true) ↔ (
        (row.meeting.datetime ≡ none)
        × ((row.owner.status ≡ left) × (row.meeting.activated_time + 30 * day < now)))
unfolding left_owner_window_elapsed get
left_owner_iff now row =
    let late = ltb (row.meeting.activated_time + 30 * day) now in
    and_iff (is_none row.meeting.datetime) (status_eq row.owner.status left && late)
      (is_none_iff row.meeting.datetime)
      (and_iff (status_eq row.owner.status left) late (status_left_iff row.owner.status)
        (ltb_iff (row.meeting.activated_time + 30 * day) now))

-- A row is due when it is active and one of the three arms holds.
due_iff :
    (now : ℕ) (row : Row)
    → (due_for_deactivation now row ≡ true) ↔ (
        (row.meeting.active ≡ true)
        × ((dateless_window_elapsed now row ≡ true)
            ⊎ ((left_owner_window_elapsed now row ≡ true)
                ⊎ (past_end_plus_timeout now row ≡ true))))
unfolding due_for_deactivation
due_iff now row =
    let a = dateless_window_elapsed now row in
    let b = left_owner_window_elapsed now row in
    let c = past_end_plus_timeout now row in
    and_iff row.meeting.active (a || (b || c)) ((λ e. e), (λ e. e))
      (or_iff a (b || c) ((λ e. e), (λ e. e))
        (or_iff b c ((λ e. e), (λ e. e)) ((λ e. e), (λ e. e))))

Holds-at :
    (now : ℕ) (row : Row) (reason : DeactivationReason)
    → deactivation_reason now row ≡ reason
    → Holds now row reason (window_of row.meeting.owner_level reason)
    → Holds now row (due_meeting now row).reason (window_days (due_meeting now row))
unfolding due_meeting window_days
Holds-at now row reason e =
    subst (λ r. Holds now row r (window_of row.meeting.owner_level r)) (sym e)

dateless-Holds :
    (now : ℕ) (row : Row)
    → dateless_window_elapsed now row ≡ true
    → Holds now row dateless_window (window_of row.meeting.owner_level dateless_window)
dateless-Holds now row d =
    let level = row.meeting.owner_level in
    let (days, found, exact) = tier_window_days-exact level in
    let (dateless, past) = (dateless_iff now row).0 d in
    subst (Holds now row dateless_window) (sym (resolved_window-tier_window_days level ∙ found))
      (dateless, (exact, omega (arith, past, exact)))

not_dateless :
    (now : ℕ) (row : Row)
    → dateless_window_elapsed now row ≡ false
    → row.meeting.datetime ≡ none
    → now ≤ row.meeting.activated_time + lifetime row
not_dateless now row not_over dateless =
    elim (Bool-cases (leb now (row.meeting.activated_time + lifetime row))) [
      | inl within ↦ leb→le now (row.meeting.activated_time + lifetime row) within
      | inr over ↦ absurd (cc (not_over, (dateless_iff now row).1 (dateless, over_by _ _ over)))
    ]

left_owner-Holds :
    (now : ℕ) (row : Row)
    → dateless_window_elapsed now row ≡ false
    → left_owner_window_elapsed now row ≡ true
    → Holds now row left_owner_window (window_of row.meeting.owner_level left_owner_window)
unfolding interval_days get
left_owner-Holds now row no_d l =
    let (dateless, (gone, past)) = (left_owner_iff now row).0 l in
    (dateless, (gone, (refl, (past, not_dateless now row no_d dateless))))

ended_before-PastEnd :
    (now timeout : ℕ) (start end_time : Option ℕ)
    → ended_before now timeout start end_time ≡ true
    → PastEnd now timeout start end_time
ended_before-PastEnd now timeout none end_time e = cc e
ended_before-PastEnd now timeout (some start) none e = ltb→lt _ now e
ended_before-PastEnd now timeout (some start) (some end_time) e = ltb→lt _ now e

-- A nomination's reason holds of the row that it was read from, and the window that it names, in
-- whole days, is the one that applied: exactly the lifetime of the owner's tier for a meeting
-- without a date, and thirty days for one whose owner left, while the tier's lifetime is not over
-- yet; the window had passed since the activation. A meeting that is past its end, or its start
-- where it has no end, by more than the owner's timeout names no window.
pub due_meeting-Holds :
    (now : ℕ) (row : Row)
    → due_for_deactivation now row ≡ true
    → Holds now row (due_meeting now row).reason (window_days (due_meeting now row))
unfolding deactivation_reason past_end_plus_timeout
due_meeting-Holds now row due =
    let arms = ((due_iff now row).0 due).1 in
    elim (Bool-cases (dateless_window_elapsed now row)) [
      | inl d ↦ Holds-at now row dateless_window (rw d refl) (dateless-Holds now row d)
      | inr no_d ↦ elim (Bool-cases (left_owner_window_elapsed now row)) [
        | inl l ↦
            Holds-at now row left_owner_window (rw (no_d, l) refl) (left_owner-Holds now row no_d l)
        | inr no_l ↦ Holds-at now row past_end (rw (no_d, no_l) refl) (
          refl,
          elim arms [
            | inl d ↦ absurd (cc (d, no_d))
            | inr (inl l) ↦ absurd (cc (l, no_l))
            | inr (inr p) ↦
                ended_before-PastEnd now row.timeout row.meeting.datetime row.meeting.end_datetime p
          ],
        )
      ]
    ]

ended_before_mono :
    (now later timeout : ℕ) (start end_time : Option ℕ)
    → now ≤ later
    → ended_before now timeout start end_time ≡ true
    → ended_before later timeout start end_time ≡ true
ended_before_mono now later timeout none end_time h e = cc e
ended_before_mono now later timeout (some start) none h e = ground (arith, e)
ended_before_mono now later timeout (some start) (some end_time) h e = ground (arith, e)

-- A meeting that was due stays due as long as nobody changes it.
pub due_mono :
    (now later : ℕ) (row : Row)
    → due_for_deactivation now row ≡ true
    → now ≤ later
    → due_for_deactivation later row ≡ true
unfolding past_end_plus_timeout
due_mono now later row due h =
    let (active, arms) = (due_iff now row).0 due in
    (due_iff later row).1 (
      active,
      elim arms [
        | inl d ↦
            let (dateless, past) = (dateless_iff now row).0 d in
            inl ((dateless_iff later row).1 (dateless, omega arith))
        | inr (inl l) ↦
            let (dateless, (gone, past)) = (left_owner_iff now row).0 l in
            inr (inl ((left_owner_iff later row).1 (dateless, (gone, omega arith))))
        | inr (inr p) ↦ inr (
            inr (
              ended_before_mono now later row.timeout row.meeting.datetime row.meeting.end_datetime
                h p))
      ],
    )
