-- ===== src/Meeting/Schedule.antt =====
-- The dates of a meeting in libs/data/mitup_bot/models/meetups.py: the window in which it runs, the
-- order of its two dates, and the gates of its deletion.
use mitup_telegram_bot.Base.{
  ℕ, ◌+◌, ◌≡◌, ◌≤◌, ◌<◌, max, refl, ap, ◌↔◌, ◌⊎◌, inl, inr, Bool, true, false, not, ◌&&◌, Option,
  none, some, ltb, leb, if◌then◌else◌, arith,
}
use mitup_telegram_bot.Supporter.Lifecycle.{LifecyclePolicy, get}
use mitup_telegram_bot.Meeting.{Meetup}

unfoldable pub record_deletion_warning : ℕ → Meetup → Meetup
record_deletion_warning now m = record m {
  expiration_notification_sent = true;
  warned_time = some now;
}

abbrev pub clear_deletion_warning : Meetup → Meetup
clear_deletion_warning m = record m { expiration_notification_sent = false; warned_time = none }

abbrev pub lifecycle_policy : Meetup → LifecyclePolicy
lifecycle_policy m = get (some m.owner_level)

-- `stamp + duration`, where there is a stamp.
abbrev gate : Option ℕ → ℕ → Option ℕ
gate none duration = none
gate (some stamp) duration = some (stamp + duration)

-- `max(gates) if gates else None`.
abbrev latest : Option ℕ → Option ℕ → Option ℕ
latest none b = b
latest (some a) none = some a
latest (some a) (some b) = some (max a b)

pub deletion_due_time : Meetup → Option ℕ
deletion_due_time m =
    let policy = lifecycle_policy m in
    latest (gate m.expiration_time policy.inactive_retention)
      (gate m.warned_time policy.deletion_warning_lead)

abbrev before_end : ℕ → Option ℕ → Bool
before_end now none = true
before_end now (some end) = ltb now end

abbrev in_window : ℕ → Option ℕ → Option ℕ → Bool
in_window now none end = false
in_window now (some start) end = if ltb now start then false else before_end now end

pub is_in_progress : ℕ → Meetup → Bool
is_in_progress now m = if not m.active then false else in_window now m.datetime m.end_datetime

pub attendance_is_open : ℕ → Meetup → Bool
attendance_is_open now m = not (m.lock_on_start && is_in_progress now m)

abbrev out_of_order : Option ℕ → Option ℕ → Bool
out_of_order start none = false
out_of_order none (some end) = false
out_of_order (some start) (some end) = leb end start

unfoldable pub enforce_datetime_ordering : Meetup → Meetup × Bool
enforce_datetime_ordering m =
    if out_of_order m.datetime m.end_datetime
    then (record m { end_datetime = none; lock_on_start = false }, true)
    else (m, false)

-- A moment of the half-open interval from the start to the end, where a missing end is never.
abbrev pub Within : ℕ → Option ℕ → Option ℕ → Type 0
Within now none end = ⊥
Within now (some start) none = start ≤ now
Within now (some start) (some end) = (start ≤ now) × (now < end)

window_iff :
    (now : ℕ) (start end : Option ℕ) → (in_window now start end ≡ true) ↔ Within now start end
window_iff now none end = ground arith
window_iff now (some start) none = ground arith
window_iff now (some start) (some end) = ground arith

closed_iff :
    (lock active window : Bool) {P : Type 0}
    → (window ≡ true) ↔ P
    → (not (lock && (if not active then false else window)) ≡ false)
      ↔ ((lock ≡ true) × (active ≡ true) × P)
closed_iff true true window h = (λ e. (refl, refl, h.0 (go window e)), λ p. ap not (h.1 p.2))
  where
    go : (w : Bool) → not w ≡ false → w ≡ true
    go true e = refl
    go false e = cc
closed_iff true false window h = ground arith
closed_iff false active window h = ground arith

-- Attendance is closed exactly while a meeting that locks on start and is active runs: from its
-- start on, and before its end where it has one.
pub attendance_is_open_iff :
    (now : ℕ) (m : Meetup)
    → (attendance_is_open now m ≡ false)
      ↔ ((m.lock_on_start ≡ true) × (m.active ≡ true) × Within now m.datetime m.end_datetime)
unfolding attendance_is_open is_in_progress
attendance_is_open_iff now m =
    closed_iff m.lock_on_start m.active (in_window now m.datetime m.end_datetime)
      (window_iff now m.datetime m.end_datetime)

-- The end is after the start, where there are both.
abbrev pub IsOrdered : Option ℕ → Option ℕ → Type 0
IsOrdered start none = Unit
IsOrdered none (some end) = Unit
IsOrdered (some start) (some end) = start < end

order_iff : (start end : Option ℕ) → (out_of_order start end ≡ false) ↔ IsOrdered start end
order_iff start none = (λ e. tt, λ o. refl)
order_iff none (some end) = (λ e. tt, λ o. refl)
order_iff (some start) (some end) = ground arith

-- What the enforcement may leave of a meeting, with what it reports.
abbrev pub Enforced : Meetup → Meetup × Bool → Type 0
Enforced m (after, cleared) =
    IsOrdered after.datetime after.end_datetime
    × (after.datetime ≡ m.datetime)
    × ((cleared ≡ false) ↔ IsOrdered m.datetime m.end_datetime)
    × ((cleared ≡ true) ⊎ (after ≡ m))

Enforced-by :
    (m : Meetup) (c : Bool)
    → (c ≡ false) ↔ IsOrdered m.datetime m.end_datetime
    → Enforced m
        (if c then (record m { end_datetime = none; lock_on_start = false }, true) else (m, false))
Enforced-by m true h = (tt, refl, h, inl refl)
Enforced-by m false h = (h.0 refl, refl, h, inr refl)

-- The enforcement leaves a meeting whose end is after its start, keeps the start, and reports no
-- change exactly where the dates were in order; then it changes nothing.
pub enforce_datetime_ordering-Enforced : (m : Meetup) → Enforced m (enforce_datetime_ordering m)
unfolding enforce_datetime_ordering
enforce_datetime_ordering-Enforced m =
    Enforced-by m (out_of_order m.datetime m.end_datetime) (order_iff m.datetime m.end_datetime)

-- A deletion is due at `t`: there is a due time, and it is not after `t`.
abbrev pub DueAt : ℕ → Option ℕ → Type 0
DueAt t none = ⊥
DueAt t (some due) = due ≤ t

-- A gate that is not set, or that has passed.
abbrev pub Passed : ℕ → Option ℕ → ℕ → Type 0
Passed t none duration = Unit
Passed t (some stamp) duration = stamp + duration ≤ t

warned_gates :
    (t : ℕ) (expiration : Option ℕ) (retention now lead : ℕ)
    → DueAt t (latest (gate expiration retention) (gate (some now) lead))
      ↔ (Passed t expiration retention × (now + lead ≤ t))
warned_gates t none retention now lead = (λ h. (tt, h), λ h. h.1)
warned_gates t (some stamp) retention now lead =
    (λ h. (omega (arith, h), omega (arith, h)), λ h. omega (arith, h))

-- A warning holds a deletion off for the tier's full lead: a meeting whose owner is warned at
-- `now` is due for deletion at `t` exactly when the lead after `now` is over and, where the
-- meeting has expired, the retention after its expiration is too.
pub deletion_due_time-record_deletion_warning :
    (now t : ℕ) (m : Meetup)
    → DueAt t (deletion_due_time (record_deletion_warning now m)) ↔ (
        Passed t m.expiration_time (lifecycle_policy m).inactive_retention
        × (now + (lifecycle_policy m).deletion_warning_lead ≤ t))
unfolding deletion_due_time record_deletion_warning
deletion_due_time-record_deletion_warning now t m =
    warned_gates t m.expiration_time (lifecycle_policy m).inactive_retention now
      (lifecycle_policy m).deletion_warning_lead
