-- ===== src/Deactivation/Locked.antt =====
-- What becomes of a nomination under the row's lock: apps/events/mitup_bot/events/
-- inactive_meetings.py.
use mitup_telegram_bot.Base.{
  ℕ, ◌≡◌, ◌≢◌, refl, ap, sym, ◌∙◌, Bool, true, false, not, ◌&&◌, Option, none, some, [], length,
  ◌+◌, List, ◌∷◌, filter, map, count, arith, is_none, if◌then◌else◌, inl, inr, Bool-cases, and_left,
  and_right,
}
use mitup_telegram_bot.Users.{left, status_eq}
use mitup_telegram_bot.Meeting.{JoinedUsers}
use mitup_telegram_bot.Deactivation.{
  Row, DeactivationReason, dateless_window, left_owner_window, past_end, DueMeeting, SkipReason,
  due_for_deactivation, tier_window_days, window_days, Deactivation, skipped, deactivated,
  deactivate_meeting_locked, clear_meeting_data, Cleared, is_dated, meeting_deleted,
  already_inactive, rescheduled, owner_rejoined, tier_window_extended, predicate_no_longer_matches,
  skip_reason, is_past_end, is_left_owner, is_dateless, longer,
}

-- What each reason for leaving a meeting active says of the locked row and the nomination.
abbrev pub Explains : DueMeeting → Row → SkipReason → Type 0
Explains due row meeting_deleted = ⊥
Explains due row already_inactive = row.meeting.active ≡ false
Explains due row rescheduled =
    (row.meeting.active ≡ true) × ((row.meeting.datetime ≢ none) × (due.reason ≢ past_end))
Explains due row owner_rejoined =
    (row.meeting.active ≡ true)
    × ((row.meeting.datetime ≡ none)
        × ((due.reason ≡ left_owner_window) × (row.owner.status ≢ left)))
Explains due row tier_window_extended =
    (row.meeting.active ≡ true)
    × ((row.meeting.datetime ≡ none)
        × ((due.reason ≡ dateless_window)
            × (longer (tier_window_days row.meeting.owner_level) (window_days due) ≡ true)))
Explains due row predicate_no_longer_matches = row.meeting.active ≡ true

-- The row after a deactivation, and what was counted.
abbrev pub Emptied : (ℕ → Bool) → ℕ → Row → Row → Cleared → Type 0
Emptied is_invited now row after cleared =
    ((after.meeting.active ≡ false) × (after.meeting.expiration_time ≡ some now))
    × (((after.meeting.joined_links ≡ []) × (after.meeting.messages ≡ []))
        × ((length cleared.invited_user_ids + cleared.participants_removed
              ≡ length row.meeting.joined_links)
            × ((cleared.participants_removed
                  ≡ count (λ link. not (is_invited link.user_id)) row.meeting.joined_links)
                × (cleared.messages_deleted ≡ length row.meeting.messages))))

abbrev pub Resolves : (ℕ → Bool) → ℕ → DueMeeting → Row → Deactivation → Type 0
Resolves is_invited now due row (skipped reason) =
    (due_for_deactivation now row ≡ false) × Explains due row reason
Resolves is_invited now due row (deactivated after cleared) =
    (due_for_deactivation now row ≡ true) × Emptied is_invited now row after cleared

-- The first test that holds names the reason.
first_reason :
    (P : SkipReason → Type 0) (inactive moved rejoined extended : Bool)
    → (inactive ≡ true → P already_inactive)
    → (inactive ≡ false → moved ≡ true → P rescheduled)
    → (inactive ≡ false → moved ≡ false → rejoined ≡ true → P owner_rejoined)
    → (inactive ≡ false → moved ≡ false → extended ≡ true → P tier_window_extended)
    → (inactive ≡ false → P predicate_no_longer_matches)
    → P (
        if inactive
        then already_inactive
        else if moved
        then rescheduled
        else if rejoined
        then owner_rejoined
        else if extended
        then tier_window_extended
        else predicate_no_longer_matches)
first_reason P true moved rejoined extended a b c d e = a refl
first_reason P false true rejoined extended a b c d e = b refl refl
first_reason P false false true extended a b c d e = c refl refl refl
first_reason P false false false true a b c d e = d refl refl refl
first_reason P false false false false a b c d e = e refl

not-true : (b : Bool) → not b ≡ true → b ≡ false
not-true true e = cc e
not-true false e = refl

not-false : (b : Bool) → not b ≡ false → b ≡ true
not-false true e = refl
not-false false e = cc e

dated-some : (o : Option ℕ) → not (is_none o) ≡ true → o ≢ none
dated-some none e = absurd (cc e)
dated-some (some n) e = λ f. cc f

not_past_end : (reason : DeactivationReason) → not (is_past_end reason) ≡ true → reason ≢ past_end
not_past_end dateless_window e = λ f. cc f
not_past_end left_owner_window e = λ f. cc f
not_past_end past_end e = absurd (cc e)

undated : (o : Option ℕ) → (not (is_none o) && true) ≡ false → o ≡ none
undated none e = refl
undated (some n) e = cc e

left_owner-named :
    (reason : DeactivationReason) → is_left_owner reason ≡ true → reason ≡ left_owner_window
left_owner-named dateless_window e = cc e
left_owner-named left_owner_window e = refl
left_owner-named past_end e = cc e

dateless-named :
    (reason : DeactivationReason) → is_dateless reason ≡ true → reason ≡ dateless_window
dateless-named dateless_window e = refl
dateless-named left_owner_window e = cc e
dateless-named past_end e = cc e

undated_by :
    (o : Option ℕ) (reason other : DeactivationReason)
    → (not (is_none o) && not (is_past_end reason)) ≡ false
    → reason ≡ other
    → is_past_end other ≡ false
    → o ≡ none
undated_by o reason other e same arm = undated o (
    sym (
      ap (λ r. not (is_none o) && not (is_past_end r)) same
      ∙ ap (λ b. not (is_none o) && not b) arm)
    ∙ e)

status-left : (row : Row) → not (status_eq row.owner.status left) ≡ true → row.owner.status ≢ left
status-left row e f = cc (e, f)

skip_reason-Explains : (due : DueMeeting) (row : Row) → Explains due row (skip_reason due row)
unfolding skip_reason
skip_reason-Explains due row =
    let moved = is_dated row && not (is_past_end due.reason) in
    let rejoined = is_left_owner due.reason && not (status_eq row.owner.status left) in
    let extended =
      is_dateless due.reason
      && longer (tier_window_days row.meeting.owner_level) (window_days due) in
    first_reason (Explains due row) (not row.meeting.active) moved rejoined extended
      (λ a. not-true row.meeting.active a)
      (λ a b. (
        not-false row.meeting.active a,
        (
          dated-some row.meeting.datetime
              (and_left (is_dated row) (not (is_past_end due.reason)) b),
          not_past_end due.reason (and_right (is_dated row) (not (is_past_end due.reason)) b),
        ),
      ))
      (λ a b c.
        let named =
          left_owner-named due.reason
            (and_left (is_left_owner due.reason) (not (status_eq row.owner.status left)) c) in
        (
          not-false row.meeting.active a,
          (
            undated_by row.meeting.datetime due.reason left_owner_window b named refl,
            (
              named,
              status-left row
                  (and_right (is_left_owner due.reason) (not (status_eq row.owner.status left)) c),
            ),
          ),
        ))
      (λ a b c.
        let window = longer (tier_window_days row.meeting.owner_level) (window_days due) in
        let named = dateless-named due.reason (and_left (is_dateless due.reason) window c) in
        (
          not-false row.meeting.active a,
          (
            undated_by row.meeting.datetime due.reason dateless_window b named refl,
            (named, and_right (is_dateless due.reason) window c),
          ),
        ))
      (λ a. not-false row.meeting.active a)

invited_or_counted :
    (is_invited : ℕ → Bool) (links : List JoinedUsers)
    → length (filter is_invited (map (λ link. link.user_id) links))
        + count (λ link. not (is_invited link.user_id)) links
      ≡ length links
invited_or_counted is_invited [] = refl
invited_or_counted is_invited (link ∷ links) = ground (arith, invited_or_counted is_invited links)

-- Under the lock a nomination is decided again by the locked row and the clock. A meeting that is
-- still due is deactivated at that moment, and loses its links and messages: each link is
-- one of an invited user, who is named, or is counted, and the messages are counted. One
-- that is not stays as it is, and the reason that is logged holds of the locked row and of what had
-- been nominated: no longer active; active with a date though nominated without one; or still
-- without a date, its owner no longer gone, or with a longer window than the nomination's.
pub deactivate_meeting_locked-Resolves :
    (is_invited : ℕ → Bool) (now : ℕ) (due : DueMeeting) (row : Row)
    → Resolves is_invited now due row (deactivate_meeting_locked is_invited now due (some row))
unfolding deactivate_meeting_locked clear_meeting_data
deactivate_meeting_locked-Resolves is_invited now due row =
    elim (Bool-cases (due_for_deactivation now row)) [
      | inl still ↦ rw still (
        still,
        (
          (refl, refl),
          ((refl, refl), (invited_or_counted is_invited row.meeting.joined_links, (refl, refl))),
        ),
      )
      | inr gone ↦ rw gone (gone, skip_reason-Explains due row)
    ]
