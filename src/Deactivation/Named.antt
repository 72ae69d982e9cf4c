-- ===== src/Deactivation/Named.antt =====
-- Which meetings a sweep nominates: apps/events/mitup_bot/events/inactive_meetings.py.
use mitup_telegram_bot.Base.{
  ℕ, ◌≢◌, ◌≡◌, refl, ap, true, false, List, [], ◌∷◌, map, mem, ◌==◌, ==_iff, ==_refl, subst, sym,
  ◌∙◌, inl, inr, Bool-cases, Has, Unique, Absent, if◌then◌else◌,
}
use mitup_telegram_bot.Deactivation.{
  Row, DueMeeting, due_for_deactivation, due_meeting, due_meetings,
}

abbrev pub ids : List Row → List ℕ
ids rows = map (λ row. row.meeting.id) rows

abbrev pub nominated_ids : List DueMeeting → List ℕ
nominated_ids nominated = map (λ due. due.meeting_id) nominated

distinct : (a b : ℕ) → b ≢ a → (a == b) ≡ false
distinct a b other = elim (Bool-cases (a == b)) [
  | inl same ↦ absurd (other (sym ((==_iff a b).0 same)))
  | inr apart ↦ apart
]

distinct-Has :
    (id : ℕ) (row : Row) (rows : List Row)
    → Absent id (ids rows)
    → Has (λ r. r ≡ row) rows
    → (row.meeting.id == id) ≡ false
distinct-Has id row [] absent there = absurd there
distinct-Has id row (r ∷ rows) absent (inl here) =
    distinct row.meeting.id id (λ e. absent.0 (ap (λ (x : Row). x.meeting.id) here ∙ sym e))
distinct-Has id row (r ∷ rows) absent (inr there) = distinct-Has id row rows absent.1 there

module _ (start : ℕ) where
  -- The nomination of a list's first row, by whether it is due.
  named-cons :
      (id : ℕ) (r : Row) (rows : List Row)
      → mem id (nominated_ids (due_meetings start (r ∷ rows))) ≡ (
          let rest = mem id (nominated_ids (due_meetings start rows)) in
          if due_for_deactivation start r
          then (if id == r.meeting.id then true else rest)
          else rest)
  unfolding due_meetings due_meeting
  named-cons id r rows = elim (Bool-cases (due_for_deactivation start r)) [
    | inl due ↦ rw due refl
    | inr idle ↦ rw idle refl
  ]

  named-later :
      (id : ℕ) (r : Row) (rows : List Row)
      → (id == r.meeting.id) ≡ false
      → mem id (nominated_ids (due_meetings start (r ∷ rows)))
        ≡ mem id (nominated_ids (due_meetings start rows))
  named-later id r rows other =
      named-cons id r rows ∙ elim (Bool-cases (due_for_deactivation start r)) [
        | inl due ↦ rw (due, other) refl
        | inr idle ↦ rw idle refl
      ]

  Absent-not_named :
      (id : ℕ) (rows : List Row)
      → Absent id (ids rows)
      → mem id (nominated_ids (due_meetings start rows)) ≡ false
  unfolding due_meetings
  Absent-not_named id [] absent = refl
  Absent-not_named id (r ∷ rows) absent =
      named-later id r rows (distinct id r.meeting.id absent.0) ∙ Absent-not_named id rows absent.1

  -- With distinct ids, a row is nominated exactly where it is due.
  pub named_iff_due :
      (row : Row) (rows : List Row)
      → Unique (ids rows)
      → Has (λ r. r ≡ row) rows
      → mem row.meeting.id (nominated_ids (due_meetings start rows))
        ≡ due_for_deactivation start row
  named_iff_due row [] unique there = absurd there
  named_iff_due row (r ∷ rows) unique (inl here) =
      subst
        (λ x.
          mem x.meeting.id (nominated_ids (due_meetings start (r ∷ rows)))
          ≡ due_for_deactivation start x)
        here
        (named-cons r.meeting.id r rows ∙ elim (Bool-cases (due_for_deactivation start r)) [
          | inl due ↦ rw (due, ==_refl r.meeting.id) refl
          | inr idle ↦ rw idle (Absent-not_named r.meeting.id rows unique.0)
        ])
  named_iff_due row (r ∷ rows) unique (inr there) =
      named-later row.meeting.id r rows (distinct-Has r.meeting.id row rows unique.0 there)
      ∙ named_iff_due row rows unique.1 there
