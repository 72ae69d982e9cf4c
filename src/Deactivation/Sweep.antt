-- ===== src/Deactivation/Sweep.antt =====
-- A whole run of the deactivation sweep, among other writers: apps/events/mitup_bot/events/
-- inactive_meetings.py.
use mitup_telegram_bot.Base.{
  ℕ, ◌≡◌, ap, Bool, true, false, List, [], ◌∷◌, map, mem, subst, sym, ◌∙◌, inl, inr, Bool-cases,
  Has, Unique,
}
use mitup_telegram_bot.Deactivation.{
  Row, DueMeeting, MeetingRun, due_for_deactivation, due_meetings, deactivate_all,
}
use mitup_telegram_bot.Deactivation.Named.{ids, nominated_ids, named_iff_due}
use mitup_telegram_bot.Deactivation.Turns.{
  AllCommit, LeftAlone, Retired, row_run, row_run-named, row_run-not_named, deactivate_all-map,
}

-- What becomes of a row, by whether it was due at the start.
abbrev pub Swept : (ℕ → MeetingRun) → Bool → Row → Row → Type 0
Swept runs true row after = Retired runs row after
Swept runs false row after = after ≡ row

Has-map :
    (f : Row → Row) (row : Row) (rows : List Row)
    → Has (λ r. r ≡ row) rows
    → Has (λ r. r ≡ f row) (map f rows)
Has-map f row [] there = there
Has-map f row (r ∷ rows) (inl here) = inl (ap f here)
Has-map f row (r ∷ rows) (inr there) = inr (Has-map f row rows there)

module _ (is_invited : ℕ → Bool) (start : ℕ) where
  row_run-Swept :
      (runs : ℕ → MeetingRun) (nominated : List DueMeeting) (row : Row)
      → AllCommit start runs
      → LeftAlone runs row.meeting.id
      → mem row.meeting.id (nominated_ids nominated) ≡ due_for_deactivation start row
      → Swept runs
          (due_for_deactivation start row)
          row
          (row_run is_invited start runs nominated row)
  row_run-Swept runs nominated row commit alone named =
      elim (Bool-cases (due_for_deactivation start row)) [
        | inl due ↦
            rw due
              (row_run-named is_invited start runs nominated row commit alone due (named ∙ due))
        | inr idle ↦
            rw idle (row_run-not_named is_invited start runs nominated row alone (named ∙ idle))
      ]

  -- A run of the sweep in which no transaction raises, each after the nomination, among other
  -- writers that may change the rows before every turn. A meeting that they leave alone is swept as
  -- it was at the start, however late it gets its turn: one that was due is inactive in the end,
  -- stamped by one of the run's transactions, without links and messages, and one that was not is
  -- as it was. The meetings have distinct ids.
  pub deactivate_all-Swept :
      (runs : ℕ → MeetingRun) (rows : List Row) (row : Row)
      → AllCommit start runs
      → Unique (ids rows)
      → Has (λ r. r ≡ row) rows
      → LeftAlone runs row.meeting.id
      → (after : Row) × (Has
            (λ r. r ≡ after)
            (deactivate_all is_invited runs (due_meetings start rows) rows)
          × Swept runs (due_for_deactivation start row) row after)
  deactivate_all-Swept runs rows row commit unique there alone =
      let nominated = due_meetings start rows in
      (
        row_run is_invited start runs nominated row,
        (
          subst (Has (λ r. r ≡ row_run is_invited start runs nominated row))
              (sym (deactivate_all-map is_invited start runs nominated rows))
              (Has-map (row_run is_invited start runs nominated) row rows there),
          row_run-Swept runs nominated row commit alone (named_iff_due start row rows unique there),
        ),
      )
