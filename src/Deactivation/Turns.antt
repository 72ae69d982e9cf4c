-- ===== src/Deactivation/Turns.antt =====
-- What the turns of a sweep make of one row: apps/events/mitup_bot/events/
-- inactive_meetings.py.
use mitup_telegram_bot.Base.{
  ℕ, suc, ◌≤◌, ◌≡◌, refl, ap, Bool, true, false, not, ◌&&◌, some, List, [], ◌∷◌, map, mem, ◌==◌,
  arith, and_false, subst, sym, ◌∙◌, inl, inr, Bool-cases,
}
use mitup_telegram_bot.Deactivation.{
  Row, DueMeeting, MeetingRun, due_for_deactivation, deactivate_meeting_locked, clear_meeting_data,
  deactivate_row, deactivate_all,
}
use mitup_telegram_bot.Deactivation.Nomination.{due_mono}
use mitup_telegram_bot.Deactivation.Named.{nominated_ids}

-- The transactions of a run, each after the nomination and none of which raises.
abbrev pub AllCommit : ℕ → (ℕ → MeetingRun) → Type 0
AllCommit start runs = (n : ℕ) → (start ≤ (runs n).now) × ((runs n).raises ≡ false)

-- The other writers leave the meeting alone, whatever they do to the others.
abbrev pub LeftAlone : (ℕ → MeetingRun) → ℕ → Type 0
LeftAlone runs id = (n : ℕ) (row : Row) → row.meeting.id ≡ id → (runs n).meanwhile row ≡ row

-- The row after its deactivation, at the moment of one of the run's transactions.
abbrev pub Retired : (ℕ → MeetingRun) → Row → Row → Type 0
Retired runs row after =
    ((after.meeting.id ≡ row.meeting.id) × (after.meeting.active ≡ false))
    × (((after.meeting.joined_links ≡ []) × (after.meeting.messages ≡ []))
        × ((n : ℕ) × (after.meeting.expiration_time ≡ some (runs n).now)))

module _ (is_invited : ℕ → Bool) (start : ℕ) where
  -- The run, as it reads on one row.
  pub row_run : (ℕ → MeetingRun) → List DueMeeting → Row → Row
  row_run runs [] row = row
  row_run runs (due ∷ nominated) row =
      row_run (λ n. runs (suc n)) nominated
        (deactivate_row is_invited (runs 0) due ((runs 0).meanwhile row))

  abbrev retired : ℕ → Row → Row
  retired now row = record row {
    meeting = record row.meeting {
      active = false;
      expiration_time = some now;
      joined_links = [];
      messages = [];
    };
  }

  deactivate_row-taken :
      (run : MeetingRun) (due : DueMeeting) (row : Row)
      → run.raises ≡ false
      → (row.meeting.id == due.meeting_id) ≡ true
      → due_for_deactivation run.now row ≡ true
      → deactivate_row is_invited run due row ≡ retired run.now row
  unfolding deactivate_row deactivate_meeting_locked clear_meeting_data
  deactivate_row-taken run due row fine same still = rw (fine, same, still) refl

  deactivate_row-other :
      (run : MeetingRun) (due : DueMeeting) (row : Row)
      → (row.meeting.id == due.meeting_id) ≡ false
      → deactivate_row is_invited run due row ≡ row
  unfolding deactivate_row
  deactivate_row-other run due row other = rw (other, and_false (not run.raises)) refl

  inactive-not_due :
      (now : ℕ) (row : Row) → row.meeting.active ≡ false → due_for_deactivation now row ≡ false
  unfolding due_for_deactivation
  inactive-not_due now row e = rw e refl

  deactivate_row-inactive :
      (run : MeetingRun) (due : DueMeeting) (row : Row)
      → row.meeting.active ≡ false
      → deactivate_row is_invited run due row ≡ row
  unfolding deactivate_row deactivate_meeting_locked
  deactivate_row-inactive run due row e =
      elim (Bool-cases (not run.raises && (row.meeting.id == due.meeting_id))) [
        | inl taken ↦ rw (taken, inactive-not_due run.now row e) refl
        | inr passed ↦ rw passed refl
      ]

  row_run-inactive :
      (runs : ℕ → MeetingRun) (nominated : List DueMeeting) (row : Row)
      → LeftAlone runs row.meeting.id
      → row.meeting.active ≡ false
      → row_run runs nominated row ≡ row
  unfolding row_run
  row_run-inactive runs [] row alone e = refl
  row_run-inactive runs (due ∷ nominated) row alone e =
      ap (λ r. row_run (λ n. runs (suc n)) nominated (deactivate_row is_invited (runs 0) due r))
        (alone 0 row refl)
      ∙ ap (row_run (λ n. runs (suc n)) nominated) (deactivate_row-inactive (runs 0) due row e)
      ∙ row_run-inactive (λ n. runs (suc n)) nominated row (λ n. alone (suc n)) e

  row_run-passed :
      (runs : ℕ → MeetingRun) (due : DueMeeting) (nominated : List DueMeeting) (row : Row)
      → LeftAlone runs row.meeting.id
      → (row.meeting.id == due.meeting_id) ≡ false
      → row_run runs (due ∷ nominated) row ≡ row_run (λ n. runs (suc n)) nominated row
  unfolding row_run
  row_run-passed runs due nominated row alone other =
      ap (λ r. row_run (λ n. runs (suc n)) nominated (deactivate_row is_invited (runs 0) due r))
        (alone 0 row refl)
      ∙ ap (row_run (λ n. runs (suc n)) nominated) (deactivate_row-other (runs 0) due row other)

  row_run-taken :
      (runs : ℕ → MeetingRun) (due : DueMeeting) (nominated : List DueMeeting) (row : Row)
      → LeftAlone runs row.meeting.id
      → (runs 0).raises ≡ false
      → (row.meeting.id == due.meeting_id) ≡ true
      → due_for_deactivation (runs 0).now row ≡ true
      → row_run runs (due ∷ nominated) row ≡ retired (runs 0).now row
  unfolding row_run
  row_run-taken runs due nominated row alone fine same still =
      ap (λ r. row_run (λ n. runs (suc n)) nominated (deactivate_row is_invited (runs 0) due r))
        (alone 0 row refl)
      ∙ ap (row_run (λ n. runs (suc n)) nominated)
          (deactivate_row-taken (runs 0) due row fine same still)
      ∙ row_run-inactive (λ n. runs (suc n)) nominated (retired (runs 0).now row)
          (λ n. alone (suc n)) refl

  pub row_run-not_named :
      (runs : ℕ → MeetingRun) (nominated : List DueMeeting) (row : Row)
      → LeftAlone runs row.meeting.id
      → mem row.meeting.id (nominated_ids nominated) ≡ false
      → row_run runs nominated row ≡ row
  unfolding row_run
  row_run-not_named runs [] row alone unnamed = refl
  row_run-not_named runs (due ∷ nominated) row alone unnamed =
      row_run-passed runs due nominated row alone (ground (arith, unnamed))
      ∙ row_run-not_named (λ n. runs (suc n)) nominated row (λ n. alone (suc n))
          (ground (arith, unnamed))

  pub row_run-named :
      (runs : ℕ → MeetingRun) (nominated : List DueMeeting) (row : Row)
      → AllCommit start runs
      → LeftAlone runs row.meeting.id
      → due_for_deactivation start row ≡ true
      → mem row.meeting.id (nominated_ids nominated) ≡ true
      → Retired runs row (row_run runs nominated row)
  row_run-named runs [] row commit alone due named = cc named
  row_run-named runs (d ∷ nominated) row commit alone due named =
      elim (Bool-cases (row.meeting.id == d.meeting_id)) [
        | inl same ↦
            subst (Retired runs row)
              (sym (
                row_run-taken runs d nominated row alone (commit 0).1 same
                  (due_mono start (runs 0).now row due (commit 0).0)))
              ((refl, refl), ((refl, refl), (0, refl)))
        | inr other ↦
            let rest =
              row_run-named (λ n. runs (suc n)) nominated row (λ n. commit (suc n))
                (λ n. alone (suc n)) due (ground (arith, named, other)) in
            subst (Retired runs row) (sym (row_run-passed runs d nominated row alone other))
              (rest.0, (rest.1.0, (suc rest.1.1.0, rest.1.1.1)))
      ]

  -- The loop over the nominations, row by row.
  map-row_run :
      (runs : ℕ → MeetingRun) (due : DueMeeting) (nominated : List DueMeeting) (rows : List Row)
      → map
          (row_run (λ n. runs (suc n)) nominated)
          (map (deactivate_row is_invited (runs 0) due) (map (runs 0).meanwhile rows))
        ≡ map (row_run runs (due ∷ nominated)) rows
  unfolding row_run
  map-row_run runs due nominated [] = refl
  map-row_run runs due nominated (row ∷ rows) =
      ap
        (λ rest.
          row_run (λ n. runs (suc n)) nominated
            (deactivate_row is_invited (runs 0) due ((runs 0).meanwhile row))
          ∷ rest)
        (map-row_run runs due nominated rows)

  map-idle : (runs : ℕ → MeetingRun) (rows : List Row) → rows ≡ map (row_run runs []) rows
  unfolding row_run
  map-idle runs [] = refl
  map-idle runs (row ∷ rows) = ap (λ rest. row ∷ rest) (map-idle runs rows)

  pub deactivate_all-map :
      (runs : ℕ → MeetingRun) (nominated : List DueMeeting) (rows : List Row)
      → deactivate_all is_invited runs nominated rows ≡ map (row_run runs nominated) rows
  unfolding deactivate_all
  deactivate_all-map runs [] rows = map-idle runs rows
  deactivate_all-map runs (due ∷ nominated) rows =
      deactivate_all-map (λ n. runs (suc n)) nominated
        (map (deactivate_row is_invited (runs 0) due) (map (runs 0).meanwhile rows))
      ∙ map-row_run runs due nominated rows
