-- ===== src/Broadcast/Once/Records.antt =====
-- What the recording of one batch, events/broadcast/recording.py, opens of the deliveries that the
-- batch put back.
use mitup_telegram_bot.Base.{
  and_false, and_left, ℕ, ◌+◌, ◌≡◌, ◌≤◌, refl, ap, sym, ◌∙◌, ◌==◌, inl, inr, Bool, true, false,
  ◌&&◌, Option, none, some, List, [], ◌∷◌, map, count, mem, if◌then◌else◌, arith, Bool-cases,
  ==_iff, count-map, count-le, count-cons, weight, ◌-◌, count-positive,
}
use mitup_telegram_bot.Users.{User}
use mitup_telegram_bot.Broadcast.{
  BroadcastDelivery, BroadcastDeliveryStatus, PendingDelivery, DeliveryOutcome, BatchResult,
  retry_pending, sent, skipped_inactive, delivery_failed, unfinished,
}
use mitup_telegram_bot.Broadcast.Recording.{
  Rows, with_status, outcome_ids, mark_deliveries, schedule_retries, release_unattempted,
  record_outcomes, released, with_users, deactivate_skipped_users, record_batch_outcomes, some_or,
}
use mitup_telegram_bot.Broadcast.Once.{
  rows_of, open_rows, rows_of-map, open_rows-map, open_rows-map_one, in_batch,
}
use mitup_telegram_bot.Broadcast.Once.Outcomes.{retried, reopened}

module _ (d : ℕ) where
  module _ (c : BroadcastDelivery → Bool) (f : BroadcastDelivery → BroadcastDelivery)
      (same : (row : BroadcastDelivery) → (f row).id ≡ row.id) where
    abbrev written : Bool → BroadcastDelivery → BroadcastDelivery
    written b row = if b then f row else row

    written_id : (b : Bool) (row : BroadcastDelivery) → (written b row).id ≡ row.id
    written_id true row = same row
    written_id false row = refl

    pub write_keeps :
        (rows : Rows) → rows_of d (map (λ row. written (c row) row) rows) ≡ rows_of d rows
    write_keeps rows = rows_of-map d _ (λ row. written_id (c row) row) rows

    -- A statement that closes each row it writes opens none.
    pub write_closing :
        ((row : BroadcastDelivery) → unfinished (f row).status ≡ false)
        → (rows : Rows) → open_rows d (map (λ row. written (c row) row) rows) ≤ open_rows d rows
    write_closing closed rows =
        open_rows-map d _ (λ row. written_id (c row) row) (λ row. opens (c row) row) rows
      where
        opens :
            (b : Bool) (row : BroadcastDelivery)
            → ((written b row).id == d && unfinished (written b row).status) ≡ true
            → (row.id == d && unfinished row.status) ≡ true
        opens true row k = cc (k, closed row, and_false ((f row).id == d))
        opens false row k = k

    -- A statement that leaves the delivery's rows alone opens none of them.
    write_elsewhere :
        ((row : BroadcastDelivery) → (row.id == d) ≡ true → c row ≡ false)
        → (rows : Rows) → open_rows d (map (λ row. written (c row) row) rows) ≤ open_rows d rows
    write_elsewhere other rows =
        open_rows-map d _ (λ row. written_id (c row) row) (λ row. opens (c row) row (other row))
          rows
      where
        opens :
            (b : Bool) (row : BroadcastDelivery)
            → ((row.id == d) ≡ true → b ≡ false)
            → ((written b row).id == d && unfinished (written b row).status) ≡ true
            → (row.id == d && unfinished row.status) ≡ true
        opens true row h k =
            let here = and_left ((f row).id == d) _ k in
            cc (h (ap (λ n. n == d) (sym (same row)) ∙ here))
        opens false row h k = k

    -- Any statement opens at most the delivery's rows.
    write_any : (rows : Rows) → open_rows d (map (λ row. written (c row) row) rows) ≤ rows_of d rows
    write_any rows = open_rows-map_one d _ (λ row. written_id (c row) row) rows

  same_mem : (ids : List ℕ) (n : ℕ) → (n == d) ≡ true → mem n ids ≡ mem d ids
  same_mem ids n e = ap (λ k. mem k ids) ((==_iff n d).0 e)

  abbrev pub Bounded : ℕ → Rows → Rows → Type 0
  Bounded k rows rows' =
      (rows_of d rows' ≡ rows_of d rows) × (open_rows d rows' ≤ open_rows d rows + k)

  mark-Bounded :
      (outcomes : List DeliveryOutcome) (status : BroadcastDeliveryStatus) (time : Option ℕ)
      → unfinished status ≡ false
      → (rows : Rows) → Bounded 0 rows (mark_deliveries outcomes status time rows)
  unfolding mark_deliveries
  mark-Bounded outcomes status time closed rows = (
    write_keeps _ _ (λ row. refl) rows,
    omega (
      arith,
      write_closing (λ row. mem row.id (outcome_ids outcomes))
          (λ row. record row { status = status; sent_time = some_or time row.sent_time })
          (λ row. refl) (λ row. closed) rows,
    ),
  )

  differs : (n m : ℕ) → (n == d) ≡ true → (m == d) ≡ false → (n == m) ≡ false
  differs n m e k = elim (Bool-cases (n == m)) [
    | inl same ↦ cc (e, k, ap (λ j. j == d) ((==_iff n m).0 same))
    | inr apart ↦ apart
  ]

  schedule-Bounded :
      (outcomes : List DeliveryOutcome) (rows : Rows)
      → rows_of d rows ≤ 1
      → Bounded (count (λ o. o.delivery_id == d) outcomes) rows (schedule_retries outcomes rows)
  unfolding schedule_retries
  schedule-Bounded [] rows one = (refl, omega arith)
  schedule-Bounded (o ∷ outcomes) rows one =
      let c = λ (row : BroadcastDelivery). row.id == o.delivery_id in
      let f = λ (row : BroadcastDelivery). record row {
        status = retry_pending;
        next_attempt_time = o.next_attempt_time;
      } in
      let kept = write_keeps c f (λ row. refl) rows in
      let next = map (λ (row : BroadcastDelivery). written c f (λ row. refl) (c row) row) rows in
      let rest = schedule-Bounded outcomes next (omega (arith, one, kept)) in
      (
        rest.0 ∙ kept,
        elim (Bool-cases (o.delivery_id == d)) [
          | inl here ↦ omega (
            arith,
            one,
            rest.1,
            count-cons (λ (o : DeliveryOutcome). o.delivery_id == d) o outcomes,
            ap weight here,
            write_any c f (λ row. refl) rows,
          )
          | inr other ↦ omega (
            arith,
            rest.1,
            count-cons (λ (o : DeliveryOutcome). o.delivery_id == d) o outcomes,
            write_elsewhere c f (λ row. refl) (λ row e. differs row.id o.delivery_id e other) rows,
          )
        ],
      )

  release-Bounded :
      (now : ℕ) (unattempted : List PendingDelivery) (backoff : ℕ) (rows : Rows)
      → rows_of d rows ≤ 1
      → Bounded (in_batch d unattempted) rows (release_unattempted now unattempted backoff rows)
  unfolding release_unattempted
  release-Bounded now unattempted backoff rows one =
      let ids = map (λ (p : PendingDelivery). p.delivery_id) unattempted in
      let c = λ (row : BroadcastDelivery). mem row.id ids in
      let f = λ (row : BroadcastDelivery). record row {
        status = retry_pending;
        next_attempt_time = some (now + backoff);
        attempt_count = row.attempt_count - 1;
      } in
      (
        write_keeps c f (λ row. refl) rows,
        elim (Bool-cases (mem d ids)) [
          | inl taken ↦
              omega (arith, one, write_any c f (λ row. refl) rows, listed unattempted taken)
          | inr left ↦ omega (
            arith,
            write_elsewhere c f (λ row. refl) (λ row e. same_mem ids row.id e ∙ left) rows,
          )
        ],
      )
    where
      listed :
          (ps : List PendingDelivery)
          → mem d (map (λ (p : PendingDelivery). p.delivery_id) ps) ≡ true
          → 1 ≤ in_batch d ps
      listed ps e = omega (
        arith,
        count-positive (λ n. d == n) (map (λ (p : PendingDelivery). p.delivery_id) ps) e,
        count-map (λ n. d == n) (λ (p : PendingDelivery). p.delivery_id) ps,
        count-le (λ (p : PendingDelivery). d == p.delivery_id) (λ p. p.delivery_id == d)
            (λ p k. flip p.delivery_id k) ps,
      )
        where
          flip : (n : ℕ) → (d == n) ≡ true → (n == d) ≡ true
          flip n e = (==_iff n d).1 (sym ((==_iff d n).0 e))

  trans-Bounded : (j k : ℕ) (a b c : Rows) → Bounded j a b → Bounded k b c → Bounded (j + k) a c
  trans-Bounded j k a b c p q = (q.0 ∙ p.0, omega (arith, p.1, q.1))

  outcomes-Bounded :
      (now : ℕ) (outcomes : List DeliveryOutcome) (rows : Rows)
      → rows_of d rows ≤ 1
      → Bounded (retried d outcomes) rows (record_outcomes now outcomes rows)
  outcomes-Bounded now outcomes rows one =
      let r₁ = mark_deliveries (with_status sent outcomes) sent (some now) rows in
      let r₂ = mark_deliveries (with_status delivery_failed outcomes) delivery_failed none r₁ in
      let r₃ = schedule_retries (with_status retry_pending outcomes) r₂ in
      let a = mark-Bounded (with_status sent outcomes) sent (some now) refl rows in
      let b = mark-Bounded (with_status delivery_failed outcomes) delivery_failed none refl r₁ in
      let c =
        schedule-Bounded (with_status retry_pending outcomes) r₂ (omega (arith, one, a.0, b.0)) in
      let e = mark-Bounded (with_status skipped_inactive outcomes) skipped_inactive none refl r₃ in
      (e.0 ∙ c.0 ∙ b.0 ∙ a.0, omega (arith, a.1, b.1, c.1, e.1))

  abbrev Released : ℕ → Rows → Option Rows → Type 0
  Released k rows none = Unit
  Released k rows (some rows') = Bounded k rows rows'

  released-Released :
      (now : ℕ) (unattempted : List PendingDelivery) (backoff : Option ℕ) (rows : Rows)
      → rows_of d rows ≤ 1
      → Released (in_batch d unattempted) rows (released now unattempted backoff rows)
  released-Released now [] backoff rows one = (refl, omega arith)
  released-Released now (p ∷ ps) none rows one = tt
  released-Released now (p ∷ ps) (some backoff) rows one =
      release-Bounded now (p ∷ ps) backoff rows one

  abbrev pub Recorded : ℕ → Rows → Option (Rows × List User × ℕ) → Type 0
  Recorded k rows none = Unit
  Recorded k rows (some (rows', users', left)) = Bounded k rows rows'

  with_users-Recorded :
      (j k : ℕ) (rows between : Rows) (after : Option Rows) (left : List User × ℕ)
      → Bounded j rows between
      → Released k between after
      → Recorded (j + k) rows (with_users after left)
  with_users-Recorded j k rows between none left p q = tt
  with_users-Recorded j k rows between (some after) left p q =
      trans-Bounded j k rows between after p q

  -- What a batch's recording opens of the delivery, the result of the batch had put back.
  pub record_batch_outcomes-Recorded :
      (now : ℕ) (result : BatchResult) (rows : Rows) (users : List User)
      → rows_of d rows ≤ 1
      → Recorded (reopened d (some result)) rows (record_batch_outcomes now result rows users)
  unfolding record_batch_outcomes
  record_batch_outcomes-Recorded now result rows users one =
      let between = record_outcomes now result.outcomes rows in
      let first = outcomes-Bounded now result.outcomes rows one in
      with_users-Recorded (retried d result.outcomes) (in_batch d result.unattempted) rows between
        (released now result.unattempted result.flood_backoff between)
        (deactivate_skipped_users now (with_status skipped_inactive result.outcomes) users) first
        (released-Released now result.unattempted result.flood_backoff between
          (omega (arith, one, first.0)))
