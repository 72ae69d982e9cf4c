-- ===== src/Broadcast/Once.antt =====
-- That no delivery of events/broadcast is sent twice, however many workers drain the table: how
-- often a delivery is in a worker's hands, may have arrived, or waits to be claimed.
pub mod Outcomes
pub mod Records
pub mod Workers
use mitup_telegram_bot.Base.{
  and_false, and_right, ℕ, suc, ◌+◌, ◌-◌, ◌≡◌, ◌≤◌, refl, ap, sym, ◌∙◌, ◌==◌, inl, inr, ◌⊎◌, Bool,
  true, false, not, ◌&&◌, ◌||◌, Option, none, some, List, [], ◌∷◌, map, filter, count, mem, any,
  take, sort_by, if◌then◌else◌, arith, Bool-cases, ==_iff, count-map, count-filter, count-take,
  count-cons, weight, count-le, count-none, count-zero, count-positive, count-sort_by, leb, is_none,
}
use mitup_telegram_bot.Users.{User}
use mitup_telegram_bot.Broadcast.{
  BroadcastDelivery, BroadcastDeliveryStatus, PendingDelivery, DeliveryClassification,
  DeliveryOutcome, BatchResult, pending, in_progress, retry_pending, sent, skipped_inactive,
  delivery_failed, is_delivery, unfinished, broadcast_batch_size, max_delivery_attempts,
}
use mitup_telegram_bot.Broadcast.Claiming.{
  claimable, is_due, claim_ids, claimed_row, pending_delivery, claim_pending_batch,
}
use mitup_telegram_bot.Broadcast.Delivery.{
  SendResult, returned, network_error, unexpected_error, inactive_user_interaction, bad_request,
  retry_after, Sent, deliver_one, resolve_delivery_outcome, deliver_batch, outcome, classified,
  after_send,
}
use mitup_telegram_bot.Broadcast.Recording.{
  Rows, with_status, outcome_ids, mark_deliveries, schedule_retries, release_unattempted,
  record_outcomes, released, record_batch_outcomes, some_or,
}

-- A send after which nobody sends the delivery again, though its message may be with its recipient:
-- one that returned, and one that the network cut off.
abbrev pub is_settling : SendResult → Bool
is_settling returned = true
is_settling network_error = true
is_settling _ = false

-- A send that another exception ended: it is retried, and its message may have arrived too.
abbrev pub is_unexpected : SendResult → Bool
is_unexpected unexpected_error = true
is_unexpected _ = false

-- Telegram refuses the message for flood control, for a bad request and for a recipient out of reach;
-- after any other end it may have taken the message.
abbrev pub may_have_arrived : SendResult → Bool
may_have_arrived returned = true
may_have_arrived network_error = true
may_have_arrived unexpected_error = true
may_have_arrived inactive_user_interaction = false
may_have_arrived bad_request = false
may_have_arrived (retry_after seconds) = false

module _ (d : ℕ) where
  abbrev pub rows_of : Rows → ℕ
  rows_of = count (λ row. row.id == d)

  -- Rows of the delivery that a claim may still take, now or later.
  abbrev pub open_rows : Rows → ℕ
  open_rows = count (λ row. row.id == d && unfinished row.status)

  abbrev pub in_batch : List PendingDelivery → ℕ
  in_batch = count (λ p. p.delivery_id == d)

  abbrev pub settlings : List Sent → ℕ
  settlings = count (λ s. s.delivery_id == d && is_settling s.result)

  abbrev pub arrivals : List Sent → ℕ
  arrivals = count (λ s. s.delivery_id == d && may_have_arrived s.result)

  abbrev pub unexpected_ends : List Sent → ℕ
  unexpected_ends = count (λ s. s.delivery_id == d && is_unexpected s.result)

  arrivals_by :
      (here : Bool) (r : SendResult)
      → weight (here && may_have_arrived r)
        ≡ weight (here && is_settling r) + weight (here && is_unexpected r)
  arrivals_by true returned = refl
  arrivals_by true network_error = refl
  arrivals_by true unexpected_error = refl
  arrivals_by true inactive_user_interaction = refl
  arrivals_by true bad_request = refl
  arrivals_by true (retry_after seconds) = refl
  arrivals_by false r = refl

  -- Each send that may have arrived is a settling one, or has ended unexpectedly.
  pub arrivals_split : (log : List Sent) → arrivals log ≡ settlings log + unexpected_ends log
  arrivals_split [] = refl
  arrivals_split (s ∷ log) = omega (
    arith,
    arrivals_split log,
    arrivals_by (s.delivery_id == d) s.result,
    count-cons (λ (s : Sent). s.delivery_id == d && may_have_arrived s.result) s log,
    count-cons (λ (s : Sent). s.delivery_id == d && is_settling s.result) s log,
    count-cons (λ (s : Sent). s.delivery_id == d && is_unexpected s.result) s log,
  )

  pub open_le_rows : (rows : Rows) → open_rows rows ≤ rows_of rows
  open_le_rows = count-le _ _ (λ row e. ground arith)

  -- A statement that keeps the rows' ids.
  module _ (f : BroadcastDelivery → BroadcastDelivery)
      (same : (row : BroadcastDelivery) → (f row).id ≡ row.id) where
    pub rows_of-map : (rows : Rows) → rows_of (map f rows) ≡ rows_of rows
    rows_of-map [] = refl
    rows_of-map (r ∷ rows) = ground (arith, rows_of-map rows, same r)

    -- One that opens no row of the delivery.
    pub open_rows-map :
        ((row : BroadcastDelivery)
          → ((f row).id == d && unfinished (f row).status) ≡ true
          → (row.id == d && unfinished row.status) ≡ true)
        → (rows : Rows) → open_rows (map f rows) ≤ open_rows rows
    open_rows-map h [] = omega arith
    open_rows-map h (r ∷ rows) = ground (arith, open_rows-map h rows, h r)

    pub open_rows-map_one : (rows : Rows) → open_rows (map f rows) ≤ rows_of rows
    open_rows-map_one rows = omega (arith, open_le_rows (map f rows), rows_of-map rows)

  -- The tests of a claim, over their parts.
  selected_open :
      (w p r u l e e' : Bool)
      → (e ≡ true → e' ≡ true)
      → (((w && (p || (r && u))) && l) && e) ≡ true
      → (e' && (p || r)) ≡ true
  selected_open true p r u true true e' h k = rw (h refl) (part p r u k)
    where
      part : (p r u : Bool) → (((p || (r && u)) && true) && true) ≡ true → (p || r) ≡ true
      part true r u k = refl
      part false true u k = refl
      part false false u k = cc
  selected_open true p r u false e e' h k = ground arith
  selected_open true p r u true false e' h k = ground arith
  selected_open false p r u l e e' h k = ground arith

  eq_flip : (n : ℕ) → (d == n) ≡ true → (n == d) ≡ true
  eq_flip n e = (==_iff n d).1 (sym ((==_iff d n).0 e))

  -- A row that is claimed under the condition `c`.
  abbrev claimed_if : Bool → BroadcastDelivery → BroadcastDelivery
  claimed_if c row = if c then claimed_row row else row

  claimed_if_id : (c : Bool) (row : BroadcastDelivery) → (claimed_if c row).id ≡ row.id
  claimed_if_id true row = refl
  claimed_if_id false row = refl

  claimed_if-closed :
      (c : Bool) (row : BroadcastDelivery)
      → ((row.id == d) ≡ true → c ≡ true)
      → ((claimed_if c row).id == d && unfinished (claimed_if c row).status) ≡ false
  claimed_if-closed true row h = and_false (row.id == d)
  claimed_if-closed false row h = elim (Bool-cases (row.id == d)) [
    | inl here ↦ cc (h here)
    | inr other ↦ rw other refl
  ]

  claimed_if-keeps :
      (c : Bool) (row : BroadcastDelivery)
      → ((claimed_if c row).id == d && unfinished (claimed_if c row).status) ≡ true
      → (row.id == d && unfinished row.status) ≡ true
  claimed_if-keeps true row k = cc (and_false (row.id == d))
  claimed_if-keeps false row k = k

  same_mem : (ids : List ℕ) (n : ℕ) → (n == d) ≡ true → mem n ids ≡ mem d ids
  same_mem ids n e = ap (λ k. mem k ids) ((==_iff n d).0 e)

  apart : (ids : List ℕ) (n : ℕ) → mem d ids ≡ false → (mem n ids && n == d) ≡ false
  apart ids n e = elim (Bool-cases (n == d)) [
    | inl here ↦ rw (same_mem ids n here, e) refl
    | inr other ↦ rw other (and_false (mem n ids))
  ]

  module _ (now : ℕ) (locked : ℕ → Bool) (b : ℕ) where
    abbrev selected : BroadcastDelivery → Bool
    selected row = claimable now b row && not (locked row.id)

    picked :
        (row : BroadcastDelivery)
        → (selected row && d == row.id) ≡ true
        → (row.id == d && unfinished row.status) ≡ true
    picked row k =
        selected_open (row.broadcast_id == b) (is_delivery row.status pending)
          (is_delivery row.status retry_pending) (is_due now row.next_attempt_time)
          (not (locked row.id)) (d == row.id) (row.id == d) (eq_flip row.id) k

    -- A claimed id is the id of an open row.
    claimed-open : (rows : Rows) → mem d (claim_ids now locked b rows) ≡ true → 1 ≤ open_rows rows
    claimed-open rows e =
        let ids = map (λ (row : BroadcastDelivery). row.id) (filter selected rows) in
        omega (
          arith,
          count-positive (λ n. d == n) (claim_ids now locked b rows) e,
          count-take (λ n. d == n) broadcast_batch_size (sort_by (λ n. n) ids),
          count-sort_by (λ n. n) (λ n. d == n) ids,
          count-map (λ n. d == n) (λ (row : BroadcastDelivery). row.id) (filter selected rows),
          count-filter (λ (row : BroadcastDelivery). d == row.id) selected rows,
          count-le (λ row. selected row && d == row.id)
              (λ row. row.id == d && unfinished row.status) picked rows,
        )

    in_batch-claim :
        (rows : Rows)
        → in_batch (claim_pending_batch now locked b rows).1
          ≡ count (λ row. mem row.id (claim_ids now locked b rows) && row.id == d) rows
    unfolding claim_pending_batch
    in_batch-claim rows =
        let ids = claim_ids now locked b rows in
        let taken = filter (λ (row : BroadcastDelivery). mem row.id ids) rows in
        count-sort_by (λ (p : PendingDelivery). p.delivery_id) (λ p. p.delivery_id == d)
          (map pending_delivery (map claimed_row taken))
        ∙ count-map (λ p. p.delivery_id == d) pending_delivery (map claimed_row taken)
        ∙ count-map (λ row. row.id == d) claimed_row taken
        ∙ count-filter (λ row. row.id == d) (λ row. mem row.id ids) rows

    pub rows_of-claim :
        (rows : Rows) → rows_of (claim_pending_batch now locked b rows).0 ≡ rows_of rows
    unfolding claim_pending_batch
    rows_of-claim rows = rows_of-map _ (λ row. claimed_if_id _ row) rows

    claim-closes :
        (rows : Rows)
        → mem d (claim_ids now locked b rows) ≡ true
        → open_rows (claim_pending_batch now locked b rows).0 ≡ 0
    unfolding claim_pending_batch
    claim-closes rows e =
        let ids = claim_ids now locked b rows in
        count-map (λ (row : BroadcastDelivery). row.id == d && unfinished row.status)
          (λ row. if mem row.id ids then claimed_row row else row) rows
        ∙ count-none _ (λ row. claimed_if-closed _ row (λ k. same_mem ids row.id k ∙ e)) rows

    claim-keeps :
        (rows : Rows)
        → mem d (claim_ids now locked b rows) ≡ false
        → open_rows (claim_pending_batch now locked b rows).0 ≤ open_rows rows
    unfolding claim_pending_batch
    claim-keeps rows e =
        let ids = claim_ids now locked b rows in
        open_rows-map (λ row. if mem row.id ids then claimed_row row else row)
          (λ row. claimed_if_id _ row) (λ row k. claimed_if-keeps _ row k) rows

    -- What a claim takes into a worker's hands, it takes from the open rows.
    pub claim-conserves :
        (rows : Rows)
        → rows_of rows ≤ 1
        → open_rows (claim_pending_batch now locked b rows).0
            + in_batch (claim_pending_batch now locked b rows).1
          ≤ open_rows rows
    claim-conserves rows one = elim (Bool-cases (mem d (claim_ids now locked b rows))) [
      | inl taken ↦ omega (
        arith,
        one,
        claimed-open rows taken,
        claim-closes rows taken,
        in_batch-claim rows,
        count-le (λ row. mem row.id (claim_ids now locked b rows) && row.id == d)
            (λ row. row.id == d) (λ row e. and_right _ _ e) rows,
      )
      | inr left ↦ omega (
        arith,
        claim-keeps rows left,
        in_batch-claim rows,
        count-none (λ row. mem row.id (claim_ids now locked b rows) && row.id == d)
            (λ row. apart (claim_ids now locked b rows) row.id left) rows,
      )
    ]
