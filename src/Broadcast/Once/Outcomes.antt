-- ===== src/Broadcast/Once/Outcomes.antt =====
-- What the delivery of one batch, events/broadcast/delivery.py, does with the deliveries that a
-- worker has in its hands.
use mitup_telegram_bot.Base.{
  and_false, ℕ, ◌+◌, ◌≡◌, ◌≤◌, refl, ap, sym, subst, ◌==◌, inl, inr, Bool, true, false, ◌&&◌,
  Option, none, some, List, [], ◌∷◌, count, mem, arith, Bool-cases, count-cons, weight, leb,
}
use mitup_telegram_bot.Broadcast.{
  BroadcastDeliveryStatus, PendingDelivery, DeliveryOutcome, BatchResult, retry_pending,
  delivery_failed, is_delivery, max_delivery_attempts,
}
use mitup_telegram_bot.Broadcast.Delivery.{
  SendResult, returned, inactive_user_interaction, bad_request, network_error, unexpected_error,
  retry_after, Sent, deliver_one, resolve_delivery_outcome, deliver_batch, classified, logged,
  prepend, flood_control_backoff,
}
use mitup_telegram_bot.Broadcast.Recording.{with_status}
use mitup_telegram_bot.Broadcast.Once.{is_settling, in_batch, settlings}

module _ (d : ℕ) where
  abbrev pub retried : List DeliveryOutcome → ℕ
  retried outcomes = count (λ o. o.delivery_id == d) (with_status retry_pending outcomes)

  -- How often the result of a batch puts the delivery back to be claimed again.
  abbrev pub reopened : Option BatchResult → ℕ
  reopened none = 0
  reopened (some result) = retried result.outcomes + in_batch d result.unattempted

  retried_cons :
      (o : DeliveryOutcome) (outcomes : List DeliveryOutcome)
      → retried (o ∷ outcomes)
        ≡ weight (is_delivery o.status retry_pending && o.delivery_id == d) + retried outcomes
  retried_cons o outcomes = elim (Bool-cases (is_delivery o.status retry_pending)) [
    | inr other ↦ rw other (omega arith)
    | inl retry ↦ elim (Bool-cases (o.delivery_id == d)) [
      | inl here ↦ rw (retry, here) (omega arith)
      | inr other ↦ rw (retry, other) (omega arith)
    ]
  ]

  prepend_le :
      (o : DeliveryOutcome) (rest : List Sent × Option BatchResult)
      → reopened (prepend o rest).1
        ≤ weight (is_delivery o.status retry_pending && o.delivery_id == d) + reopened rest.1
  prepend_le o (log, none) = omega arith
  prepend_le o (log, some result) = omega (arith, retried_cons o result.outcomes)

  prepend_log :
      (o : DeliveryOutcome) (rest : List Sent × Option BatchResult) → (prepend o rest).0 ≡ rest.0
  prepend_log o (log, none) = refl
  prepend_log o (log, some result) = refl

  settlings_cons :
      (s : Sent) (log : List Sent)
      → settlings d (s ∷ log)
        ≡ weight (s.delivery_id == d && is_settling s.result) + settlings d log
  settlings_cons s log = count-cons (λ s. s.delivery_id == d && is_settling s.result) s log

  in_batch_cons :
      (p : PendingDelivery) (batch : List PendingDelivery)
      → in_batch d (p ∷ batch) ≡ weight (p.delivery_id == d) + in_batch d batch
  in_batch_cons p batch = count-cons (λ p. p.delivery_id == d) p batch

  two_weights : (a m r : Bool) → (m && r) ≡ false → weight (a && m) + weight (r && a) ≤ weight a
  two_weights true true true e = cc
  two_weights true true false e = omega arith
  two_weights true false true e = omega arith
  two_weights true false false e = omega arith
  two_weights false m true e = omega arith
  two_weights false m false e = omega arith

  module _ (now : ℕ) (p : PendingDelivery) (batch : List PendingDelivery)
      (rest : List Sent × Option BatchResult)
      (bound : settlings d rest.0 + reopened rest.1 ≤ in_batch d batch) where
    abbrev sent_as : SendResult → Sent
    sent_as r = record { delivery_id = p.delivery_id; result = r }

    paid :
        (r : SendResult) (o : DeliveryOutcome)
        → o.delivery_id ≡ p.delivery_id
        → (is_settling r && is_delivery o.status retry_pending) ≡ false
        → weight (p.delivery_id == d && is_settling r)
            + weight (is_delivery o.status retry_pending && o.delivery_id == d)
          ≤ weight (p.delivery_id == d)
    paid r o same once =
        subst
          (λ k.
            weight (p.delivery_id == d && is_settling r)
              + weight (is_delivery o.status retry_pending && k == d)
            ≤ weight (p.delivery_id == d))
          (sym same) (two_weights (p.delivery_id == d) (is_settling r) _ once)

    aborted_le : (r : SendResult) → settlings d (sent_as r ∷ []) + 0 ≤ in_batch d (p ∷ batch)
    aborted_le r = omega (
      arith,
      settlings_cons (sent_as r) [],
      in_batch_cons p batch,
      two_weights (p.delivery_id == d) (is_settling r) false (and_false (is_settling r)),
    )

    halted_le :
        (r : SendResult) (o : DeliveryOutcome) (delay : Option ℕ)
        → o.delivery_id ≡ p.delivery_id
        → is_settling r ≡ false
        → settlings d (sent_as r ∷ [])
            + reopened (
                some (record {
                  outcomes = o ∷ [];
                  flood_control = true;
                  unattempted = batch;
                  flood_backoff = delay;
                }))
          ≤ in_batch d (p ∷ batch)
    halted_le r o delay same lost = omega (
      arith,
      settlings_cons (sent_as r) [],
      in_batch_cons p batch,
      retried_cons o [],
      paid r o same (ap (λ b. b && is_delivery o.status retry_pending) lost),
    )

    went_on_le :
        (r : SendResult) (o : DeliveryOutcome)
        → o.delivery_id ≡ p.delivery_id
        → (is_settling r && is_delivery o.status retry_pending) ≡ false
        → settlings d (sent_as r ∷ (prepend o rest).0) + reopened (prepend o rest).1
          ≤ in_batch d (p ∷ batch)
    went_on_le r o same once = omega (
      arith,
      bound,
      settlings_cons (sent_as r) (prepend o rest).0,
      in_batch_cons p batch,
      prepend_le o rest,
      ap (settlings d) (prepend_log o rest),
      paid r o same once,
    )

    abbrev outcome_as : BroadcastDeliveryStatus → Option ℕ → DeliveryOutcome
    outcome_as status time = record {
      delivery_id = p.delivery_id;
      user_id = p.user_id;
      status = status;
      next_attempt_time = time;
    }

    abbrev one_send : SendResult → List Sent × Option BatchResult
    one_send r = logged (sent_as r) (classified now p (deliver_one r p.attempt_count) batch rest)

    one_send_le :
        (r : SendResult)
        → settlings d (one_send r).0 + reopened (one_send r).1 ≤ in_batch d (p ∷ batch)
    unfolding deliver_one resolve_delivery_outcome
    one_send_le returned = went_on_le returned _ refl refl
    one_send_le inactive_user_interaction = went_on_le inactive_user_interaction _ refl refl
    one_send_le bad_request = went_on_le bad_request _ refl refl
    one_send_le network_error = aborted_le network_error
    one_send_le unexpected_error = elim (Bool-cases (leb max_delivery_attempts p.attempt_count)) [
      | inl capped ↦ rw capped (went_on_le unexpected_error _ refl refl)
      | inr again ↦ rw again (went_on_le unexpected_error _ refl refl)
    ]
    one_send_le (retry_after seconds) =
        elim (Bool-cases (leb max_delivery_attempts p.attempt_count)) [
          | inl capped ↦
              let o = outcome_as delivery_failed none in
              rw capped
                (halted_le (retry_after seconds) o (some (flood_control_backoff seconds)) refl refl)
          | inr again ↦
              let o = outcome_as retry_pending (some (now + flood_control_backoff seconds)) in
              rw again
                (halted_le (retry_after seconds) o (some (flood_control_backoff seconds)) refl refl)
        ]

  -- A delivery of the batch may have arrived, or is put back, or neither, but not both and not
  -- twice.
  pub deliver_batch_le :
      (now : ℕ) (send : PendingDelivery → SendResult) (languages : List ℕ)
      (batch : List PendingDelivery)
      → settlings d (deliver_batch now send languages batch).0
          + reopened (deliver_batch now send languages batch).1
        ≤ in_batch d batch
  unfolding deliver_batch deliver_one
  deliver_batch_le now send languages [] = omega arith
  deliver_batch_le now send languages (p ∷ batch) =
      elim (Bool-cases (mem p.language_sent languages)) [
        | inl viewed ↦ rw viewed (
            one_send_le now p batch (deliver_batch now send languages batch)
              (deliver_batch_le now send languages batch) (send p))
        | inr unviewed ↦ rw unviewed (omega arith)
      ]
