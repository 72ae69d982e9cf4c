-- ===== src/Broadcast/Finalize/Twice.antt =====
-- What a second finalization of one broadcast does, events/broadcast/finalize.py: a worker that
-- drained the same broadcast reaches it after the first one has purged the deliveries.
use mitup_telegram_bot.Base.{
  and_false, and_left, ℕ, ◌⊎◌, ◌≡◌, refl, ap, ◌∙◌, ◌==◌, ◌&&◌, Bool, true, false, not, Option, none,
  some, List, [], ◌∷◌, map, count, find, if◌then◌else◌, arith, inl, inr, All, count-filter,
  count-none, count-cons, weight, Option-cases, count-le, IfSome, find-IfSome, subst,
}
use mitup_telegram_bot.Broadcast.{
  Broadcast, BroadcastMessage, BroadcastStatus, BroadcastDelivery, BroadcastDeliveryStatus, sending,
  is_broadcast, is_delivery,
}
use mitup_telegram_bot.Broadcast.Claiming.{count_deliveries}
use mitup_telegram_bot.Broadcast.Recording.{Rows}
use mitup_telegram_bot.Broadcast.Finalize.{
  LanguageBreakdown, BroadcastSummary, fail_unattempted_deliveries, aggregate_delivery_counts,
  counted_message, breakdown_line, build_language_breakdown, sum, rolled_up, transition_to_terminal,
  closes, finalize_broadcast, finalize_and_report, purge_deliveries,
}
use mitup_telegram_bot.Broadcast.Finalize.Totals.{count-fail_unattempted}

module _ (id : ℕ) where
  named : Broadcast → Bool
  named b = b.id == id

  -- No broadcast of this id is SENDING.
  abbrev IsClosed : List Broadcast → Type 0
  IsClosed = All (λ b. closes id b ≡ false)

  closed_row :
      (now : ℕ) (final_status : BroadcastStatus) (c : Bool) (b : Broadcast)
      → is_broadcast final_status sending ≡ false
      → closes id b ≡ c
      → closes id (if c then record b { status = final_status; completed_time = some now } else b)
        ≡ false
  closed_row now final_status true b final e = rw final (and_false (b.id == id))
  closed_row now final_status false b final e = e

  transition-IsClosed :
      (now : ℕ) (final_status : BroadcastStatus) (bs : List Broadcast)
      → is_broadcast final_status sending ≡ false
      → IsClosed (transition_to_terminal now id final_status bs).0
  unfolding transition_to_terminal
  transition-IsClosed now final_status [] final = tt
  transition-IsClosed now final_status (b ∷ bs) final = (
    closed_row now final_status (closes id b) b final refl,
    transition-IsClosed now final_status bs final,
  )

  abbrev put : Broadcast → Broadcast → Broadcast
  put b row = if row.id == id then b else row

  put-IsClosed :
      (b : Broadcast) (bs : List Broadcast)
      → closes id b ≡ false
      → IsClosed bs
      → IsClosed (map (put b) bs)
  put-IsClosed b [] e h = tt
  put-IsClosed b (x ∷ bs) e h = (go (x.id == id), put-IsClosed b bs e h.1)
    where
      go : (c : Bool) → closes id (if c then b else x) ≡ false
      go true = e
      go false = h.0

  IsClosed-count : (bs : List Broadcast) → IsClosed bs → count (closes id) bs ≡ 0
  IsClosed-count [] h = refl
  IsClosed-count (b ∷ bs) h =
      omega (arith, count-cons (closes id) b bs, ap weight h.0, IsClosed-count bs h.1)

  -- The broadcast with all its counts at 0.
  abbrev pub Wiped : Broadcast → Type 0
  Wiped b = (b.sent_count ≡ 0) × (b.failed_count ≡ 0) × (b.skipped_count ≡ 0) × (b.orphan_count ≡ 0)

  no_counts :
      (rows : Rows) (l : ℕ) (status : BroadcastDeliveryStatus)
      → count_deliveries id rows ≡ 0
      → aggregate_delivery_counts id rows l status ≡ 0
  unfolding count_deliveries aggregate_delivery_counts
  no_counts rows l status e = omega (
    arith,
    e,
    count-le
        (λ (row : BroadcastDelivery).
          row.broadcast_id == id && (row.language_sent == l && is_delivery row.status status))
        (λ row. row.broadcast_id == id) (λ row k. and_left _ _ k) rows,
  )

  zero_sum {ℓ} : {A : Type ℓ} (f : A → ℕ) → ((x : A) → f x ≡ 0) → (xs : List A) → sum f xs ≡ 0
  zero_sum f e [] = refl
  zero_sum f e (x ∷ xs) = omega (arith, e x, zero_sum f e xs)

  counted_sum :
      (field : LanguageBreakdown → ℕ) (counts : ℕ → BroadcastDeliveryStatus → ℕ)
      (messages : List BroadcastMessage)
      → ((m : BroadcastMessage) → field (breakdown_line (counted_message counts m)) ≡ 0)
      → sum field (map breakdown_line (map (counted_message counts) messages)) ≡ 0
  counted_sum field counts [] e = refl
  counted_sum field counts (m ∷ messages) e =
      omega (arith, e m, counted_sum field counts messages e)

  rolled_up-Wiped :
      (rows : Rows) (b : Broadcast) → count_deliveries id rows ≡ 0 → Wiped (rolled_up id rows b)
  unfolding build_language_breakdown
  rolled_up-Wiped rows b e =
      let counts = aggregate_delivery_counts id rows in
      (
        counted_sum (λ line. line.sent) counts b.messages (λ m. no_counts rows m.language _ e),
        counted_sum (λ line. line.failed) counts b.messages (λ m. no_counts rows m.language _ e),
        counted_sum (λ line. line.skipped) counts b.messages (λ m. no_counts rows m.language _ e),
        counted_sum (λ line. line.orphaned) counts b.messages (λ m. no_counts rows m.language _ e),
      )

  abbrev pub WipedHere : Broadcast → Type 0
  WipedHere b = ((b.id == id) ≡ false) ⊎ Wiped b

  transition-WipedHere :
      (now : ℕ) (final_status : BroadcastStatus) (b : Broadcast) (bs : List Broadcast)
      → Wiped b
      → All WipedHere (transition_to_terminal now id final_status (map (put b) bs)).0
  unfolding transition_to_terminal
  transition-WipedHere now final_status b [] w = tt
  transition-WipedHere now final_status b (x ∷ bs) w = (
    terminal (closes id (put b x)) (put b x) (here (x.id == id) refl),
    transition-WipedHere now final_status b bs w,
  )
    where
      here : (c : Bool) → (x.id == id) ≡ c → WipedHere (if c then b else x)
      here true e = inr w
      here false e = inl e

      terminal :
          (c : Bool) (y : Broadcast)
          → WipedHere y
          → WipedHere
              (if c then record y { status = final_status; completed_time = some now } else y)
      terminal true y h = h
      terminal false y h = h

  count-purge : (rows : Rows) → count_deliveries id (purge_deliveries id rows) ≡ 0
  unfolding count_deliveries purge_deliveries
  count-purge rows =
      count-filter (λ (row : BroadcastDelivery). row.broadcast_id == id)
        (λ row. not (row.broadcast_id == id)) rows
      ∙ count-none _ (λ row. go (row.broadcast_id == id)) rows
    where
      go : (c : Bool) → (not c && c) ≡ false
      go true = refl
      go false = refl

-- A late finalization sends no summary, and leaves the broadcast with all its counts at 0.
abbrev pub LateOutcome : ℕ → Option (List Broadcast × Rows × Option BroadcastSummary) → Type 0
LateOutcome id none = Unit
LateOutcome id (some (bs, rows, summary)) = (summary ≡ none) × All (WipedHere id) bs

module _ (later id : ℕ) (final_status : BroadcastStatus) (bs : List Broadcast) (rows : Rows)
    (closed : IsClosed id bs) (purged : count_deliveries id rows ≡ 0) where
  lost :
      (b : Broadcast)
      → closes id b ≡ false
      → (transition_to_terminal later id final_status
          (map (put id (rolled_up id (fail_unattempted_deliveries id rows).0 b)) bs)).1
        ≡ false
  unfolding transition_to_terminal build_language_breakdown
  lost b is_open =
      let b' = rolled_up id (fail_unattempted_deliveries id rows).0 b in
      ap (λ n. n == 1)
        (IsClosed-count id (map (put id b') bs) (put-IsClosed id b' bs is_open closed))

  unsent {ℓ} :
      {A : Type ℓ} (won : Bool) (x : A) → won ≡ false → (if won then some x else none) ≡ none
  unsent true x e = cc
  unsent false x e = refl

  late_finalize_and_report : LateOutcome id (finalize_and_report later id final_status bs rows)
  unfolding finalize_and_report finalize_broadcast
  late_finalize_and_report = elim (Option-cases (find (λ (b : Broadcast). b.id == id) bs)) [
    | inl missing ↦ rw (missing, finalize_and_report) tt
    | inr (b, found) ↦
        let flipped = (fail_unattempted_deliveries id rows).0 in
        let b' = rolled_up id flipped b in
        rw (found, finalize_and_report)
          (
            unsent _ _ (
                lost b (
                  subst (IfSome (λ b. closes id b ≡ false)) found (
                    find-IfSome (λ b. closes id b ≡ false) (λ (b : Broadcast). b.id == id) bs
                      closed))),
            transition-WipedHere id later final_status b' bs
                (rolled_up-Wiped id flipped b (count-fail_unattempted id rows ∙ purged)),
          )
  ]

abbrev pub LateAgain :
    ℕ → ℕ → BroadcastStatus → Option (List Broadcast × Rows × Option BroadcastSummary) → Type 0
LateAgain later id final_status none = ⊥
LateAgain later id final_status (some (bs, rows, summary)) =
    LateOutcome id (finalize_and_report later id final_status bs rows)

-- After a finalization with a status that is not SENDING, one that follows on the tables it left,
-- with whatever status, sends no second summary; and if it does not fail, it finds no deliveries
-- and leaves the broadcast with all its counts at 0. The broadcast is in the table at first.
pub late_finalization :
    (now later id : ℕ) (first second : BroadcastStatus) (bs : List Broadcast) (rows : Rows)
    (b : Broadcast)
    → is_broadcast first sending ≡ false
    → find (λ (b : Broadcast). b.id == id) bs ≡ some b
    → LateAgain later id second (finalize_and_report now id first bs rows)
unfolding finalize_broadcast finalize_and_report
late_finalization now later id first second bs rows b final found =
    rw (found, finalize_and_report)
      (late_finalize_and_report later id second _ _ (transition-IsClosed id now first _ final)
        (count-purge id (fail_unattempted_deliveries id rows).0))
