-- ===== src/Broadcast/Finalize/Totals.antt =====
-- The counts of events/broadcast/finalize.py, and what a second finalization does.
use mitup_telegram_bot.Base.{
  and_false, ℕ, ◌⊎◌, ◌+◌, ◌≡◌, refl, sym, ◌∙◌, ◌==◌, ◌&&◌, Bool, true, false, Option, none, some,
  List, [], ◌∷◌, map, count, find, mem, if◌then◌else◌, arith, inl, inr, Bool-cases, Unique, Absent,
  All, weight, count-cons, count-ext, count-map, count-none,
}
use mitup_telegram_bot.Broadcast.{
  Broadcast, BroadcastMessage, BroadcastStatus, BroadcastDelivery, BroadcastDeliveryStatus, pending,
  retry_pending, in_progress, sent, skipped_inactive, delivery_failed, is_delivery, unfinished,
}
use mitup_telegram_bot.Broadcast.Claiming.{unfinished_of, count_deliveries}
use mitup_telegram_bot.Broadcast.Recording.{Rows}
use mitup_telegram_bot.Broadcast.Finalize.{
  LanguageBreakdown, BroadcastSummary, fail_unattempted_deliveries, aggregate_delivery_counts,
  counted_message, breakdown_line, build_language_breakdown, sum, rolled_up, finalize_broadcast,
}

abbrev pub languages : List BroadcastMessage → List ℕ
languages = map (λ message. message.language)

Absent-mem : (n l : ℕ) (ls : List ℕ) → Absent l ls → (n == l) ≡ true → mem n ls ≡ false
Absent-mem n l [] a e = refl
Absent-mem n l (k ∷ ls) a e = ground (arith, Absent-mem n l ls a.1 e)

one_language :
    (b : Bool) (n l : ℕ) (ls : List ℕ)
    → Absent l ls
    → weight (b && mem n (l ∷ ls)) ≡ weight (b && n == l) + weight (b && mem n ls)
one_language false n l ls a = omega arith
one_language true n l ls a = elim (Bool-cases (n == l)) [
  | inl same ↦ rw (same, Absent-mem n l ls a same) (omega arith)
  | inr other ↦ rw other (omega arith)
]

-- A row's language is counted by one message of distinct languages.
module _ (q : BroadcastDelivery → Bool) where
  split_language :
      (l : ℕ) (ls : List ℕ)
      → Absent l ls
      → (rows : Rows)
      → count (λ row. q row && mem row.language_sent (l ∷ ls)) rows
        ≡ count (λ row. q row && row.language_sent == l) rows
          + count (λ row. q row && mem row.language_sent ls) rows
  split_language l ls a [] = omega arith
  split_language l ls a (row ∷ rows) = omega (
    arith,
    split_language l ls a rows,
    one_language (q row) row.language_sent l ls a,
    count-cons (λ (row : BroadcastDelivery). q row && mem row.language_sent (l ∷ ls)) row rows,
    count-cons (λ (row : BroadcastDelivery). q row && row.language_sent == l) row rows,
    count-cons (λ (row : BroadcastDelivery). q row && mem row.language_sent ls) row rows,
  )

  sum-languages :
      (rows : Rows) (messages : List BroadcastMessage)
      → Unique (languages messages)
      → sum (λ m. count (λ row. q row && row.language_sent == m.language) rows) messages
        ≡ count (λ row. q row && mem row.language_sent (languages messages)) rows
  sum-languages rows [] u =
      sym (count-none (λ (row : BroadcastDelivery). q row && false) (λ row. and_false (q row)) rows)
  sum-languages rows (m ∷ messages) u = omega (
    arith,
    sum-languages rows messages u.1,
    split_language m.language (languages messages) u.0 rows,
  )

sum-ext {ℓ} :
    {A : Type ℓ} (f g : A → ℕ) → ((x : A) → f x ≡ g x) → (xs : List A) → sum f xs ≡ sum g xs
sum-ext f g e [] = refl
sum-ext f g e (x ∷ xs) = omega (arith, e x, sum-ext f g e xs)

sum-map {ℓ κ} :
    {A : Type ℓ} {B : Type κ} (f : B → ℕ) (g : A → B) (xs : List A)
    → sum f (map g xs) ≡ sum (λ x. f (g x)) xs
sum-map f g [] = refl
sum-map f g (x ∷ xs) = omega (arith, sum-map f g xs)

and_order : (a b c : Bool) → (a && (b && c)) ≡ ((a && c) && b)
and_order true true c = go c
  where
    go : (c : Bool) → c ≡ (c && true)
    go true = refl
    go false = refl
and_order true false c = sym (and_false c)
and_order false b c = refl

module _ (id : ℕ) where
  abbrev of_status : BroadcastDeliveryStatus → BroadcastDelivery → Bool
  of_status status row = row.broadcast_id == id && is_delivery row.status status

  sum_status :
      (status : BroadcastDeliveryStatus) (rows : Rows) (messages : List BroadcastMessage)
      → Unique (languages messages)
      → sum (λ m. aggregate_delivery_counts id rows m.language status) messages
        ≡ count (λ row. of_status status row && mem row.language_sent (languages messages)) rows
  unfolding aggregate_delivery_counts
  sum_status status rows messages u =
      sum-ext (λ (m : BroadcastMessage). aggregate_delivery_counts id rows m.language status)
        (λ m. count (λ row. of_status status row && row.language_sent == m.language) rows)
        (λ m.
          count-ext _ _
            (λ row.
              and_order (row.broadcast_id == id) (row.language_sent == m.language)
                (is_delivery row.status status))
            rows)
        messages
      ∙ sum-languages (of_status status) rows messages u

  -- A row of the broadcast is finished, and in a language that has a message.
  abbrev Settled : List ℕ → BroadcastDelivery → Type 0
  Settled ls row =
      (row.broadcast_id == id) ≡ true
      → (unfinished row.status ≡ false) × (mem row.language_sent ls ≡ true)

  four_ways :
      (here known : Bool) (status : BroadcastDeliveryStatus)
      → (here ≡ true → (unfinished status ≡ false) × (known ≡ true))
      → weight ((here && is_delivery status sent) && known)
          + weight ((here && is_delivery status delivery_failed) && known)
          + weight ((here && is_delivery status skipped_inactive) && known)
          + weight ((here && is_delivery status in_progress) && known)
        ≡ weight here
  four_ways false known status h = omega arith
  four_ways true false status h = cc (h refl).1
  four_ways true true pending h = cc (h refl).0
  four_ways true true retry_pending h = cc (h refl).0
  four_ways true true in_progress h = omega arith
  four_ways true true sent h = omega arith
  four_ways true true skipped_inactive h = omega arith
  four_ways true true delivery_failed h = omega arith

  four_counts :
      (ls : List ℕ) (rows : Rows)
      → All (Settled ls) rows
      → count (λ row. of_status sent row && mem row.language_sent ls) rows
          + count (λ row. of_status delivery_failed row && mem row.language_sent ls) rows
          + count (λ row. of_status skipped_inactive row && mem row.language_sent ls) rows
          + count (λ row. of_status in_progress row && mem row.language_sent ls) rows
        ≡ count (λ row. row.broadcast_id == id) rows
  four_counts ls [] s = omega arith
  four_counts ls (row ∷ rows) s =
      let q = λ (status : BroadcastDeliveryStatus) (row : BroadcastDelivery).
        of_status status row && mem row.language_sent ls in
      omega (
        arith,
        four_counts ls rows s.1,
        four_ways (row.broadcast_id == id) (mem row.language_sent ls) row.status s.0,
        count-cons (q sent) row rows,
        count-cons (q delivery_failed) row rows,
        count-cons (q skipped_inactive) row rows,
        count-cons (q in_progress) row rows,
        count-cons (λ (row : BroadcastDelivery). row.broadcast_id == id) row rows,
      )

  -- The broadcast's rows are in languages that have a message.
  abbrev pub InLanguages : List ℕ → BroadcastDelivery → Type 0
  InLanguages ls row = ((row.broadcast_id == id) ≡ false) ⊎ (mem row.language_sent ls ≡ true)

  abbrev failed_if : Bool → BroadcastDelivery → BroadcastDelivery
  failed_if c row = if c then record row { status = delivery_failed } else row

  failed_if-Settled :
      (ls : List ℕ) (row : BroadcastDelivery)
      → InLanguages ls row
      → Settled ls (failed_if (unfinished_of id row) row)
  failed_if-Settled ls row known = elim (Bool-cases (row.broadcast_id == id)) [
    | inr other ↦ rw other (λ e. cc (e, other))
    | inl here ↦ rw here (go (unfinished row.status) refl (in_language known here))
  ]
    where
      in_language :
          InLanguages ls row → (row.broadcast_id == id) ≡ true → mem row.language_sent ls ≡ true
      in_language (inl other) here = cc
      in_language (inr known) here = known

      go :
          (c : Bool)
          → unfinished row.status ≡ c
          → mem row.language_sent ls ≡ true
          → Settled ls (failed_if c row)
      go true e known here = (refl, known)
      go false e known here = (e, known)

  fail_unattempted-Settled :
      (ls : List ℕ) (rows : Rows)
      → All (InLanguages ls) rows
      → All (Settled ls) (fail_unattempted_deliveries id rows).0
  unfolding fail_unattempted_deliveries
  fail_unattempted-Settled ls [] known = tt
  fail_unattempted-Settled ls (row ∷ rows) known =
      (failed_if-Settled ls row known.0, fail_unattempted-Settled ls rows known.1)

  pub count-fail_unattempted :
      (rows : Rows)
      → count_deliveries id (fail_unattempted_deliveries id rows).0 ≡ count_deliveries id rows
  unfolding count_deliveries fail_unattempted_deliveries
  count-fail_unattempted rows =
      count-map (λ (row : BroadcastDelivery). row.broadcast_id == id)
        (λ row. failed_if (unfinished_of id row) row) rows
      ∙ count-ext _ _ (λ row. go (unfinished_of id row) row) rows
    where
      go :
          (c : Bool) (row : BroadcastDelivery)
          → ((failed_if c row).broadcast_id == id) ≡ (row.broadcast_id == id)
      go true row = refl
      go false row = refl

  total_of : Broadcast → ℕ
  total_of b = b.sent_count + b.failed_count + b.skipped_count + b.orphan_count

  rolled_up-total :
      (rows : Rows) (b : Broadcast)
      → Unique (languages b.messages)
      → All (Settled (languages b.messages)) rows
      → (rolled_up id rows b).sent_count
          + (rolled_up id rows b).failed_count
          + (rolled_up id rows b).skipped_count
          + (rolled_up id rows b).orphan_count
        ≡ count_deliveries id rows
  unfolding count_deliveries build_language_breakdown
  rolled_up-total rows b u s =
      let counts = aggregate_delivery_counts id rows in
      let counted = map (counted_message counts) b.messages in
      omega (
        arith,
        four_counts (languages b.messages) rows s,
        sum_status sent rows b.messages u,
        sum_status delivery_failed rows b.messages u,
        sum_status skipped_inactive rows b.messages u,
        sum_status in_progress rows b.messages u,
        sum-map (λ (line : LanguageBreakdown). line.sent) breakdown_line counted,
        sum-map (λ (line : LanguageBreakdown). line.failed) breakdown_line counted,
        sum-map (λ (line : LanguageBreakdown). line.skipped) breakdown_line counted,
        sum-map (λ (line : LanguageBreakdown). line.orphaned) breakdown_line counted,
        sum-map (λ (m : BroadcastMessage). m.sent_count) (counted_message counts) b.messages,
        sum-map (λ (m : BroadcastMessage). m.failed_count) (counted_message counts) b.messages,
        sum-map (λ (m : BroadcastMessage). m.skipped_count) (counted_message counts) b.messages,
        sum-map (λ (m : BroadcastMessage). m.orphan_count) (counted_message counts) b.messages,
      )

abbrev pub Accounts : ℕ → Option (List Broadcast × Rows × BroadcastSummary × Bool × ℕ) → Type 0
Accounts n none = ⊥
Accounts n (some (bs, rows, s, won, bulk_failed)) = s.sent + s.failed + s.skipped + s.orphaned ≡ n

-- A finalization loses no recipient: it succeeds, and what its summary counts as sent, failed,
-- skipped and orphaned adds up to the deliveries of the broadcast. The broadcast is in the table,
-- its messages have distinct languages, and each delivery is in one of them.
pub finalize_broadcast-Accounts :
    (now id : ℕ) (final_status : BroadcastStatus) (bs : List Broadcast) (rows : Rows)
    (b : Broadcast)
    → find (λ (b : Broadcast). b.id == id) bs ≡ some b
    → Unique (languages b.messages)
    → All (InLanguages id (languages b.messages)) rows
    → Accounts (count_deliveries id rows) (finalize_broadcast now id final_status bs rows)
unfolding finalize_broadcast
finalize_broadcast-Accounts now id final_status bs rows b found u known =
    rw (found, finalize_broadcast)
      (rolled_up-total id (fail_unattempted_deliveries id rows).0 b u
          (fail_unattempted-Settled id (languages b.messages) rows known)
        ∙ count-fail_unattempted id rows)
