-- ===== src/PendingLinks/Tests.antt =====
-- Runs of the pending links, and instances of the theorems about them.
use mitup_telegram_bot.Base.{
  List, Unique, ℕ, ◌+◌, ◌≡◌, ◌≢◌, ◌↔◌, refl, none, some, [], ◌∷◌, ltb, ◌&&◌, if◌then◌else◌, arith,
}
use mitup_telegram_bot.Supporter.{host_1, host_2}
use mitup_telegram_bot.PendingLinks.{
  PatreonPendingLink, ClaimedLink, unclaimed, staged, classify_claim_failure,
  pairing_code_ttl_seconds, claim_pending_link, consume_pending_link, claimed_by_other,
  delete_finished_pending_links,
}
use mitup_telegram_bot.PendingLinks.Table.{hashes, row_of}
use mitup_telegram_bot.PendingLinks.Spec.{
  Rows, run, stage, claim, consume, sweep, erase_users, Statement,
}
use mitup_telegram_bot.PendingLinks.Refinement.{Implements, run-Implements}
use mitup_telegram_bot.PendingLinks.Redeem.{run_all, consumed_once, claim_binds}
use mitup_telegram_bot.PendingLinks.Unnoticed.{answers, sweep_unnoticed}
use mitup_telegram_bot.PendingLinks.Expiry.{redeem_in_time, classify_explains, UsableUnclaimed}

-- A stand-in for SHA-256.
abbrev digest : ℕ → ℕ
digest code = code + 1000

abbrev fresh_row : PatreonPendingLink
fresh_row = staged 1001 70 (some 7) host_2 100

abbrev claimed_row : PatreonPendingLink
claimed_row = record fresh_row { claimed_tg_user_id = some 5; claimed_time = some 120 }

abbrev spent_row : PatreonPendingLink
spent_row = record (staged 1002 80 none host_1 50) {
  claimed_tg_user_id = some 6;
  claimed_time = some 60;
  consumed_time = some 70;
}

abbrev two_rows : Rows
two_rows = spent_row ∷ fresh_row ∷ []

abbrev claimed_rows : Rows
claimed_rows = spent_row ∷ claimed_row ∷ []

abbrev granted : ClaimedLink
granted = record { patreon_user_id = 70; patreon_full_name = some 7; granted_level = host_2 }

claimed_test : claim_pending_link digest 120 two_rows 1 5 ≡ (claimed_rows, some granted)
unfolding claim_pending_link
claimed_test = refl

late_test : (claim_pending_link digest 1000 two_rows 1 5).1 ≡ none
unfolding claim_pending_link
late_test = refl

forged_test : (consume_pending_link digest 130 two_rows 1 5).1 ≡ none
unfolding consume_pending_link
forged_test = refl

taken_test : classify_claim_failure digest 130 claimed_rows 1 6 ≡ claimed_by_other
unfolding classify_claim_failure
taken_test = refl

swept_test : delete_finished_pending_links 130 two_rows ≡ (fresh_row ∷ [], 1)
unfolding delete_finished_pending_links
swept_test = refl

distinct_two : Unique (hashes two_rows)
distinct_two = ((ground arith, tt), (tt, tt))

distinct_claimed : Unique (hashes claimed_rows)
distinct_claimed = ((ground arith, tt), (tt, tt))

run-Implements_example :
    Implements digest (claim 120 1 5) two_rows (run digest (claim 120 1 5) two_rows) 1001
run-Implements_example = run-Implements digest (claim 120 1 5) two_rows 1001 distinct_two

consumes : (run digest (consume 130 1 5) claimed_rows).1 ≡ some granted
unfolding consume_pending_link
consumes = refl

claims : (run digest (claim 120 1 5) two_rows).1 ≡ some granted
unfolding claim_pending_link
claims = refl

consumed_once_example :
    let after =
      run_all digest
        (sweep 140 ∷ claim 150 2 6 ∷ [])
        (run digest (consume 130 1 5) claimed_rows).0 in
    ((run digest (claim 160 1 6) after).1 ≡ none) × ((run digest (consume 160 1 6) after).1 ≡ none)
consumed_once_example =
    consumed_once digest claimed_rows distinct_claimed 1 130 5 granted
      (sweep 140 ∷ claim 150 2 6 ∷ []) 160 6 consumes (tt, (tt, tt))

claim_binds_example :
    let after =
      run_all digest
        (erase_users (9 ∷ []) ∷ claim 150 1 6 ∷ [])
        (run digest (claim 120 1 5) two_rows).0 in
    ((run digest (claim 160 1 6) after).1 ≡ none) × ((run digest (consume 160 1 6) after).1 ≡ none)
claim_binds_example =
    claim_binds digest two_rows distinct_two 1 120 5 granted
      (erase_users (9 ∷ []) ∷ claim 150 1 6 ∷ []) 160 6 claims (tt, (tt, tt)) (ground arith)

redeem_in_time_example :
    let after_stage = (run digest (stage 100 3 90 none host_1) two_rows).0 in
    let after_claim = (run digest (claim 200 3 8) after_stage).0 in
    (run digest (consume 999 3 8) after_claim).1 ≡ (
      if ltb 200 (100 + pairing_code_ttl_seconds) && ltb 999 (100 + pairing_code_ttl_seconds)
      then some (record { patreon_user_id = 90; patreon_full_name = none; granted_level = host_1 })
      else none)
redeem_in_time_example =
    redeem_in_time digest two_rows distinct_two 3 100 200 999 90 8 none host_1 refl

-- A new code is staged and redeemed after the sweep, and an old one is tried.
abbrev later_statements : List Statement
later_statements = stage 130 9 71 none host_1 ∷ claim 140 1 5 ∷ claim 141 9 6 ∷ consume 150 9 6 ∷ []

sweep_unnoticed_example :
    answers digest later_statements (run digest (sweep 130) two_rows).0
    ≡ answers digest later_statements two_rows
sweep_unnoticed_example =
    sweep_unnoticed digest 130 two_rows later_statements distinct_two
      (refl, (omega arith, (omega arith, (omega arith, tt))))

classify_explains_example :
    let why = classify_claim_failure digest 130 two_rows 1 5 in
    (((run digest (claim 130 1 5) two_rows).1 ≡ none) ↔ (why ≢ unclaimed))
    × ((((run digest (consume 130 1 5) two_rows).1 ≡ none) × (why ≡ unclaimed))
        ↔ UsableUnclaimed 130 (row_of 1001 two_rows))
classify_explains_example = classify_explains digest two_rows distinct_two 1 130 5
