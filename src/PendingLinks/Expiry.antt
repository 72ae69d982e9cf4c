-- ===== src/PendingLinks/Expiry.antt =====
-- Until when a code of pending_links.py is redeemed, and what a failed redemption is put down to.
use mitup_telegram_bot.Base.{
  ℕ, ◌+◌, ◌≡◌, ◌≢◌, refl, ap, sym, ◌∙◌, ◌↔◌, true, false, not, ◌&&◌, Option, none, some, ltb, leb,
  opt_eq, is_none, any, if◌then◌else◌, Unique, arith,
}
use mitup_telegram_bot.Supporter.{SupporterLevel}
use mitup_telegram_bot.PendingLinks.{
  ClaimFailure, unknown_code, consumed, claimed_by_other, expired, unclaimed, has_hash, staged,
  to_claimed_link, classify_claim_failure, pairing_code_ttl_seconds,
}
use mitup_telegram_bot.PendingLinks.Table.{hashes, row_of}
use mitup_telegram_bot.PendingLinks.Spec.{
  stage, claim, consume, Rows, run, Cell, cell_stage, usable, cell_claim, cell_consume,
}
use mitup_telegram_bot.PendingLinks.Refinement.{run-Implements, any-row_of}
use mitup_telegram_bot.PendingLinks.Redeem.{at_hash}

cell_redeem :
    (now t₁ t₂ h patreon user : ℕ) (name : Option ℕ) (level : SupporterLevel)
    → (cell_consume t₂ user (cell_claim t₁ user (some (staged h patreon name level now))).0).1 ≡ (
        if ltb t₁ (now + pairing_code_ttl_seconds) && ltb t₂ (now + pairing_code_ttl_seconds)
        then some (to_claimed_link (staged h patreon name level now))
        else none)
cell_redeem now t₁ t₂ h patreon user name level = ground arith

abbrev pub UsableUnclaimed : ℕ → Cell → Type 0
UsableUnclaimed now none = ⊥
UsableUnclaimed now (some row) = (usable now row ≡ true) × (row.claimed_tg_user_id ≡ none)

abbrev cell_classify : ℕ → ℕ → Cell → ClaimFailure
cell_classify now user none = unknown_code
cell_classify now user (some row) =
    if not (is_none row.consumed_time)
    then consumed
    else if not (is_none row.claimed_tg_user_id) && not (opt_eq row.claimed_tg_user_id (some user))
    then claimed_by_other
    else if leb row.expiration now
    then expired
    else unclaimed

classify_cell :
    (hash : ℕ → ℕ) (rows : Rows) (code now user : ℕ)
    → classify_claim_failure hash now rows code user
      ≡ cell_classify now user (row_of (hash code) rows)
unfolding classify_claim_failure
classify_cell hash rows code now user = go (row_of (hash code) rows) refl
  where
    go :
        (c : Cell)
        → row_of (hash code) rows ≡ c
        → classify_claim_failure hash now rows code user ≡ cell_classify now user c
    go none e = rw (e, classify_claim_failure) refl
    go (some row) e = rw (e, classify_claim_failure) refl

cell_explains :
    (now user : ℕ) (c : Cell)
    → (((cell_claim now user c).1 ≡ none) ↔ (cell_classify now user c ≢ unclaimed))
      × ((((cell_consume now user c).1 ≡ none) × (cell_classify now user c ≡ unclaimed))
          ↔ UsableUnclaimed now c)
cell_explains now user none = ground arith
cell_explains now user (some row) = ground arith

module _ (hash : ℕ → ℕ) (rows : Rows) (u : Unique (hashes rows)) (code : ℕ) where
  -- The redemption of a new code: staged at `now`, claimed at `t₁` and consumed at `t₂` by one
  -- account, it yields the identity, name and level that were staged, exactly when both moments
  -- are before the 900 seconds are over; else nothing. The table has distinct hashes, this one not
  -- among them.
  pub redeem_in_time :
      (now t₁ t₂ patreon user : ℕ) (name : Option ℕ) (level : SupporterLevel)
      → any (has_hash (hash code)) rows ≡ false
      → let after_stage = (run hash (stage now code patreon name level) rows).0 in
        let after_claim = (run hash (claim t₁ code user) after_stage).0 in
        (run hash (consume t₂ code user) after_claim).1 ≡ (
          if ltb t₁ (now + pairing_code_ttl_seconds) && ltb t₂ (now + pairing_code_ttl_seconds)
          then some (record {
            patreon_user_id = patreon;
            patreon_full_name = name;
            granted_level = level;
          })
          else none)
  redeem_in_time now t₁ t₂ patreon user name level fresh =
      let h = hash code in
      let s = run-Implements hash (stage now code patreon name level) rows h u in
      let c = run-Implements hash (claim t₁ code user) _ h s.0 in
      let absent = absent_cell (row_of h rows) (sym (any-row_of h rows) ∙ fresh) in
      (run-Implements hash (consume t₂ code user) _ h c.0).2
      ∙ ap (λ x. (cell_consume t₂ user x).1)
          (c.1
            ∙ at_hash hash h _ _
            ∙ ap (λ x. (cell_claim t₁ user x).0)
                (s.1 ∙ at_hash hash h _ _ ∙ ap (cell_stage now h patreon name level) absent))
      ∙ cell_redeem now t₁ t₂ h patreon user name level
    where
      absent_cell : (c : Cell) → not (is_none c) ≡ false → c ≡ none
      absent_cell none e = refl
      absent_cell (some row) e = cc

  -- The reasons that a failed claim or consume is logged with. A claim fails exactly when the
  -- classification at that moment is not `unclaimed`; a consume that fails is put down to
  -- `unclaimed` exactly when the code's row is usable and nobody has claimed it. Hashes are
  -- distinct.
  pub classify_explains :
      (now user : ℕ)
      → let cell = row_of (hash code) rows in
        let why = classify_claim_failure hash now rows code user in
        (((run hash (claim now code user) rows).1 ≡ none) ↔ (why ≢ unclaimed))
        × ((((run hash (consume now code user) rows).1 ≡ none) × (why ≡ unclaimed))
            ↔ UsableUnclaimed now cell)
  classify_explains now user =
      let h = hash code in
      let claims = (run-Implements hash (claim now code user) rows h u).2 in
      let consumes = (run-Implements hash (consume now code user) rows h u).2 in
      rw (claims, consumes, classify_cell hash rows code now user)
        (cell_explains now user (row_of h rows))
