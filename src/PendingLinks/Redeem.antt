-- ===== src/PendingLinks/Redeem.antt =====
-- How often, by whom and until when a code of pending_links.py is redeemed.
use mitup_telegram_bot.Base.{
  ℕ, ◌≡◌, ◌≢◌, refl, ap, sym, subst, ◌∙◌, inl, inr, Bool, false, none, some, List, [], ◌∷◌, ◌==◌,
  ==_refl, is_none, if◌then◌else◌, filtered, All, Unique, Bool-cases, arith,
}
use mitup_telegram_bot.PendingLinks.{PatreonPendingLink, ClaimedLink}
use mitup_telegram_bot.PendingLinks.Table.{hashes, row_of}
use mitup_telegram_bot.PendingLinks.Spec.{
  Statement, stage, claim, consume, sweep, erase_users, Rows, run, Cell, cell_claim, cell_consume,
  cell_after,
}
use mitup_telegram_bot.PendingLinks.Refinement.{run-Implements}

module _ (hash : ℕ → ℕ) where
  abbrev pub run_all : List Statement → Rows → Rows
  run_all [] rows = rows
  run_all (s ∷ ss) rows = run_all ss (run hash s rows).0

  -- The code of this hash is not minted again.
  abbrev pub NotStaged : ℕ → Statement → Type 0
  NotStaged h (stage now code patreon name level) = hash code ≢ h
  NotStaged h (claim now code user) = Unit
  NotStaged h (consume now code user) = Unit
  NotStaged h (sweep now) = Unit
  NotStaged h (erase_users users) = Unit

abbrev Spent : Cell → Type 0
Spent none = Unit
Spent (some row) = is_none row.consumed_time ≡ false

abbrev HeldBy : ℕ → Cell → Type 0
HeldBy user none = Unit
HeldBy user (some row) = row.claimed_tg_user_id ≡ some user

Spent-filtered : (p : PatreonPendingLink → Bool) (c : Cell) → Spent c → Spent (filtered p c)
Spent-filtered p none s = tt
Spent-filtered p (some row) s = ground arith

HeldBy-filtered :
    (user : ℕ) (p : PatreonPendingLink → Bool) (c : Cell)
    → HeldBy user c
    → HeldBy user (filtered p c)
HeldBy-filtered user p none s = tt
HeldBy-filtered user p (some row) s = ground arith

Spent-claim : (now user : ℕ) (c : Cell) → Spent c → cell_claim now user c ≡ (c, none)
Spent-claim now user none s = refl
Spent-claim now user (some row) s = rw s refl

Spent-consume : (now user : ℕ) (c : Cell) → Spent c → cell_consume now user c ≡ (c, none)
Spent-consume now user none s = refl
Spent-consume now user (some row) s = rw s refl

HeldBy-claim :
    (now user other : ℕ) (c : Cell) → HeldBy user c → HeldBy user (cell_claim now other c).0
HeldBy-claim now user other none s = tt
HeldBy-claim now user other (some row) s = ground arith

HeldBy-consume :
    (now user other : ℕ) (c : Cell) → HeldBy user c → HeldBy user (cell_consume now other c).0
HeldBy-consume now user other none s = tt
HeldBy-consume now user other (some row) s = ground arith

HeldBy-other :
    (now user other : ℕ) (c : Cell)
    → HeldBy user c
    → other ≢ user
    → ((cell_claim now other c).1 ≡ none) × ((cell_consume now other c).1 ≡ none)
HeldBy-other now user other none s k = (refl, refl)
HeldBy-other now user other (some row) s k = ground arith

module _ (hash : ℕ → ℕ) (h : ℕ) where
  Spent-after :
      (s : Statement) (c : Cell) → NotStaged hash h s → Spent c → Spent (cell_after hash h s c)
  Spent-after (stage now code patreon name level) c n p = rw (other_code (hash code) n) p
    where
      other_code : (k : ℕ) → k ≢ h → (h == k) ≡ false
      other_code k n = ground arith
  Spent-after (claim now code user) c n p = elim (Bool-cases (h == hash code)) [
    | inl here ↦ rw (here, Spent-claim now user c p) p
    | inr elsewhere ↦ rw elsewhere p
  ]
  Spent-after (consume now code user) c n p = elim (Bool-cases (h == hash code)) [
    | inl here ↦ rw (here, Spent-consume now user c p) p
    | inr elsewhere ↦ rw elsewhere p
  ]
  Spent-after (sweep now) c n p = Spent-filtered _ c p
  Spent-after (erase_users users) c n p = Spent-filtered _ c p

  HeldBy-after :
      (user : ℕ) (s : Statement) (c : Cell)
      → NotStaged hash h s
      → HeldBy user c
      → HeldBy user (cell_after hash h s c)
  HeldBy-after user (stage now code patreon name level) c n p = rw (other_code (hash code) n) p
    where
      other_code : (k : ℕ) → k ≢ h → (h == k) ≡ false
      other_code k n = ground arith
  HeldBy-after user (claim now code other) c n p = elim (Bool-cases (h == hash code)) [
    | inl here ↦ rw here (HeldBy-claim now user other c p)
    | inr elsewhere ↦ rw elsewhere p
  ]
  HeldBy-after user (consume now code other) c n p = elim (Bool-cases (h == hash code)) [
    | inl here ↦ rw here (HeldBy-consume now user other c p)
    | inr elsewhere ↦ rw elsewhere p
  ]
  HeldBy-after user (sweep now) c n p = HeldBy-filtered user _ c p
  HeldBy-after user (erase_users users) c n p = HeldBy-filtered user _ c p

-- What every statement keeps of one code's row holds after any number of them.
module _ (hash : ℕ → ℕ) (h : ℕ) (P : Cell → Type 0)
    (keeps : (s : Statement) (c : Cell)
      → NotStaged hash h s
      → P c
      → P (cell_after hash h s c)) where
  run_all-keeps :
      (ss : List Statement) (rows : Rows)
      → All (NotStaged hash h) ss
      → Unique (hashes rows)
      → P (row_of h rows)
      → Unique (hashes (run_all hash ss rows)) × P (row_of h (run_all hash ss rows))
  run_all-keeps [] rows n u p = (u, p)
  run_all-keeps (s ∷ ss) rows n u p =
      let step = run-Implements hash s rows h u in
      run_all-keeps ss (run hash s rows).0 n.1 step.0
        (subst P (sym step.1) (keeps s (row_of h rows) n.0 p))

consumed-Spent :
    (now user : ℕ) (c : Cell) (link : ClaimedLink)
    → (cell_consume now user c).1 ≡ some link
    → Spent (cell_consume now user c).0
consumed-Spent now user none link e = cc
consumed-Spent now user (some row) link e = ground arith

claimed-HeldBy :
    (now user : ℕ) (c : Cell) (link : ClaimedLink)
    → (cell_claim now user c).1 ≡ some link
    → HeldBy user (cell_claim now user c).0
claimed-HeldBy now user none link e = cc
claimed-HeldBy now user (some row) link e = ground arith

pub at_hash : (hash : ℕ → ℕ) (h : ℕ) (a b : Cell) → (if h == h then a else b) ≡ a
at_hash hash h a b = rw (==_refl h) refl

module _ (hash : ℕ → ℕ) (rows : Rows) (u : Unique (hashes rows)) (code : ℕ) where
  -- A code is spent once: after an account has consumed it, no later claim and no later consume
  -- of it, by any account at any time, answers anything, whatever statements run in between,
  -- unless the same hash is staged anew. Hashes are distinct at the start.
  pub consumed_once :
      (now user : ℕ) (link : ClaimedLink) (ss : List Statement) (later other : ℕ)
      → (run hash (consume now code user) rows).1 ≡ some link
      → All (NotStaged hash (hash code)) ss
      → let after = run_all hash ss (run hash (consume now code user) rows).0 in
        ((run hash (claim later code other) after).1 ≡ none)
        × ((run hash (consume later code other) after).1 ≡ none)
  consumed_once now user link ss later other e n =
      let h = hash code in
      let first = run-Implements hash (consume now code user) rows h u in
      let spent = consumed-Spent now user (row_of h rows) link (sym first.2 ∙ e) in
      let end =
        run_all-keeps hash h Spent (Spent-after hash h) ss (run hash (consume now code user) rows).0
          n first.0 (subst Spent (sym (first.1 ∙ at_hash hash h _ _)) spent) in
      (
        (run-Implements hash (claim later code other) _ h end.0).2
            ∙ ap (λ x. x.1) (Spent-claim later other _ end.1),
        (run-Implements hash (consume later code other) _ h end.0).2
            ∙ ap (λ x. x.1) (Spent-consume later other _ end.1),
      )

  -- A claim binds the code to its account: after it, neither a claim nor a consume of the code by
  -- another account answers anything, at any time and whatever statements run in between, unless
  -- the same hash is staged anew. Hashes are distinct at the start.
  pub claim_binds :
      (now user : ℕ) (link : ClaimedLink) (ss : List Statement) (later other : ℕ)
      → (run hash (claim now code user) rows).1 ≡ some link
      → All (NotStaged hash (hash code)) ss
      → other ≢ user
      → let after = run_all hash ss (run hash (claim now code user) rows).0 in
        ((run hash (claim later code other) after).1 ≡ none)
        × ((run hash (consume later code other) after).1 ≡ none)
  claim_binds now user link ss later other e n differs =
      let h = hash code in
      let first = run-Implements hash (claim now code user) rows h u in
      let held = claimed-HeldBy now user (row_of h rows) link (sym first.2 ∙ e) in
      let end =
        run_all-keeps hash h (HeldBy user) (HeldBy-after hash h user) ss
          (run hash (claim now code user) rows).0 n first.0
          (subst (HeldBy user) (sym (first.1 ∙ at_hash hash h _ _)) held) in
      let refused = HeldBy-other later user other _ end.1 differs in
      (
        (run-Implements hash (claim later code other) _ h end.0).2 ∙ refused.0,
        (run-Implements hash (consume later code other) _ h end.0).2 ∙ refused.1,
      )
