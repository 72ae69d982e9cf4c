-- ===== src/Supporter/Order.antt =====
-- The tier ordering that supporter.py owns, and the clamp between an earned and a granted tier.
use mitup_telegram_bot.Base.{
  ℕ, ◌≤◌, ◌≡◌, refl, ◌⊎◌, inl, inr, ◌↔◌, Bool, true, List, sym, ap, ◌∙◌, subst, [], ◌∷◌, ltb, arith,
  All, Bool-cases, ltb→lt, if◌then◌else◌,
}
use mitup_telegram_bot.Supporter.{
  SupporterLevel, none_level, host_1, host_2, host_3, rank, meets, highest, level_for_amount,
  PatreonConfig, is_supporter,
}

-- Two levels of the same rank are one level, and a level meets a minimum exactly when its rank is
-- at least the minimum's.
pub rank_order :
    (a b : SupporterLevel)
    → ((rank a ≡ rank b) ↔ (a ≡ b)) × ((meets a b ≡ true) ↔ (rank b ≤ rank a))
unfolding rank meets
rank_order none_level b = ground arith
rank_order host_1 b = ground arith
rank_order host_2 b = ground arith
rank_order host_3 b = ground arith

to_meets :
    (top : SupporterLevel) (ls : List SupporterLevel)
    → All (λ l. rank l ≤ rank top) ls
    → All (λ l. meets top l ≡ true) ls
to_meets top [] h = tt
to_meets top (l ∷ ls) h = ((rank_order top l).1.1 h.0, to_meets top ls h.1)

-- The level is one of the listed ones.
abbrev pub OneOf : SupporterLevel → List SupporterLevel → Type 0
OneOf level [] = ⊥
OneOf level (l ∷ ls) = (level ≡ l) ⊎ OneOf level ls

highest_step :
    (best l : SupporterLevel)
    → (rank best ≤ rank (if ltb (rank best) (rank l) then l else best))
      × (rank l ≤ rank (if ltb (rank best) (rank l) then l else best))
highest_step best l = elim (Bool-cases (ltb (rank best) (rank l))) [
  | inl below ↦ rw below (omega (arith, ltb→lt (rank best) (rank l) below), omega arith)
  | inr above ↦ rw above (omega arith, ground arith)
]

highest_ge_best :
    (best : SupporterLevel) (ls : List SupporterLevel) → rank best ≤ rank (highest best ls)
unfolding highest
highest_ge_best best [] = omega arith
highest_ge_best best (l ∷ ls) = omega (
  arith,
  (highest_step best l).0,
  highest_ge_best (if ltb (rank best) (rank l) then l else best) ls,
)

highest-cons :
    (best l : SupporterLevel) (ls : List SupporterLevel)
    → highest best (l ∷ ls) ≡ highest (if ltb (rank best) (rank l) then l else best) ls
unfolding highest
highest-cons best l ls = refl

highest-nil : (best : SupporterLevel) → highest best [] ≡ best
unfolding highest
highest-nil best = refl

OneOf-skip :
    (level best l : SupporterLevel) (ls : List SupporterLevel)
    → OneOf level (best ∷ ls)
    → OneOf level (best ∷ l ∷ ls)
OneOf-skip level best l ls (inl e) = inl e
OneOf-skip level best l ls (inr m) = inr (inr m)

highest-OneOf :
    (best : SupporterLevel) (ls : List SupporterLevel) → OneOf (highest best ls) (best ∷ ls)
highest-OneOf best [] = inl (highest-nil best)
highest-OneOf best (l ∷ ls) =
    let step = λ (t : Bool). highest (if t then l else best) ls in
    let chosen = λ (x : SupporterLevel). OneOf x (best ∷ l ∷ ls) in
    elim (Bool-cases (ltb (rank best) (rank l))) [
      | inl below ↦
          subst chosen (sym (highest-cons best l ls ∙ ap step below)) (inr (highest-OneOf l ls))
      | inr above ↦
          subst chosen (sym (highest-cons best l ls ∙ ap step above))
            (OneOf-skip (highest best ls) best l ls (highest-OneOf best ls))
    ]

highest_ge :
    (best : SupporterLevel) (ls : List SupporterLevel)
    → All (λ l. rank l ≤ rank (highest best ls)) ls
unfolding highest
highest_ge best [] = tt
highest_ge best (l ∷ ls) =
    let next = if ltb (rank best) (rank l) then l else best in
    (omega (arith, (highest_step best l).1, highest_ge_best next ls), highest_ge next ls)

-- `highest` returns one of the levels it is given, and no level it is given ranks above that one.
-- So the level that a writer clamps by `highest` is never below the granted floor.
pub highest_lem :
    (best : SupporterLevel) (ls : List SupporterLevel)
    → OneOf (highest best ls) (best ∷ ls) × All (λ l. meets (highest best ls) l ≡ true) (best ∷ ls)
highest_lem best ls = (
  highest-OneOf best ls,
  to_meets (highest best ls) (best ∷ ls) (highest_ge_best best ls, highest_ge best ls),
)

-- The tier of an active member is a paying tier whatever the amount, and it never falls when the
-- amount grows.
pub level_for_amount_mono :
    (config : PatreonConfig) (cents more : ℕ)
    → cents ≤ more
    → config.patron_min_cents ≤ config.organizer_min_cents
    → (meets (level_for_amount more config) (level_for_amount cents config) ≡ true)
      × (is_supporter (level_for_amount cents config) ≡ true)
unfolding level_for_amount meets is_supporter
level_for_amount_mono config cents more h k = ground arith
