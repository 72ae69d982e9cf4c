-- ===== src/Base/Tests.antt =====
-- Boolean tests on the native numbers, the conditional, and splits that keep an equation.
use Prim.Native.Nat.{ℕ, ◌≤◌, ◌<◌, compare, Ordering}
use mathlib.Core.Path.{◌≡◌, refl}
use mathlib.Core.Logic.{◌↔◌, ◌⊎◌, inl, inr}
use mathlib.Core.Bool.{Bool, true, false, not, ◌||◌, ◌&&◌}
use mathlib.Core.Option.{Option, none, some}
use native.Mathlib.Omega.{arith}

abbrev pub ltb : ℕ → ℕ → Bool
ltb a b = elim (compare a b) [ Ordering.lt ↦ true | _ ↦ false ]

abbrev pub leb : ℕ → ℕ → Bool
leb a b = elim (compare a b) [ Ordering.gt ↦ false | _ ↦ true ]

infix 50 ◌==◌
abbrev pub ◌==◌ : ℕ → ℕ → Bool
a == b = elim (compare a b) [ Ordering.eq ↦ true | _ ↦ false ]

infix 1 if◌then◌else◌
abbrev pub if◌then◌else◌ {ℓ} : {A : Type ℓ} → Bool → A → A → A
if true then x else y = x
if false then x else y = y

pub ltb→lt : (a b : ℕ) → ltb a b ≡ true → a < b
ltb→lt a b h = ground arith

pub leb→le : (a b : ℕ) → leb a b ≡ true → a ≤ b
leb→le a b h = ground arith

pub ==_iff : (a b : ℕ) → ((a == b) ≡ true) ↔ (a ≡ b)
==_iff a b = ground arith

pub ==_refl : (a : ℕ) → (a == a) ≡ true
==_refl a = ground arith

pub Bool-cases : (b : Bool) → (b ≡ true) ⊎ (b ≡ false)
Bool-cases true = inl refl
Bool-cases false = inr refl

pub Option-cases {ℓ} : {A : Type ℓ} (o : Option A) → (o ≡ none) ⊎ ((a : A) × (o ≡ some a))
Option-cases none = inl refl
Option-cases (some a) = inr (a, refl)

-- Python's `o is None`.
abbrev pub is_none {ℓ} : {A : Type ℓ} → Option A → Bool
is_none none = true
is_none (some a) = false

abbrev pub bind {ℓ κ} : {A : Type ℓ} {B : Type κ} → Option A → (A → Option B) → Option B
bind none f = none
bind (some a) f = f a

-- Python's `a == b` on optional integers.
abbrev pub opt_eq : Option ℕ → Option ℕ → Bool
opt_eq none none = true
opt_eq none (some b) = false
opt_eq (some a) none = false
opt_eq (some a) (some b) = a == b

abbrev pub bool_eq : Bool → Bool → Bool
bool_eq true b = b
bool_eq false true = false
bool_eq false false = true

pub opt_eq-some : (a : Option ℕ) (b : ℕ) → (opt_eq a (some b) ≡ true) ↔ (a ≡ some b)
opt_eq-some none b = ground arith
opt_eq-some (some a) b = ground arith

-- A disjunction of tests, read by what the tests mean.
pub or_iff {ℓ κ} :
    {P : Type ℓ} {Q : Type κ} (a b : Bool)
    → (a ≡ true) ↔ P
    → (b ≡ true) ↔ Q
    → ((a || b) ≡ true) ↔ (P ⊎ Q)
or_iff true b p q = (λ _. inl (p.0 refl), λ _. refl)
or_iff false true p q = (λ _. inr (q.0 refl), λ _. refl)
or_iff false false p q = (λ e. cc, λ h. elim h [ inl x ↦ cc (p.1 x) | inr y ↦ cc (q.1 y) ])

pub or_iff_three {ℓ κ ι} :
    {P : Type ℓ} {Q : Type κ} {R : Type ι} (a b c : Bool)
    → (a ≡ true) ↔ P
    → (b ≡ true) ↔ Q
    → (c ≡ true) ↔ R
    → ((a || b || c) ≡ true) ↔ (P ⊎ Q ⊎ R)
or_iff_three true b c p q r = (λ _. inl (p.0 refl), λ _. refl)
or_iff_three false b c p q r =
    let rest = or_iff b c q r in
    (λ e. inr (rest.0 e), λ h. elim h [ inl x ↦ cc (p.1 x) | inr y ↦ rest.1 y ])

pub if_true_iff {ℓ κ} :
    {P : Type ℓ} {Q : Type κ} (a b : Bool)
    → (a ≡ true) ↔ P
    → (b ≡ true) ↔ Q
    → ((if a then true else b) ≡ true) ↔ (P ⊎ Q)
if_true_iff true b p q = or_iff true b p q
if_true_iff false b p q = or_iff false b p q

pub not_iff {ℓ} : {P : Type ℓ} (a : Bool) → (a ≡ false) ↔ P → (not a ≡ true) ↔ P
not_iff true p = (λ e. cc, λ x. cc (p.1 x))
not_iff false p = (λ _. p.0 refl, λ _. refl)

pub and_false : (a : Bool) → (a && false) ≡ false
and_false true = refl
and_false false = refl

pub and_left : (a b : Bool) → (a && b) ≡ true → a ≡ true
and_left true b k = refl
and_left false b k = cc

pub and_right : (a b : Bool) → (a && b) ≡ true → b ≡ true
and_right true b k = k
and_right false b k = cc

pub and_iff {ℓ κ} :
    {P : Type ℓ} {Q : Type κ} (a b : Bool)
    → (a ≡ true) ↔ P
    → (b ≡ true) ↔ Q
    → ((a && b) ≡ true) ↔ (P × Q)
and_iff true b p q = (λ e. (p.0 refl, q.0 e), λ h. q.1 h.1)
and_iff false b p q = (λ e. cc, λ h. p.1 h.0)

pub ltb_iff : (a b : ℕ) → (ltb a b ≡ true) ↔ (a < b)
ltb_iff a b = ground arith
