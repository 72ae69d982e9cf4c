-- ===== src/Base/Lists.antt =====
-- Lists measured by native numbers, selection by a Boolean test, and predicates by recursion.
use Prim.Native.Nat.{ℕ, zero, suc, ◌+◌, ◌≤◌, min}
use mathlib.Core.Path.{◌≡◌, refl}
use mathlib.Core.Logic.{◌⊎◌, inl, inr, ◌↔◌, ◌≢◌}
use mathlib.Core.Bool.{Bool, true, false, ◌&&◌}
use mathlib.Core.List.{List, [], ◌∷◌, ◌++◌, map}
use mathlib.Core.Option.{Option, none, some}
use native.Mathlib.Omega.{arith}
use mitup_telegram_bot.Base.Tests.{if◌then◌else◌, is_none, leb, ◌==◌}

module _ {ℓ} {A : Type ℓ} where
  abbrev pub length : List A → ℕ
  length [] = 0
  length (x ∷ xs) = suc (length xs)

  abbrev pub take : ℕ → List A → List A
  take zero xs = []
  take (suc n) [] = []
  take (suc n) (x ∷ xs) = x ∷ take n xs

  abbrev pub drop : ℕ → List A → List A
  drop zero xs = xs
  drop (suc n) [] = []
  drop (suc n) (x ∷ xs) = drop n xs

  -- A comprehension's `if`.
  abbrev pub filter : (A → Bool) → List A → List A
  filter p [] = []
  filter p (x ∷ xs) = if p x then x ∷ filter p xs else filter p xs

  -- `sum(p(x) for x in xs)`.
  abbrev pub count : (A → Bool) → List A → ℕ
  count p [] = 0
  count p (x ∷ xs) = if p x then suc (count p xs) else count p xs

  -- `next((x for x in xs if p(x)), None)`.
  abbrev pub find : (A → Bool) → List A → Option A
  find p [] = none
  find p (x ∷ xs) = if p x then some x else find p xs

  abbrev pub any : (A → Bool) → List A → Bool
  any p [] = false
  any p (x ∷ xs) = if p x then true else any p xs

  pub length-append : (xs ys : List A) → length (xs ++ ys) ≡ length xs + length ys
  length-append [] ys = omega arith
  length-append (x ∷ xs) ys = omega (arith, length-append xs ys)

  pub count-append : (p : A → Bool) (xs ys : List A) → count p (xs ++ ys) ≡ count p xs + count p ys
  count-append p [] ys = omega arith
  count-append p (x ∷ xs) ys = ground (arith, count-append p xs ys)

  pub length-filter : (p : A → Bool) (xs : List A) → length (filter p xs) ≡ count p xs
  length-filter p [] = refl
  length-filter p (x ∷ xs) = ground (arith, length-filter p xs)

  pub length-take : (n : ℕ) (xs : List A) → length (take n xs) ≡ min n (length xs)
  length-take zero xs = omega arith
  length-take (suc n) [] = omega arith
  length-take (suc n) (x ∷ xs) = omega (arith, length-take n xs)

  pub count-le-length : (p : A → Bool) (xs : List A) → count p xs ≤ length xs
  count-le-length p [] = omega arith
  count-le-length p (x ∷ xs) = ground (arith, count-le-length p xs)

-- A predicate by recursion computes to tuples, which the tactics read and build.
module _ {ℓ κ} {A : Type ℓ} (P : A → Type κ) where
  abbrev pub All : List A → Type κ
  All [] = Unit
  All (x ∷ xs) = P x × All xs

  pub All-filter : (p : A → Bool) (xs : List A) → All xs → All (filter p xs)
  All-filter p [] h = tt
  All-filter p (x ∷ xs) h = ground (arith, All-filter p xs h.1)

  pub All-take : (n : ℕ) (xs : List A) → All xs → All (take n xs)
  All-take zero xs h = tt
  All-take (suc n) [] h = tt
  All-take (suc n) (x ∷ xs) h = (h.0, All-take n xs h.1)

  pub All-append : (xs ys : List A) → All xs → All ys → All (xs ++ ys)
  All-append [] ys h k = k
  All-append (x ∷ xs) ys h k = (h.0, All-append xs ys h.1 k)

pub All-imp {ℓ κ} :
    {A : Type ℓ} (P Q : A → Type κ) → ((a : A) → P a → Q a) → (xs : List A) → All P xs → All Q xs
All-imp P Q f [] h = tt
All-imp P Q f (x ∷ xs) h = (f x h.0, All-imp P Q f xs h.1)

abbrev pub Absent : ℕ → List ℕ → Type 0
Absent u = All (λ v. v ≢ u)

-- What a unique constraint keeps.
abbrev pub Unique : List ℕ → Type 0
Unique [] = Unit
Unique (u ∷ us) = Absent u us × Unique us

-- Some element satisfies the predicate, and which one.
module _ {ℓ} {A : Type ℓ} (P : A → Type 0) where
  abbrev pub Has : List A → Type 0
  Has [] = ⊥
  Has (x ∷ xs) = P x ⊎ Has xs

pub any-Has {ℓ} :
    {A : Type ℓ} (p : A → Bool) (xs : List A) → (any p xs ≡ true) ↔ Has (λ x. p x ≡ true) xs
any-Has p [] = ground arith
any-Has p (x ∷ xs) = ground (arith, any-Has p xs)

-- `find` returns an element that passes its test, and fails only where none does.
pub find-Has {ℓ} :
    {A : Type ℓ} (p : A → Bool) (xs : List A)
    → (is_none (find p xs) ≡ false) ↔ Has (λ x. p x ≡ true) xs
find-Has p [] = ground arith
find-Has p (x ∷ xs) = ground (arith, find-Has p xs)

pub Has-imp {ℓ} :
    {A : Type ℓ} (P Q : A → Type 0) → ((a : A) → P a → Q a) → (xs : List A) → Has P xs → Has Q xs
Has-imp P Q f [] h = absurd h
Has-imp P Q f (x ∷ xs) (inl h) = inl (f x h)
Has-imp P Q f (x ∷ xs) (inr h) = inr (Has-imp P Q f xs h)

-- An optional value, kept where the test accepts it.
abbrev pub filtered {ℓ} : {A : Type ℓ} → (A → Bool) → Option A → Option A
filtered p none = none
filtered p (some a) = if p a then some a else none

-- An insertion sort by a numeric key, as `sorted(xs, key=…)` and `ORDER BY` need it.
module _ {ℓ} {A : Type ℓ} (key : A → ℕ) where
  abbrev pub insert_by : A → List A → List A
  insert_by x [] = x ∷ []
  insert_by x (y ∷ ys) = if leb (key x) (key y) then x ∷ y ∷ ys else y ∷ insert_by x ys

  abbrev pub sort_by : List A → List A
  sort_by [] = []
  sort_by (x ∷ xs) = insert_by x (sort_by xs)

  count-insert_by :
      (p : A → Bool) (x : A) (xs : List A) → count p (insert_by x xs) ≡ count p (x ∷ xs)
  count-insert_by p x [] = refl
  count-insert_by p x (y ∷ ys) = ground (arith, count-insert_by p x ys)

  pub count-sort_by : (p : A → Bool) (xs : List A) → count p (sort_by xs) ≡ count p xs
  count-sort_by p [] = refl
  count-sort_by p (x ∷ xs) = ground (arith, count-sort_by p xs, count-insert_by p x (sort_by xs))

-- Python's `x in xs` and SQL's `IN`.
abbrev pub mem : ℕ → List ℕ → Bool
mem n = any (λ m. n == m)

module _ {ℓ} {A : Type ℓ} where
  pub count-map {κ} :
      {B : Type κ} (p : B → Bool) (f : A → B) (xs : List A)
      → count p (map f xs) ≡ count (λ x. p (f x)) xs
  count-map p f [] = refl
  count-map p f (x ∷ xs) = ground (arith, count-map p f xs)

  pub count-filter :
      (p q : A → Bool) (xs : List A) → count p (filter q xs) ≡ count (λ x. q x && p x) xs
  count-filter p q [] = refl
  count-filter p q (x ∷ xs) = ground (arith, count-filter p q xs)

  pub count-take : (p : A → Bool) (n : ℕ) (xs : List A) → count p (take n xs) ≤ count p xs
  count-take p zero xs = omega arith
  count-take p (suc n) [] = omega arith
  count-take p (suc n) (x ∷ xs) = ground (arith, count-take p n xs)

  pub count-le :
      (p q : A → Bool)
      → ((x : A) → p x ≡ true → q x ≡ true)
      → (xs : List A) → count p xs ≤ count q xs
  count-le p q h [] = omega arith
  count-le p q h (x ∷ xs) = ground (arith, count-le p q h xs, h x)

  pub count-none : (p : A → Bool) → ((x : A) → p x ≡ false) → (xs : List A) → count p xs ≡ 0
  count-none p h [] = refl
  count-none p h (x ∷ xs) = ground (arith, count-none p h xs, h x)

  pub count-zero : (p : A → Bool) (xs : List A) → any p xs ≡ false → count p xs ≡ 0
  count-zero p [] e = refl
  count-zero p (x ∷ xs) e = ground (arith, count-zero p xs)

  pub count-positive : (p : A → Bool) (xs : List A) → any p xs ≡ true → 1 ≤ count p xs
  count-positive p [] e = cc
  count-positive p (x ∷ xs) e = ground (arith, count-positive p xs)

abbrev pub weight : Bool → ℕ
weight b = if b then 1 else 0

pub count-cons {ℓ} :
    {A : Type ℓ} (q : A → Bool) (x : A) (xs : List A) → count q (x ∷ xs) ≡ weight (q x) + count q xs
count-cons q x xs = ground arith

pub count-ext {ℓ} :
    {A : Type ℓ} (p q : A → Bool) → ((x : A) → p x ≡ q x) → (xs : List A) → count p xs ≡ count q xs
count-ext p q e [] = refl
count-ext p q e (x ∷ xs) = ground (arith, e x, count-ext p q e xs)

module _ {ℓ} {A : Type ℓ} (P : A → Type 0) where
  -- An optional value, of which the predicate holds where it is there.
  abbrev pub IfSome : Option A → Type 0
  IfSome none = Unit
  IfSome (some a) = P a

  pub find-IfSome : (p : A → Bool) (xs : List A) → All P xs → IfSome (find p xs)
  find-IfSome p [] h = tt
  find-IfSome p (x ∷ xs) h = go (p x) (find-IfSome p xs h.1)
    where
      go : (b : Bool) → IfSome (find p xs) → IfSome (if b then some x else find p xs)
      go true rest = h.0
      go false rest = rest
