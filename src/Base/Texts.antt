-- ===== src/Base/Texts.antt =====
-- Texts as lists of code points, and the decimal print and reading of numbers.
use Prim.Native.Char.{code}
use Prim.Native.Nat.{ℕ, zero, suc, ◌+◌, ◌-◌, ◌*◌, ◌/◌, ◌%◌, ◌<◌}
use Prim.Native.String.{String}
use mathlib.Core.Bool.{Bool, true, false, ◌&&◌}
use mathlib.Core.List.{List, [], ◌∷◌, cons-ne-nil}
use mathlib.Core.Logic.{◌↔◌, ◌≢◌}
use mathlib.Core.Path.{◌≡◌, refl}
use native.Mathlib.Omega.{arith}
use mitup_telegram_bot.Base.Lists.{All}
use mitup_telegram_bot.Base.Tests.{leb, ltb, ◌==◌, if◌then◌else◌}

abbrev pub Text : Type 0
Text = List ℕ

-- The code points of a literal.
abbrev pub codes : String → Text
codes String.[] = []
codes (String.◌∷◌ c s) = code c ∷ codes s

abbrev pub text_eq : Text → Text → Bool
text_eq [] [] = true
text_eq [] (c ∷ t) = false
text_eq (c ∷ s) [] = false
text_eq (c ∷ s) (d ∷ t) = (c == d) && text_eq s t

pub text_eq_iff : (s t : Text) → (text_eq s t ≡ true) ↔ (s ≡ t)
text_eq_iff [] [] = ground arith
text_eq_iff [] (c ∷ t) = ground arith
text_eq_iff (c ∷ s) [] = ground arith
text_eq_iff (c ∷ s) (d ∷ t) = grind (arith, text_eq_iff s t)

pub text_eq_refl : (s : Text) → text_eq s s ≡ true
text_eq_refl s = (text_eq_iff s s).1 refl

-- The separator does not occur in the text.
abbrev pub Lacks : ℕ → Text → Type 0
Lacks sep = All (λ c. c ≢ sep)

abbrev pub is_digit : ℕ → Bool
is_digit c = leb 48 c && leb c 57

abbrev pub Digits : Text → Type 0
Digits = All (λ c. is_digit c ≡ true)

-- The digits of `n` before `out`, the last one first; a round for each digit.
emit : ℕ → ℕ → Text → Text
emit zero n out = out
emit (suc fuel) n out =
    let rest = emit fuel (n / 10) ((48 + n % 10) ∷ out) in if ltb n 10 then (48 + n) ∷ out else rest

-- `str(n)` of a natural number.
pub decimal : ℕ → Text
decimal n = emit (suc n) n []

abbrev pub value_from : ℕ → Text → ℕ
value_from n [] = n
value_from n (c ∷ s) = value_from (n * 10 + (c - 48)) s

-- `int(s)` of a text of digits.
abbrev pub value : Text → ℕ
value = value_from 0

value-emit :
    (fuel n : ℕ) (out : Text) → n < fuel → value_from 0 (emit fuel n out) ≡ value_from n out
unfolding emit
value-emit zero n out h = absurd (omega arith)
value-emit (suc fuel) n out h = ground (arith, value-emit fuel (n / 10) ((48 + n % 10) ∷ out))

-- Every number is read back from its print.
pub value-decimal : (n : ℕ) → value (decimal n) ≡ n
unfolding decimal
value-decimal n = value-emit (suc n) n [] (omega arith)

Digits-emit : (fuel n : ℕ) (out : Text) → Digits out → Digits (emit fuel n out)
unfolding emit
Digits-emit zero n out h = h
Digits-emit (suc fuel) n out h = ground (arith, Digits-emit fuel (n / 10) ((48 + n % 10) ∷ out))

pub Digits-decimal : (n : ℕ) → Digits (decimal n)
unfolding decimal
Digits-decimal n = Digits-emit (suc n) n [] tt

emit-ne-nil : (fuel n : ℕ) (c : ℕ) (out : Text) → emit fuel n (c ∷ out) ≢ []
unfolding emit
emit-ne-nil zero n c out = cons-ne-nil c out
emit-ne-nil (suc fuel) n c out =
    ground
      (arith, emit-ne-nil fuel (n / 10) (48 + n % 10) (c ∷ out), cons-ne-nil (48 + n) (c ∷ out))

-- A printed number has a first digit.
pub decimal-ne-nil : (n : ℕ) → decimal n ≢ []
unfolding decimal emit
decimal-ne-nil n = ground (arith, emit-ne-nil n (n / 10) (48 + n % 10) [], cons-ne-nil (48 + n) [])

decimal_test : decimal 1040 ≡ codes "1040"
unfolding decimal emit
decimal_test = refl
