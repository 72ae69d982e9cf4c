-- ===== src/CallbackData/Regex.antt =====
-- The regular expressions that the callback patterns use, as Python's `re` searches them: each
-- matcher hands what is left to the rest of the expression, and tries its next choice where that
-- fails.
use mitup_telegram_bot.Base.{
  ℕ, zero, suc, Bool, true, false, ◌≡◌, ◌≢◌, ◌⊎◌, inl, inr, refl, Option, none, some, List, [], ◌∷◌,
  ◌++◌, if◌then◌else◌, ◌==◌, ==_refl, arith, All, Has, Text, text_eq, text_eq_iff, Lacks, filter,
  codes, mem, ◌&&◌, Bool-cases, not, All-filter,
}

-- The characters that a regular expression does not take as themselves.
abbrev pub is_special : ℕ → Bool
is_special c = mem c (codes ".^$*+?{}[]\\|()")

abbrev pub is_literal : Text → Bool
is_literal [] = true
is_literal (c ∷ t) = let rest = is_literal t in not (is_special c) && rest

-- A form that is matched as it is, and has no separator.
abbrev pub IsForm : ℕ → Text → Type 0
IsForm sep form = Lacks sep form × (is_literal form ≡ true)

-- The second choice, where the first fails.
abbrev pub or_else {ℓ} : {A : Type ℓ} → Option A → Option A → Option A
or_else none o = o
or_else (some a) o = some a

module _ {ℓ} {R : Type ℓ} where
  abbrev pub literal : Text → (Text → Option R) → Text → Option R
  literal [] k s = k s
  literal (c ∷ t) k [] = none
  literal (c ∷ t) k (d ∷ s) = if c == d then literal t k s else none

  -- `p*`, the longest run first.
  unfoldable pub star : (ℕ → Bool) → (Text → Text → Option R) → Text → Option R
  star p k [] = k [] []
  star p k (c ∷ s) =
      let longer = star p (λ (run : Text). k (c ∷ run)) s in
      if p c then or_else longer (k [] (c ∷ s)) else k [] (c ∷ s)

  -- `p+`.
  abbrev pub plus : (ℕ → Bool) → (Text → Text → Option R) → Text → Option R
  plus p k [] = none
  plus p k (c ∷ s) = if p c then star p (λ (run : Text). k (c ∷ run)) s else none

  -- `p{n}`.
  abbrev pub times : ℕ → (ℕ → Bool) → (Text → Text → Option R) → Text → Option R
  times zero p k s = k [] s
  times (suc n) p k [] = none
  times (suc n) p k (c ∷ s) =
      let rest = times n p (λ (run : Text). k (c ∷ run)) s in if p c then rest else none

  -- A form of an action or an entity stands unescaped in the pattern: one without special characters
  -- is matched as it is, and `[^:]+` by what is before the colon. No declaration of the bot has a
  -- form of another kind, and none is read here.
  unfoldable pub form_pattern : Text → (Text → Text → Option R) → Text → Option R
  form_pattern form k s =
      if is_literal form
      then literal form (k form) s
      else if text_eq form (codes "[^:]+")
      then plus (λ c. not (c == 58)) k s
      else none

  -- `(a|b|…)`, the first form first.
  unfoldable pub alternation : List Text → (Text → Text → Option R) → Text → Option R
  alternation [] k s = none
  alternation (form ∷ forms) k s = or_else (form_pattern form k s) (alternation forms k s)

-- `$`: the end, or a line break at the end.
abbrev pub at_end {ℓ} : {R : Type ℓ} → R → Text → Option R
at_end r [] = some r
at_end r (c ∷ []) = if c == 10 then some r else none
at_end r (c ∷ d ∷ s) = none

-- `dict.fromkeys(forms)`: repeats are dropped, the first stays.
unfoldable pub regex_alternation : List Text → List Text
regex_alternation [] = []
regex_alternation (form ∷ forms) =
    form ∷ filter (λ other. not (text_eq form other)) (regex_alternation forms)

-- A run ends here: the text does, or its next character is another.
abbrev pub Stops : (ℕ → Bool) → Text → Type 0
Stops p [] = Unit
Stops p (c ∷ s) = p c ≡ false

module _ {ℓ} {R : Type ℓ} where
  pub literal-append : (t : Text) (k : Text → Option R) (s : Text) → literal t k (t ++ s) ≡ k s
  literal-append [] k s = refl
  literal-append (c ∷ t) k s = ground (arith, literal-append t k s, ==_refl c)

  pub star-append :
      (p : ℕ → Bool) (k : Text → Text → Option R) (run s : Text) (r : R)
      → All (λ c. p c ≡ true) run
      → Stops p s
      → k run s ≡ some r
      → star p k (run ++ s) ≡ some r
  unfolding star
  star-append p k [] [] r h stops e = e
  star-append p k [] (c ∷ s) r h stops e = ground arith
  star-append p k (c ∷ run) s r h stops e =
      let longer = star-append p (λ (more : Text). k (c ∷ more)) run s r h.1 stops e in
      rw (h.0, longer) refl

  pub plus-append :
      (p : ℕ → Bool) (k : Text → Text → Option R) (run s : Text) (r : R)
      → run ≢ []
      → All (λ c. p c ≡ true) run
      → Stops p s
      → k run s ≡ some r
      → plus p k (run ++ s) ≡ some r
  plus-append p k [] s r more h stops e = absurd (more refl)
  plus-append p k (c ∷ run) s r more h stops e =
      rw (h.0) (star-append p (λ (tail : Text). k (c ∷ tail)) run s r h.1 stops e)

  -- A text without the separator, before it, is matched by its own form and no other.
  literal-other :
      (sep : ℕ) (form text : Text) (k : Text → Option R) (s : Text)
      → Lacks sep form
      → Lacks sep text
      → (form ≡ text) ⊎ (literal form (literal (sep ∷ []) k) (text ++ sep ∷ s) ≡ none)
  literal-other sep [] [] k s h l = inl refl
  literal-other sep [] (d ∷ text) k s h l = inr (ground arith)
  literal-other sep (c ∷ form) [] k s h l = inr (ground arith)
  literal-other sep (c ∷ form) (d ∷ text) k s h l =
      ground (arith, literal-other sep form text k s h.1 l.1)

  separated :
      (sep : ℕ) (text : Text) (k : Text → Text → Option R) (s : Text)
      → literal text (literal (sep ∷ []) (k text)) (text ++ sep ∷ s) ≡ k text s
  separated sep text k s =
      rw (literal-append text (literal (sep ∷ []) (k text)) (sep ∷ s), ==_refl sep) refl

  separated-same :
      (sep : ℕ) (form text : Text) (k : Text → Text → Option R) (s : Text)
      → form ≡ text
      → literal form (literal (sep ∷ []) (k form)) (text ++ sep ∷ s) ≡ k text s
  separated-same sep form text k s same = cc (same, separated sep text k s)

  literal_form :
      (form : Text) (k : Text → Text → Option R) (s : Text)
      → is_literal form ≡ true
      → form_pattern form k s ≡ literal form (k form) s
  unfolding form_pattern
  literal_form form k s h = rw h refl

  pub alternation-found :
      (sep : ℕ) (forms : List Text) (text : Text) (k : Text → Text → Option R) (s : Text) (r : R)
      → All (IsForm sep) forms
      → Lacks sep text
      → Has (λ form. form ≡ text) forms
      → k text s ≡ some r
      → alternation forms (λ (form : Text). literal (sep ∷ []) (k form)) (text ++ sep ∷ s) ≡ some r
  unfolding alternation
  alternation-found sep [] text k s r hs l found e = absurd found
  alternation-found sep (form ∷ forms) text k s r hs l (inl same) e =
      rw (literal_form form _ _ hs.0.1, separated-same sep form text k s same, e) refl
  alternation-found sep (form ∷ forms) text k s r hs l (inr later) e =
      elim (literal-other sep form text (k form) s hs.0.0 l) [
        | inl same ↦
            rw (literal_form form _ _ hs.0.1, separated-same sep form text k s same, e) refl
        | inr other ↦
            rw (literal_form form _ _ hs.0.1, other)
              (alternation-found sep forms text k s r hs.1 l later e)
      ]

  -- Where no form is the text, or the rest fails after the text, nothing is found.
  pub alternation-absent :
      (sep : ℕ) (forms : List Text) (text : Text) (k : Text → Text → Option R) (s : Text)
      → All (IsForm sep) forms
      → Lacks sep text
      → All (λ form. form ≢ text) forms ⊎ (k text s ≡ none)
      → alternation forms (λ (form : Text). literal (sep ∷ []) (k form)) (text ++ sep ∷ s) ≡ none
  unfolding alternation
  alternation-absent sep [] text k s hs l h = refl
  alternation-absent sep (form ∷ forms) text k s hs l (inl h) =
      elim (literal-other sep form text (k form) s hs.0.0 l) [
        | inl same ↦ absurd (h.0 same)
        | inr other ↦
            rw (literal_form form _ _ hs.0.1, other)
              (alternation-absent sep forms text k s hs.1 l (inl h.1))
      ]
  alternation-absent sep (form ∷ forms) text k s hs l (inr e) =
      let rest = alternation-absent sep forms text k s hs.1 l (inr e) in
      elim (literal-other sep form text (k form) s hs.0.0 l) [
        | inl same ↦
            rw (literal_form form _ _ hs.0.1, separated-same sep form text k s same, e) rest
        | inr other ↦ rw (literal_form form _ _ hs.0.1, other) rest
      ]

-- Dropping the repeats drops no form and adds none.
module _ {κ} (P : Text → Type κ) where
  pub All-regex_alternation : (forms : List Text) → All P forms → All P (regex_alternation forms)
  unfolding regex_alternation
  All-regex_alternation [] h = tt
  All-regex_alternation (form ∷ forms) h =
      let rest = All-regex_alternation forms h.1 in
      (h.0, All-filter P (λ other. not (text_eq form other)) (regex_alternation forms) rest)

Has-filter :
    (first text : Text) (forms : List Text)
    → Has (λ form. form ≡ text) forms
    → (first ≡ text) ⊎ Has (λ form. form ≡ text) (filter (λ other. not (text_eq first other)) forms)
Has-filter first text [] found = absurd found
Has-filter first text (form ∷ forms) (inl same) = elim (Bool-cases (text_eq first form)) [
  | inl e ↦ inl (cc ((text_eq_iff first form).0 e, same))
  | inr e ↦ inr (rw e (inl same))
]
Has-filter first text (form ∷ forms) (inr later) = elim (Has-filter first text forms later) [
  | inl same ↦ inl same
  | inr found ↦ elim (Bool-cases (text_eq first form)) [
    | inl e ↦ inr (rw e found)
    | inr e ↦ inr (rw e (inr found))
  ]
]

pub Has-regex_alternation :
    (text : Text) (forms : List Text)
    → Has (λ form. form ≡ text) forms
    → Has (λ form. form ≡ text) (regex_alternation forms)
unfolding regex_alternation
Has-regex_alternation text [] found = absurd found
Has-regex_alternation text (form ∷ forms) (inl same) = inl same
Has-regex_alternation text (form ∷ forms) (inr later) =
    Has-filter form text (regex_alternation forms) (Has-regex_alternation text forms later)
