-- ===== src/CallbackData/RoundTrip/Fields.antt =====
-- Which callbacks a declaration sends: their fields, and the text each prints.
use mitup_telegram_bot.Base.{
  ℕ, ◌%◌, ◌≡◌, ◌≢◌, refl, Bool, true, ◌&&◌, ◌||◌, not, Option, none, some, List, [], ◌∷◌, map, inl,
  inr, subst, leb, ◌==◌, if◌then◌else◌, All, Has, Text, value, decimal, value-decimal,
  decimal-ne-nil,
}
use mitup_telegram_bot.CallbackData.{
  Date, Extra, plain, date_extra, code_extra, page_extra, grant_extra, meeting_extra, CallbackData,
  BackTarget, MeetingListSource, active, joined, meeting_editor, optional_number, source_value,
  target_value,
}
use mitup_telegram_bot.CallbackData.Regex.{IsForm}
use mitup_telegram_bot.CallbackData.Parse.{
  is_base64url, page_valid, validate_id, target_of, source_of, validate_code,
}

abbrev pub is_leap : ℕ → Bool
is_leap year = (year % 4 == 0) && (not (year % 100 == 0) || (year % 400 == 0))

abbrev pub days_in_month : ℕ → ℕ → ℕ
days_in_month year month =
    if month == 2
    then (if is_leap year then 29 else 28)
    else if month == 4 || month == 6 || month == 9 || month == 11
    then 30
    else 31

-- A day of the calendar whose year has four digits.
abbrev pub is_date : Date → Bool
is_date date =
    (leb 1000 date.year && leb date.year 9999)
    && ((leb 1 date.month && leb date.month 12)
        && (leb 1 date.day && leb date.day (days_in_month date.year date.month)))

-- The first declares the class of the second, whose fields can be told apart on the wire.
abbrev pub ExtraSendable : Extra → Extra → Type 0
ExtraSendable plain plain = Unit
ExtraSendable (date_extra _) (date_extra (some date)) = is_date date ≡ true
ExtraSendable (code_extra _) (code_extra none) = Unit
ExtraSendable (code_extra _) (code_extra (some code)) =
    (code ≢ []) × All (λ c. is_base64url c ≡ true) code
ExtraSendable (page_extra _ _) (page_extra page source) = page_valid page ≡ true
ExtraSendable (grant_extra _) (grant_extra level) = Unit
ExtraSendable (meeting_extra _) (meeting_extra meeting_id) = meeting_id ≢ some 0
ExtraSendable _ _ = ⊥

-- An origin's id is sent with its screen.
abbrev pub OriginSendable : Option BackTarget → Option ℕ → Type 0
OriginSendable (some target) back_id = Unit
OriginSendable none none = Unit
OriginSendable none (some n) = ⊥

-- The forms a declaration answers to are matched as they are, and have no separator.
abbrev pub Declaration : CallbackData → Type 0
Declaration d =
    (IsForm 59 d.action × IsForm 58 d.entity)
    × (All (IsForm 59) (map (λ pair. pair.0) d.aliases)
        × All (IsForm 58) (map (λ pair. pair.1) d.aliases))

-- The callback is of the declaration's class, with one of its actions and one of its entities.
abbrev pub Sendable : CallbackData → CallbackData → Type 0
Sendable d c =
    (Has (λ form. form ≡ c.action) (d.action ∷ map (λ pair. pair.0) d.aliases)
      × Has (λ form. form ≡ c.entity) (d.entity ∷ map (λ pair. pair.1) d.aliases))
    × (OriginSendable c.back c.back_id × ExtraSendable d.extra c.extra)

pub All-Has {κ} :
    {A : Type 0} (P : A → Type κ) (a : A) (xs : List A) → All P xs → Has (λ x. x ≡ a) xs → P a
All-Has P a [] all found = absurd found
All-Has P a (x ∷ xs) all found = elim found [
  | inl same ↦ subst P same all.0
  | inr later ↦ All-Has P a xs all.1 later
]

validate_id-value : (s : Text) → s ≢ [] → validate_id s ≡ some (value s)
unfolding validate_id
validate_id-value [] h = absurd (h refl)
validate_id-value (c ∷ s) h = refl

pub validate_id-decimal : (n : ℕ) → validate_id (decimal n) ≡ some n
validate_id-decimal n = rw (validate_id-value (decimal n) (decimal-ne-nil n), value-decimal n) refl

-- An optional number is read back, an absent one as absent.
pub validate_id-optional_number : (n : Option ℕ) → validate_id (optional_number n) ≡ n
unfolding optional_number validate_id
validate_id-optional_number none = refl
validate_id-optional_number (some n) = validate_id-decimal n

pub target_of-target_value :
    (target : BackTarget) → target_of (some (target_value target)) ≡ some target
unfolding target_of
target_of-target_value meeting_editor = refl

pub source_of-source_value :
    (source : MeetingListSource) → source_of (some (source_value source)) ≡ some source
unfolding source_of
source_of-source_value active = refl
source_of-source_value joined = refl

pub validate_code-id : (code : Text) → code ≢ [] → validate_code code ≡ some code
unfolding validate_code
validate_code-id [] h = absurd (h refl)
validate_code-id (c ∷ code) h = refl

pub validate_code-nil : validate_code [] ≡ none
unfolding validate_code
validate_code-nil = refl
