-- ===== src/CallbackData/RoundTrip/Suffixes.antt =====
-- What each subclass's part of a pattern makes of the text the subclass appends.
use mitup_telegram_bot.Base.{
  ℕ, zero, suc, ◌+◌, ◌/◌, ◌%◌, ◌≡◌, refl, subst, Bool, true, All, Option, none, some, [], ◌++◌,
  Text, codes, decimal, Digits-decimal, decimal-ne-nil, is_digit, arith, append-nil,
}
use mitup_telegram_bot.CallbackData.{
  Date, Extra, plain, date_extra, code_extra, page_extra, grant_extra, meeting_extra, BackTarget,
  MeetingListSource, active, joined, meeting_editor, optional_number, source_value, target_value,
  date_text, code_suffix, paginated_suffix, grant_suffix, meeting_suffix, date_suffix, suffix,
  source_suffix, origin_text,
}
use mitup_telegram_bot.CallbackData.Regex.{literal, Stops, star, star-append, plus-append}
use mitup_telegram_bot.CallbackData.Parse.{
  ExtraGroups, no_groups, date_group, code_group, page_groups, level_group, meeting_group,
  date_pattern, code_pattern, source_pattern, paginated_pattern, grant_pattern, meeting_pattern,
  extra_pattern, origin_pattern, is_base64url,
}
use mitup_telegram_bot.CallbackData.RoundTrip.Fields.{ExtraSendable}

-- The suffix where there is one.
pub wire_suffix : Extra → Text
wire_suffix plain = []
wire_suffix (date_extra none) = []
wire_suffix (date_extra (some date)) = codes ";date:" ++ date_text date
wire_suffix (code_extra code) = code_suffix code
wire_suffix (page_extra page source) = paginated_suffix page source
wire_suffix (grant_extra level) = grant_suffix level
wire_suffix (meeting_extra meeting_id) = meeting_suffix meeting_id

abbrev pub code_text : Option Text → Text
code_text none = []
code_text (some code) = code

abbrev pub meeting_text : Option ℕ → Text
meeting_text none = []
meeting_text (some zero) = []
meeting_text (some (suc n)) = decimal (suc n)

abbrev pub printed {ℓ} : {A : Type ℓ} → (A → Text) → Option A → Option Text
printed f none = none
printed f (some a) = some (f a)

-- The groups that the suffix fills.
unfoldable pub extra_groups : Extra → ExtraGroups
extra_groups plain = no_groups
extra_groups (date_extra none) = date_group []
extra_groups (date_extra (some date)) = date_group (date_text date)
extra_groups (code_extra code) = code_group (code_text code)
extra_groups (page_extra page source) =
    page_groups (printed decimal page) (printed source_value source)
extra_groups (grant_extra level) = level_group (optional_number level)
extra_groups (meeting_extra meeting_id) = meeting_group (meeting_text meeting_id)

pub suffix-wire_suffix : (d x : Extra) → ExtraSendable d x → suffix x ≡ some (wire_suffix x)
unfolding suffix wire_suffix date_suffix
suffix-wire_suffix d plain h = refl
suffix-wire_suffix plain (date_extra none) h = absurd h
suffix-wire_suffix d (date_extra none) h = absurd h
suffix-wire_suffix d (date_extra (some date)) h = refl
suffix-wire_suffix d (code_extra code) h = refl
suffix-wire_suffix d (page_extra page source) h = refl
suffix-wire_suffix d (grant_extra level) h = refl
suffix-wire_suffix d (meeting_extra meeting_id) h = refl

-- No suffix starts with a digit.
pub Stops-wire_suffix : (x : Extra) → Stops is_digit (wire_suffix x)
unfolding wire_suffix code_suffix paginated_suffix grant_suffix meeting_suffix
Stops-wire_suffix plain = tt
Stops-wire_suffix (date_extra none) = tt
Stops-wire_suffix (date_extra (some date)) = refl
Stops-wire_suffix (code_extra none) = refl
Stops-wire_suffix (code_extra (some code)) = refl
Stops-wire_suffix (page_extra none none) = tt
Stops-wire_suffix (page_extra none (some source)) = refl
Stops-wire_suffix (page_extra (some page) source) = refl
Stops-wire_suffix (grant_extra level) = refl
Stops-wire_suffix (meeting_extra none) = refl
Stops-wire_suffix (meeting_extra (some zero)) = refl
Stops-wire_suffix (meeting_extra (some (suc n))) = refl

-- A digit of a number's print.
digit : (n : ℕ) → is_digit (48 + n % 10) ≡ true
digit n = ground arith

pub Digits-optional_number : (n : Option ℕ) → All (λ c. is_digit c ≡ true) (optional_number n)
unfolding optional_number
Digits-optional_number none = tt
Digits-optional_number (some n) = Digits-decimal n

Stops-source_suffix : (source : Option MeetingListSource) → Stops is_digit (source_suffix source)
Stops-source_suffix none = tt
Stops-source_suffix (some source) = refl

module _ {ℓ} {R : Type ℓ} where
  -- No suffix is taken for an origin.
  pub wire_suffix-no_back :
      (x : Extra) (k : Text → Option R) → literal (codes ";back:") k (wire_suffix x) ≡ none
  unfolding wire_suffix code_suffix paginated_suffix grant_suffix meeting_suffix
  wire_suffix-no_back plain k = refl
  wire_suffix-no_back (date_extra none) k = refl
  wire_suffix-no_back (date_extra (some date)) k = refl
  wire_suffix-no_back (code_extra none) k = refl
  wire_suffix-no_back (code_extra (some code)) k = refl
  wire_suffix-no_back (page_extra none none) k = refl
  wire_suffix-no_back (page_extra none (some source)) k = refl
  wire_suffix-no_back (page_extra (some page) source) k = refl
  wire_suffix-no_back (grant_extra level) k = refl
  wire_suffix-no_back (meeting_extra none) k = refl
  wire_suffix-no_back (meeting_extra (some zero)) k = refl
  wire_suffix-no_back (meeting_extra (some (suc n))) k = refl

  date_pattern-found :
      (k : ExtraGroups → Text → Option R) (date : Date)
      → date_pattern k (codes ";date:" ++ date_text date) ≡ k (date_group (date_text date)) []
  unfolding date_pattern
  date_pattern-found k date =
      rw
        (
          digit (date.year / 1000),
          digit (date.year / 100),
          digit (date.year / 10),
          digit date.year,
          digit (date.month / 10),
          digit date.month,
          digit (date.day / 10),
          digit date.day,
        )
        refl

  -- A run of characters at the end of the text.
  star-to_end :
      (p : ℕ → Bool) (k : Text → Text → Option R) (run : Text) (r : R)
      → All (λ c. p c ≡ true) run
      → k run [] ≡ some r
      → star p k run ≡ some r
  star-to_end p k run r h e =
      subst (λ s. star p k s ≡ some r) (append-nil run) (star-append p k run [] r h tt e)

  code_pattern-found :
      (k : ExtraGroups → Text → Option R) (d code : Option Text) (r : R)
      → ExtraSendable (code_extra d) (code_extra code)
      → k (code_group (code_text code)) [] ≡ some r
      → code_pattern k (code_suffix code) ≡ some r
  unfolding code_pattern code_suffix
  code_pattern-found k d none r h e = star-to_end is_base64url _ [] r tt e
  code_pattern-found k d (some code) r h e =
      star-to_end is_base64url (λ (c : Text). k (code_group c)) code r h.1 e

  source_pattern-found :
      (k : ExtraGroups → Text → Option R) (page : Option Text) (source : Option MeetingListSource)
      (r : R)
      → k (page_groups page (printed source_value source)) [] ≡ some r
      → source_pattern k page (source_suffix source) ≡ some r
  unfolding source_pattern
  source_pattern-found k page none r e = e
  source_pattern-found k page (some active) r e = rw e refl
  source_pattern-found k page (some joined) r e = rw e refl

  paginated_pattern-found :
      (k : ExtraGroups → Text → Option R) (page : Option ℕ) (source : Option MeetingListSource)
      (r : R)
      → k (page_groups (printed decimal page) (printed source_value source)) [] ≡ some r
      → paginated_pattern k (paginated_suffix page source) ≡ some r
  unfolding paginated_pattern paginated_suffix
  paginated_pattern-found k none none r e = source_pattern-found k none none r e
  paginated_pattern-found k none (some source) r e = source_pattern-found k none (some source) r e
  paginated_pattern-found k (some page) source r e =
      let found =
        plus-append is_digit (λ (number : Text). source_pattern k (some number)) (decimal page)
          (source_suffix source) r (decimal-ne-nil page) (Digits-decimal page)
          (Stops-source_suffix source) (source_pattern-found k (some (decimal page)) source r e) in
      rw found refl

  grant_pattern-found :
      (k : ExtraGroups → Text → Option R) (level : Option ℕ) (r : R)
      → k (level_group (optional_number level)) [] ≡ some r
      → grant_pattern k (grant_suffix level) ≡ some r
  unfolding grant_pattern grant_suffix
  grant_pattern-found k level r e =
      star-to_end is_digit (λ (n : Text). k (level_group n)) (optional_number level) r
        (Digits-optional_number level) e

  meeting_pattern-found :
      (k : ExtraGroups → Text → Option R) (meeting_id : Option ℕ) (r : R)
      → k (meeting_group (meeting_text meeting_id)) [] ≡ some r
      → meeting_pattern k (meeting_suffix meeting_id) ≡ some r
  unfolding meeting_pattern meeting_suffix
  meeting_pattern-found k none r e = star-to_end is_digit _ [] r tt e
  meeting_pattern-found k (some zero) r e = star-to_end is_digit _ [] r tt e
  meeting_pattern-found k (some (suc n)) r e =
      star-to_end is_digit (λ (m : Text). k (meeting_group m)) (decimal (suc n)) r
        (Digits-decimal (suc n)) e

  -- A declaration's class matches what the same class appends, to the last character.
  pub extra_pattern-found :
      (k : ExtraGroups → Text → Option R) (d x : Extra) (r : R)
      → ExtraSendable d x
      → k (extra_groups x) [] ≡ some r
      → extra_pattern d k (wire_suffix x) ≡ some r
  unfolding extra_pattern wire_suffix extra_groups
  extra_pattern-found k plain plain r h e = e
  extra_pattern-found k (date_extra d) (date_extra (some date)) r h e =
      rw (date_pattern-found k date) e
  extra_pattern-found k (code_extra d) (code_extra code) r h e = code_pattern-found k d code r h e
  extra_pattern-found k (page_extra d f) (page_extra page source) r h e =
      paginated_pattern-found k page source r e
  extra_pattern-found k (grant_extra d) (grant_extra level) r h e = grant_pattern-found k level r e
  extra_pattern-found k (meeting_extra d) (meeting_extra meeting_id) r h e =
      meeting_pattern-found k meeting_id r e
  extra_pattern-found k d x r h e = absurd h

abbrev pub back_id_group : Option BackTarget → Option ℕ → Option Text
back_id_group none back_id = none
back_id_group (some target) back_id = some (optional_number back_id)

-- The optional origin is matched where there is one, and passed over where there is none.
pub origin_pattern-found {ℓ} :
    {R : Type ℓ} (k : Option Text → Option Text → Text → Option R) (back : Option BackTarget)
    (back_id : Option ℕ) (x : Extra) (r : R)
    → k (printed target_value back) (back_id_group back back_id) (wire_suffix x) ≡ some r
    → origin_pattern k (origin_text back back_id ++ wire_suffix x) ≡ some r
unfolding origin_pattern origin_text
origin_pattern-found k none back_id x r e = rw (wire_suffix-no_back x _) e
origin_pattern-found k (some meeting_editor) back_id x r e =
    let found =
      star-append is_digit (λ (n : Text). k (some (codes "e")) (some n)) (optional_number back_id)
        (wire_suffix x) r (Digits-optional_number back_id) (Stops-wire_suffix x) e in
    rw found refl

pub Stops-origin_text :
    (back : Option BackTarget) (back_id : Option ℕ) (x : Extra)
    → Stops is_digit (origin_text back back_id ++ wire_suffix x)
unfolding origin_text
Stops-origin_text none back_id x = Stops-wire_suffix x
Stops-origin_text (some target) back_id x = refl
