-- ===== src/CallbackData/Parse.antt =====
-- The patterns of libs/core/mitup_bot/callback_data.py, a pattern's match, and `parse`, which
-- validates the groups of a match. That pydantic reads a date of ten characters is the argument
-- `to_date`.
use mitup_telegram_bot.Base.{
  bind, ℕ, Bool, true, ◌&&◌, ◌||◌, Option, none, some, List, [], ◌∷◌, ◌++◌, map, Text, codes,
  is_digit, value, leb, if◌then◌else◌, ◌==◌, text_eq,
}
use mitup_telegram_bot.CallbackData.{
  Date, Extra, plain, date_extra, code_extra, page_extra, grant_extra, meeting_extra, CallbackData,
  MeetingListSource, active, joined, BackTarget, meeting_editor, unknown_entity, source_value,
  target_value,
}
use mitup_telegram_bot.CallbackData.Regex.{
  or_else, literal, star, plus, times, alternation, at_end, regex_alternation,
}

-- The groups a subclass's pattern adds; an optional group is none where it took no part.
pub data ExtraGroups : Type 0 where
  no_groups : ExtraGroups
  date_group : Text → ExtraGroups
  code_group : Text → ExtraGroups
  page_groups : Option Text → Option Text → ExtraGroups
  level_group : Text → ExtraGroups
  meeting_group : Text → ExtraGroups

-- `match.groupdict()`.
pub record Groups : Type 0 where
  pub action : Text
  pub entity : Text
  pub id : Text
  pub back : Option Text
  pub back_id : Option Text
  pub extra : ExtraGroups

-- `[A-Za-z0-9_-]`.
abbrev pub is_base64url : ℕ → Bool
is_base64url c =
    is_digit c || (leb 65 c && leb c 90) || (leb 97 c && leb c 122) || c == 95 || c == 45

abbrev pub is_target : ℕ → Bool
is_target c = c == 101

abbrev pub is_source : ℕ → Bool
is_source c = c == 97 || c == 106

module _ {ℓ} {R : Type ℓ} where
  unfoldable pub date_pattern : (ExtraGroups → Text → Option R) → Text → Option R
  date_pattern k = literal (codes ";date:") (
      times 4 is_digit λ (year : Text). literal (codes "-") (
        times 2 is_digit λ (month : Text).
          literal (codes "-")
            (times 2 is_digit λ (day : Text). k (date_group (year ++ 45 ∷ month ++ 45 ∷ day)))))

  unfoldable pub code_pattern : (ExtraGroups → Text → Option R) → Text → Option R
  code_pattern k = literal (codes ";code:") (star is_base64url λ (code : Text). k (code_group code))

  -- `(?:;src:(?P<source>[aj]))?`.
  unfoldable pub source_pattern : (ExtraGroups → Text → Option R) → Option Text → Text → Option R
  source_pattern k page s =
      or_else
        (literal (codes ";src:")
          (times 1 is_source λ (source : Text). k (page_groups page (some source))) s)
        (k (page_groups page none) s)

  unfoldable pub paginated_pattern : (ExtraGroups → Text → Option R) → Text → Option R
  paginated_pattern k s =
      or_else
        (literal (codes ";page:") (plus is_digit λ (page : Text). source_pattern k (some page)) s)
        (source_pattern k none s)

  unfoldable pub grant_pattern : (ExtraGroups → Text → Option R) → Text → Option R
  grant_pattern k = literal (codes ";lvl:") (star is_digit λ (level : Text). k (level_group level))

  unfoldable pub meeting_pattern : (ExtraGroups → Text → Option R) → Text → Option R
  meeting_pattern k =
      literal (codes ":") (star is_digit λ (meeting_id : Text). k (meeting_group meeting_id))

  -- What the class of the declaration appends to the pattern's body.
  unfoldable pub extra_pattern : Extra → (ExtraGroups → Text → Option R) → Text → Option R
  extra_pattern plain k = k no_groups
  extra_pattern (date_extra _) k = date_pattern k
  extra_pattern (code_extra _) k = code_pattern k
  extra_pattern (page_extra _ _) k = paginated_pattern k
  extra_pattern (grant_extra _) k = grant_pattern k
  extra_pattern (meeting_extra _) k = meeting_pattern k

  -- `(?:;back:(?P<back>[e])(?P<back_id>\d*))?`.
  unfoldable pub origin_pattern : (Option Text → Option Text → Text → Option R) → Text → Option R
  origin_pattern k s =
      or_else
        (literal (codes ";back:")
          (times 1 is_target
            λ (back : Text). star is_digit λ (back_id : Text). k (some back) (some back_id))
          s)
        (k none none s)

unfoldable pub actions : CallbackData → List Text
actions d = regex_alternation (d.action ∷ map (λ pair. pair.0) d.aliases)

unfoldable pub entities : CallbackData → List Text
entities d = regex_alternation (d.entity ∷ map (λ pair. pair.1) d.aliases)

-- `pattern_body` from the id on, closed by the class's suffix and the end.
unfoldable pub tail_pattern : CallbackData → Text → Text → Text → Option Groups
tail_pattern d action entity = star is_digit λ (id : Text).
    origin_pattern λ (back : Option Text) (back_id : Option Text).
      extra_pattern d.extra λ (extra : ExtraGroups). at_end (record {
        action = action;
        entity = entity;
        id = id;
        back = back;
        back_id = back_id;
        extra = extra;
      })

-- `re.match(self.pattern, data)`.
unfoldable pub match_pattern : CallbackData → Text → Option Groups
match_pattern d = alternation (actions d) λ (action : Text).
    literal (codes ";") (
      alternation (entities d)
        λ (entity : Text). literal (codes ":") (tail_pattern d action entity))

-- `value or None` and pydantic's conversion of what is left.
unfoldable pub validate_id : Text → Option ℕ
validate_id [] = none
validate_id (c ∷ s) = some (value (c ∷ s))

abbrev pub validate_optional : Option Text → Option ℕ
validate_optional none = none
validate_optional (some s) = validate_id s

-- The member of the enumeration that has the value; the pattern lets no other text through.
unfoldable pub target_of : Option Text → Option BackTarget
target_of none = none
target_of (some s) = if text_eq s (target_value meeting_editor) then some meeting_editor else none

unfoldable pub source_of : Option Text → Option MeetingListSource
source_of none = none
source_of (some s) =
    if text_eq s (source_value active)
    then some active
    else if text_eq s (source_value joined)
    then some joined
    else none

unfoldable pub validate_code : Text → Option Text
validate_code [] = none
validate_code (c ∷ s) = some (c ∷ s)

-- `Field(ge=1)`.
abbrev pub page_valid : Option ℕ → Bool
page_valid none = true
page_valid (some page) = leb 1 page

module _ (to_date : Text → Option Date) where
  -- The subclass's fields of a match; none where pydantic raises `ValidationError`.
  unfoldable pub validate_extra : ExtraGroups → Option Extra
  validate_extra no_groups = some plain
  validate_extra (date_group s) = bind (to_date s) (λ date. some (date_extra (some date)))
  validate_extra (code_group s) = some (code_extra (validate_code s))
  validate_extra (page_groups page source) =
      let number = validate_optional page in
      if page_valid number then some (page_extra number (source_of source)) else none
  validate_extra (level_group s) = some (grant_extra (validate_id s))
  validate_extra (meeting_group s) = some (meeting_extra (validate_id s))

  -- `model_validate(match.groupdict())`.
  unfoldable pub model_validate : Groups → Option CallbackData
  model_validate g = bind (validate_extra g.extra) (λ extra. some (record {
    entity = g.entity;
    action = g.action;
    id = validate_id g.id;
    aliases = [];
    back = target_of g.back;
    back_id = validate_optional g.back_id;
    extra = extra;
  }))

-- The fields of a class that nothing sets.
abbrev pub blank : Extra → Extra
blank plain = plain
blank (date_extra _) = date_extra none
blank (code_extra _) = code_extra none
blank (page_extra _ _) = page_extra none none
blank (grant_extra _) = grant_extra none
blank (meeting_extra _) = meeting_extra none

-- `parse`: data that matched nothing becomes a callback of the unknown entity.
unfoldable pub parse : (Text → Option Date) → CallbackData → Option Groups → Option CallbackData
parse to_date d none = some (record {
  entity = unknown_entity;
  action = codes "show";
  id = none;
  aliases = [];
  back = none;
  back_id = none;
  extra = blank d.extra;
})
parse to_date d (some g) = model_validate to_date g
