-- ===== src/CallbackData/RoundTrip.antt =====
-- The text of a callback, and what the pattern and the parser of its declaration make of it:
-- libs/core/mitup_bot/callback_data.py.
pub mod Fields
mod Suffixes
use mitup_telegram_bot.Base.{
  ℕ, zero, suc, Bool, true, decimal, is_digit, ◌≡◌, ◌≢◌, refl, subst, ap, append_assoc, Option,
  none, some, List, [], ◌∷◌, ◌++◌, map, All, Has, Lacks, Text, bind,
}
use mitup_telegram_bot.CallbackData.{
  Date, Extra, plain, date_extra, code_extra, page_extra, grant_extra, meeting_extra, CallbackData,
  optional_number, origin_text, base_str, str, derive, suffix, date_text, target_value, BackTarget,
  MeetingListSource, source_value,
}
use mitup_telegram_bot.CallbackData.Regex.{
  IsForm, at_end, alternation-found, All-regex_alternation, Has-regex_alternation, star-append,
}
use mitup_telegram_bot.CallbackData.Parse.{
  source_of, Groups, ExtraGroups, actions, entities, extra_pattern, origin_pattern, tail_pattern,
  match_pattern, model_validate, parse, validate_extra, target_of, validate_optional,
}
use mitup_telegram_bot.CallbackData.RoundTrip.Fields.{
  validate_code-nil, validate_id-decimal, is_date, Declaration, Sendable, ExtraSendable,
  OriginSendable, All-Has, validate_id-optional_number, target_of-target_value,
  source_of-source_value, validate_code-id,
}
use mitup_telegram_bot.CallbackData.RoundTrip.Suffixes.{
  Digits-optional_number, wire_suffix, extra_groups, printed, back_id_group, suffix-wire_suffix,
  extra_pattern-found, origin_pattern-found, Stops-origin_text,
}

-- The groups of the text of a callback.
groups_of : CallbackData → Groups
groups_of c = record {
  action = c.action;
  entity = c.entity;
  id = optional_number c.id;
  back = printed target_value c.back;
  back_id = back_id_group c.back c.back_id;
  extra = extra_groups c.extra;
}

wire_tail : CallbackData → Text
wire_tail c = optional_number c.id ++ (origin_text c.back c.back_id ++ wire_suffix c.extra)

str-parts :
    (d : Extra) (c : CallbackData)
    → ExtraSendable d c.extra
    → str c ≡ some (c.action ++ (59 ∷ (c.entity ++ (58 ∷ wire_tail c))))
unfolding str base_str wire_tail
str-parts d c h =
    rw
      (
        suffix-wire_suffix d c.extra h,
        append_assoc c.action
            (59 ∷ (c.entity ++ (58 ∷ (optional_number c.id ++ origin_text c.back c.back_id))))
            (wire_suffix c.extra),
        append_assoc c.entity (58 ∷ (optional_number c.id ++ origin_text c.back c.back_id))
            (wire_suffix c.extra),
        append_assoc (optional_number c.id) (origin_text c.back c.back_id) (wire_suffix c.extra),
      )
      refl

tail_pattern-found :
    (d c : CallbackData)
    → ExtraSendable d.extra c.extra
    → tail_pattern d c.action c.entity (wire_tail c) ≡ some (groups_of c)
unfolding tail_pattern wire_tail groups_of
tail_pattern-found d c h =
    star-append is_digit _ (optional_number c.id) _ (groups_of c) (Digits-optional_number c.id)
      (Stops-origin_text c.back c.back_id c.extra)
      (origin_pattern-found _ c.back c.back_id c.extra (groups_of c)
        (extra_pattern-found _ d.extra c.extra (groups_of c) h refl))

match_pattern-found :
    (d c : CallbackData)
    → Declaration d
    → Sendable d c
    → match_pattern d (c.action ++ (59 ∷ (c.entity ++ (58 ∷ wire_tail c)))) ≡ some (groups_of c)
unfolding match_pattern actions entities
match_pattern-found d c declared h =
    let action_forms =
      All-regex_alternation (IsForm 59) (d.action ∷ map (λ pair. pair.0) d.aliases)
        (declared.0.0, declared.1.0) in
    let entity_forms =
      All-regex_alternation (IsForm 58) (d.entity ∷ map (λ pair. pair.1) d.aliases)
        (declared.0.1, declared.1.1) in
    let lacks_action =
      (All-Has (IsForm 59) c.action (d.action ∷ map (λ pair. pair.0) d.aliases)
        (declared.0.0, declared.1.0) h.0.0).0 in
    let lacks_entity =
      (All-Has (IsForm 58) c.entity (d.entity ∷ map (λ pair. pair.1) d.aliases)
        (declared.0.1, declared.1.1) h.0.1).0 in
    alternation-found 59 (actions d) c.action _ _ (groups_of c) action_forms lacks_action
      (Has-regex_alternation c.action _ h.0.0)
      (alternation-found 58 (entities d) c.entity (tail_pattern d c.action) (wire_tail c)
        (groups_of c) entity_forms lacks_entity (Has-regex_alternation c.entity _ h.0.1)
        (tail_pattern-found d c h.1.1))

target_of-printed : (back : Option BackTarget) → target_of (printed target_value back) ≡ back
unfolding target_of
target_of-printed none = refl
target_of-printed (some target) = target_of-target_value target

source_of-printed :
    (source : Option MeetingListSource) → source_of (printed source_value source) ≡ source
unfolding source_of
source_of-printed none = refl
source_of-printed (some source) = source_of-source_value source

validate_optional-decimal : (page : Option ℕ) → validate_optional (printed decimal page) ≡ page
validate_optional-decimal none = refl
validate_optional-decimal (some page) = validate_id-decimal page

validate_optional-back_id_group :
    (back : Option BackTarget) (back_id : Option ℕ)
    → OriginSendable back back_id
    → validate_optional (back_id_group back back_id) ≡ back_id
validate_optional-back_id_group none none h = refl
validate_optional-back_id_group none (some n) h = absurd h
validate_optional-back_id_group (some target) back_id h = validate_id-optional_number back_id

module _ (to_date : Text → Option Date)
    (to_date-date_text : (date : Date)
      → is_date date ≡ true
      → to_date (date_text date) ≡ some date) where
  validate_extra-found :
      (d x : Extra) → ExtraSendable d x → validate_extra to_date (extra_groups x) ≡ some x
  unfolding validate_extra extra_groups optional_number
  validate_extra-found plain plain h = refl
  validate_extra-found (date_extra d) (date_extra (some date)) h =
      rw (to_date-date_text date h) refl
  validate_extra-found (code_extra d) (code_extra none) h =
      ap (λ code. some (code_extra code)) validate_code-nil
  validate_extra-found (code_extra d) (code_extra (some code)) h =
      rw (validate_code-id code h.0) refl
  validate_extra-found (page_extra d f) (page_extra page source) h =
      rw (validate_optional-decimal page, source_of-printed source, h) refl
  validate_extra-found (grant_extra d) (grant_extra level) h =
      rw (validate_id-optional_number level) refl
  validate_extra-found (meeting_extra d) (meeting_extra none) h =
      ap (λ n. some (meeting_extra n)) (validate_id-optional_number none)
  validate_extra-found (meeting_extra d) (meeting_extra (some zero)) h = absurd (h refl)
  validate_extra-found (meeting_extra d) (meeting_extra (some (suc n))) h =
      rw (validate_id-decimal (suc n)) refl
  validate_extra-found d x h = absurd h

  model_validate-found :
      (d c : CallbackData) → Sendable d c → model_validate to_date (groups_of c) ≡ some (derive c)
  unfolding model_validate groups_of derive
  model_validate-found d c h =
      rw
        (
          validate_extra-found d.extra c.extra h.1.1,
          validate_id-optional_number c.id,
          target_of-printed c.back,
          validate_optional-back_id_group c.back c.back_id h.1.0,
        )
        refl

  pub parse-str :
      (d c : CallbackData)
      → Declaration d
      → Sendable d c
      → bind (str c) (λ wire. parse to_date d (match_pattern d wire)) ≡ some (derive c)
  unfolding parse
  parse-str d c declared h =
      rw (str-parts d.extra c h.1.1, match_pattern-found d c declared h)
        (model_validate-found d c h)
