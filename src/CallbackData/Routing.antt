-- ===== src/CallbackData/Routing.antt =====
-- Which texts a declaration's pattern leaves to others: libs/core/mitup_bot/callback_data.py.
use mitup_telegram_bot.Base.{
  ◌≡◌, ◌≢◌, ◌⊎◌, inl, inr, refl, append_assoc, none, ◌∷◌, ◌++◌, map, All, Option-cases, Lacks, Text,
  bind,
}
use mitup_telegram_bot.CallbackData.{
  CallbackData, optional_number, origin_text, base_str, str, suffix,
}
use mitup_telegram_bot.CallbackData.Regex.{IsForm, alternation-absent, All-regex_alternation}
use mitup_telegram_bot.CallbackData.Parse.{actions, entities, match_pattern, tail_pattern}
use mitup_telegram_bot.CallbackData.RoundTrip.Fields.{Declaration}

-- The declaration has the action in no form, or the entity.
abbrev pub Foreign : CallbackData → CallbackData → Type 0
Foreign d c =
    All (λ form. form ≢ c.action) (d.action ∷ map (λ pair. pair.0) d.aliases)
    ⊎ All (λ form. form ≢ c.entity) (d.entity ∷ map (λ pair. pair.1) d.aliases)

match_pattern-Foreign :
    (d c : CallbackData) (s : Text)
    → Declaration d
    → Lacks 59 c.action
    → Lacks 58 c.entity
    → Foreign d c
    → match_pattern d (c.action ++ (59 ∷ (c.entity ++ (58 ∷ s)))) ≡ none
unfolding match_pattern actions entities
match_pattern-Foreign d c s declared action entity foreign =
    let action_forms =
      All-regex_alternation (IsForm 59) (d.action ∷ map (λ pair. pair.0) d.aliases)
        (declared.0.0, declared.1.0) in
    let entity_forms =
      All-regex_alternation (IsForm 58) (d.entity ∷ map (λ pair. pair.1) d.aliases)
        (declared.0.1, declared.1.1) in
    alternation-absent 59 (actions d) c.action _ _ action_forms action (elim foreign [
      | inl none_is ↦ inl (All-regex_alternation (λ form. form ≢ c.action) _ none_is)
      | inr none_is ↦ inr (
          alternation-absent 58 (entities d) c.entity (tail_pattern d c.action) s entity_forms
            entity (inl (All-regex_alternation (λ form. form ≢ c.entity) _ none_is)))
    ])

base_str-Foreign :
    (d c : CallbackData) (s : Text)
    → Declaration d
    → Lacks 59 c.action
    → Lacks 58 c.entity
    → Foreign d c
    → match_pattern d (base_str c ++ s) ≡ none
unfolding base_str
base_str-Foreign d c s declared action entity foreign =
    let tail = optional_number c.id ++ origin_text c.back c.back_id in
    rw
      (
        append_assoc c.action (59 ∷ (c.entity ++ (58 ∷ tail))) s,
        append_assoc c.entity (58 ∷ tail) s,
      )
      (match_pattern-Foreign d c (tail ++ s) declared action entity foreign)

-- The text of a callback whose action is none of a declaration's actions, or whose entity none of
-- its entities, does not match the declaration's pattern: it is answered by another handler. No
-- separator is in the forms, and none of the declaration's has a character that is special in a
-- regular expression.
pub match_pattern-str :
    (d c : CallbackData)
    → Declaration d
    → Lacks 59 c.action
    → Lacks 58 c.entity
    → Foreign d c
    → bind (str c) (match_pattern d) ≡ none
unfolding str
match_pattern-str d c declared action entity foreign = elim (Option-cases (suffix c.extra)) [
  | inl e ↦ rw e refl
  | inr (s, e) ↦ rw e (base_str-Foreign d c s declared action entity foreign)
]
