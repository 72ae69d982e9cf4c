-- ===== src/Supporter/Lifecycle.antt =====
-- The durations of a meeting's life: libs/core/mitup_bot/lifecycle.py, and the conditions that the
-- sweeps build from them, apps/events/mitup_bot/events/lifecycle_queries.py. A `timedelta` is its
-- number of seconds, and a moment the seconds since a fixed one.
use mitup_telegram_bot.Base.{
  ℕ, ◌+◌, ◌-◌, ◌*◌, ◌/◌, ◌%◌, ◌≡◌, Bool, true, false, Option, none, some, List, [], ◌∷◌, ltb, ◌==◌,
  if◌then◌else◌, arith, any,
}
use mitup_telegram_bot.Supporter.{
  SupporterLevel, none_level, host_1, host_2, host_3, level_eq, level_order,
}

abbrev pub day : ℕ
day = 86_400

pub record LifecyclePolicy : Type 0 where
  pub dateless_lifetime : ℕ
  pub inactive_retention : ℕ
  pub max_timeout_minutes : ℕ
  pub max_duration : ℕ
  pub left_owner_dateless_lifetime : ℕ
  pub deletion_warning_lead : ℕ

-- The defaults of the dataclass, over its two required fields.
abbrev pub policy_of : ℕ → ℕ → LifecyclePolicy
policy_of dateless retention = record {
  dateless_lifetime = dateless;
  inactive_retention = retention;
  max_timeout_minutes = 24 * 60;
  max_duration = 7 * day;
  left_owner_dateless_lifetime = 30 * day;
  deletion_warning_lead = 7 * day;
}

abbrev pub free_policy : LifecyclePolicy
free_policy = policy_of (90 * day) (90 * day)

abbrev pub patron_policy : LifecyclePolicy
patron_policy = policy_of (365 * day) (365 * day)

abbrev pub deletion_warning_delay : LifecyclePolicy → ℕ
deletion_warning_delay policy = policy.inactive_retention - policy.deletion_warning_lead

-- `LifecyclePolicy.get`; a caller without a level gets the free policy.
unfoldable pub get : Option SupporterLevel → LifecyclePolicy
get none = free_policy
get (some none_level) = free_policy
get (some host_1) = free_policy
get (some host_2) = patron_policy
get (some host_3) = patron_policy

abbrev pub Grouped : Type 0
Grouped = List (ℕ × List SupporterLevel)

-- `grouped.setdefault(duration, []).append(level)`, on a dict in insertion order.
abbrev snoc : List SupporterLevel → SupporterLevel → List SupporterLevel
snoc [] level = level ∷ []
snoc (l ∷ ls) level = l ∷ snoc ls level

abbrev append_level : ℕ → SupporterLevel → Grouped → Grouped
append_level duration level [] = (duration, level ∷ []) ∷ []
append_level duration level ((d, ls) ∷ rest) =
    if duration == d then (d, snoc ls level) ∷ rest else (d, ls) ∷ append_level duration level rest

group_from : (LifecyclePolicy → ℕ) → Grouped → List SupporterLevel → Grouped
group_from duration_of grouped [] = grouped
group_from duration_of grouped (level ∷ levels) =
    group_from duration_of (append_level (duration_of (get (some level))) level grouped) levels

unfoldable pub levels_by_duration : (LifecyclePolicy → ℕ) → Grouped
unfolding group_from get
levels_by_duration duration_of = group_from duration_of [] level_order

-- `none` is the ValueError of a duration that is no whole number of days.
unfoldable pub interval_days : ℕ → Option ℕ
interval_days duration = if duration % day == 0 then some (duration / day) else none

-- One `and_` branch: the level is listed, and the stamp plus the rendered interval is past.
pub window_branch : ℕ → ℕ → SupporterLevel → ℕ × List SupporterLevel → Option Bool
unfolding interval_days
window_branch stamp now level (duration, levels) = elim (interval_days duration) [
  | none ↦ none
  | some days ↦
      some (if any (λ l. level_eq l level) levels then ltb (stamp + days * day) now else false)
]

-- `or_` of the branches; rendering one of them fails where its duration is not in whole days.
abbrev or_else : Option Bool → Option Bool → Option Bool
or_else none b = none
or_else (some a) none = none
or_else (some a) (some b) = some (if a then true else b)

pub branches_elapsed : ℕ → ℕ → SupporterLevel → Grouped → Option Bool
unfolding window_branch
branches_elapsed stamp now level [] = some false
branches_elapsed stamp now level (g ∷ gs) =
    or_else (window_branch stamp now level g) (branches_elapsed stamp now level gs)

-- `owner_tier_window_elapsed`, as it reads on one row: the owner's level, the stamp, the clock.
pub owner_tier_window_elapsed : (LifecyclePolicy → ℕ) → ℕ → ℕ → SupporterLevel → Option Bool
unfolding branches_elapsed levels_by_duration
owner_tier_window_elapsed duration_of stamp now level =
    branches_elapsed stamp now level (levels_by_duration duration_of)

-- Where the durations of both policies are in whole days, the disjunction that the sweeps send to
-- the database says of every owner that their own tier's window after the stamp is past, and it is
-- rendered without an error. It stays so where two tiers share a duration and their branches merge.
pub owner_tier_window_elapsed_lem :
    (duration_of : LifecyclePolicy → ℕ) (stamp now : ℕ) (level : SupporterLevel)
    → duration_of free_policy % day ≡ 0
    → duration_of patron_policy % day ≡ 0
    → owner_tier_window_elapsed duration_of stamp now level
      ≡ some (ltb (stamp + duration_of (get (some level))) now)
unfolding owner_tier_window_elapsed get
owner_tier_window_elapsed_lem duration_of stamp now none_level h k = ground arith
owner_tier_window_elapsed_lem duration_of stamp now host_1 h k = ground arith
owner_tier_window_elapsed_lem duration_of stamp now host_2 h k = ground arith
owner_tier_window_elapsed_lem duration_of stamp now host_3 h k = ground arith
