-- ===== src/Supporter.antt =====
-- The supporter tiers and what each one allows: libs/core/mitup_bot/supporter.py and the limit
-- predicates of libs/core/mitup_bot/limits.py. The configured limits, which the source keeps on
-- `PolicyState.config`, are an argument.

pub mod Lifecycle
pub mod Order
pub mod Caps
mod Tests
use mitup_telegram_bot.Base.{
  ℕ, zero, suc, ◌+◌, ◌≡◌, refl, Bool, true, false, Option, none, some, List, [], ◌∷◌, leb, ltb, min,
  count, if◌then◌else◌,
}

pub data SupporterLevel : Type 0 where
  none_level host_1 host_2 host_3 : SupporterLevel

abbrev pub level_eq : SupporterLevel → SupporterLevel → Bool
level_eq none_level none_level = true
level_eq host_1 host_1 = true
level_eq host_2 host_2 = true
level_eq host_3 host_3 = true
level_eq _ _ = false

abbrev pub level_order : List SupporterLevel
level_order = none_level ∷ host_1 ∷ host_2 ∷ host_3 ∷ []

-- `tuple.index`; the end is a ValueError in the source, and `rank` never reaches it.
abbrev pub index : List SupporterLevel → SupporterLevel → ℕ
index [] level = 0
index (l ∷ ls) level = if level_eq l level then 0 else suc (index ls level)

pub rank : SupporterLevel → ℕ
rank level = index level_order level

pub meets : SupporterLevel → SupporterLevel → Bool
unfolding rank
meets level minimum = leb (rank minimum) (rank level)

pub is_supporter : SupporterLevel → Bool
unfolding meets
is_supporter level = meets level host_1

-- `max(levels, key=rank)`: the first of the highest-ranked. Python refuses an empty call.
pub highest : SupporterLevel → List SupporterLevel → SupporterLevel
unfolding rank
highest best [] = best
highest best (l ∷ ls) = highest (if ltb (rank best) (rank l) then l else best) ls

-- The thresholds of `PatreonConfig`, in cents.
pub record PatreonConfig : Type 0 where
  pub patron_min_cents : ℕ
  pub organizer_min_cents : ℕ

pub level_for_amount : ℕ → PatreonConfig → SupporterLevel
level_for_amount cents config =
    if leb config.organizer_min_cents cents
    then host_3
    else if leb config.patron_min_cents cents
    then host_2
    else host_1

pub record LimitsConfig : Type 0 where
  pub free_active_meetings : ℕ
  pub patron_active_meetings : ℕ
  pub free_scheduling_horizon_days : ℕ
  pub patron_scheduling_horizon_days : ℕ
  pub free_participant_capacity : ℕ

pub active_meetings_cap : LimitsConfig → SupporterLevel → Option ℕ
active_meetings_cap config none_level = some config.free_active_meetings
active_meetings_cap config host_1 = some config.free_active_meetings
active_meetings_cap config host_2 = some config.patron_active_meetings
active_meetings_cap config host_3 = none

pub scheduling_horizon_days : LimitsConfig → SupporterLevel → Option ℕ
scheduling_horizon_days config none_level = some config.free_scheduling_horizon_days
scheduling_horizon_days config host_1 = some config.free_scheduling_horizon_days
scheduling_horizon_days config host_2 = some config.patron_scheduling_horizon_days
scheduling_horizon_days config host_3 = none

pub participant_capacity : LimitsConfig → SupporterLevel → Option ℕ
participant_capacity config none_level = some config.free_participant_capacity
participant_capacity config host_1 = some config.free_participant_capacity
participant_capacity config host_2 = none
participant_capacity config host_3 = none

abbrev tighten : Option ℕ → Option ℕ → Option ℕ
tighten none max_members = max_members
tighten (some cap) none = some cap
tighten (some cap) (some members) = some (min members cap)

-- limits.effective_participant_capacity, on the owner's level.
unfoldable pub effective_participant_capacity : LimitsConfig → SupporterLevel → Option ℕ → Option ℕ
unfolding participant_capacity
effective_participant_capacity config level max_members =
    tighten (participant_capacity config level) max_members

-- limits.at_active_meetings_cap, on the `active` flags of the meetings the user owns.
pub at_active_meetings_cap : LimitsConfig → SupporterLevel → List Bool → Bool
unfolding active_meetings_cap
at_active_meetings_cap config level meetups = elim (active_meetings_cap config level) [
  | none ↦ false
  | some cap ↦ leb cap (count (λ active. active) meetups)
]

-- limits.within_scheduling_horizon, on the day numbers of the picked date and of today, both read
-- in the user's timezone.
pub within_scheduling_horizon : LimitsConfig → SupporterLevel → ℕ → ℕ → Bool
unfolding scheduling_horizon_days
within_scheduling_horizon config level picked_date today =
    elim (scheduling_horizon_days config level) [
      | none ↦ true
      | some days ↦ leb picked_date (today + days)
    ]
