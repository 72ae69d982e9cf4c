-- ===== src/Supporter/Caps.antt =====
-- The capability caps of supporter.py and their readings in limits.py.
use mitup_telegram_bot.Base.{
  ℕ, ◌+◌, ◌-◌, ◌≤◌, ◌≡◌, refl, ◌↔◌, Bool, true, false, Option, none, some, List, leb, arith, count,
}
use mitup_telegram_bot.Supporter.{
  SupporterLevel, none_level, LimitsConfig, meets, tighten, active_meetings_cap,
  scheduling_horizon_days, participant_capacity, effective_participant_capacity,
  at_active_meetings_cap, within_scheduling_horizon,
}

-- One cap allows what another allows; `none` is unlimited.
abbrev pub CapLe : Option ℕ → Option ℕ → Type 0
CapLe a none = Unit
CapLe none (some b) = ⊥
CapLe (some a) (some b) = a ≤ b

-- A higher tier is never allowed less: in active meetings, in scheduling horizon and in
-- participants, where the configured patron values are at least the free ones.
pub caps_mono :
    (config : LimitsConfig) (low high : SupporterLevel)
    → config.free_active_meetings ≤ config.patron_active_meetings
    → config.free_scheduling_horizon_days ≤ config.patron_scheduling_horizon_days
    → meets high low ≡ true
    → CapLe (active_meetings_cap config low) (active_meetings_cap config high)
      × CapLe (scheduling_horizon_days config low) (scheduling_horizon_days config high)
      × CapLe (participant_capacity config low) (participant_capacity config high)
unfolding active_meetings_cap scheduling_horizon_days participant_capacity meets
caps_mono config none_level none_level h k m = ground arith
caps_mono config low high h k m = ground arith

at_cap :
    (cap : Option ℕ) (active : ℕ)
    → ((elim cap [ none ↦ false | some c ↦ leb c active ]) ≡ true) ↔ CapLe cap (some active)
at_cap none active = ground arith
at_cap (some c) active = ground arith

in_horizon :
    (days : Option ℕ) (picked today : ℕ)
    → ((elim days [ none ↦ true | some d ↦ leb picked (today + d) ]) ≡ true)
      ↔ CapLe (some (picked - today)) days
in_horizon none picked today = (λ _. tt, λ _. refl)
in_horizon (some d) picked today = ground arith

tighten_lem :
    (cap max_members c : Option ℕ)
    → CapLe c (tighten cap max_members) ↔ (CapLe c cap × CapLe c max_members)
tighten_lem none none none = (λ h. (tt, tt), λ h. tt)
tighten_lem none none (some c) = (λ h. (tt, tt), λ h. tt)
tighten_lem none (some m) c = (λ h. (tt, h), λ h. h.1)
tighten_lem (some n) none c = (λ h. (h, tt), λ h. h.0)
tighten_lem (some n) (some m) none = (λ h. (h, h), λ h. h.0)
tighten_lem (some n) (some m) (some c) = ground arith

-- The enforced capacity is the owner's tier cap tightened by the limit that the owner set: a
-- capacity is within it exactly when it is within both, where a missing one is unlimited.
pub effective_participant_capacity_lem :
    (config : LimitsConfig) (level : SupporterLevel) (max_members c : Option ℕ)
    → CapLe c (effective_participant_capacity config level max_members)
      ↔ (CapLe c (participant_capacity config level) × CapLe c max_members)
unfolding effective_participant_capacity
effective_participant_capacity_lem config level max_members c =
    tighten_lem (participant_capacity config level) max_members c

-- The user is at the cap exactly when a finite cap is no more than the active meetings they own,
-- and a picked date is admitted exactly when no finite horizon ends before it.
pub limits_lem :
    (config : LimitsConfig) (level : SupporterLevel) (meetups : List Bool) (picked_date today : ℕ)
    → ((at_active_meetings_cap config level meetups ≡ true)
        ↔ CapLe (active_meetings_cap config level) (some (count (λ active. active) meetups)))
      × ((within_scheduling_horizon config level picked_date today ≡ true)
          ↔ CapLe (some (picked_date - today)) (scheduling_horizon_days config level))
unfolding at_active_meetings_cap within_scheduling_horizon
limits_lem config level meetups picked_date today = (
  at_cap (active_meetings_cap config level) (count (λ active. active) meetups),
  in_horizon (scheduling_horizon_days config level) picked_date today,
)
