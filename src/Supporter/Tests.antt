-- ===== src/Supporter/Tests.antt =====
-- Runs of the supporter policy on concrete tiers, and instances of the theorems about it.
use mitup_telegram_bot.Base.{ℕ, ◌*◌, ◌≡◌, refl, [], ◌∷◌}
use mitup_telegram_bot.Supporter.{
  none_level, host_1, host_2, host_3, LimitsConfig, PatreonConfig, level_for_amount,
}
use mitup_telegram_bot.Supporter.Lifecycle.{LifecyclePolicy, day, levels_by_duration}

-- The shipped values of `LimitsConfig` and `PatreonConfig`.
abbrev shipped : LimitsConfig
shipped = record {
  free_active_meetings = 5;
  patron_active_meetings = 50;
  free_scheduling_horizon_days = 90;
  patron_scheduling_horizon_days = 365;
  free_participant_capacity = 20;
}

abbrev prices : PatreonConfig
prices = record { patron_min_cents = 500; organizer_min_cents = 1000 }

retention : LifecyclePolicy → ℕ
retention policy = policy.inactive_retention

lead : LifecyclePolicy → ℕ
lead policy = policy.deletion_warning_lead

two_windows :
    levels_by_duration retention
    ≡ (90 * day, none_level ∷ host_1 ∷ []) ∷ (365 * day, host_2 ∷ host_3 ∷ []) ∷ []
unfolding levels_by_duration retention
two_windows = refl

one_window : levels_by_duration lead ≡ (7 * day, none_level ∷ host_1 ∷ host_2 ∷ host_3 ∷ []) ∷ []
unfolding levels_by_duration lead
one_window = refl

amount_below_patron : level_for_amount 100 prices ≡ host_1
unfolding level_for_amount
amount_below_patron = refl
