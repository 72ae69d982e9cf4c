-- ===== src/Outbox/Drain.antt =====
-- Where each call of an outbox ends: libs/telegram/mitup_bot/api_wrapper.py.
use mitup_telegram_bot.Base.{
  ℕ, suc, ◌+◌, ◌≤◌, ◌<◌, ◌≡◌, ◌⊎◌, refl, Bool, true, false, [], length, if◌then◌else◌,
}
use mitup_telegram_bot.Outbox.{DrainReport, Draining}

-- The calls that a report names in one of its four ways.
abbrev pub accounted : DrainReport → ℕ
accounted r = r.sent + r.failed + length r.abandoned + length r.skipped_inline_message_ids

abbrev pub Accounts : ℕ → DrainReport → Type 0
Accounts calls r =
    (accounted r ≡ calls)
    × ((r.abandoned ≡ []) ⊎ (r.consecutive_network_failures ≡ 3))
    × (r.consecutive_network_failures ≤ 3)
    × (r.inline_edit_timeouts ≤ 3)

-- A report of a drain that goes on.
pub record Ongoing (r : DrainReport) : Type 0 where
  pub none_abandoned : r.abandoned ≡ []
  pub alive : r.consecutive_network_failures < 3
  pub bounded : r.inline_edit_timeouts ≤ 3

-- A report with one more call recorded.
pub record Recorded (r s : DrainReport) : Type 0 where
  pub one_more : s.sent + s.failed ≡ suc (r.sent + r.failed)
  pub abandoned_same : s.abandoned ≡ r.abandoned
  pub skipped_same : s.skipped_inline_message_ids ≡ r.skipped_inline_message_ids
  pub streak : s.consecutive_network_failures ≤ suc r.consecutive_network_failures
  pub timeouts : s.inline_edit_timeouts ≤ 3

-- The two ways in which a loop's pass may go.
pub pass :
    (P : Draining → Type 0) (skips dead : Bool) (skipped dropped continued : Draining)
    → (skips ≡ true → P skipped)
    → (skips ≡ false → dead ≡ true → P dropped)
    → (skips ≡ false → dead ≡ false → P continued)
    → P (if skips then skipped else if dead then dropped else continued)
pass P true dead skipped dropped continued f g h = f refl
pass P false true skipped dropped continued f g h = g refl refl
pass P false false skipped dropped continued f g h = h refl refl
