-- ===== src/Users.antt =====
-- The lifecycle of a user: libs/data/mitup_bot/models/users.py. The clock is an argument. The
-- reason of a departure only reaches the log, which is left out.
pub mod Status
mod Tests
use mitup_telegram_bot.Base.{ℕ, ◌==◌, Bool, true, false, Option, none, some, if◌then◌else◌}

pub data UserStatus : Type 0 where
  member onboarding joined_only left deletion_requested : UserStatus

abbrev pub status_index : UserStatus → ℕ
status_index member = 0
status_index onboarding = 1
status_index joined_only = 2
status_index left = 3
status_index deletion_requested = 4

-- `is` on the members of the enumeration.
abbrev pub status_eq : UserStatus → UserStatus → Bool
status_eq a b = status_index a == status_index b

-- The columns that the lifecycle and the sender read. Telegram's ids are natural numbers, but for
-- the anonymous invitee's -1, which is `none`.
pub record User : Type 0 where
  pub id : ℕ
  pub tg_user_id : Option ℕ
  pub language : ℕ
  pub status : UserStatus
  pub left_time : Option ℕ
  pub member_time : Option ℕ

pub set_status : ℕ → UserStatus → User → User
set_status now status user = if status_eq status user.status then user else record user {
  status = status;
  left_time = if status_eq status left then some now else none;
  member_time = if status_eq status member then some now else user.member_time;
}

pub mark_inactive : ℕ → User → User × Bool
mark_inactive now user =
    if status_eq user.status member then (set_status now left user, true) else (user, false)
