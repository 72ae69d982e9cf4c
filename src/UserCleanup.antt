-- ===== src/UserCleanup.antt =====
-- The cleanup of users: apps/events/mitup_bot/events/user_cleanup.py. A meeting holds its links, a
-- deletion of users cascades to the meetings that they own and to their links, and the clock is an
-- argument. The farewells and logs are left out, and the pending links are the part of that name.
pub mod Kept
mod Tests
use mitup_telegram_bot.Base.{
  ℕ, ◌+◌, ◌*◌, ◌==◌, Bool, true, false, not, ◌&&◌, ◌||◌, Option, none, some, List, [], ◌∷◌, map,
  any, filter, ltb, is_none, if◌then◌else◌,
}
use mitup_telegram_bot.Supporter.Lifecycle.{day}
use mitup_telegram_bot.Users.{User, left, joined_only, deletion_requested, status_eq, set_status}
use mitup_telegram_bot.Meeting.{Meetup}

abbrev pub left_status_grace_days : ℕ
left_status_grace_days = 30

abbrev pub owns_active : List Meetup → User → Bool
owns_active meetups user = any (λ m. m.owner_id == user.id && m.active) meetups

abbrev pub joined_active : List Meetup → User → Bool
joined_active meetups user =
    any (λ m. m.active && any (λ link. link.user_id == user.id) m.joined_links) meetups

-- INACTIVE_USERS_SELECT_STATEMENT.
pub inactive_user : List Meetup → User → Bool
inactive_user meetups user =
    (status_eq user.status left && not (is_none user.tg_user_id))
    && (not (owns_active meetups user) && not (joined_active meetups user))

abbrev pub grace_over : ℕ → Option ℕ → Bool
grace_over now none = false
grace_over now (some left_time) = ltb (left_time + left_status_grace_days * day) now

-- DEMOTABLE_LEFT_USERS_SELECT_STATEMENT.
pub demotable : ℕ → List Meetup → User → Bool
demotable now meetups user =
    status_eq user.status left
    && (grace_over now user.left_time
        && (not (owns_active meetups user) && joined_active meetups user))

-- DELETION_REQUESTED_USERS_SELECT_STATEMENT.
abbrev pub requested_deletion : User → Bool
requested_deletion user = status_eq user.status deletion_requested

abbrev pub id_of_one : (User → Bool) → List User → ℕ → Bool
id_of_one p users id = any (λ user. user.id == id && p user) users

pub record Tables : Type 0 where
  pub users : List User
  pub meetups : List Meetup

abbrev pub demote : ℕ → List Meetup → User → User
demote now meetups user =
    if demotable now meetups user then set_status now joined_only user else user

pub demote_stale_left_users : ℕ → Tables → Tables
demote_stale_left_users now t = record {
  users = map (demote now t.meetups) t.users;
  meetups =
      filter (λ m. not (id_of_one (demotable now t.meetups) t.users m.owner_id && not m.active))
        t.meetups;
}

abbrev pub is_purged : List Meetup → User → Bool
is_purged meetups user = inactive_user meetups user || requested_deletion user

-- The links of purged users go with them.
abbrev pub unlinked : (ℕ → Bool) → Meetup → Meetup
unlinked gone m = record m {
  joined_links = filter (λ link. not (gone link.user_id)) m.joined_links;
}

pub purge_users : Tables → Tables
purge_users t =
    let gone = id_of_one (is_purged t.meetups) t.users in
    record {
      users = filter (λ user. not (gone user.id)) t.users;
      meetups = map (unlinked gone) (filter (λ m. not (gone m.owner_id)) t.meetups);
    }

-- `run`.
pub clean_up : ℕ → Tables → Tables
clean_up now t = purge_users (demote_stale_left_users now t)
