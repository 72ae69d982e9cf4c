-- ===== src/UserCleanup/Tests.antt =====
-- A run of the cleanup, and an instance of the theorem about it.
use mitup_telegram_bot.Base.{ℕ, ◌*◌, ◌≡◌, refl, none, some, List, [], ◌∷◌, count, map}
use mitup_telegram_bot.Supporter.Lifecycle.{day}
use mitup_telegram_bot.Users.{User, left, deletion_requested}
use mitup_telegram_bot.Meeting.Tests.{picnic}
use mitup_telegram_bot.UserCleanup.{
  Tables, clean_up, demote_stale_left_users, purge_users, inactive_user, demotable,
}
use mitup_telegram_bot.UserCleanup.Kept.{is_kept, clean_up-keeps}

-- The picnic's owner left long ago, another owner has asked to be erased, and a third one left and
-- owns nothing.
abbrev tables : Tables
tables = record {
  users =
      record {
        id = picnic.owner_id;
        tg_user_id = some 70;
        language = 0;
        status = left;
        left_time = some 0;
        member_time = none;
      }
      ∷ record {
        id = 91;
        tg_user_id = some 71;
        language = 0;
        status = deletion_requested;
        left_time = none;
        member_time = none;
      }
      ∷ record {
        id = 92;
        tg_user_id = some 72;
        language = 0;
        status = left;
        left_time = some 0;
        member_time = none;
      }
      ∷ [];
  meetups = picnic ∷ record picnic { id = 6; owner_id = 91 } ∷ [];
}

abbrev owners_left : List ℕ
owners_left = picnic.owner_id ∷ []

owner_stays : map (λ (user : User). user.id) (clean_up (100 * day) tables).users ≡ owners_left
unfolding clean_up demote_stale_left_users purge_users inactive_user demotable
owner_stays = refl

clean_up-keeps_example : count (is_kept tables.users) (clean_up (100 * day) tables).meetups ≡ 1
clean_up-keeps_example = clean_up-keeps (100 * day) tables
