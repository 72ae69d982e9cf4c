-- ===== src/Users/Tests.antt =====
-- Runs of the status writes, and instances of the theorems about them.
use mitup_telegram_bot.Base.{◌≡◌, refl, false, none, some, [], ◌∷◌, arith}
use mitup_telegram_bot.Users.{User, member, joined_only, set_status, mark_inactive}
use mitup_telegram_bot.Users.Status.{IsStamped, set, detect, writes, writes-IsStamped}

abbrev ana : User
ana = record {
  id = 1;
  tg_user_id = some 500;
  language = 0;
  status = member;
  left_time = none;
  member_time = some 10;
}

returned_test :
    writes (detect 20 ∷ detect 30 ∷ set 40 member ∷ []) ana ≡ record ana { member_time = some 40 }
unfolding set_status mark_inactive
returned_test = refl

unreached_test :
    mark_inactive 20 (record ana { status = joined_only })
    ≡ (record ana { status = joined_only }, false)
unfolding mark_inactive
unreached_test = refl

ana-IsStamped : IsStamped ana
ana-IsStamped = ground arith

writes-IsStamped_example : IsStamped (writes (detect 20 ∷ set 40 member ∷ []) ana)
writes-IsStamped_example = writes-IsStamped (detect 20 ∷ set 40 member ∷ []) ana ana-IsStamped
