-- ===== src/JoinLeave/Tests.antt =====
-- Taps on a concrete meeting, and instances of the theorems about them.
use mitup_telegram_bot.JoinLeave.Handler.{
  Handled, handle_join_leave_operation, operation_of, handle_join_leave_operation-Handled,
}
use mitup_telegram_bot.Messages.{Update}
use mitup_telegram_bot.Base.{◌≡◌, refl, inr, true, false, none, some, List, [], ◌∷◌, arith}
use mitup_telegram_bot.Supporter.{effective_participant_capacity}
use mitup_telegram_bot.Meeting.{
  Meetup, new_link, add_participant, create_joined_link, join_allowed, full, effective_max_members,
  n_participants, n_waiting, promote_from_waiting_list, remove_participant, waiting_links,
  promote_each, places_to_fill,
}
use mitup_telegram_bot.Meeting.Links.{ids}
use mitup_telegram_bot.Meeting.Tests.{shipped_limits, picnic}
use mitup_telegram_bot.JoinLeave.{join_operation, leave_operation}
use mitup_telegram_bot.JoinLeave.Invariant.{IsValid}
use mitup_telegram_bot.JoinLeave.History.{
  LeaveOutcome, leave_operation-LeaveOutcome, JoinOutcome, join_operation-JoinOutcome, Tap, join,
  leave, taps, taps-IsValid,
}

-- Two places, both taken, and two people waiting.
abbrev full_house : Meetup
full_house = record picnic {
  joined_links =
      new_link 12 false none (some 2) 10
      ∷ new_link 13 false none (some 5) 20
      ∷ new_link 14 true none (some 6) 30
      ∷ new_link 11 true none (some 9) 20
      ∷ [];
}

full_house-IsValid : IsValid shipped_limits full_house
unfolding n_participants n_waiting full effective_max_members effective_participant_capacity
full_house-IsValid = record { distinct = omega arith; served = inr refl; within = omega arith }

abbrev evening : List Tap
evening = join 15 (some 20) 40 ∷ leave 12 ∷ leave 99 ∷ leave 13 ∷ join 12 (some 21) 50 ∷ []

evening_queue : ids (waiting_links (taps shipped_limits full_house evening)) ≡ 15 ∷ 12 ∷ []
unfolding join_operation leave_operation add_participant create_joined_link join_allowed full
    effective_max_members n_participants n_waiting promote_from_waiting_list remove_participant
    waiting_links promote_each places_to_fill effective_participant_capacity
evening_queue = refl

leave_operation-LeaveOutcome_example :
    LeaveOutcome shipped_limits full_house 12 (leave_operation shipped_limits full_house 12)
leave_operation-LeaveOutcome_example =
    leave_operation-LeaveOutcome shipped_limits full_house 12 full_house-IsValid

join_operation-JoinOutcome_example :
    JoinOutcome shipped_limits full_house 15
      (join_operation shipped_limits none (some 20) 40 full_house 15)
join_operation-JoinOutcome_example =
    join_operation-JoinOutcome shipped_limits full_house 15 (some 20) 40 full_house-IsValid

taps-IsValid_example : IsValid shipped_limits (taps shipped_limits full_house evening)
taps-IsValid_example = taps-IsValid shipped_limits full_house evening full_house-IsValid

-- A tap on a shared card that the meeting has not stored yet.
abbrev shared_tap : Update
shared_tap = record {
  effective_message = none;
  effective_chat = none;
  callback_query = some (record { inline_message_id = some 77; chat_instance = some 5 });
}

handle_join_leave_operation-Handled_example : Handled shipped_limits 600 shared_tap full_house (
    handle_join_leave_operation 600 shared_tap
      (operation_of shipped_limits (some full_house) (join 15 none 30))
      full_house)
handle_join_leave_operation-Handled_example =
    handle_join_leave_operation-Handled shipped_limits (some full_house) 600 shared_tap
      (join 15 none 30) full_house full_house-IsValid full_house-IsValid
