-- ===== src/Guards/Tests.antt =====
-- Callers of a concrete meeting, and instances of the theorems about the guards.
use mitup_telegram_bot.Base.{◌≡◌, ◌↔◌, true, false, not, ◌&&◌, none, some, List, [], ◌∷◌, arith}
use mitup_telegram_bot.Messages.{Update, Message, meetup_id_for_inline_message}
use mitup_telegram_bot.Meeting.Tests.{picnic}
use mitup_telegram_bot.Guards.{
  granted, rejected, shared_meeting, shared_meeting_denied, meeting, owner_or_joined,
}
use mitup_telegram_bot.Guards.Access.{Permits, meeting-Permits}
use mitup_telegram_bot.Guards.Shared.{Claim, shared_meeting-Claim, shared_meeting_discloses_nothing}

-- A tap on the inline message 40, of a chat that the bot does not know.
abbrev inline_tap : Update
inline_tap = record {
  effective_message = none;
  effective_chat = none;
  callback_query = some (record { inline_message_id = some 40; chat_instance = some 90 });
}

-- The stored messages give that card to another meeting.
abbrev other_card : List Message
other_card =
    (record {
      message_id = none;
      chat_id = none;
      inline_message_id = some 40;
      chat_instance = none;
      meetup_id = 8;
      render_digest = none;
    })
    ∷ []

stranger-no-Claim : ¬ Claim other_card (some 5) picnic inline_tap
unfolding meetup_id_for_inline_message
stranger-no-Claim c = ground arith

meeting-Permits_example :
    (meeting owner_or_joined (some picnic) (some 13) ≡ granted picnic)
    ↔ Permits owner_or_joined picnic (some 13)
meeting-Permits_example = meeting-Permits owner_or_joined picnic (some 13)

shared_meeting-Claim_example :
    (shared_meeting other_card (some picnic) (some 13) inline_tap true ≡ granted picnic)
    ↔ (Claim other_card (some 13) picnic inline_tap × ((true && not picnic.active) ≡ false))
shared_meeting-Claim_example = shared_meeting-Claim other_card (some 13) picnic inline_tap true

shared_meeting_discloses_nothing_example :
    shared_meeting other_card (some (record picnic { active = false })) (some 5) inline_tap true
    ≡ rejected shared_meeting_denied
shared_meeting_discloses_nothing_example =
    shared_meeting_discloses_nothing other_card (some 5) picnic inline_tap true false
      stranger-no-Claim
