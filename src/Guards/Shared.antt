-- ===== src/Guards/Shared.antt =====
-- The claim that a tap on a shared card carries, in guards.py: `meeting_interaction_allowed` and
-- `shared_meeting` against a description of it.
use mitup_telegram_bot.Base.{
  bind, ℕ, ◌≡◌, refl, ◌⊎◌, inl, inr, ◌↔◌, Bool, true, false, not, ◌||◌, ◌&&◌, Option, none, some,
  List, any, find, Has, any-Has, find-Has, Has-imp, opt_eq-some, opt_eq, is_none, arith, ==_iff,
  Bool-cases, if◌then◌else◌, or_iff_three, not_iff, if_true_iff,
}
use mitup_telegram_bot.Messages.{
  Update, TgMessage, Message, message_from_update, meetup_id_for_inline_message, query_inline_id,
  query_chat_instance, shows, tapped_by,
}
use mitup_telegram_bot.Meeting.{Meetup, has_participant, has_invited_participant}
use mitup_telegram_bot.Guards.{
  granted, rejected, shared_meeting_denied, shared_meeting_finished, of_user, is_owned_by,
  message_bound, meeting_interaction_allowed, shared_meeting,
}
use mitup_telegram_bot.Guards.Access.{Owns, Joined, has_participant-Joined}

-- The caller brought somebody into the meeting.
abbrev pub Invited : Meetup → Option ℕ → Type 0
Invited m none = ⊥
Invited m (some user) = Has (λ l. l.invited_by_id ≡ some user) m.joined_links

-- The tapped message is one that the meeting tracks: by message and chat where the update has a
-- message, by the inline message otherwise.
abbrev pub TapsOn : Option TgMessage → Option ℕ → List Message → Type 0
TapsOn (some eff) inline ms =
    Has (λ x. (x.message_id ≡ some eff.message_id) × (x.chat_id ≡ some eff.chat_id)) ms
TapsOn none (some inline) ms = Has (λ x. x.inline_message_id ≡ some inline) ms
TapsOn none none ms = ⊥

-- The chat of the tapped card has a message of the meeting.
abbrev pub ChatKnown : Option ℕ → List Message → Type 0
ChatKnown none ms = ⊥
ChatKnown (some chat) ms = Has (λ x. x.chat_instance ≡ some chat) ms

-- The stored messages give the tapped inline card to the meeting.
abbrev pub CardClaimed : List Message → Option ℕ → ℕ → Type 0
CardClaimed table none m = ⊥
CardClaimed table (some inline) m = meetup_id_for_inline_message table inline ≡ some m

abbrev pub Claim : List Message → Option ℕ → Meetup → Update → Type 0
Claim table user m update =
    (m.public ≡ true)
    ⊎ (Owns m user ⊎ Joined m user ⊎ Invited m user)
    ⊎ TapsOn update.effective_message (query_inline_id update) m.messages
    ⊎ ChatKnown (query_chat_instance update) m.messages
    ⊎ CardClaimed table (query_inline_id update) m.id

has_invited_participant-Invited :
    (m : Meetup) (user : ℕ) → (has_invited_participant m user ≡ true) ↔ Invited m (some user)
unfolding has_invited_participant
has_invited_participant-Invited m user =
    let both = any-Has (λ l. opt_eq l.invited_by_id (some user)) m.joined_links in
    (
      λ h.
          Has-imp (λ l. opt_eq l.invited_by_id (some user) ≡ true)
            (λ l. l.invited_by_id ≡ some user) (λ l. (opt_eq-some l.invited_by_id user).0)
            m.joined_links (both.0 h),
      λ h. both.1 (
          Has-imp (λ l. l.invited_by_id ≡ some user)
            (λ l. opt_eq l.invited_by_id (some user) ≡ true)
            (λ l. (opt_eq-some l.invited_by_id user).1) m.joined_links h),
    )

shows_iff :
    (eff : TgMessage) (x : Message)
    → (shows eff x ≡ true) ↔ ((x.message_id ≡ some eff.message_id) × (x.chat_id ≡ some eff.chat_id))
shows_iff eff x =
    ground (arith, opt_eq-some x.message_id eff.message_id, opt_eq-some x.chat_id eff.chat_id)

-- Two tests that agree on every element find the same.
Has-iff {ℓ} :
    {A : Type ℓ} (p : A → Bool) (P : A → Type 0)
    → ((a : A) → (p a ≡ true) ↔ P a)
    → (xs : List A) → (any p xs ≡ true) ↔ Has P xs
Has-iff p P agree xs = (
  λ h. Has-imp (λ a. p a ≡ true) P (λ a. (agree a).0) xs ((any-Has p xs).0 h),
  λ h. (any-Has p xs).1 (Has-imp P (λ a. p a ≡ true) (λ a. (agree a).1) xs h),
)

found_iff {ℓ} :
    {A : Type ℓ} (p : A → Bool) (P : A → Type 0)
    → ((a : A) → (p a ≡ true) ↔ P a)
    → (xs : List A) → (is_none (find p xs) ≡ false) ↔ Has P xs
found_iff p P agree xs = (
  λ h. Has-imp (λ a. p a ≡ true) P (λ a. (agree a).0) xs ((find-Has p xs).0 h),
  λ h. (find-Has p xs).1 (Has-imp P (λ a. p a ≡ true) (λ a. (agree a).1) xs h),
)

message_from_update-TapsOn :
    (ms : List Message) (update : Update)
    → (is_none (message_from_update ms update) ≡ false)
      ↔ TapsOn update.effective_message (query_inline_id update) ms
unfolding message_from_update
message_from_update-TapsOn ms update = go update.effective_message (query_inline_id update)
  where
    go :
        (eff : Option TgMessage) (inline : Option ℕ)
        → (is_none (bind (tapped_by eff inline) (λ test. find test ms)) ≡ false)
          ↔ TapsOn eff inline ms
    go (some e) inline =
        found_iff (shows e) (λ x. (x.message_id ≡ some e.message_id) × (x.chat_id ≡ some e.chat_id))
          (shows_iff e) ms
    go none (some i) =
        found_iff (λ x. opt_eq x.inline_message_id (some i)) (λ x. x.inline_message_id ≡ some i)
          (λ x. opt_eq-some x.inline_message_id i) ms
    go none none = ground arith

chat_iff :
    (chat : Option ℕ) (ms : List Message)
    → ((not (is_none chat) && any (λ message. opt_eq message.chat_instance chat) ms) ≡ true)
      ↔ ChatKnown chat ms
chat_iff none ms = ground arith
chat_iff (some c) ms =
    Has-iff (λ x. opt_eq x.chat_instance (some c)) (λ x. x.chat_instance ≡ some c)
      (λ x. opt_eq-some x.chat_instance c) ms

card_iff :
    (table : List Message) (inline : Option ℕ) (m : ℕ)
    → ((elim inline [
      | none ↦ false
      | some i ↦ opt_eq (meetup_id_for_inline_message table i) (some m)
    ])
        ≡ true)
      ↔ CardClaimed table inline m
card_iff table none m = ground arith
card_iff table (some i) m = opt_eq-some (meetup_id_for_inline_message table i) m

-- A disjunction of five tests, by their meanings.
message_bound_iff :
    (table : List Message) (m : Meetup) (update : Update)
    → (message_bound table m update ≡ true) ↔ (
        TapsOn update.effective_message (query_inline_id update) m.messages
        ⊎ ChatKnown (query_chat_instance update) m.messages
        ⊎ CardClaimed table (query_inline_id update) m.id)
unfolding message_bound
message_bound_iff table m update =
    or_iff_three (not (is_none (message_from_update m.messages update))) _ _
      (not_iff _ (message_from_update-TapsOn m.messages update))
      (chat_iff (query_chat_instance update) m.messages)
      (card_iff table (query_inline_id update) m.id)

user_iff :
    (m : Meetup) (user : Option ℕ)
    → (of_user (λ u. is_owned_by m u || has_participant m u || has_invited_participant m u) user
        ≡ true)
      ↔ (Owns m user ⊎ Joined m user ⊎ Invited m user)
user_iff m none = ground arith
user_iff m (some u) =
    or_iff_three (is_owned_by m u) (has_participant m u) (has_invited_participant m u)
      (==_iff m.owner_id u) (has_participant-Joined m u) (has_invited_participant-Invited m u)

-- A tap on a card may act on a meeting exactly when the caller has a claim: the meeting is public,
-- or the caller's account owns it, is on its list or invited somebody into it, or the tapped
-- message, its chat or the stored owner of the tapped card ties the tap to this meeting.
pub meeting_interaction_allowed-Claim :
    (table : List Message) (user : Option ℕ) (m : Meetup) (update : Update)
    → (meeting_interaction_allowed table user m update ≡ true) ↔ Claim table user m update
unfolding meeting_interaction_allowed
meeting_interaction_allowed-Claim table user m update =
    if_true_iff m.public _ (λ e. e, λ e. e)
      (if_true_iff _ (message_bound table m update) (user_iff m user)
        (message_bound_iff table m update))

-- A caller without a claim gets the same answer whatever the state of the meeting: the denial does
-- not tell an active meeting from a finished one.
pub shared_meeting_discloses_nothing :
    (table : List Message) (user : Option ℕ) (m : Meetup) (update : Update)
    (require_active active : Bool)
    → ¬ Claim table user m update
    → shared_meeting table (some (record m { active = active })) user update require_active
      ≡ rejected shared_meeting_denied
unfolding shared_meeting
shared_meeting_discloses_nothing table user m update require_active active h =
    elim (Bool-cases
      (meeting_interaction_allowed table user (record m { active = active }) update)) [
        | inl allowed ↦ absurd (
            h (
              (meeting_interaction_allowed-Claim table user (record m { active = active }) update).0
                allowed))
        | inr denied ↦ rw denied refl
      ]

finished_iff :
    (m : Meetup) (finished : Bool)
    → ((if finished then rejected shared_meeting_finished else granted m) ≡ granted m)
      ↔ (finished ≡ false)
finished_iff m true = ground arith
finished_iff m false = ground arith

-- A tap is let through to a meeting exactly when the caller has a claim on it and, where the
-- surface wants a running meeting, the meeting is active.
pub shared_meeting-Claim :
    (table : List Message) (user : Option ℕ) (m : Meetup) (update : Update) (require_active : Bool)
    → (shared_meeting table (some m) user update require_active ≡ granted m)
      ↔ (Claim table user m update × ((require_active && not m.active) ≡ false))
unfolding shared_meeting
shared_meeting-Claim table user m update require_active =
    let claim = meeting_interaction_allowed-Claim table user m update in
    elim (Bool-cases (meeting_interaction_allowed table user m update)) [
      | inl allowed ↦
          rw allowed (λ e. (claim.0 allowed, (finished_iff m _).0 e), λ h. (finished_iff m _).1 h.1)
      | inr denied ↦ rw denied (λ e. cc, λ h. cc (claim.1 h.0))
    ]
