-- ===== src/JoinLeave/Handler.antt =====
-- The frame of the join and leave handlers, `handle_join_leave_operation` of join_leave.py, after
-- its guard has let the tap through: the refusal while attendance is closed, the link to the
-- message that was tapped, and the operation.
use mitup_telegram_bot.Base.{
  ℕ, ◌≡◌, refl, ◌⊎◌, inl, inr, Bool, true, false, not, Option, none, some, List, [], ◌∷◌, ◌++◌,
  is_none, if◌then◌else◌, Bool-cases, IfSome,
}
use mitup_telegram_bot.Supporter.{LimitsConfig}
use mitup_telegram_bot.Messages.{
  Update, Message, message_from_update, capture_chat_instance, from_update, in_bot_chat, tapped,
}
use mitup_telegram_bot.Meeting.{
  JoinedUsers, Meetup, n_participants, n_waiting, full, effective_max_members, join_allowed,
}
use mitup_telegram_bot.Meeting.Schedule.{attendance_is_open}
use mitup_telegram_bot.JoinLeave.{
  Answer, join_locked, join_full, join_already_joined, joined_meeting, join_operation,
  leave_operation,
}
use mitup_telegram_bot.JoinLeave.Invariant.{IsValid}
use mitup_telegram_bot.JoinLeave.History.{
  Tap, join, leave, join_operation-JoinOutcome, leave_operation-LeaveOutcome, LeaveOutcome,
}

-- The first message that the test accepts is changed in place.
abbrev pub update_first : (Message → Bool) → (Message → Message) → List Message → List Message
update_first p f [] = []
update_first p f (m ∷ ms) = if p m then f m ∷ ms else m ∷ update_first p f ms

abbrev pub captured : Option (Message → Bool) → Update → List Message → List Message
captured none update messages = messages
captured (some test) update messages =
    update_first test (λ message. capture_chat_instance message update) messages

-- The stored messages after the tap; `none` is NoMessageAvailable.
pub linked : Update → ℕ → List Message → Option (List Message)
linked update id messages =
    if not (is_none (message_from_update messages update))
    then some (captured (tapped update) update messages)
    else if in_bot_chat update
    then some messages
    else elim (from_update update id) [
      | none ↦ none
      | some message ↦ some (messages ++ (message ∷ []))
    ]

-- What the operation makes of the meeting, and the answer that it shows.
abbrev pub Operation : Type 0
Operation = Meetup → Option (Meetup × Answer)

abbrev pub join_with : LimitsConfig → Option Meetup → Option ℕ → ℕ → ℕ → Operation
join_with config clash id created user m = some (join_operation config clash id created m user)

abbrev pub leave_with : LimitsConfig → ℕ → Operation
leave_with config user m = elim (leave_operation config m user) [
  | none ↦ none
  | some (m', promoted, answer) ↦ some (m', answer)
]

abbrev operate : Operation → Meetup → Option (List Message) → Option (Meetup × Answer)
operate operation m none = none
operate operation m (some messages) = operation (record m { messages = messages })

pub handle_join_leave_operation : ℕ → Update → Operation → Meetup → Option (Meetup × Answer)
handle_join_leave_operation now update operation m =
    if not (attendance_is_open now m)
    then some (m, join_locked)
    else operate operation m (linked update m.id m.messages)

-- The operation of a tap; `clash` is the meeting that a join reads anew where it loses the race for
-- the row.
abbrev pub operation_of : LimitsConfig → Option Meetup → Tap → Operation
operation_of config clash (join user id created) = join_with config clash id created user
operation_of config clash (leave user) = leave_with config user

IsValid-messages :
    (config : LimitsConfig) (m : Meetup) (messages : List Message)
    → IsValid config m
    → IsValid config (record m { messages = messages })
unfolding n_participants n_waiting full effective_max_members
IsValid-messages config m messages v = record {
  distinct = v.distinct;
  served = v.served;
  within = v.within;
}

-- A result that keeps the invariant.
abbrev KeepsValid : LimitsConfig → Option (Meetup × Answer) → Type 0
KeepsValid config none = ⊥
KeepsValid config (some (m, answer)) = IsValid config m

-- The refusals of a join, and the race that it loses.
three_ways :
    (P : Meetup × Answer → Type 0) (a b : Bool) (x y z : Meetup × Answer)
    → P x
    → P y
    → P z
    → P (if a then x else if b then y else z)
three_ways P true b x y z h k l = h
three_ways P false true x y z h k l = k
three_ways P false false x y z h k l = l

join_lost :
    (config : LimitsConfig) (reread m : Meetup) (user : ℕ) (id : Option ℕ) (created : ℕ)
    → IsValid config m
    → IsValid config reread
    → IsValid config (join_operation config (some reread) id created m user).0
unfolding join_operation
join_lost config reread m user id created v w =
    three_ways (λ r. IsValid config r.0) (not (is_none (joined_meeting m user)))
      (not (join_allowed config m)) (m, join_already_joined) (m, join_full)
      (reread, join_already_joined) v v w

operation_of-KeepsValid :
    (config : LimitsConfig) (clash : Option Meetup) (t : Tap) (m : Meetup)
    → IfSome (IsValid config) clash
    → IsValid config m
    → KeepsValid config (operation_of config clash t m)
operation_of-KeepsValid config none (join user id created) m w v =
    (join_operation-JoinOutcome config m user id created v).0
operation_of-KeepsValid config (some reread) (join user id created) m w v =
    join_lost config reread m user id created v w
operation_of-KeepsValid config clash (leave user) m w v =
    go (leave_operation config m user) (leave_operation-LeaveOutcome config m user v)
  where
    go :
        (r : Option (Meetup × List JoinedUsers × Answer))
        → LeaveOutcome config m user r
        → KeepsValid config
            (elim r [ none ↦ none | some (m', promoted, answer) ↦ some (m', answer) ])
    go none o = absurd o
    go (some (m', promoted, answer)) o = o.0

-- What a handler may do: fail because the update shows no message, refuse without any change while
-- attendance is closed, or keep the invariant.
abbrev pub Handled : LimitsConfig → ℕ → Update → Meetup → Option (Meetup × Answer) → Type 0
Handled config now update m none =
    (attendance_is_open now m ≡ true) × (from_update update m.id ≡ none)
Handled config now update m (some (m', answer)) =
    IsValid config m'
    × ((attendance_is_open now m ≡ true)
        ⊎ ((attendance_is_open now m ≡ false) × (answer ≡ join_locked) × (m' ≡ m)))

linked-none :
    (update : Update) (id : ℕ) (messages : List Message)
    → linked update id messages ≡ none
    → from_update update id ≡ none
unfolding linked
linked-none update id messages e =
    go (not (is_none (message_from_update messages update))) (in_bot_chat update)
      (from_update update id) e
  where
    go :
        (found bot : Bool) (built : Option Message)
        → (if found
            then some (captured (tapped update) update messages)
            else if bot
            then some messages
            else elim built [ none ↦ none | some message ↦ some (messages ++ (message ∷ [])) ])
          ≡ none
        → built ≡ none
    go true bot built e = cc
    go false true built e = cc
    go false false none e = refl
    go false false (some message) e = cc

operate-Handled :
    (config : LimitsConfig) (clash : Option Meetup) (now : ℕ) (update : Update) (t : Tap)
    (m : Meetup) (l : Option (List Message))
    → linked update m.id m.messages ≡ l
    → attendance_is_open now m ≡ true
    → IfSome (IsValid config) clash
    → IsValid config m
    → Handled config now update m (operate (operation_of config clash t) m l)
operate-Handled config clash now update t m none e is_open w v =
    (is_open, linked-none update m.id m.messages e)
operate-Handled config clash now update t m (some messages) e is_open w v =
    let m₁ = record m { messages = messages } in
    go (operation_of config clash t m₁)
      (operation_of-KeepsValid config clash t m₁ w (IsValid-messages config m messages v))
  where
    go : (r : Option (Meetup × Answer)) → KeepsValid config r → Handled config now update m r
    go none k = absurd k
    go (some (m', answer)) k = (k, inl is_open)

-- From a meeting with the invariant, a join or leave handler keeps it, whatever message was tapped,
-- and whether or not a join loses the race for its row to another transaction, which has left a
-- meeting with the invariant. While attendance is closed it answers that the meeting is locked and
-- changes nothing at all; and it fails only where attendance is open and the update carries no
-- message to store.
pub handle_join_leave_operation-Handled :
    (config : LimitsConfig) (clash : Option Meetup) (now : ℕ) (update : Update) (t : Tap)
    (m : Meetup)
    → IfSome (IsValid config) clash
    → IsValid config m
    → Handled config now update m
        (handle_join_leave_operation now update (operation_of config clash t) m)
unfolding handle_join_leave_operation
handle_join_leave_operation-Handled config clash now update t m w v =
    elim (Bool-cases (attendance_is_open now m)) [
      | inl is_open ↦ rw is_open (operate-Handled config clash now update t m _ refl is_open w v)
      | inr closed ↦ rw (closed, handle_join_leave_operation) (v, inr (closed, refl, refl))
    ]
