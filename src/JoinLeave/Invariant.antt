-- ===== src/JoinLeave/Invariant.antt =====
-- The invariant of a meeting's places, kept by the operations of join_leave.py.
use mitup_telegram_bot.Base.{
  Unique, Absent, ℕ, ◌+◌, ◌≡◌, refl, sym, ap, ◌∙◌, ◌≢◌, ◌⊎◌, inl, inr, ◌||◌, Bool, true, false, not,
  Option, none, some, List, [], ◌∷◌, ◌++◌, arith, count-append, find, is_none, Bool-cases, ==_refl,
  ◌==◌, opt_eq, bool_eq, if◌then◌else◌,
}
use mathlib.Core.Option
use mitup_telegram_bot.Supporter.{LimitsConfig}
use mitup_telegram_bot.Supporter.Caps.{CapLe}
use mitup_telegram_bot.Meeting.{
  JoinedUsers, Meetup, link_eq, contains, create_joined_link, new_link, add_participant,
  joined_link, join_allowed, full, n_participants, n_waiting, effective_max_members, is_waiting,
  is_confirmed,
}
use mitup_telegram_bot.Meeting.Links.{ids}

opt_eq_refl : (a : Option ℕ) → opt_eq a a ≡ true
opt_eq_refl none = refl
opt_eq_refl (some a) = ==_refl a

bool_eq_refl : (b : Bool) → bool_eq b b ≡ true
bool_eq_refl true = refl
bool_eq_refl false = refl

pub link_eq_refl : (l : JoinedUsers) → link_eq l l ≡ true
link_eq_refl l =
    rw (==_refl l.user_id, opt_eq_refl l.invited_by_id, bool_eq_refl l.is_waiting_list)
      (bool_eq_refl l.notification_sent)

contains_last : (l : JoinedUsers) (ls : List JoinedUsers) → contains l (ls ++ (l ∷ [])) ≡ true
contains_last l [] = rw (link_eq_refl l)
contains_last l (x ∷ ls) = ground (arith, contains_last l ls)

-- The membership test after the constructor never appends a second time.
create_joined_link_lem :
    (m : Meetup) (l : JoinedUsers)
    → create_joined_link m l ≡ (record m { joined_links = m.joined_links ++ (l ∷ []) }, l)
unfolding create_joined_link
create_joined_link_lem m l = rw (contains_last l m.joined_links)

by_full {ℓ} :
    {A : Type ℓ} (is_full queues : Bool) (f : Bool → A)
    → (if is_full then if queues then some (f true) else none else some (f false))
      ≡ (if not is_full || queues then some (f is_full) else none)
by_full true true f = refl
by_full true false f = refl
by_full false queues f = refl

-- The link that a join makes.
abbrev pub joiner : LimitsConfig → Meetup → ℕ → Option ℕ → Option ℕ → ℕ → JoinedUsers
joiner config m user invited_by id created = new_link user (full config m) invited_by id created

abbrev pub with_link : Meetup → JoinedUsers → Meetup
with_link m l = record m { joined_links = m.joined_links ++ (l ∷ []) }

-- A user is added exactly when joining is allowed: as one more link at the end of the list, which
-- waits exactly when the meeting is full. Nothing else of the meeting changes.
pub add_participant_lem :
    (config : LimitsConfig) (m : Meetup) (user : ℕ) (invited_by id : Option ℕ) (created : ℕ)
    → let l = joiner config m user invited_by id created in
      add_participant config m user invited_by id created
      ≡ (if join_allowed config m then some (with_link m l, l) else none)
unfolding add_participant join_allowed
add_participant_lem config m user invited_by id created =
    by_full (full config m) m.waiting_list
      (λ waits. create_joined_link m (new_link user waits invited_by id created))
    ∙ ap (λ x. if join_allowed config m then some x else none)
        (create_joined_link_lem m (joiner config m user invited_by id created))

map_if {ℓ κ} :
    {A : Type ℓ} {B : Type κ} (b : Bool) (f : A → B) (x : A)
    → (if b then some (f x) else none) ≡ Option.map f (if b then some x else none)
map_if true f x = refl
map_if false f x = refl

-- `meeting.joined_link` of models/utils.py foresees what `add_participant` does for a user who
-- comes uninvited: the same link, or none.
pub add_participant-joined_link :
    (config : LimitsConfig) (m : Meetup) (user : ℕ) (id : Option ℕ) (created : ℕ)
    → add_participant config m user none id created
      ≡ Option.map (λ l. (with_link m l, l)) (joined_link config m user id created)
unfolding joined_link
add_participant-joined_link config m user id created =
    add_participant_lem config m user none id created
    ∙ map_if (join_allowed config m) (λ l. (with_link m l, l))
        (joiner config m user none id created)

-- What holds of a meeting between two handlers, while the owner's tier and limit stay: no user is
-- listed twice, nobody waits while a place is free, and no more are confirmed than may be.
pub record IsValid (config : LimitsConfig) (m : Meetup) : Type 0 where
  pub distinct : Unique (ids m.joined_links)
  pub served : (n_waiting m ≡ 0) ⊎ (full config m ≡ true)
  pub within : CapLe (some (n_participants m)) (effective_max_members config m)

n_participants-with_link :
    (m : Meetup) (l : JoinedUsers)
    → n_participants (with_link m l) ≡ n_participants m + (if l.is_waiting_list then 0 else 1)
unfolding n_participants
n_participants-with_link m l = ground (arith, count-append is_confirmed m.joined_links (l ∷ []))

n_waiting-with_link :
    (m : Meetup) (l : JoinedUsers)
    → n_waiting (with_link m l) ≡ n_waiting m + (if l.is_waiting_list then 1 else 0)
unfolding n_waiting
n_waiting-with_link m l = ground (arith, count-append is_waiting m.joined_links (l ∷ []))

Absent-append :
    (u v : ℕ) (ls : List JoinedUsers) (l : JoinedUsers)
    → Absent u (ids ls)
    → l.user_id ≢ u
    → Absent u (ids (ls ++ (l ∷ [])))
Absent-append u v [] l h k = (k, tt)
Absent-append u v (x ∷ ls) l h k = (h.0, Absent-append u v ls l h.1 k)

Unique-append :
    (ls : List JoinedUsers) (l : JoinedUsers)
    → Unique (ids ls)
    → Absent l.user_id (ids ls)
    → Unique (ids (ls ++ (l ∷ [])))
Unique-append [] l h k = (tt, tt)
Unique-append (x ∷ ls) l h k =
    (Absent-append x.user_id l.user_id ls l h.0 (λ e. k.0 (sym e)), Unique-append ls l h.1 k.1)

pub not_joined-Absent :
    (u : ℕ) (ls : List JoinedUsers)
    → is_none (find (λ l. l.user_id == u) ls) ≡ true
    → Absent u (ids ls)
not_joined-Absent u [] h = tt
not_joined-Absent u (l ∷ ls) h = ground (arith, not_joined-Absent u ls)

effective_max_members-with_link :
    (config : LimitsConfig) (m : Meetup) (l : JoinedUsers)
    → effective_max_members config (with_link m l) ≡ effective_max_members config m
unfolding effective_max_members
effective_max_members-with_link config m l = refl

full-with_link :
    (config : LimitsConfig) (m : Meetup) (l : JoinedUsers)
    → full config m ≡ true
    → full config (with_link m l) ≡ true
unfolding full
full-with_link config m l h =
    ground (arith, n_participants-with_link m l, effective_max_members-with_link config m l)

not_full_lt :
    (config : LimitsConfig) (m : Meetup)
    → full config m ≡ false
    → CapLe (some (n_participants m + 1)) (effective_max_members config m)
unfolding full
not_full_lt config m h = ground arith

pub IsValid-with_link :
    (config : LimitsConfig) (m : Meetup) (l : JoinedUsers)
    → IsValid config m
    → Absent l.user_id (ids m.joined_links)
    → l.is_waiting_list ≡ full config m
    → IsValid config (with_link m l)
IsValid-with_link config m l v fresh waits = record {
  distinct = Unique-append m.joined_links l v.distinct fresh;
  served = elim (Bool-cases (full config m)) [
    | inl is_full ↦ inr (full-with_link config m l is_full)
    | inr free ↦ inl (ground (arith, v.served, n_waiting-with_link m l))
  ];
  within = rw (effective_max_members-with_link config m l) (elim (Bool-cases (full config m)) [
    | inl is_full ↦ ground (arith, v.within, n_participants-with_link m l)
    | inr free ↦ ground (arith, not_full_lt config m free, n_participants-with_link m l)
  ]);
}
