-- ===== src/Meeting.antt =====
-- A meeting and its participants: libs/data/mitup_bot/models/meetups.py and joined_users.py.
-- Moments are seconds since a fixed one, and the clock is an argument where the source reads it.
-- The owner of a meeting enters by the id and the supporter level that the methods read.
-- A link stands for the row that the database keeps, whose server default has filled
-- `created_time`; the table's unique constraint on (user_id, meetup_id) makes `user_id` name one
-- link of a meeting.
pub mod Links
pub mod Promotion
pub mod Schedule
pub mod Tests
use mitup_telegram_bot.Base.{
  ℕ, zero, suc, ◌+◌, ◌-◌, min, ◌≡◌, Bool, true, false, not, ◌&&◌, ◌||◌, Option, none, some, List,
  [], ◌∷◌, ◌++◌, leb, ltb, ◌==◌, opt_eq, bool_eq, filter, count, find, any, take, if◌then◌else◌,
}
use mitup_telegram_bot.Messages.{Message}
use mitup_telegram_bot.Supporter.{SupporterLevel, LimitsConfig, effective_participant_capacity}

pub record JoinedUsers : Type 0 where
  pub id : Option ℕ
  pub user_id : ℕ
  pub invited_by_id : Option ℕ
  pub created_time : ℕ
  pub is_waiting_list : Bool
  pub notification_sent : Bool

-- `JoinedUsers.__eq__` compares the dumped columns, less `created_time` and `id`; the links of one
-- meeting share their `meetup_id`. Equal hashes are taken for equal dumps.
abbrev pub link_eq : JoinedUsers → JoinedUsers → Bool
link_eq a b =
    a.user_id == b.user_id
    && (opt_eq a.invited_by_id b.invited_by_id
        && (bool_eq a.is_waiting_list b.is_waiting_list
            && bool_eq a.notification_sent b.notification_sent))

pub record Meetup : Type 0 where
  pub id : ℕ
  pub owner_id : ℕ
  pub owner_level : SupporterLevel
  pub waiting_list : Bool
  pub public : Bool
  pub lock_on_start : Bool
  pub datetime : Option ℕ
  pub end_datetime : Option ℕ
  pub active : Bool
  pub activated_time : ℕ
  pub expiration_time : Option ℕ
  pub warned_time : Option ℕ
  pub expiration_notification_sent : Bool
  pub started_notification_sent : Bool
  pub max_members : Option ℕ
  pub messages : List Message
  pub joined_links : List JoinedUsers

abbrev pub is_waiting : JoinedUsers → Bool
is_waiting link = link.is_waiting_list

abbrev pub is_confirmed : JoinedUsers → Bool
is_confirmed link = not link.is_waiting_list

unfoldable pub n_participants : Meetup → ℕ
n_participants m = count is_confirmed m.joined_links

unfoldable pub n_waiting : Meetup → ℕ
n_waiting m = count is_waiting m.joined_links

unfoldable pub effective_max_members : LimitsConfig → Meetup → Option ℕ
effective_max_members config m = effective_participant_capacity config m.owner_level m.max_members

abbrev at_least : ℕ → Option ℕ → Bool
at_least n none = false
at_least n (some cap) = leb cap n

unfoldable pub full : LimitsConfig → Meetup → Bool
full config m = at_least (n_participants m) (effective_max_members config m)

abbrev pub participants : Meetup → List JoinedUsers
participants m = filter is_confirmed m.joined_links

abbrev pub owner_attendance : Meetup → Option JoinedUsers
owner_attendance m = find (λ link. link.user_id == m.owner_id) m.joined_links

abbrev pub guest_links : Meetup → List JoinedUsers
guest_links m = filter (λ link. not (link.user_id == m.owner_id)) (participants m)

abbrev pub participant : Meetup → ℕ → Option JoinedUsers
participant m user_id = find (λ link. link.user_id == user_id) (participants m)

unfoldable pub has_participant : Meetup → ℕ → Bool
has_participant m user_id = any (λ link. link.user_id == user_id) m.joined_links

unfoldable pub has_invited_participant : Meetup → ℕ → Bool
has_invited_participant m user_id =
    any (λ link. opt_eq link.invited_by_id (some user_id)) m.joined_links

unfoldable pub join_allowed : LimitsConfig → Meetup → Bool
join_allowed config m = not (full config m) || m.waiting_list

-- Building the row puts it on `meetup.joined_links` through the relationship's back reference, so
-- the test that follows finds it and appends nothing more.
abbrev pub contains : JoinedUsers → List JoinedUsers → Bool
contains link = any (λ l. link_eq l link)

unfoldable pub create_joined_link : Meetup → JoinedUsers → Meetup × JoinedUsers
create_joined_link m link =
    let linked = m.joined_links ++ (link ∷ []) in
    (
      record m { joined_links = if contains link linked then linked else linked ++ (link ∷ []) },
      link,
    )

-- The row that the constructor makes: `id` and `created_time` are what the flush fills in.
abbrev pub new_link : ℕ → Bool → Option ℕ → Option ℕ → ℕ → JoinedUsers
new_link user waiting invited_by id created = record {
  id = id;
  user_id = user;
  invited_by_id = invited_by;
  created_time = created;
  is_waiting_list = waiting;
  notification_sent = false;
}

-- models/utils.joined_link, with the row's id and stamp behind the user.
unfoldable pub joined_link : LimitsConfig → Meetup → ℕ → Option ℕ → ℕ → Option JoinedUsers
joined_link config m user id created =
    if join_allowed config m then some (new_link user (full config m) none id created) else none

-- The arguments behind the meeting: the user, who invited them, and the row's id and stamp.
unfoldable pub add_participant :
    LimitsConfig → Meetup → ℕ → Option ℕ → Option ℕ → ℕ → Option (Meetup × JoinedUsers)
add_participant config m user invited_by id created =
    if full config m
    then if m.waiting_list
      then some (create_joined_link m (new_link user true invited_by id created))
      else none
    else some (create_joined_link m (new_link user false invited_by id created))

-- The sort key `(created_time, id or 0)`, compared as Python compares tuples.
abbrev pub id_or_zero : Option ℕ → ℕ
id_or_zero none = 0
id_or_zero (some id) = id

abbrev pub key_le : JoinedUsers → JoinedUsers → Bool
key_le a b =
    if a.created_time == b.created_time
    then leb (id_or_zero a.id) (id_or_zero b.id)
    else ltb a.created_time b.created_time

-- Python's `sorted` is stable.
pub insert : JoinedUsers → List JoinedUsers → List JoinedUsers
insert link [] = link ∷ []
insert link (l ∷ ls) = if key_le link l then link ∷ (l ∷ ls) else l ∷ insert link ls

pub sorted : List JoinedUsers → List JoinedUsers
sorted [] = []
sorted (link ∷ links) = insert link (sorted links)

unfoldable pub waiting_links : Meetup → List JoinedUsers
unfolding insert sorted
waiting_links m = sorted (filter is_waiting m.joined_links)

abbrev pub confirmed : JoinedUsers → JoinedUsers
confirmed link = record link { is_waiting_list = false }

-- The link that a reference names is changed in place.
pub set_confirmed : ℕ → List JoinedUsers → List JoinedUsers
set_confirmed user [] = []
set_confirmed user (l ∷ ls) =
    if l.user_id == user then confirmed l ∷ ls else l ∷ set_confirmed user ls

-- The loop over `waiting_links[:to_promote]`.
unfoldable pub promote_each :
    List JoinedUsers → List JoinedUsers → List JoinedUsers × List JoinedUsers
unfolding set_confirmed
promote_each links [] = (links, [])
promote_each links (l ∷ ls) =
    let (links', promoted) = promote_each (set_confirmed l.user_id links) ls in
    (links', confirmed l ∷ promoted)

-- `max(min(n_waiting, cap - n_participants), 0)`: the difference that stops at 0 makes the outer
-- maximum superfluous.
unfoldable pub places_to_fill : LimitsConfig → Meetup → ℕ
places_to_fill config m = elim (effective_max_members config m) [
  | none ↦ n_waiting m
  | some cap ↦ min (n_waiting m) (cap - n_participants m)
]

unfoldable pub promote_from_waiting_list : LimitsConfig → Meetup → Meetup × List JoinedUsers
promote_from_waiting_list config m = elim (waiting_links m) [
  | [] ↦ (m, [])
  | first ∷ others ↦
      let (links', promoted) =
        promote_each m.joined_links (take (places_to_fill config m) (first ∷ others)) in
      (record m { joined_links = links' }, promoted)
]

-- `list.remove`: the first equal link goes; `none` is the ValueError when there is none.
abbrev pub remove : JoinedUsers → List JoinedUsers → Option (List JoinedUsers)
remove link [] = none
remove link (l ∷ ls) =
    if link_eq l link
    then some ls
    else elim (remove link ls) [ none ↦ none | some rest ↦ some (l ∷ rest) ]

unfoldable pub remove_participant :
    LimitsConfig → Meetup → JoinedUsers → Option (Meetup × List JoinedUsers)
remove_participant config m link = elim (remove link m.joined_links) [
  | none ↦ none
  | some links ↦ some (promote_from_waiting_list config (record m { joined_links = links }))
]
