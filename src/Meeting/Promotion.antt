-- ===== src/Meeting/Promotion.antt =====
-- What `Meetup.promote_from_waiting_list` of models/meetups.py does to the queue and to the
-- places of a meeting.
use mitup_telegram_bot.Base.{
  Unique, ℕ, zero, suc, ◌+◌, ◌-◌, ◌≤◌, min, max, ◌≡◌, refl, sym, ap, ◌∙◌, ◌⊎◌, inl, inr, true,
  Option, none, some, List, [], ◌∷◌, ◌++◌, map, arith, filter, count, length, take, drop,
  Option-cases, ◌↔◌, length-filter,
}
use native.Mathlib.Decide.{dec_le}
use mitup_telegram_bot.Supporter.{LimitsConfig}
use mitup_telegram_bot.Meeting.{
  JoinedUsers, Meetup, is_waiting, sorted, confirmed, set_confirmed, n_participants, n_waiting,
  effective_max_members, full, waiting_links, promote_each, places_to_fill,
  promote_from_waiting_list,
}
use mitup_telegram_bot.Meeting.Links.{
  ids, IsSorted, sorted-IsSorted, length-sorted, ids-set_confirmed, queue-set_confirmed,
  counts-length, length-ids, erase, erase_head,
}

-- The links that wait, in the order in which they are promoted.
abbrev pub queue : List JoinedUsers → List JoinedUsers
queue ls = sorted (filter is_waiting ls)

length-queue : (ls : List JoinedUsers) → length (queue ls) ≡ count is_waiting ls
length-queue ls = length-sorted (filter is_waiting ls) ∙ length-filter is_waiting ls

promote_each-ids : (ls batch : List JoinedUsers) → ids (promote_each ls batch).0 ≡ ids ls
unfolding promote_each
promote_each-ids ls [] = refl
promote_each-ids ls (l ∷ batch) =
    promote_each-ids (set_confirmed l.user_id ls) batch ∙ ids-set_confirmed l.user_id ls

promote_each-promoted :
    (ls batch : List JoinedUsers) → (promote_each ls batch).1 ≡ map confirmed batch
unfolding promote_each
promote_each-promoted ls [] = refl
promote_each-promoted ls (l ∷ batch) =
    ap (◌∷◌ (confirmed l)) (promote_each-promoted (set_confirmed l.user_id ls) batch)

-- Promoting a front part of the queue leaves the rest of it, in its order.
promote_each-queue :
    (ls batch rest : List JoinedUsers)
    → Unique (ids ls)
    → queue ls ≡ batch ++ rest
    → queue (promote_each ls batch).0 ≡ rest
unfolding promote_each
promote_each-queue ls [] rest h e = e
promote_each-queue ls (l ∷ batch) rest h e =
    promote_each-queue (set_confirmed l.user_id ls) batch rest
      (rw (ids-set_confirmed l.user_id ls) h)
      (queue-set_confirmed l.user_id ls h ∙ ap (erase l.user_id) e ∙ erase_head l (batch ++ rest))

take-append-drop {ℓ} : {A : Type ℓ} (n : ℕ) (xs : List A) → take n xs ++ drop n xs ≡ xs
take-append-drop zero xs = refl
take-append-drop (suc n) [] = refl
take-append-drop (suc n) (x ∷ xs) = ap (◌∷◌ x) (take-append-drop n xs)

take_nil {ℓ} : {A : Type ℓ} (n : ℕ) → take {A = A} n [] ≡ []
take_nil zero = refl
take_nil (suc n) = refl

-- The two branches of the method give one answer: with no one waiting the loop has nothing to do.
abbrev pub batch : LimitsConfig → Meetup → List JoinedUsers
batch config m = take (places_to_fill config m) (waiting_links m)

promote_batch :
    (config : LimitsConfig) (m : Meetup) (ls : List JoinedUsers)
    → waiting_links m ≡ ls
    → promote_from_waiting_list config m ≡ (
      record m { joined_links = (promote_each m.joined_links (batch config m)).0 },
      (promote_each m.joined_links (batch config m)).1,
    )
unfolding promote_from_waiting_list
promote_batch config m [] e =
    rw (e, promote_from_waiting_list, take_nil (places_to_fill config m))
      (unfold promote_each in refl)
promote_batch config m (l ∷ ls) e = rw (e, promote_from_waiting_list) refl

length-drop {ℓ} : {A : Type ℓ} (n : ℕ) (xs : List A) → length (drop n xs) ≡ length xs - n
length-drop zero xs = omega arith
length-drop (suc n) [] = omega arith
length-drop (suc n) (x ∷ xs) = omega (arith, length-drop n xs)

-- With distinct users, a promotion takes the links off the front of the waiting queue, as many as
-- there are places to fill, returns them confirmed in queue order, and leaves the rest of the
-- queue waiting in its order, which is that of arrival. It adds and drops no link, and the order
-- of the links and everything else of the meeting stay.
pub promote_dequeues :
    (config : LimitsConfig) (m : Meetup)
    → Unique (ids m.joined_links)
    → let (m', promoted) = promote_from_waiting_list config m in
      (waiting_links m' ≡ drop (places_to_fill config m) (waiting_links m))
      × (promoted ≡ map confirmed (take (places_to_fill config m) (waiting_links m)))
      × IsSorted (waiting_links m)
      × (ids m'.joined_links ≡ ids m.joined_links)
      × (m' ≡ record m { joined_links = m'.joined_links })
unfolding waiting_links
promote_dequeues config m h = rw (promote_batch config m (waiting_links m) refl) (
  promote_each-queue m.joined_links (batch config m)
      (drop (places_to_fill config m) (waiting_links m)) h
      (sym (take-append-drop (places_to_fill config m) (waiting_links m))),
  promote_each-promoted m.joined_links (batch config m),
  sorted-IsSorted (filter is_waiting m.joined_links),
  promote_each-ids m.joined_links (batch config m),
  refl,
)

pub n_waiting-length : (m : Meetup) → n_waiting m ≡ length (waiting_links m)
unfolding n_waiting waiting_links
n_waiting-length m = sym (length-queue m.joined_links)

pub n_participants-length :
    (m : Meetup) → n_participants m + n_waiting m ≡ length (ids m.joined_links)
unfolding n_participants n_waiting
n_participants-length m = omega (arith, counts-length m.joined_links, length-ids m.joined_links)

places_le : (config : LimitsConfig) (m : Meetup) → places_to_fill config m ≤ n_waiting m
unfolding places_to_fill
places_le config m = ground arith

-- As many people are confirmed as there are places to fill, and leave the queue for it.
pub promote_counts :
    (config : LimitsConfig) (m : Meetup)
    → Unique (ids m.joined_links)
    → let m' = (promote_from_waiting_list config m).0 in
      (n_participants m' ≡ n_participants m + places_to_fill config m)
      × (n_waiting m' + places_to_fill config m ≡ n_waiting m)
promote_counts config m h =
    let m' = (promote_from_waiting_list config m).0 in
    let facts = promote_dequeues config m h in
    omega (
      arith,
      places_le config m,
      n_waiting-length m,
      n_waiting-length m',
      n_participants-length m,
      n_participants-length m',
      ap length facts.0,
      ap length facts.3,
      length-drop (places_to_fill config m) (waiting_links m),
    )

places_none :
    (config : LimitsConfig) (m : Meetup)
    → effective_max_members config m ≡ none
    → places_to_fill config m ≡ n_waiting m
unfolding places_to_fill
places_none config m e = rw (e, places_to_fill) refl

places_some :
    (config : LimitsConfig) (m : Meetup) (cap : ℕ)
    → effective_max_members config m ≡ some cap
    → places_to_fill config m ≡ min (n_waiting m) (cap - n_participants m)
unfolding places_to_fill
places_some config m cap e = rw (e, places_to_fill) refl

pub full_iff :
    (config : LimitsConfig) (m : Meetup) (cap : ℕ)
    → effective_max_members config m ≡ some cap
    → (full config m ≡ true) ↔ (cap ≤ n_participants m)
unfolding full
full_iff config m cap e = rw (e, full) (ground arith)

fills_cap :
    (config : LimitsConfig) (m m' : Meetup) (cap : ℕ) {k : ℕ}
    → effective_max_members config m' ≡ some cap
    → k ≡ min (n_waiting m) (cap - n_participants m)
    → n_participants m' ≡ n_participants m + k
    → n_waiting m' + k ≡ n_waiting m
    → (n_waiting m' ≡ 0) ⊎ (full config m' ≡ true)
fills_cap config m m' cap e k p w = elim (dec_le cap (n_participants m')) [
  | yes reached ↦ inr ((full_iff config m' cap e).1 reached)
  | no free ↦ inl (omega arith)
]

pub effective_max_members-promote :
    (config : LimitsConfig) (m : Meetup)
    → Unique (ids m.joined_links)
    → effective_max_members config (promote_from_waiting_list config m).0
      ≡ effective_max_members config m
unfolding effective_max_members
effective_max_members-promote config m h =
    ap (effective_max_members config) (promote_dequeues config m h).4

-- A count that grew from `before` to `after` under a capacity: within the capacity, or not at all.
abbrev pub WithinCap : Option ℕ → ℕ → ℕ → Type 0
WithinCap none before after = before ≤ after
WithinCap (some cap) before after = (before ≤ after) × (after ≤ max before cap)

-- With distinct users, after a promotion nobody waits while a place is free, and no place beyond
-- the capacity is given: a meeting already over its capacity confirms nobody.
pub promote_fills :
    (config : LimitsConfig) (m : Meetup)
    → Unique (ids m.joined_links)
    → let m' = (promote_from_waiting_list config m).0 in
      ((n_waiting m' ≡ 0) ⊎ (full config m' ≡ true))
      × WithinCap (effective_max_members config m) (n_participants m) (n_participants m')
promote_fills config m h =
    let counts = promote_counts config m h in
    let kept = effective_max_members-promote config m h in
    elim (Option-cases (effective_max_members config m)) [
      | inl e ↦ (inl (omega (arith, places_none config m e, counts)), rw e (omega (arith, counts)))
      | inr (cap, e) ↦ (
        fills_cap config m (promote_from_waiting_list config m).0 cap (kept ∙ e)
            (places_some config m cap e) counts.0 counts.1,
        rw e (omega (arith, counts, places_some config m cap e)),
      )
    ]
