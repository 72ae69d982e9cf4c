-- ===== src/JoinLeave/History.antt =====
-- What the handlers of join_leave.py do to a meeting, one after another: each runs alone on the
-- meeting, since the per-meeting row lock serialises them.
use mitup_telegram_bot.Base.{
  Unique, Absent, ℕ, ◌≤◌, ◌≡◌, refl, sym, ap, ◌⊎◌, inl, inr, Bool, true, false, Option, none, some,
  List, [], ◌∷◌, ◌++◌, arith, count, find, is_none, Bool-cases, Option-cases, ==_iff, ◌==◌,
  if◌then◌else◌, subst,
}
use mitup_telegram_bot.Supporter.{LimitsConfig}
use mitup_telegram_bot.Supporter.Caps.{CapLe}
use mitup_telegram_bot.Meeting.{
  JoinedUsers, Meetup, join_allowed, full, n_participants, effective_max_members, remove,
  remove_participant, is_confirmed, promote_from_waiting_list,
}
use mitup_telegram_bot.Meeting.Links.{ids, erase}
use mitup_telegram_bot.Meeting.Promotion.{
  promote_dequeues, promote_fills, WithinCap, effective_max_members-promote,
}
use mitup_telegram_bot.JoinLeave.{
  Answer, join_already_joined, join_full, join_full_waiting_list, join_success, leave_success,
  leave_not_joined, joined_meeting, join_operation, leave_operation,
}
use mitup_telegram_bot.JoinLeave.Invariant.{
  IsValid, IsValid-with_link, with_link, joiner, not_joined-Absent, add_participant_lem,
  link_eq_refl,
}

-- The link that is found belongs to the user, and `list.remove` takes out that link and no other.
remove_found :
    (u : ℕ) (ls : List JoinedUsers) (l : JoinedUsers)
    → find (λ x. x.user_id == u) ls ≡ some l
    → (l.user_id ≡ u) × (remove l ls ≡ some (erase u ls))
remove_found u [] l h = cc
remove_found u (x ∷ ls) l h = ground (arith, remove_found u ls l, link_eq_refl l)

Absent-erase : (u v : ℕ) (ls : List JoinedUsers) → Absent u (ids ls) → Absent u (ids (erase v ls))
Absent-erase u v [] h = tt
Absent-erase u v (l ∷ ls) h = ground (arith, Absent-erase u v ls h.1)

Unique-erase : (u : ℕ) (ls : List JoinedUsers) → Unique (ids ls) → Unique (ids (erase u ls))
Unique-erase u [] h = tt
Unique-erase u (l ∷ ls) h = ground (arith, Unique-erase u ls h.1, Absent-erase l.user_id u ls h.0)

erased-Absent : (u : ℕ) (ls : List JoinedUsers) → Unique (ids ls) → Absent u (ids (erase u ls))
erased-Absent u [] h = tt
erased-Absent u (l ∷ ls) h = elim (Bool-cases (l.user_id == u)) [
  | inl e ↦ rw (e, sym ((==_iff l.user_id u).0 e)) h.0
  | inr e ↦ rw e (λ p. cc ((==_iff l.user_id u).1 p), erased-Absent u ls h.1)
]

count-erase :
    (u : ℕ) (p : JoinedUsers → Bool) (ls : List JoinedUsers) → count p (erase u ls) ≤ count p ls
count-erase u p [] = omega arith
count-erase u p (l ∷ ls) = ground (arith, count-erase u p ls)

abbrev pub without : ℕ → Meetup → Meetup
without u m = record m { joined_links = erase u m.joined_links }

-- A user who is on the list leaves; the queue moves up into the place that this frees.
leave_found :
    (config : LimitsConfig) (m : Meetup) (u : ℕ) (l : JoinedUsers)
    → joined_meeting m u ≡ some l
    → let (m', promoted) = promote_from_waiting_list config (without u m) in
      leave_operation config m u ≡ some (m', promoted, leave_success)
unfolding leave_operation remove_participant
leave_found config m u l e =
    rw (e, leave_operation, (remove_found u m.joined_links l e).1, remove_participant) refl

joined-cases :
    (m : Meetup) (u : ℕ)
    → (joined_meeting m u ≡ none) ⊎ ((l : JoinedUsers) × (joined_meeting m u ≡ some l))
joined-cases m u = Option-cases (joined_meeting m u)

within_after :
    (cap : Option ℕ) (n n₁ n' : ℕ)
    → CapLe (some n) cap
    → n₁ ≤ n
    → WithinCap cap n₁ n'
    → CapLe (some n') cap
within_after none n n₁ n' h k w = tt
within_after (some cap) n n₁ n' h k w = omega arith

n_participants-without : (u : ℕ) (m : Meetup) → n_participants (without u m) ≤ n_participants m
unfolding n_participants
n_participants-without u m = count-erase u is_confirmed m.joined_links

leave_absent :
    (config : LimitsConfig) (m : Meetup) (u : ℕ)
    → joined_meeting m u ≡ none
    → leave_operation config m u ≡ some (m, [], leave_not_joined)
unfolding leave_operation
leave_absent config m u e = rw (e, leave_operation) refl

-- Taking one link out and moving the queue up keeps the invariant, wherever the link stood.
promote_without-IsValid :
    (config : LimitsConfig) (m : Meetup) (u : ℕ)
    → IsValid config m
    → let m' = (promote_from_waiting_list config (without u m)).0 in
      IsValid config m' × Absent u (ids m'.joined_links)
unfolding effective_max_members
promote_without-IsValid config m u v =
    let distinct = Unique-erase u m.joined_links v.distinct in
    let dequeued = promote_dequeues config (without u m) distinct in
    let fills = promote_fills config (without u m) distinct in
    (
      record {
        distinct = subst Unique (sym dequeued.3) distinct;
        served = fills.0;
        within = rw (effective_max_members-promote config (without u m) distinct) (
            within_after (effective_max_members config m) (n_participants m) _ _ v.within
              (n_participants-without u m) fills.1);
      },
      subst (Absent u) (sym dequeued.3) (erased-Absent u m.joined_links v.distinct),
    )

-- What a leave handler may do.
abbrev pub LeaveOutcome :
    LimitsConfig → Meetup → ℕ → Option (Meetup × List JoinedUsers × Answer) → Type 0
LeaveOutcome config m u none = ⊥
LeaveOutcome config m u (some (m', promoted, answer)) =
    IsValid config m'
    × Absent u (ids m'.joined_links)
    × (((answer ≡ leave_success) × (is_none (joined_meeting m u) ≡ false))
        ⊎ ((answer ≡ leave_not_joined) × (is_none (joined_meeting m u) ≡ true) × (m' ≡ m)))

-- From a meeting with the invariant, a leave handler never fails. It answers that the user was not
-- on the list exactly when they were not, and then changes nothing; afterwards the user is not on
-- the list and the invariant holds.
pub leave_operation-LeaveOutcome :
    (config : LimitsConfig) (m : Meetup) (u : ℕ)
    → IsValid config m
    → LeaveOutcome config m u (leave_operation config m u)
leave_operation-LeaveOutcome config m u v = elim (joined-cases m u) [
  | inl absent ↦ subst (LeaveOutcome config m u) (sym (leave_absent config m u absent)) (
    v,
    not_joined-Absent u m.joined_links (ap is_none absent),
    inr (refl, ap is_none absent, refl),
  )
  | inr (l, e) ↦
      let kept = promote_without-IsValid config m u v in
      subst (LeaveOutcome config m u) (sym (leave_found config m u l e))
        (kept.0, kept.1, inl (refl, ap is_none e))
]

-- What a join handler may do.
abbrev pub JoinOutcome : LimitsConfig → Meetup → ℕ → Meetup × Answer → Type 0
JoinOutcome config m u (m', answer) =
    IsValid config m'
    × (((answer ≡ join_already_joined) × (is_none (joined_meeting m u) ≡ false) × (m' ≡ m))
        ⊎ ((answer ≡ join_full) × (join_allowed config m ≡ false) × (m' ≡ m))
        ⊎ ((answer ≡ (if full config m then join_full_waiting_list else join_success))
            × (is_none (joined_meeting m u) ≡ true)
            × (ids m'.joined_links ≡ ids m.joined_links ++ (u ∷ []))))

ids-append :
    (ls : List JoinedUsers) (l : JoinedUsers) → ids (ls ++ (l ∷ [])) ≡ ids ls ++ (l.user_id ∷ [])
ids-append [] l = refl
ids-append (x ∷ ls) l = ap (◌∷◌ x.user_id) (ids-append ls l)

join_present :
    (config : LimitsConfig) (m : Meetup) (u : ℕ) (id : Option ℕ) (created : ℕ)
    → is_none (joined_meeting m u) ≡ false
    → join_operation config none id created m u ≡ (m, join_already_joined)
unfolding join_operation
join_present config m u id created e = rw (e, join_operation) refl

join_refused :
    (config : LimitsConfig) (m : Meetup) (u : ℕ) (id : Option ℕ) (created : ℕ)
    → joined_meeting m u ≡ none
    → join_allowed config m ≡ false
    → join_operation config none id created m u ≡ (m, join_full)
unfolding join_operation
join_refused config m u id created absent refused = rw (absent, join_operation, refused) refl

join_added :
    (config : LimitsConfig) (m : Meetup) (u : ℕ) (id : Option ℕ) (created : ℕ)
    → joined_meeting m u ≡ none
    → join_allowed config m ≡ true
    → join_operation config none id created m u ≡ (
      with_link m (joiner config m u none id created),
      (if full config m then join_full_waiting_list else join_success),
    )
unfolding join_operation
join_added config m u id created absent allowed =
    rw (absent, join_operation, allowed, add_participant_lem config m u none id created, allowed)
      refl

-- From a meeting with the invariant, a join handler whose insert meets no concurrent one keeps the
-- invariant and puts the user at the end of the list, unless the user is on it already or the
-- meeting is full and has no waiting list: then it says so and changes nothing.
pub join_operation-JoinOutcome :
    (config : LimitsConfig) (m : Meetup) (u : ℕ) (id : Option ℕ) (created : ℕ)
    → IsValid config m
    → JoinOutcome config m u (join_operation config none id created m u)
join_operation-JoinOutcome config m u id created v = elim (joined-cases m u) [
  | inr (l, e) ↦
      subst (JoinOutcome config m u) (sym (join_present config m u id created (ap is_none e)))
        (v, inl (refl, ap is_none e, refl))
  | inl absent ↦ elim (Bool-cases (join_allowed config m)) [
    | inr refused ↦
        subst (JoinOutcome config m u) (sym (join_refused config m u id created absent refused))
          (v, inr (inl (refl, refused, refl)))
    | inl allowed ↦
        subst (JoinOutcome config m u) (sym (join_added config m u id created absent allowed)) (
          IsValid-with_link config m (joiner config m u none id created) v
              (not_joined-Absent u m.joined_links (ap is_none absent)) refl,
          inr (inr (refl, ap is_none absent, ids-append m.joined_links _)),
        )
  ]
]

-- One tap on the card of one meeting, with the row that a join would make.
pub data Tap : Type 0 where
  join : ℕ → Option ℕ → ℕ → Tap
  leave : ℕ → Tap

abbrev after_leave : Meetup → Option (Meetup × List JoinedUsers × Answer) → Meetup
after_leave m none = m
after_leave m (some (m', _, _)) = m'

abbrev pub tap : LimitsConfig → Meetup → Tap → Meetup
tap config m (join user id created) = (join_operation config none id created m user).0
tap config m (leave user) = after_leave m (leave_operation config m user)

abbrev pub taps : LimitsConfig → Meetup → List Tap → Meetup
taps config m [] = m
taps config m (t ∷ ts) = taps config (tap config m t) ts

tap-IsValid :
    (config : LimitsConfig) (m : Meetup) (t : Tap)
    → IsValid config m
    → IsValid config (tap config m t)
tap-IsValid config m (join user id created) v =
    (join_operation-JoinOutcome config m user id created v).0
tap-IsValid config m (leave user) v =
    go (leave_operation config m user) (leave_operation-LeaveOutcome config m user v)
  where
    go :
        (r : Option (Meetup × List JoinedUsers × Answer))
        → LeaveOutcome config m user r
        → IsValid config (after_leave m r)
    go none o = absurd o
    go (some (m', _, _)) o = o.0

-- After any sequence of taps, from a meeting where it holds, the invariant holds: no user is
-- listed twice, nobody waits while a place is free, and the capacity is not exceeded. The owner's
-- tier and limit are those of the start.
pub taps-IsValid :
    (config : LimitsConfig) (m : Meetup) (ts : List Tap)
    → IsValid config m
    → IsValid config (taps config m ts)
taps-IsValid config m [] v = v
taps-IsValid config m (t ∷ ts) v =
    taps-IsValid config (tap config m t) ts (tap-IsValid config m t v)
