-- ===== src/UserCleanup/Kept.antt =====
-- The active meetings that the cleanup keeps: apps/events/mitup_bot/events/user_cleanup.py.
use mitup_telegram_bot.Base.{
  ℕ, ◌==◌, ◌≡◌, refl, sym, ap, ◌∙◌, Bool, true, false, not, ◌&&◌, List, [], ◌∷◌, map, count,
  count-map, count-ext, Has, and_false, filter, arith, Bool-cases, inl, inr, ==_iff, and_left,
  and_right,
}
use mitup_telegram_bot.Users.{User, left, joined_only, deletion_requested, status_eq}
use mitup_telegram_bot.Users.Status.{set_status-status, set_status-id, status_eq_iff}
use mitup_telegram_bot.Meeting.{Meetup}
use mitup_telegram_bot.UserCleanup.{
  owns_active, inactive_user, demotable, requested_deletion, id_of_one, Tables, demote,
  demote_stale_left_users, is_purged, unlinked, purge_users, clean_up,
}

-- An active meeting whose owner has not asked to be erased.
abbrev pub is_kept : List User → Meetup → Bool
is_kept users m = m.active && not (id_of_one requested_deletion users m.owner_id)

-- A filter loses none of what is counted where it admits each such element of the list.
count-admits :
    {A : Type 0} (p q : A → Bool) (xs : List A)
    → ((x : A) → Has (λ y. y ≡ x) xs → p x ≡ true → q x ≡ true)
    → count p (filter q xs) ≡ count p xs
count-admits p q [] h = refl
count-admits p q (x ∷ xs) h =
    ground (arith, h x (inl refl), count-admits p q xs (λ y there. h y (inr there)))

of_negated : (b : Bool) → not b ≡ true → b ≡ false
of_negated true h = cc h
of_negated false h = refl

-- The owner of an active meeting of the list owns an active meeting.
owner-owns_active :
    (m : Meetup) (user : User) (meetups : List Meetup)
    → Has (λ x. x ≡ m) meetups
    → m.active ≡ true
    → user.id ≡ m.owner_id
    → owns_active meetups user ≡ true
owner-owns_active m user [] there active same = absurd there
owner-owns_active m user (x ∷ meetups) (inl here) active same =
    let first = (==_iff x.owner_id user.id).1 (ap (λ (y : Meetup). y.owner_id) here ∙ sym same) in
    let open_one = ap (λ (y : Meetup). y.active) here ∙ active in rw (first, open_one) refl
owner-owns_active m user (x ∷ meetups) (inr there) active same =
    let rest = owner-owns_active m user meetups there active same in
    elim (Bool-cases (x.owner_id == user.id && x.active)) [
      | inl yes_one ↦ rw yes_one refl
      | inr no_one ↦ rw no_one rest
    ]

owner-stays :
    (meetups : List Meetup) (user : User)
    → owns_active meetups user ≡ true
    → inactive_user meetups user ≡ false
unfolding inactive_user
owner-stays meetups user owns = rw owns (and_false _)

not_purged :
    (m : Meetup) (meetups : List Meetup) (users : List User)
    → Has (λ x. x ≡ m) meetups
    → m.active ≡ true
    → id_of_one requested_deletion users m.owner_id ≡ false
    → id_of_one (is_purged meetups) users m.owner_id ≡ false
not_purged m meetups [] there active none_asked = refl
not_purged m meetups (user ∷ users) there active none_asked =
    elim (Bool-cases (user.id == m.owner_id)) [
      | inl same ↦
          let owns =
            owner-owns_active m user meetups there active ((==_iff user.id m.owner_id).0 same) in
          let stays = owner-stays meetups user owns in
          let rest = not_purged m meetups users there active in
          ground (arith, stays, rest, none_asked)
      | inr other ↦
          let rest = not_purged m meetups users there active in ground (arith, rest, none_asked)
    ]

purge_users-keeps :
    (t : Tables)
    → count (is_kept t.users) (purge_users t).meetups ≡ count (is_kept t.users) t.meetups
unfolding purge_users
purge_users-keeps t =
    let gone = id_of_one (is_purged t.meetups) t.users in
    count-map (is_kept t.users) (unlinked gone) (filter (λ m. not (gone m.owner_id)) t.meetups)
    ∙ count-admits (is_kept t.users) (λ m. not (gone m.owner_id)) t.meetups
        (λ m there kept. ap not (
          not_purged m t.meetups t.users there (and_left m.active _ kept) (
            of_negated (id_of_one requested_deletion t.users m.owner_id)
              (and_right m.active (not (id_of_one requested_deletion t.users m.owner_id)) kept))))

demote-id : (now : ℕ) (meetups : List Meetup) (user : User) → (demote now meetups user).id ≡ user.id
demote-id now meetups user = elim (Bool-cases (demotable now meetups user)) [
  | inl moved ↦ rw moved (set_status-id now joined_only user)
  | inr same ↦ rw same refl
]

demotable-left :
    (now : ℕ) (meetups : List Meetup) (user : User)
    → demotable now meetups user ≡ true
    → user.status ≡ left
unfolding demotable
demotable-left now meetups user h =
    (status_eq_iff user.status left).0 (and_left (status_eq user.status left) _ h)

demote-requested_deletion :
    (now : ℕ) (meetups : List Meetup) (user : User)
    → requested_deletion (demote now meetups user) ≡ requested_deletion user
demote-requested_deletion now meetups user = elim (Bool-cases (demotable now meetups user)) [
  | inl moved ↦ rw moved (
      ap (λ s. status_eq s deletion_requested) (set_status-status now joined_only user)
      ∙ sym (ap (λ s. status_eq s deletion_requested) (demotable-left now meetups user moved)))
  | inr same ↦ rw same refl
]

demoted-requests :
    (now : ℕ) (meetups : List Meetup) (users : List User) (id : ℕ)
    → id_of_one requested_deletion (map (demote now meetups) users) id
      ≡ id_of_one requested_deletion users id
demoted-requests now meetups [] id = refl
demoted-requests now meetups (user ∷ users) id =
    rw
      (
        demote-id now meetups user,
        demote-requested_deletion now meetups user,
        demoted-requests now meetups users id,
      )
      refl

demote_stale_left_users-keeps :
    (now : ℕ) (t : Tables)
    → count (is_kept t.users) (demote_stale_left_users now t).meetups
      ≡ count (is_kept t.users) t.meetups
unfolding demote_stale_left_users
demote_stale_left_users-keeps now t =
    count-admits (is_kept t.users) _ t.meetups
      (λ m there kept. rw (and_left m.active _ kept) (ap not (and_false _)))

demoted-is_kept :
    (now : ℕ) (t : Tables) (m : Meetup)
    → is_kept t.users m ≡ is_kept (demote_stale_left_users now t).users m
unfolding demote_stale_left_users
demoted-is_kept now t m =
    ap (λ b. m.active && not b) (sym (demoted-requests now t.meetups t.users m.owner_id))

-- The cleanup of users takes no active meeting away, unless its owner has asked to be erased:
-- there are as many active meetings of the other owners after it as before, users demoted or purged
-- for having left included.
pub clean_up-keeps :
    (now : ℕ) (t : Tables)
    → count (is_kept t.users) (clean_up now t).meetups ≡ count (is_kept t.users) t.meetups
unfolding clean_up
clean_up-keeps now t =
    let demoted = demote_stale_left_users now t in
    count-ext (is_kept t.users) (is_kept demoted.users) (demoted-is_kept now t)
      (purge_users demoted).meetups
    ∙ purge_users-keeps demoted
    ∙ sym (
        count-ext (is_kept t.users) (is_kept demoted.users) (demoted-is_kept now t) demoted.meetups)
    ∙ demote_stale_left_users-keeps now t
