-- ===== src/Users/Status.antt =====
-- What every sequence of status writes of models/users.py keeps.
use mitup_telegram_bot.Base.{
  ℕ, ◌≡◌, zero, suc, refl, sym, ap, ◌∙◌, ==_iff, ◌↔◌, true, false, some, List, [], ◌∷◌, All,
  is_none, arith, Bool, if◌then◌else◌, Bool-cases, inl, inr,
}
use mitup_telegram_bot.Users.{
  UserStatus, member, onboarding, joined_only, left, deletion_requested, User, status_eq,
  status_index, set_status, mark_inactive,
}

-- The stamp of a departure is there exactly while the user has left.
abbrev pub IsStamped : User → Type 0
IsStamped user = (is_none user.left_time ≡ false) ↔ (user.status ≡ left)

-- A write of a status, or the detection of a departure, with the moment it happens at.
pub data Write : Type 0 where
  set : ℕ → UserStatus → Write
  detect : ℕ → Write

abbrev pub write : Write → User → User
write (set now status) user = set_status now status user
write (detect now) user = (mark_inactive now user).0

abbrev pub writes : List Write → User → User
writes [] user = user
writes (w ∷ ws) user = writes ws (write w user)

-- No write makes the user come back.
abbrev pub StaysLeft : Write → Type 0
StaysLeft (set now status) = status ≡ left
StaysLeft (detect now) = Unit

of_index : ℕ → UserStatus
of_index zero = member
of_index (suc zero) = onboarding
of_index (suc (suc zero)) = joined_only
of_index (suc (suc (suc zero))) = left
of_index (suc (suc (suc (suc n)))) = deletion_requested

of_index-status_index : (a : UserStatus) → of_index (status_index a) ≡ a
unfolding of_index
of_index-status_index member = refl
of_index-status_index onboarding = refl
of_index-status_index joined_only = refl
of_index-status_index left = refl
of_index-status_index deletion_requested = refl

pub status_eq_iff : (a b : UserStatus) → (status_eq a b ≡ true) ↔ (a ≡ b)
status_eq_iff a b = (
  λ e.
      sym (of_index-status_index a)
      ∙ ap of_index ((==_iff (status_index a) (status_index b)).0 e)
      ∙ of_index-status_index b,
  λ e. (==_iff (status_index a) (status_index b)).1 (ap status_index e),
)

set_status-IsStamped :
    (now : ℕ) (status : UserStatus) (user : User)
    → IsStamped user
    → IsStamped (set_status now status user)
unfolding set_status
set_status-IsStamped now status user s =
    ground (arith, status_eq_iff status user.status, status_eq_iff status left)

mark_inactive-IsStamped :
    (now : ℕ) (user : User) → IsStamped user → IsStamped (mark_inactive now user).0
unfolding mark_inactive
mark_inactive-IsStamped now user s = ground (arith, set_status-IsStamped now left user s)

-- Whatever statuses are written and whatever departures detected, a user has a departure's stamp
-- exactly while the status is `left`, if so at the start.
pub writes-IsStamped : (ws : List Write) (user : User) → IsStamped user → IsStamped (writes ws user)
writes-IsStamped [] user s = s
writes-IsStamped (set now status ∷ ws) user s =
    writes-IsStamped ws (set_status now status user) (set_status-IsStamped now status user s)
writes-IsStamped (detect now ∷ ws) user s =
    writes-IsStamped ws (mark_inactive now user).0 (mark_inactive-IsStamped now user s)

stays : (w : Write) (user : User) → StaysLeft w → user.status ≡ left → write w user ≡ user
unfolding set_status mark_inactive
stays (set now status) user k e = rw (k, e) refl
stays (detect now) user k e = rw e refl

stays-All :
    (ws : List Write) (user : User) → All StaysLeft ws → user.status ≡ left → writes ws user ≡ user
stays-All [] user k e = refl
stays-All (w ∷ ws) user k e = rw (stays w user k.0 e) (stays-All ws user k.1 e)

-- A member's departure is dated by its first detection: later detections, and writes of the same
-- status, neither restart the grace period nor change anything else of the user.
pub first_detection :
    (now : ℕ) (ws : List Write) (user : User)
    → user.status ≡ member
    → All StaysLeft ws
    → writes (detect now ∷ ws) user ≡ record user { status = left; left_time = some now }
unfolding set_status mark_inactive
first_detection now ws user e k =
    (let gone = record user { status = left; left_time = some now } in
      rw e (stays-All ws gone k refl))

chosen_field {ℓ κ} :
    {A : Type ℓ} {B : Type κ} (f : A → B) (b : Bool) (x y : A) (z : B)
    → f x ≡ z
    → f y ≡ z
    → f (if b then x else y) ≡ z
chosen_field f true x y z h k = h
chosen_field f false x y z h k = k

set_status-tg_user_id :
    (now : ℕ) (status : UserStatus) (user : User)
    → (set_status now status user).tg_user_id ≡ user.tg_user_id
unfolding set_status
set_status-tg_user_id now status user =
    chosen_field (λ (u : User). u.tg_user_id) (status_eq status user.status) _ _ _ refl refl

pub mark_inactive-tg_user_id :
    (now : ℕ) (user : User) → (mark_inactive now user).0.tg_user_id ≡ user.tg_user_id
unfolding mark_inactive
mark_inactive-tg_user_id now user =
    chosen_field (λ (u : User × Bool). u.0.tg_user_id) (status_eq user.status member) _ _ _
      (set_status-tg_user_id now left user) refl

pub set_status-status :
    (now : ℕ) (status : UserStatus) (user : User) → (set_status now status user).status ≡ status
unfolding set_status
set_status-status now status user = elim (Bool-cases (status_eq status user.status)) [
  | inl same ↦ rw same (sym ((status_eq_iff status user.status).0 same))
  | inr other ↦ rw other refl
]

-- Whoever was marked inactive is no member.
pub mark_inactive-status :
    (now : ℕ) (user : User) → status_eq (mark_inactive now user).0.status member ≡ false
unfolding mark_inactive
mark_inactive-status now user = elim (Bool-cases (status_eq user.status member)) [
  | inl stays ↦ rw stays (ap (λ s. status_eq s member) (set_status-status now left user))
  | inr gone ↦ rw gone gone
]

pub set_status-id :
    (now : ℕ) (status : UserStatus) (user : User) → (set_status now status user).id ≡ user.id
unfolding set_status
set_status-id now status user =
    chosen_field (λ (u : User). u.id) (status_eq status user.status) _ _ _ refl refl
