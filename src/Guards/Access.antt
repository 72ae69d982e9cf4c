-- ===== src/Guards/Access.antt =====
-- What the guards of guards.py let through, against a description without their tests.
use mitup_telegram_bot.Base.{
  ℕ, ◌≡◌, ◌⊎◌, ◌↔◌, true, Option, none, some, Has, any-Has, Has-imp, arith, ◌==◌, ==_iff,
}
use mitup_telegram_bot.Meeting.{Meetup, has_participant}
use mitup_telegram_bot.Guards.{
  MeetingAccess, owner, owner_any_state, owner_or_joined, owner_or_public, granted, meeting,
}

-- The caller has an account, which owns the meeting, or holds a membership in it, waiting or not.
abbrev pub Owns : Meetup → Option ℕ → Type 0
Owns m none = ⊥
Owns m (some user) = m.owner_id ≡ user

abbrev pub Joined : Meetup → Option ℕ → Type 0
Joined m none = ⊥
Joined m (some user) = Has (λ l. l.user_id ≡ user) m.joined_links

-- What each access profile is for.
abbrev pub Permits : MeetingAccess → Meetup → Option ℕ → Type 0
Permits owner m user = (m.active ≡ true) × Owns m user
Permits owner_any_state m user = Owns m user
Permits owner_or_joined m user = (m.active ≡ true) × (Owns m user ⊎ Joined m user)
Permits owner_or_public m user = (m.active ≡ true) × (Owns m user ⊎ (m.public ≡ true))

pub has_participant-Joined :
    (m : Meetup) (user : ℕ) → (has_participant m user ≡ true) ↔ Joined m (some user)
unfolding has_participant
has_participant-Joined m user =
    let both = any-Has (λ l. l.user_id == user) m.joined_links in
    (
      λ h.
          Has-imp (λ l. (l.user_id == user) ≡ true) (λ l. l.user_id ≡ user)
            (λ l. (==_iff l.user_id user).0) m.joined_links (both.0 h),
      λ h. both.1 (
          Has-imp (λ l. l.user_id ≡ user) (λ l. (l.user_id == user) ≡ true)
            (λ l. (==_iff l.user_id user).1) m.joined_links h),
    )

-- The guard grants a meeting that was found exactly to the callers that the profile permits.
pub meeting-Permits :
    (access : MeetingAccess) (m : Meetup) (user : Option ℕ)
    → (meeting access (some m) user ≡ granted m) ↔ Permits access m user
unfolding meeting
meeting-Permits owner m none = ground arith
meeting-Permits owner m (some user) = ground arith
meeting-Permits owner_any_state m none = ground arith
meeting-Permits owner_any_state m (some user) = ground arith
meeting-Permits owner_or_joined m none = ground arith
meeting-Permits owner_or_joined m (some user) = ground (arith, has_participant-Joined m user)
meeting-Permits owner_or_public m none = ground arith
meeting-Permits owner_or_public m (some user) = ground arith
