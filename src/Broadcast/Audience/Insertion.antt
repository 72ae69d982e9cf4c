-- ===== src/Broadcast/Audience/Insertion.antt =====
-- The deliveries that the insertion of an audience makes, user by user: `materialize_audience` of
-- events/broadcast/claiming.py.
use mitup_telegram_bot.Base.{
  ◌≢◌, Option, none, some, is_none, map, Absent, Unique, ℕ, suc, ◌⊎◌, ◌+◌, ◌≡◌, refl, ap, sym, ◌∙◌,
  ◌==◌, ◌&&◌, Bool, true, false, not, List, [], ◌∷◌, ◌++◌, count, any, if◌then◌else◌, arith, inl,
  inr, Bool-cases, ==_iff, All, ==_refl, count-append, count-cons, weight,
}
use mitup_telegram_bot.Users.{User, member, status_eq}
use mitup_telegram_bot.Users.Status.{status_eq_iff}
use mitup_telegram_bot.Broadcast.{BroadcastDelivery}
use mitup_telegram_bot.Broadcast.Claiming.{
  reachable, audience_row, row_for, insert_audience, count_deliveries,
}
use mitup_telegram_bot.Broadcast.Recording.{Rows}

module _ (id : ℕ) (languages : List ℕ) (fallback : ℕ) where
  abbrev rows_for : ℕ → Rows → ℕ
  rows_for u = count (row_for id u)

  -- The table after one user of the audience.
  abbrev insert_one : ℕ → User → Rows → Rows
  insert_one next user rows =
      if reachable user && not (any (row_for id user.id) rows)
      then rows ++ (audience_row next id languages fallback user ∷ [])
      else rows

  rows_for-append :
      (next : ℕ) (user : User) (rows : Rows) (u : ℕ)
      → rows_for u (rows ++ (audience_row next id languages fallback user ∷ []))
        ≡ rows_for u rows + weight (user.id == u)
  rows_for-append next user rows u =
      let row = audience_row next id languages fallback user in
      omega (
        arith,
        count-append (row_for id u) rows (row ∷ []),
        count-cons (row_for id u) row [],
        ap (λ b. weight (b && user.id == u)) (==_refl id),
      )

  -- The user is a member with an account, and has exactly one delivery, or is not and has none.
  abbrev pub Enqueued : Rows → User → Type 0
  Enqueued rows user =
      ((user.status ≡ member) × ((is_none user.tg_user_id ≡ false) × (rows_for user.id rows ≡ 1)))
      ⊎ (((user.status ≢ member) ⊎ (user.tg_user_id ≡ none)) × (rows_for user.id rows ≡ 0))

  -- A user whose id is another's leaves the rows of that one.
  insert_one_other :
      (a : Bool) (next : ℕ) (user : User) (rows : Rows) (u : ℕ)
      → (user.id == u) ≡ false
      → rows_for u (if a then rows ++ (audience_row next id languages fallback user ∷ []) else rows)
        ≡ rows_for u rows
  insert_one_other true next user rows u other =
      let k = rows_for-append next user rows u in omega (arith, k, ap weight other)
  insert_one_other false next user rows u other = refl

  none_seen : (rows : Rows) (u : ℕ) → rows_for u rows ≡ 0 → any (row_for id u) rows ≡ false
  none_seen [] u e = refl
  none_seen (row ∷ rows) u e = ground (arith, none_seen rows u, e)

  insert_one_self :
      (a : Bool) (next : ℕ) (user : User) (rows : Rows)
      → rows_for user.id rows ≡ 0
      → rows_for user.id (
          if a && not (any (row_for id user.id) rows)
          then rows ++ (audience_row next id languages fallback user ∷ [])
          else rows)
        ≡ weight a
  insert_one_self false next user rows empty = empty
  insert_one_self true next user rows empty = rw (none_seen rows user.id empty) (
      let k = rows_for-append next user rows user.id in
      omega (arith, k, empty, ap weight (==_refl user.id)))

  apart : (u v : ℕ) → v ≢ u → (u == v) ≡ false
  apart u v h = elim (Bool-cases (u == v)) [
    | inl same ↦ absurd (h (sym ((==_iff u v).0 same)))
    | inr other ↦ other
  ]

  -- The users behind one have other ids, so that what they get is not that one's.
  insert_audience-other :
      (next : ℕ) (users : List User) (rows : Rows) (u : ℕ)
      → Absent u (map (λ user. user.id) users)
      → rows_for u (insert_audience next id languages fallback users rows) ≡ rows_for u rows
  unfolding insert_audience
  insert_audience-other next [] rows u absent = refl
  insert_audience-other next (user ∷ users) rows u absent =
      insert_audience-other (suc next) users (insert_one next user rows) u absent.1
      ∙ insert_one_other (reachable user && not (any (row_for id user.id) rows)) next user rows u
          (apart user.id u (λ e. absent.0 (sym e)))

  Empty-after :
      (next : ℕ) (user : User) (users : List User) (rows : Rows)
      → Absent user.id (map (λ other. other.id) users)
      → All (λ other. rows_for other.id rows ≡ 0) users
      → All (λ other. rows_for other.id (insert_one next user rows) ≡ 0) users
  Empty-after next user [] rows absent empty = tt
  Empty-after next user (other ∷ users) rows absent empty = (
    insert_one_other (reachable user && not (any (row_for id user.id) rows)) next user rows other.id
          (apart user.id other.id absent.0)
        ∙ empty.0,
    Empty-after next user users rows absent.1 empty.1,
  )

  rows_for-Enqueued :
      (rows : Rows) (user : User)
      → rows_for user.id rows ≡ weight (reachable user)
      → Enqueued rows user
  rows_for-Enqueued rows user e = elim (Bool-cases (status_eq user.status member)) [
    | inl is_member ↦ elim (Bool-cases (is_none user.tg_user_id)) [
      | inl anonymous ↦ inr (
        inr (none_if user.tg_user_id anonymous),
        e
            ∙ ap weight
                (cut (status_eq user.status member) (is_none user.tg_user_id) (inr anonymous)),
      )
      | inr account ↦ inl (
        (status_eq_iff user.status member).0 is_member,
        (
          account,
          e
              ∙ ap weight
                  (kept (status_eq user.status member) (is_none user.tg_user_id) is_member account),
        ),
      )
    ]
    | inr other ↦ inr (
      inl (λ same. cc (other, (status_eq_iff user.status member).1 same)),
      e ∙ ap weight (cut (status_eq user.status member) (is_none user.tg_user_id) (inl other)),
    )
  ]
    where
      none_if : (o : Option ℕ) → is_none o ≡ true → o ≡ none
      none_if none h = refl
      none_if (some n) h = cc h

      cut : (a b : Bool) → (a ≡ false) ⊎ (b ≡ true) → (a && not b) ≡ false
      cut true true h = refl
      cut false b h = refl
      cut true false h = elim h [ inl x ↦ cc x | inr x ↦ cc x ]

      kept : (a b : Bool) → a ≡ true → b ≡ false → (a && not b) ≡ true
      kept true false h k = refl
      kept true true h k = cc k
      kept false b h k = cc h

  pub insert_audience-Enqueued :
      (next : ℕ) (users : List User) (rows : Rows)
      → Unique (map (λ user. user.id) users)
      → All (λ user. rows_for user.id rows ≡ 0) users
      → All (Enqueued (insert_audience next id languages fallback users rows)) users
  unfolding insert_audience
  insert_audience-Enqueued next [] rows unique empty = tt
  insert_audience-Enqueued next (user ∷ users) rows unique empty =
      let rows₁ = insert_one next user rows in
      (
        rows_for-Enqueued (insert_audience (suc next) id languages fallback users rows₁) user (
            insert_audience-other (suc next) users rows₁ user.id unique.0
            ∙ insert_one_self (reachable user) next user rows empty.0),
        insert_audience-Enqueued (suc next) users rows₁ unique.1
            (Empty-after next user users rows unique.0 empty.1),
      )

  deliveries-append :
      (a : Bool) (next : ℕ) (user : User) (rows : Rows)
      → count_deliveries id
          (if a then rows ++ (audience_row next id languages fallback user ∷ []) else rows)
        ≡ count_deliveries id rows + weight a
  unfolding count_deliveries
  deliveries-append true next user rows =
      let row = audience_row next id languages fallback user in
      omega (
        arith,
        count-append (λ (r : BroadcastDelivery). r.broadcast_id == id) rows (row ∷ []),
        count-cons (λ (r : BroadcastDelivery). r.broadcast_id == id) row [],
        ap weight (==_refl id),
      )
  deliveries-append false next user rows = omega arith

  and_unseen : (a b : Bool) → b ≡ false → (a && not b) ≡ a
  and_unseen true b e = rw e refl
  and_unseen false b e = refl

  pub insert_audience-count :
      (next : ℕ) (users : List User) (rows : Rows)
      → Unique (map (λ user. user.id) users)
      → All (λ user. rows_for user.id rows ≡ 0) users
      → count_deliveries id (insert_audience next id languages fallback users rows)
        ≡ count_deliveries id rows + count reachable users
  unfolding insert_audience
  insert_audience-count next [] rows unique empty = omega arith
  insert_audience-count next (user ∷ users) rows unique empty =
      let a = reachable user && not (any (row_for id user.id) rows) in
      let rest =
        insert_audience-count (suc next) users (insert_one next user rows) unique.1
          (Empty-after next user users rows unique.0 empty.1) in
      let one = deliveries-append a next user rows in
      let w = ap weight (and_unseen (reachable user) _ (none_seen rows user.id empty.0)) in
      let all = count-cons reachable user users in omega (arith, rest, one, w, all)
