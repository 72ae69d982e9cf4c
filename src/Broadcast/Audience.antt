-- ===== src/Broadcast/Audience.antt =====
-- The audience of a broadcast, `materialize_audience` of events/broadcast/claiming.py.
pub mod Insertion
use mitup_telegram_bot.Base.{
  ◌≢◌, Option, none, some, is_none, map, Absent, Unique, and_left, ℕ, suc, ◌⊎◌, ◌+◌, ◌≡◌, ◌≤◌, refl,
  ap, sym, ◌∙◌, ◌==◌, ◌&&◌, Bool, true, false, not, List, [], ◌∷◌, ◌++◌, count, any, if◌then◌else◌,
  arith, inl, inr, Bool-cases, ==_iff, All, ==_refl, count-append, count-cons, weight, count-le,
}
use mitup_telegram_bot.Users.{User, member, status_eq}
use mitup_telegram_bot.Users.Status.{status_eq_iff}
use mitup_telegram_bot.Broadcast.{Broadcast, BroadcastDelivery}
use mitup_telegram_bot.Broadcast.Claiming.{
  reachable, audience_row, row_for, insert_audience, count_deliveries, materialize_audience,
  set_total,
}
use mitup_telegram_bot.Broadcast.Recording.{Rows}
use mitup_telegram_bot.Broadcast.Audience.Insertion.{
  Enqueued, insert_audience-Enqueued, insert_audience-count,
}

few_rows : (id u : ℕ) (rows : Rows) → count (row_for id u) rows ≤ count_deliveries id rows
unfolding count_deliveries
few_rows id u rows =
    count-le (row_for id u) (λ row. row.broadcast_id == id) (λ row e. and_left _ _ e) rows

module _ (next fallback id : ℕ) (languages : List ℕ) (users : List User) (bs : List Broadcast)
    (rows : Rows) where
  materialize_new :
      count_deliveries id rows ≡ 0
      → let rows' = insert_audience next id languages fallback users rows in
        materialize_audience next fallback id languages users bs rows
        ≡ (set_total id (count_deliveries id rows') bs, rows', count_deliveries id rows')
  unfolding materialize_audience
  materialize_new e = rw e refl

  materialize_old :
      (count_deliveries id rows == 0) ≡ false
      → materialize_audience next fallback id languages users bs rows
        ≡ (bs, rows, count_deliveries id rows)
  unfolding materialize_audience
  materialize_old e = rw e refl

  -- A broadcast without deliveries gets one, and no second one, for every user who is a member with
  -- an account, and none for any other user, whatever else the table holds. The total is the number
  -- of those members, and of the deliveries. The users have distinct ids.
  pub materialize_audience-Enqueued :
      count_deliveries id rows ≡ 0
      → Unique (map (λ user. user.id) users)
      → let result = materialize_audience next fallback id languages users bs rows in
        All (Enqueued id languages fallback result.1) users
        × ((result.2 ≡ count reachable users)
            × (count_deliveries id result.1 ≡ count reachable users))
  materialize_audience-Enqueued e unique =
      let number =
        insert_audience-count id languages fallback next users rows unique (none_yet users) in
      rw (materialize_new e) (
        insert_audience-Enqueued id languages fallback next users rows unique (none_yet users),
        (omega (arith, number, e), omega (arith, number, e)),
      )
    where
      none_yet : (us : List User) → All (λ user. count (row_for id user.id) rows ≡ 0) us
      none_yet [] = tt
      none_yet (user ∷ us) = (omega (arith, few_rows id user.id rows, e), none_yet us)

  total-count_deliveries :
      let result = materialize_audience next fallback id languages users bs rows in
      result.2 ≡ count_deliveries id result.1
  total-count_deliveries = elim (Bool-cases (count_deliveries id rows == 0)) [
    | inl empty ↦ rw (materialize_new ((==_iff _ 0).0 empty)) refl
    | inr full ↦ rw (materialize_old full) refl
  ]

-- A resumed run reuses the audience: once a broadcast has a delivery, materializing it again, with
-- whatever users and languages there are by then, changes nothing and answers the same total.
pub materialize_again :
    (next next' fallback id : ℕ) (languages languages' : List ℕ) (users users' : List User)
    (bs : List Broadcast) (rows : Rows)
    → let first = materialize_audience next fallback id languages users bs rows in
      (first.2 == 0) ≡ false
      → materialize_audience next' fallback id languages' users' first.0 first.1 ≡ first
materialize_again next next' fallback id languages languages' users users' bs rows full =
    let first = materialize_audience next fallback id languages users bs rows in
    let total = total-count_deliveries next fallback id languages users bs rows in
    materialize_old next' fallback id languages' users' first.0 first.1
      (ap (λ n. n == 0) (sym total) ∙ full)
    ∙ ap (λ n. (first.0, first.1, n)) (sym total)
