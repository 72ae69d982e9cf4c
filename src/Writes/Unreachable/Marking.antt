-- ===== src/Writes/Unreachable/Marking.antt =====
-- How a reconciliation marks accounts: libs/data/mitup_bot/db.py and
-- libs/telegram/mitup_bot/reconcile.py.
use mitup_telegram_bot.Base.{
  ℕ, ◌==◌, ◌≡◌, refl, sym, ap, ◌∙◌, Bool, true, false, not, ◌&&◌, Option, none, some, List, [], ◌∷◌,
  find, mem, opt_eq, if◌then◌else◌, arith, ==_iff, subst, Bool-cases, inl, inr,
}
use mitup_telegram_bot.Users.{User, member, status_eq, mark_inactive}
use mitup_telegram_bot.Users.Status.{mark_inactive-status, mark_inactive-tg_user_id}
use mitup_telegram_bot.Outbox.{ApiOutbox}
use mitup_telegram_bot.Writes.{
  Db, has_tg_id, mark_first, mark_all, without_repeats, reconcile_outbox, is_empty, apply_reconcile,
}

-- The account's user, if there is one, is not a member.
abbrev pub departed : Option User → Bool
departed none = true
departed (some user) = not (status_eq user.status member)

departed_found :
    (id : ℕ) (b : Bool) (user : User) (users : List User)
    → has_tg_id id user ≡ b
    → departed (find (has_tg_id id) (user ∷ users))
      ≡ (if b then departed (some user) else departed (find (has_tg_id id) users))
departed_found id true user users e = rw e refl
departed_found id false user users e = rw e refl

marked-departed : (now : ℕ) (user : User) → departed (some (mark_inactive now user).0) ≡ true
marked-departed now user = ap not (mark_inactive-status now user)

marked-has_tg_id :
    (now id : ℕ) (user : User) → has_tg_id id (mark_inactive now user).0 ≡ has_tg_id id user
marked-has_tg_id now id user = ap (λ tg. opt_eq tg (some id)) (mark_inactive-tg_user_id now user)

marked_first-departed :
    (now id : ℕ) (users : List User)
    → departed (find (has_tg_id id) (mark_first now id users)) ≡ true
unfolding mark_first
marked_first-departed now id [] = refl
marked_first-departed now id (user ∷ users) = elim (Bool-cases (has_tg_id id user)) [
  | inl this ↦ rw this (
      departed_found id true (mark_inactive now user).0 users (marked-has_tg_id now id user ∙ this)
      ∙ marked-departed now user)
  | inr other ↦ rw other (
      departed_found id false user (mark_first now id users) other
      ∙ marked_first-departed now id users)
]

mark_first-keeps :
    (now i id : ℕ) (users : List User)
    → departed (find (has_tg_id id) users) ≡ true
    → departed (find (has_tg_id id) (mark_first now i users)) ≡ true
unfolding mark_first
mark_first-keeps now i id [] h = h
mark_first-keeps now i id (user ∷ users) h =
    let keeps = λ (e : has_tg_id id user ≡ false). sym (departed_found id false user users e) ∙ h in
    elim (Bool-cases (has_tg_id i user)) [
      | inl this ↦ rw this (elim (Bool-cases (has_tg_id id user)) [
        | inl mine ↦
            departed_found id true (mark_inactive now user).0 users
              (marked-has_tg_id now id user ∙ mine)
            ∙ marked-departed now user
        | inr other ↦
            departed_found id false (mark_inactive now user).0 users
              (marked-has_tg_id now id user ∙ other)
            ∙ keeps other
      ])
      | inr another ↦ rw another (elim (Bool-cases (has_tg_id id user)) [
        | inl mine ↦
            departed_found id true user (mark_first now i users) mine
            ∙ sym (departed_found id true user users mine)
            ∙ h
        | inr other ↦
            departed_found id false user (mark_first now i users) other
            ∙ mark_first-keeps now i id users (keeps other)
      ])
    ]

reconciled :
    (P : Db → Type 0) (a b c : Bool) (db after : Db)
    → b ≡ false
    → P after
    → P (if a && b && c then db else after)
reconciled P false b c db after e h = h
reconciled P true true c db after e h = cc e
reconciled P true false c db after e h = h

not_empty : (id : ℕ) (ids : List ℕ) → mem id ids ≡ true → is_empty ids ≡ false
not_empty id [] h = cc h
not_empty id (i ∷ ids) h = refl

module _ (id : ℕ) where
  in_rest : (x : ℕ) (ids : List ℕ) → mem id (x ∷ ids) ≡ true → (id == x) ≡ false → mem id ids ≡ true
  in_rest x ids h other = ground arith

  new_here : (x : ℕ) (seen : List ℕ) → mem x seen ≡ true → mem id seen ≡ false → (id == x) ≡ false
  new_here x seen repeated k = elim (Bool-cases (id == x)) [
    | inl same ↦ absurd (cc (repeated, k, (==_iff id x).0 same))
    | inr other ↦ other
  ]

  without_repeats-mem :
      (seen ids : List ℕ)
      → mem id ids ≡ true
      → mem id seen ≡ false
      → mem id (without_repeats seen ids) ≡ true
  unfolding without_repeats
  without_repeats-mem seen [] h k = cc h
  without_repeats-mem seen (x ∷ ids) h k = elim (Bool-cases (mem x seen)) [
    | inl repeated ↦
        rw repeated (without_repeats-mem seen ids (in_rest x ids h (new_here x seen repeated k)) k)
    | inr fresh ↦ rw fresh (elim (Bool-cases (id == x)) [
      | inl same ↦ rw same refl
      | inr other ↦
          rw other (without_repeats-mem (x ∷ seen) ids (in_rest x ids h other) (rw other k))
    ])
  ]

  mark_all-keeps :
      (now : ℕ) (ids : List ℕ) (users : List User)
      → departed (find (has_tg_id id) users) ≡ true
      → departed (find (has_tg_id id) (mark_all now ids users)) ≡ true
  mark_all-keeps now [] users h = h
  mark_all-keeps now (i ∷ ids) users h =
      mark_all-keeps now ids (mark_first now i users) (mark_first-keeps now i id users h)

  mark_all-departed :
      (now : ℕ) (ids : List ℕ) (users : List User)
      → mem id ids ≡ true
      → departed (find (has_tg_id id) (mark_all now ids users)) ≡ true
  mark_all-departed now [] users h = cc h
  mark_all-departed now (i ∷ ids) users h = elim (Bool-cases (id == i)) [
    | inl same ↦ mark_all-keeps now ids (mark_first now i users) (
        subst (λ j. departed (find (has_tg_id id) (mark_first now j users)) ≡ true)
          ((==_iff id i).0 same) (marked_first-departed now id users))
    | inr other ↦ mark_all-departed now ids (mark_first now i users) (in_rest i ids h other)
  ]

  -- The reconciliation that skips an empty transaction still marks every account on the list.
  pub apply_reconcile-departed :
      (now : ℕ) (o : ApiOutbox) (db : Db)
      → mem id o.inactive_tg_user_ids ≡ true
      → departed (find (has_tg_id id) (apply_reconcile now o db).users) ≡ true
  unfolding apply_reconcile reconcile_outbox
  apply_reconcile-departed now o db h =
      reconciled (λ after. departed (find (has_tg_id id) after.users) ≡ true)
        (is_empty o.dead_message_ids) (is_empty o.inactive_tg_user_ids)
        (is_empty o.confirmed_render_digests) db _ (not_empty id o.inactive_tg_user_ids h)
        (mark_all-departed now (without_repeats [] o.inactive_tg_user_ids) db.users
          (without_repeats-mem [] o.inactive_tg_user_ids h refl))
