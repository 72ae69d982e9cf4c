-- ===== src/CardRefresh/Merging.antt =====
-- What two submits under one key become: libs/telegram/mitup_bot/card_refresh.py.
use mitup_telegram_bot.Base.{
  ℕ, ◌≡◌, refl, ap, sym, ◌∙◌, Bool, true, false, not, ◌&&◌, ◌||◌, Option, none, some, List, [], ◌∷◌,
  ◌++◌, any, mem, opt_eq, ◌==◌, ==_iff, and_false, if◌then◌else◌, arith, ◌↔◌, inl, inr, Bool-cases,
}
use mitup_telegram_bot.CardRefresh.{
  JobKey, key_eq, meeting_job_key, other_key, BackgroundJob, MeetingRefresh, refresh, send,
  merge_skip, merge_scopes, coalesce, Jobs, lookup, put, del,
}

abbrev pub in_scope : Option (List ℕ) → ℕ → Bool
in_scope none card = true
in_scope (some cards) card = mem card cards

-- The refresh draws the card when it runs.
abbrev pub draws : ℕ → BackgroundJob → Bool
draws card (send s) = false
draws card (refresh r) =
    in_scope r.message_db_ids card && not (opt_eq r.skip_message_db_id (some card))

any-append : (p : ℕ → Bool) (xs ys : List ℕ) → any p (xs ++ ys) ≡ (any p xs || any p ys)
any-append p [] ys = refl
any-append p (x ∷ xs) ys = ground (arith, any-append p xs ys)

in_scope-merge_scopes :
    (a b : Option (List ℕ)) (card : ℕ)
    → in_scope (merge_scopes a b) card ≡ (in_scope a card || in_scope b card)
unfolding merge_scopes
in_scope-merge_scopes none b card = refl
in_scope-merge_scopes (some xs) none card = ground arith
in_scope-merge_scopes (some xs) (some ys) card = any-append (λ m. card == m) xs ys

opt_eq-same : (a b : Option ℕ) → opt_eq a b ≡ true → a ≡ b
opt_eq-same none none e = refl
opt_eq-same none (some b) e = cc e
opt_eq-same (some a) none e = cc e
opt_eq-same (some a) (some b) e = ap (λ n. some n) ((==_iff a b).0 e)

and_same : (b : Bool) → b ≡ (b && b)
and_same true = refl
and_same false = refl

no_common :
    (a b : Option ℕ) (card : ℕ)
    → opt_eq a b ≡ false
    → false ≡ (opt_eq a (some card) && opt_eq b (some card))
no_common none b card e = refl
no_common (some a) none card e = sym (and_false (a == card))
no_common (some a) (some b) card e = ground (arith, e)

-- A merged refresh passes over a card only where both of the two name it.
skips-merge_skip :
    (a b : Option ℕ) (card : ℕ)
    → opt_eq (merge_skip a b) (some card) ≡ (opt_eq a (some card) && opt_eq b (some card))
unfolding merge_skip
skips-merge_skip a b card = elim (Bool-cases (opt_eq a b)) [
  | inl same ↦ rw same (
      and_same (opt_eq a (some card))
      ∙ ap (λ o. opt_eq a (some card) && opt_eq o (some card)) (opt_eq-same a b same))
  | inr other ↦ rw other (no_common a b card other)
]

-- Of two refreshes of one meeting, the merged one draws every card that either of them asked for.
pub coalesce-draws :
    (w i : MeetingRefresh) (card : ℕ)
    → draws card (refresh (coalesce w i)) ≡ (
        (in_scope w.message_db_ids card || in_scope i.message_db_ids card)
        && not (opt_eq w.skip_message_db_id (some card) && opt_eq i.skip_message_db_id (some card)))
unfolding coalesce
coalesce-draws w i card =
    rw
      (
        in_scope-merge_scopes w.message_db_ids i.message_db_ids card,
        skips-merge_skip w.skip_message_db_id i.skip_message_db_id card,
      )
      refl

either_draws :
    (a b c d : Bool) → ((a && not c) || (b && not d)) ≡ true → ((a || b) && not (c && d)) ≡ true
either_draws true b true true h = cc (h, and_false b)
either_draws true b true false h = refl
either_draws true b false d h = refl
either_draws false true c true h = cc h
either_draws false true true false h = refl
either_draws false true false false h = refl
either_draws false false c d h = cc h

-- The merged refresh draws what either of the two would have drawn.
pub draws-coalesce :
    (w i : MeetingRefresh) (card : ℕ)
    → (draws card (refresh w) || draws card (refresh i)) ≡ true
    → draws card (refresh (coalesce w i)) ≡ true
draws-coalesce w i card h =
    coalesce-draws w i card
    ∙ either_draws (in_scope w.message_db_ids card) (in_scope i.message_db_ids card)
        (opt_eq w.skip_message_db_id (some card)) (opt_eq i.skip_message_db_id (some card)) h

pub key_eq_iff : (a b : JobKey) → (key_eq a b ≡ true) ↔ (a ≡ b)
key_eq_iff (meeting_job_key m) (meeting_job_key n) =
    (λ e. ap (λ k. meeting_job_key k) ((==_iff m n).0 e), λ e. (==_iff m n).1 (cc e))
key_eq_iff (meeting_job_key m) (other_key n) = (λ e. cc e, λ e. cc e)
key_eq_iff (other_key m) (meeting_job_key n) = (λ e. cc e, λ e. cc e)
key_eq_iff (other_key m) (other_key n) =
    (λ e. ap (λ k. other_key k) ((==_iff m n).0 e), λ e. (==_iff m n).1 (cc e))

pub key_eq_sym : (a b : JobKey) → key_eq a b ≡ key_eq b a
key_eq_sym (meeting_job_key m) (meeting_job_key n) = ground arith
key_eq_sym (meeting_job_key m) (other_key n) = refl
key_eq_sym (other_key m) (meeting_job_key n) = refl
key_eq_sym (other_key m) (other_key n) = ground arith

-- One key is not equal to two that differ.
apart : (k a b : JobKey) → key_eq a b ≡ false → (key_eq k a && key_eq k b) ≡ false
apart k a b differ = elim (Bool-cases (key_eq k a)) [
  | inl same ↦ rw (same, ap (λ l. key_eq l b) ((key_eq_iff k a).0 same)) differ
  | inr other ↦ rw other refl
]

-- The dictionary: an entry that is put is found, and the others stay.
pub lookup-put :
    (k key : JobKey) (job : BackgroundJob) (jobs : Jobs)
    → lookup k (put key job jobs) ≡ (if key_eq k key then some job else lookup k jobs)
unfolding put
lookup-put k key job [] = refl
lookup-put k key job ((l, j) ∷ jobs) =
    let rest = lookup-put k key job jobs in
    elim (Bool-cases (key_eq key l)) [
      | inl same ↦ let e = ap (key_eq k) ((key_eq_iff key l).0 same) in ground (arith, same, e)
      | inr other ↦ let differ = apart k key l other in ground (arith, other, differ, rest)
    ]

pub lookup-del :
    (k key : JobKey) (jobs : Jobs)
    → lookup k (del key jobs) ≡ (if key_eq k key then none else lookup k jobs)
unfolding del
lookup-del k key [] = ground arith
lookup-del k key ((l, j) ∷ jobs) =
    let rest = lookup-del k key jobs in
    elim (Bool-cases (key_eq key l)) [
      | inl same ↦
          let e = ap (key_eq k) ((key_eq_iff key l).0 same) in ground (arith, same, e, rest)
      | inr other ↦ let differ = apart k key l other in ground (arith, other, differ, rest)
    ]
