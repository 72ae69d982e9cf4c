-- ===== src/Writes/Unreachable/Noting.antt =====
-- How a drain notes accounts: libs/data/mitup_bot/db.py and
-- libs/telegram/mitup_bot/reconcile.py.
use mitup_telegram_bot.Base.{
  ℕ, suc, zero, ◌-◌, ◌==◌, ◌≡◌, refl, sym, ap, ◌∙◌, Bool, true, false, ◌||◌, Option, none, some,
  List, [], ◌∷◌, ◌++◌, any, mem, arith, Bool-cases, inl, inr,
}
use mitup_telegram_bot.Outbox.{
  Ending, returned, inactive_user, bad_request, network_error, other_error, nothing, dead_message,
  confirmed_digest, FixUp, write_fix_up, ApiOutbox, Attempt, QueuedApiCall, is_retried, attempted,
  invoke_queued_with_retry, queued_call_attempts, classified, Draining, drain_queued_call, skip,
  is_skipped, network_is_dead, drain_calls, drain_outbox,
}
use mitup_telegram_bot.Outbox.Drain.{pass}

any-append {ℓ} :
    {A : Type ℓ} (p : A → Bool) (xs ys : List A) → any p (xs ++ ys) ≡ (any p xs || any p ys)
any-append p [] ys = refl
any-append p (x ∷ xs) ys = ground (arith, any-append p xs ys)

-- The call found the account unreachable.
abbrev pub is_inactive : ℕ → Ending → Bool
is_inactive id (inactive_user i) = id == i
is_inactive id (returned fix_up) = false
is_inactive id (bad_request not_modified) = false
is_inactive id (network_error cause) = false
is_inactive id other_error = false

same_or :
    (all before found rest : Bool)
    → all ≡ (before || found)
    → found ≡ false
    → (all || rest) ≡ (before || rest)
same_or all true found rest e f = rw e refl
same_or all false found rest e f = rw (e, f) refl

noted_after :
    (found before listed now_found now_listed : Bool)
    → (found ≡ true → (before || listed) ≡ true)
    → ((listed || now_found) ≡ true → now_listed ≡ true)
    → (found || now_found) ≡ true
    → (before || now_listed) ≡ true
noted_after found true listed now_found now_listed f g h = refl
noted_after found false true now_found now_listed f g h = g refl
noted_after true false false now_found now_listed f g h = cc (f refl)
noted_after false false false now_found now_listed f g h = g h

or_no : (a : Bool) → (a || false) ≡ true → a ≡ true
or_no true h = refl
or_no false h = h

fix_up-inactive :
    (fix_up : FixUp) (o : ApiOutbox)
    → (write_fix_up fix_up o).inactive_tg_user_ids ≡ o.inactive_tg_user_ids
fix_up-inactive nothing o = refl
fix_up-inactive (dead_message i) o = refl
fix_up-inactive (confirmed_digest i digest) o = refl

module _ (id : ℕ) where
  -- The attempts of one call: only the last may find the account unreachable.
  abbrev pub finds_inactive : List Attempt → Bool
  finds_inactive attempts = any (λ a. is_inactive id a.ending) attempts

  attempted-inactive :
      (queued : QueuedApiCall) (before : List Attempt) (ending : Ending)
      → finds_inactive (attempted queued before ending)
        ≡ (finds_inactive before || is_inactive id ending)
  attempted-inactive queued before ending = ground (
    arith,
    any-append (λ a. is_inactive id a.ending) before
        (record { token = queued.token; idempotent = queued.idempotent; ending = ending } ∷ []),
  )

  retried-active :
      (queued : QueuedApiCall) (ending : Ending)
      → is_retried queued ending ≡ true
      → is_inactive id ending ≡ false
  retried-active queued (network_error cause) h = refl
  retried-active queued (returned fix_up) h = refl
  retried-active queued (inactive_user i) h = cc h
  retried-active queued (bad_request not_modified) h = refl
  retried-active queued other_error h = refl

  invoke-inactive :
      (queued : QueuedApiCall) (remaining : ℕ) (before : List Attempt)
      → finds_inactive (invoke_queued_with_retry queued remaining before).0 ≡ (
          finds_inactive before
          || is_inactive id (invoke_queued_with_retry queued remaining before).1)
  unfolding invoke_queued_with_retry
  invoke-inactive queued zero before = attempted-inactive queued before (queued.invoke before)
  invoke-inactive queued (suc remaining) before =
      let ending = queued.invoke before in
      elim (Bool-cases (is_retried queued ending)) [
        | inl again ↦ rw again (
            invoke-inactive queued remaining (attempted queued before ending)
            ∙ same_or _ (finds_inactive before) (is_inactive id ending) _
                (attempted-inactive queued before ending) (retried-active queued ending again))
        | inr ended ↦ rw ended (attempted-inactive queued before ending)
      ]

  classified-listed :
      (queued : QueuedApiCall) (ending : Ending) (o : ApiOutbox)
      → (mem id o.inactive_tg_user_ids || is_inactive id ending) ≡ true
      → mem id (classified queued ending o).0.inactive_tg_user_ids ≡ true
  unfolding classified
  classified-listed queued (returned fix_up) o h =
      ap (mem id) (fix_up-inactive fix_up o) ∙ or_no _ h
  classified-listed queued (inactive_user i) o h =
      any-append (λ j. id == j) o.inactive_tg_user_ids (i ∷ []) ∙ ground (arith, h)
  classified-listed queued (bad_request not_modified) o h = or_no _ h
  classified-listed queued (network_error cause) o h = or_no _ h
  classified-listed queued other_error o h = or_no _ h

  -- Every account found unreachable since is on the outbox's list.
  abbrev pub Noted : Bool → Draining → Type 0
  Noted before d =
      finds_inactive d.attempts ≡ true → (before || mem id d.outbox.inactive_tg_user_ids) ≡ true

  drain_queued_call-Noted :
      (before : Bool) (queued : QueuedApiCall) (d : Draining)
      → Noted before d
      → Noted before (drain_queued_call queued d)
  unfolding drain_queued_call
  drain_queued_call-Noted before queued d noted found =
      let run = invoke_queued_with_retry queued (queued_call_attempts - 1) d.attempts in
      noted_after (finds_inactive d.attempts) before (mem id d.outbox.inactive_tg_user_ids)
        (is_inactive id run.1) _ noted (classified-listed queued run.1 d.outbox)
        (sym (invoke-inactive queued (queued_call_attempts - 1) d.attempts) ∙ found)

  skip-Noted :
      (before : Bool) (i : Option ℕ) (d : Draining) → Noted before d → Noted before (skip i d)
  skip-Noted before none d noted = noted
  skip-Noted before (some i) d noted = noted

  drain_calls-Noted :
      (before : Bool) (calls : List QueuedApiCall) (d : Draining)
      → Noted before d
      → Noted before (drain_calls calls d)
  unfolding drain_calls
  drain_calls-Noted before [] d noted = noted
  drain_calls-Noted before (queued ∷ rest) d noted =
      let after = drain_queued_call queued d in
      let noted_one = drain_queued_call-Noted before queued d noted in
      pass (Noted before) (is_skipped queued d.report) (network_is_dead after.report) _ _ _
        (λ skips.
          drain_calls-Noted before rest _ (skip-Noted before queued.inline_message_id d noted))
        (λ runs dead. noted_one) (λ runs alive. drain_calls-Noted before rest after noted_one)

  or_self : (a b : Bool) → a ≡ true → (a || b) ≡ true
  or_self true b h = refl
  or_self false b h = cc h

  pub drain_outbox-Noted :
      (o : ApiOutbox) (attempts : List Attempt)
      → Noted (finds_inactive attempts) (drain_outbox o attempts)
  unfolding drain_outbox
  drain_outbox-Noted o attempts =
      drain_calls-Noted (finds_inactive attempts) o.calls _ (λ found. or_self _ _ found)
