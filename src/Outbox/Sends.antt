-- ===== src/Outbox/Sends.antt =====
-- No message is posted twice by the attempts of a drain: libs/telegram/mitup_bot/api_wrapper.py.
use mitup_telegram_bot.Base.{
  ℕ, suc, zero, ◌+◌, ◌≤◌, ◌==◌, ◌≡◌, refl, Bool, true, false, not, ◌&&◌, ◌||◌, Option, none, some,
  List, [], ◌∷◌, count, count-append, weight, if◌then◌else◌, arith, ap,
}
use mitup_telegram_bot.Outbox.{
  Ending, returned, inactive_user, bad_request, network_error, other_error, QueuedApiCall,
  ApiOutbox, Attempt, failure_never_reached_telegram, queued_call_is_retryable, is_retried,
  attempted, invoke_queued_with_retry, Draining, drain_queued_call, skip, is_skipped,
  network_is_dead, drain_calls, drain_outbox,
}
use mitup_telegram_bot.Outbox.Drain.{pass}

-- The request may have reached Telegram.
abbrev pub may_have_arrived : Ending → Bool
may_have_arrived (network_error cause) = not (failure_never_reached_telegram cause)
may_have_arrived (returned fix_up) = true
may_have_arrived (inactive_user id) = true
may_have_arrived (bad_request not_modified) = true
may_have_arrived other_error = true

module _ (token : ℕ) where
  -- An attempt of the call that may have posted its message.
  abbrev pub may_have_posted : Attempt → Bool
  may_have_posted a = (a.token == token && not a.idempotent) && may_have_arrived a.ending

  -- The call is one that a repeat would post again.
  abbrev pub posts : QueuedApiCall → Bool
  posts queued = queued.token == token && not queued.idempotent

  never_posted :
      (same idempotent never : Bool)
      → (never || idempotent) ≡ true
      → ((same && not idempotent) && not never) ≡ false
  never_posted true true true h = refl
  never_posted true true false h = refl
  never_posted true false true h = refl
  never_posted true false false h = cc h
  never_posted false idempotent never h = refl

  retried-posted :
      (queued : QueuedApiCall) (ending : Ending)
      → is_retried queued ending ≡ true
      → (posts queued && may_have_arrived ending) ≡ false
  unfolding queued_call_is_retryable
  retried-posted queued (network_error cause) h =
      never_posted (queued.token == token) queued.idempotent (failure_never_reached_telegram cause)
        h
  retried-posted queued (returned fix_up) h = cc h
  retried-posted queued (inactive_user id) h = cc h
  retried-posted queued (bad_request not_modified) h = cc h
  retried-posted queued other_error h = cc h

  count-attempted :
      (queued : QueuedApiCall) (before : List Attempt) (ending : Ending)
      → count may_have_posted (attempted queued before ending)
        ≡ count may_have_posted before + weight (posts queued && may_have_arrived ending)
  count-attempted queued before ending =
      let one =
        count-append may_have_posted before
          (record { token = queued.token; idempotent = queued.idempotent; ending = ending } ∷ []) in
      ground (arith, one)

  weight-and : (a b : Bool) → weight (a && b) ≤ weight a
  weight-and true true = omega arith
  weight-and true false = omega arith
  weight-and false b = omega arith

  pub tried_again :
      (P : List Attempt → Type 0) (again : Bool) (a b : List Attempt × Ending)
      → (again ≡ true → P a.0)
      → (again ≡ false → P b.0)
      → P (if again then a else b).0
  tried_again P true a b f g = f refl
  tried_again P false a b f g = g refl

  invoke-once :
      (queued : QueuedApiCall) (left : ℕ) (before : List Attempt)
      → count may_have_posted (invoke_queued_with_retry queued left before).0
        ≤ count may_have_posted before + weight (posts queued)
  unfolding invoke_queued_with_retry
  invoke-once queued zero before =
      let ending = queued.invoke before in
      let one = count-attempted queued before ending in
      let less = weight-and (posts queued) (may_have_arrived ending) in omega arith
  invoke-once queued (suc left) before =
      let ending = queued.invoke before in
      let one = count-attempted queued before ending in
      let less = weight-and (posts queued) (may_have_arrived ending) in
      tried_again
        (λ after.
          count may_have_posted after ≤ count may_have_posted before + weight (posts queued))
        (is_retried queued ending) _ _
        (λ retried.
          let none_posted = ap weight (retried-posted queued ending retried) in
          let rest = invoke-once queued left (attempted queued before ending) in omega arith)
        (λ ended. omega arith)

  drain_queued_call-once :
      (queued : QueuedApiCall) (d : Draining)
      → count may_have_posted (drain_queued_call queued d).attempts
        ≤ count may_have_posted d.attempts + weight (posts queued)
  unfolding drain_queued_call
  drain_queued_call-once queued d = invoke-once queued _ d.attempts

  skip-attempts : (id : Option ℕ) (d : Draining) → (skip id d).attempts ≡ d.attempts
  skip-attempts none d = refl
  skip-attempts (some id) d = refl

  count-posts :
      (queued : QueuedApiCall) (rest : List QueuedApiCall)
      → count posts (queued ∷ rest) ≡ weight (posts queued) + count posts rest
  count-posts queued rest = ground arith

  drain_calls-once :
      (calls : List QueuedApiCall) (d : Draining)
      → count may_have_posted (drain_calls calls d).attempts
        ≤ count may_have_posted d.attempts + count posts calls
  unfolding drain_calls
  drain_calls-once [] d = omega arith
  drain_calls-once (queued ∷ rest) d =
      let after = drain_queued_call queued d in
      let one = drain_queued_call-once queued d in
      let all = count-posts queued rest in
      pass
        (λ end.
          count may_have_posted end.attempts
          ≤ count may_have_posted d.attempts + count posts (queued ∷ rest))
        (is_skipped queued d.report) (network_is_dead after.report) _ _ _
        (λ skips.
          let same = ap (count may_have_posted) (skip-attempts queued.inline_message_id d) in
          let others = drain_calls-once rest (skip queued.inline_message_id d) in omega arith)
        (λ runs dead. omega arith)
        (λ runs alive. let others = drain_calls-once rest after in omega arith)

-- Of the attempts that a drain makes for a call whose repeat would post its message again, no more
-- may have reached Telegram than the outbox has calls with its token: with a token for each call, at
-- most one. An attempt that could not connect is one that has not.
pub drain_outbox-posts_once :
    (token : ℕ) (o : ApiOutbox) (attempts : List Attempt)
    → count (may_have_posted token) (drain_outbox o attempts).attempts
      ≤ count (may_have_posted token) attempts + count (posts token) o.calls
unfolding drain_outbox
drain_outbox-posts_once token o attempts = drain_calls-once token o.calls _
