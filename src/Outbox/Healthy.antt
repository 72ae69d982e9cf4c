-- ===== src/Outbox/Healthy.antt =====
-- A drain while Telegram answers: libs/telegram/mitup_bot/api_wrapper.py.
use mitup_telegram_bot.Base.{
  ℕ, suc, zero, ◌-◌, ◌≡◌, refl, sym, ap, ◌∙◌, Bool, true, false, not, List, [], ◌∷◌, ◌++◌, map,
  append_assoc, append-nil, is_none, and_false,
}
use mitup_telegram_bot.Outbox.{
  Ending, returned, inactive_user, bad_request, network_error, other_error, QueuedApiCall,
  ApiOutbox, Attempt, DrainReport, record_outcome, classified, is_retried, attempted,
  queued_call_attempts, invoke_queued_with_retry, Draining, drain_queued_call, is_skipped,
  network_is_dead, drain_calls, drain_outbox,
}
use mitup_telegram_bot.Outbox.Drain.{pass}

abbrev pub is_answered : Ending → Bool
is_answered (network_error cause) = false
is_answered (returned fix_up) = true
is_answered (inactive_user id) = true
is_answered (bad_request not_modified) = true
is_answered other_error = true

-- The closures never meet a network error, whatever was attempted before them.
abbrev pub Connected : List QueuedApiCall → Type 0
Connected [] = Unit
Connected (queued ∷ rest) =
    ((before : List Attempt) → is_answered (queued.invoke before) ≡ true) × Connected rest

abbrev tokens : List Attempt → List ℕ
tokens attempts = map (λ a. a.token) attempts

tokens-attempted :
    (queued : QueuedApiCall) (before : List Attempt) (ending : Ending)
    → tokens (attempted queued before ending) ≡ tokens before ++ (queued.token ∷ [])
tokens-attempted queued [] ending = refl
tokens-attempted queued (a ∷ before) ending =
    ap (λ ts. a.token ∷ ts) (tokens-attempted queued before ending)

-- Nothing was counted against the network so far.
pub record Quiet (r : DrainReport) : Type 0 where
  pub no_failures : r.consecutive_network_failures ≡ 0
  pub no_timeouts : r.inline_edit_timeouts ≡ 0

answered-Quiet :
    (queued : QueuedApiCall) (ending : Ending) (o : ApiOutbox) (r : DrainReport)
    → is_answered ending ≡ true
    → Quiet r
    → Quiet (record_outcome (classified queued ending o).1 r)
unfolding classified record_outcome
answered-Quiet queued (network_error cause) o r h quiet = cc h
answered-Quiet queued (returned fix_up) o r h quiet = record {
  no_failures = refl;
  no_timeouts = quiet.no_timeouts;
}
answered-Quiet queued (inactive_user id) o r h quiet = record {
  no_failures = refl;
  no_timeouts = quiet.no_timeouts;
}
answered-Quiet queued (bad_request true) o r h quiet = record {
  no_failures = refl;
  no_timeouts = quiet.no_timeouts;
}
answered-Quiet queued (bad_request false) o r h quiet = record {
  no_failures = refl;
  no_timeouts = quiet.no_timeouts;
}
answered-Quiet queued other_error o r h quiet = record {
  no_failures = refl;
  no_timeouts = quiet.no_timeouts;
}

not_retried :
    (queued : QueuedApiCall) (ending : Ending)
    → is_answered ending ≡ true
    → is_retried queued ending ≡ false
not_retried queued (network_error cause) h = cc h
not_retried queued (returned fix_up) h = refl
not_retried queued (inactive_user id) h = refl
not_retried queued (bad_request not_modified) h = refl
not_retried queued other_error h = refl

invoke-answered :
    (queued : QueuedApiCall) (left : ℕ) (before : List Attempt)
    → is_answered (queued.invoke before) ≡ true
    → invoke_queued_with_retry queued left before
      ≡ (attempted queued before (queued.invoke before), queued.invoke before)
unfolding invoke_queued_with_retry
invoke-answered queued zero before h = refl
invoke-answered queued (suc left) before h = rw (not_retried queued (queued.invoke before) h) refl

drain_queued_call-Quiet :
    (queued : QueuedApiCall) (d : Draining)
    → is_answered (queued.invoke d.attempts) ≡ true
    → Quiet d.report
    → Quiet (drain_queued_call queued d).report
unfolding drain_queued_call
drain_queued_call-Quiet queued d h quiet =
    answered-Quiet queued _ d.outbox d.report
      (ap (λ run. is_answered run.1)
          (invoke-answered queued (queued_call_attempts - 1) d.attempts h)
        ∙ h)
      quiet

drain_queued_call-tokens :
    (queued : QueuedApiCall) (d : Draining)
    → is_answered (queued.invoke d.attempts) ≡ true
    → tokens (drain_queued_call queued d).attempts ≡ tokens d.attempts ++ (queued.token ∷ [])
unfolding drain_queued_call
drain_queued_call-tokens queued d h =
    ap (λ run. tokens run.0) (invoke-answered queued (queued_call_attempts - 1) d.attempts h)
    ∙ tokens-attempted queued d.attempts (queued.invoke d.attempts)

Quiet-alive : (r : DrainReport) → Quiet r → network_is_dead r ≡ false
Quiet-alive r quiet = rw quiet.no_failures refl

Quiet-runs : (queued : QueuedApiCall) (r : DrainReport) → Quiet r → is_skipped queued r ≡ false
Quiet-runs queued r quiet =
    rw quiet.no_timeouts (and_false (not (is_none queued.inline_message_id)))

drain_calls-tokens :
    (calls : List QueuedApiCall) (d : Draining)
    → Connected calls
    → Quiet d.report
    → tokens (drain_calls calls d).attempts
      ≡ tokens d.attempts ++ map (λ queued. queued.token) calls
unfolding drain_calls
drain_calls-tokens [] d connected quiet = sym (append-nil (tokens d.attempts))
drain_calls-tokens (queued ∷ rest) d connected quiet =
    let after = drain_queued_call queued d in
    let answered = connected.0 d.attempts in
    let quiet_after = drain_queued_call-Quiet queued d answered quiet in
    pass
      (λ end. tokens end.attempts ≡ tokens d.attempts ++ map (λ call. call.token) (queued ∷ rest))
      (is_skipped queued d.report) (network_is_dead after.report) _ _ _
      (λ skips. absurd (cc (skips, Quiet-runs queued d.report quiet)))
      (λ runs dead. absurd (cc (dead, Quiet-alive after.report quiet_after)))
      (λ runs alive.
        drain_calls-tokens rest after connected.1 quiet_after
        ∙ ap (λ ts. ts ++ map (λ call. call.token) rest)
            (drain_queued_call-tokens queued d answered)
        ∙ append_assoc (tokens d.attempts) (queued.token ∷ []) (map (λ call. call.token) rest))

-- While the network holds, a drain attempts every queued call, each once and in the order in which
-- they were queued, whatever Telegram answers to them.
pub drain_outbox-in_order :
    (o : ApiOutbox) (attempts : List Attempt)
    → Connected o.calls
    → map (λ a. a.token) (drain_outbox o attempts).attempts
      ≡ map (λ a. a.token) attempts ++ map (λ queued. queued.token) o.calls
unfolding drain_outbox
drain_outbox-in_order o attempts connected =
    drain_calls-tokens o.calls _ connected (record { no_failures = refl; no_timeouts = refl })
