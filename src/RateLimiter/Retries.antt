-- ===== src/RateLimiter/Retries.antt =====
-- How often rate_limiter.py calls the API for one request.
use mitup_telegram_bot.Base.{ℕ, zero, suc, ◌+◌, ◌≡◌, ◌≤◌, refl, sym, subst, ◌↔◌, arith}
use mitup_telegram_bot.RateLimiter.{
  RequestKey, RetryAfterPauses, ApiAnswer, response, api_error, throttled, Outcome, returned,
  raised_retry_after, raised_error, one_more_call, process_request, on_throttled,
}

abbrev pub IsThrottled : ApiAnswer → Type 0
IsThrottled response = ⊥
IsThrottled api_error = ⊥
IsThrottled (throttled seconds) = Unit

-- The calls from `attempt` on are throttled, `left` and one more of them.
abbrev pub AllThrottled : (ℕ → ApiAnswer) → ℕ → ℕ → Type 0
AllThrottled answer zero attempt = IsThrottled (answer attempt)
AllThrottled answer (suc left) attempt =
    IsThrottled (answer attempt) × AllThrottled answer left (suc attempt)

-- What a request with `left` retries may come to.
abbrev pub Retried : (ℕ → ApiAnswer) → ℕ → ℕ → RetryAfterPauses × Outcome × ℕ → Type 0
Retried answer left attempt (pauses, outcome, calls) =
    (1 ≤ calls)
    × (calls ≤ left + 1)
    × ((outcome ≡ raised_retry_after) ↔ AllThrottled answer left attempt)

IsRaised : Outcome → Type 0
IsRaised returned = ⊥
IsRaised raised_retry_after = Unit
IsRaised raised_error = ⊥

more-Retried :
    (answer : ℕ → ApiAnswer) (left attempt seconds : ℕ) (r : RetryAfterPauses × Outcome × ℕ)
    → answer attempt ≡ throttled seconds
    → Retried answer left (suc attempt) r
    → Retried answer (suc left) attempt (one_more_call r)
more-Retried answer left attempt seconds (pauses, outcome, calls) e h = (
  omega arith,
  omega (arith, h.1),
  (λ raised. (subst IsThrottled (sym e) tt, h.2.0 raised), λ all. h.2.1 all.1),
)

-- A request calls the API at least once and at most once more than it may retry, and then ends; it
-- raises RetryAfter exactly when each of these calls is throttled.
pub process_request-Retried :
    (key : RequestKey) (clock : ℕ → ℕ) (answer : ℕ → ApiAnswer) (left attempt : ℕ)
    (pauses : RetryAfterPauses)
    → Retried answer left attempt (process_request key clock answer left attempt pauses)
unfolding process_request IsRaised
process_request-Retried key clock answer zero attempt pauses = go (answer attempt) refl
  where
    go :
        (a : ApiAnswer)
        → answer attempt ≡ a
        → Retried answer zero attempt (elim a [
          | response ↦ (pauses, returned, 1)
          | api_error ↦ (pauses, raised_error, 1)
          | throttled seconds ↦
              (on_throttled (clock attempt) key seconds pauses, raised_retry_after, 1)
        ])
    go response e = (
      omega arith,
      omega arith,
      (λ r. absurd (subst IsRaised (sym r) tt), λ t. absurd (subst IsThrottled e t)),
    )
    go api_error e = (
      omega arith,
      omega arith,
      (λ r. absurd (subst IsRaised (sym r) tt), λ t. absurd (subst IsThrottled e t)),
    )
    go (throttled seconds) e =
        (omega arith, omega arith, (λ r. subst IsThrottled (sym e) tt, λ t. refl))
process_request-Retried key clock answer (suc left) attempt pauses =
    go (answer attempt) refl (λ seconds.
      process_request-Retried key clock answer left (suc attempt)
        (on_throttled (clock attempt) key seconds pauses))
  where
    go :
        (a : ApiAnswer)
        → answer attempt ≡ a
        → ((seconds : ℕ)
            → Retried answer left (suc attempt) (
                process_request key clock answer left
                  (suc attempt)
                  (on_throttled (clock attempt) key seconds pauses)))
        → Retried answer (suc left) attempt (elim a [
          | response ↦ (pauses, returned, 1)
          | api_error ↦ (pauses, raised_error, 1)
          | throttled seconds ↦ one_more_call (
              process_request key clock answer left
                (suc attempt)
                (on_throttled (clock attempt) key seconds pauses))
        ])
    go response e rest = (
      omega arith,
      omega arith,
      (λ r. absurd (subst IsRaised (sym r) tt), λ t. absurd (subst IsThrottled e t.0)),
    )
    go api_error e rest = (
      omega arith,
      omega arith,
      (λ r. absurd (subst IsRaised (sym r) tt), λ t. absurd (subst IsThrottled e t.0)),
    )
    go (throttled seconds) e rest =
        more-Retried answer left attempt seconds
          (process_request key clock answer left (suc attempt)
            (on_throttled (clock attempt) key seconds pauses))
          e (rest seconds)
