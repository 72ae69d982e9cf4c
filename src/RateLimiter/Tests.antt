-- ===== src/RateLimiter/Tests.antt =====
-- Runs of the rate limiter's pauses, and instances of the theorems about them.
use mitup_telegram_bot.Base.{ℕ, ◌==◌, ◌≡◌, refl, none, some, if◌then◌else◌}
use mitup_telegram_bot.RateLimiter.{
  RetryAfterPauses, request_key, positive, negative, remaining, hold, prune, on_throttled,
  pause_key, counts_against_overall, ApiAnswer, response, throttled, process_request,
}
use mitup_telegram_bot.RateLimiter.Retries.{Retried, process_request-Retried}

abbrev clear : RetryAfterPauses
clear = record { deadlines = λ key. none; global_deadline = 0 }

-- A throttled group waits out its pause, and another chat does not wait.
group_test :
    remaining 1_500
      (pause_key (request_key (some (negative 7)) none))
      (on_throttled 1_000 (request_key (some (negative 7)) none) 2_000 clear)
    ≡ 1_600
unfolding remaining hold prune on_throttled pause_key request_key counts_against_overall
group_test = refl

other_test :
    remaining 1_500
      (pause_key (request_key (some (positive 7)) none))
      (on_throttled 1_000 (request_key (some (negative 7)) none) 2_000 clear)
    ≡ 0
unfolding remaining hold prune on_throttled pause_key request_key counts_against_overall
other_test = refl

-- The first call is throttled for two seconds, the second one returns.
abbrev once : ℕ → ApiAnswer
once n = if n == 0 then throttled 2_000 else response

process_request-Retried_example :
    Retried once 1 0 (process_request (request_key none (some 3)) (λ n. n) once 1 0 clear)
process_request-Retried_example =
    process_request-Retried (request_key none (some 3)) (λ n. n) once 1 0 clear
