-- ===== src/RateLimiter.antt =====
-- The rate limiter of the bot's requests: libs/telegram/mitup_bot/rate_limiter.py. Times are
-- milliseconds. The buckets of the library's own limiter, and with them whether a request was
-- delayed, are left out, and so is the sleep: `process_request` reads off the clock when it wakes.
pub mod Pauses
pub mod Retries
mod Tests
use mitup_telegram_bot.Base.{
  ℕ, zero, suc, ◌+◌, ◌-◌, ◌==◌, max, leb, Bool, true, false, not, ◌&&◌, Option, none, some,
  if◌then◌else◌,
}

pub data RequestScope : Type 0 where
  chat group inline_message unkeyed : RequestScope

-- A chat as a request names it: an integer that is not negative, or `negative n` for -1-n, where
-- a string that holds an integer is that integer; or another string.
pub data ChatId : Type 0 where
  positive negative username : ℕ → ChatId

pub record RequestKey : Type 0 where
  pub scope : RequestScope
  pub chat_id : Option ChatId

abbrev pub addresses_group : ChatId → Bool
addresses_group (positive n) = false
addresses_group (negative n) = true
addresses_group (username n) = true

-- The request's `chat_id` and `inline_message_id`.
pub request_key : Option ChatId → Option ℕ → RequestKey
request_key none none = record { scope = unkeyed; chat_id = none }
request_key none (some inline) = record { scope = inline_message; chat_id = none }
request_key (some id) inline = record {
  scope = if addresses_group id then group else chat;
  chat_id = some id;
}

abbrev is_keyed : RequestScope → Bool
is_keyed unkeyed = false
is_keyed _ = true

pub counts_against_overall : RequestKey → Bool
counts_against_overall key = is_keyed key.scope

-- `None` where the request belongs to no key.
pub pause_key : RequestKey → Option RequestKey
pause_key key = if counts_against_overall key then some key else none

abbrev scope_index : RequestScope → ℕ
scope_index chat = 0
scope_index group = 1
scope_index inline_message = 2
scope_index unkeyed = 3

abbrev chat_eq : Option ChatId → Option ChatId → Bool
chat_eq none none = true
chat_eq (some (positive a)) (some (positive b)) = a == b
chat_eq (some (negative a)) (some (negative b)) = a == b
chat_eq (some (username a)) (some (username b)) = a == b
chat_eq _ _ = false

-- Equality of the pair that is the dictionary's key.
abbrev pub key_eq : RequestKey → RequestKey → Bool
key_eq a b = scope_index a.scope == scope_index b.scope && chat_eq a.chat_id b.chat_id

-- The dictionary as a function of keys up to their equality.
pub record RetryAfterPauses : Type 0 where
  pub deadlines : RequestKey → Option ℕ
  pub global_deadline : ℕ

abbrev pub or_zero : Option ℕ → ℕ
or_zero none = 0
or_zero (some deadline) = deadline

abbrev pub keyed_deadline : Option RequestKey → RetryAfterPauses → ℕ
keyed_deadline none pauses = 0
keyed_deadline (some key) pauses = or_zero (pauses.deadlines key)

-- What is left of the pause; the source's may be negative, and is only asked whether it is above 0.
pub remaining : ℕ → Option RequestKey → RetryAfterPauses → ℕ
remaining now key pauses = max (keyed_deadline key pauses) pauses.global_deadline - now

abbrev pub unless_elapsed : ℕ → Option ℕ → Option ℕ
unless_elapsed now none = none
unless_elapsed now (some deadline) = if leb deadline now then none else some deadline

pub prune : ℕ → RetryAfterPauses → RetryAfterPauses
prune now pauses = record pauses { deadlines = λ key. unless_elapsed now (pauses.deadlines key) }

abbrev hold_pruned : ℕ → Option RequestKey → RetryAfterPauses → RetryAfterPauses
hold_pruned deadline none pauses = record pauses {
  global_deadline = max pauses.global_deadline deadline;
}
hold_pruned deadline (some key) pauses = record pauses {
  deadlines = λ k.
      if key_eq k key
      then some (max (or_zero (pauses.deadlines k)) deadline)
      else pauses.deadlines k;
}

pub hold : ℕ → Option RequestKey → ℕ → RetryAfterPauses → RetryAfterPauses
hold now key seconds pauses = hold_pruned (now + seconds) key (prune now pauses)

abbrev pub retry_after_grace : ℕ
retry_after_grace = 100

pub on_throttled : ℕ → RequestKey → ℕ → RetryAfterPauses → RetryAfterPauses
on_throttled now key retry_after pauses =
    hold now (pause_key key) (retry_after + retry_after_grace) pauses

-- How one call of the API ends, and how the request does.
pub data ApiAnswer : Type 0 where
  response api_error : ApiAnswer
  throttled : ℕ → ApiAnswer

pub data Outcome : Type 0 where
  returned raised_retry_after raised_error : Outcome

abbrev pub one_more_call : RetryAfterPauses × Outcome × ℕ → RetryAfterPauses × Outcome × ℕ
one_more_call (pauses, outcome, calls) = (pauses, outcome, suc calls)

-- The loop with `left` = `max_retries - attempt` retries left: the n-th call of the API is made at
-- `clock n` and ends as `answer n`. The pauses after, how the request ends, and its calls. Other
-- requests' pauses are held in between, which changes only the moments of the clock.
pub process_request :
    RequestKey
    → (ℕ → ℕ)
    → (ℕ → ApiAnswer)
    → ℕ
    → ℕ
    → RetryAfterPauses
    → RetryAfterPauses × Outcome × ℕ
process_request key clock answer zero attempt pauses = elim (answer attempt) [
  | response ↦ (pauses, returned, 1)
  | api_error ↦ (pauses, raised_error, 1)
  | throttled seconds ↦ (on_throttled (clock attempt) key seconds pauses, raised_retry_after, 1)
]
process_request key clock answer (suc left) attempt pauses = elim (answer attempt) [
  | response ↦ (pauses, returned, 1)
  | api_error ↦ (pauses, raised_error, 1)
  | throttled seconds ↦ one_more_call (
      process_request key clock answer left (suc attempt)
        (on_throttled (clock attempt) key seconds pauses))
]
