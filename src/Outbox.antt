-- ===== src/Outbox.antt =====
-- The calls of Telegram that a transaction queues and that run once it has committed: the outbox of
-- libs/telegram/mitup_bot/api_wrapper.py. A queued closure is a function of what was attempted
-- before it: the attempts stand for the state of Telegram and of the network. Its token names the
-- closure. Logs, metrics and the waits between attempts are left out.
pub mod Drain
pub mod Sends
pub mod Healthy
pub mod Cards
mod Tests
use mitup_telegram_bot.Base.{
  ℕ, suc, zero, ◌+◌, ◌-◌, ◌==◌, Bool, true, false, not, ◌&&◌, ◌||◌, Option, none, some, List, [],
  ◌∷◌, ◌++◌, map, length, leb, is_none, if◌then◌else◌,
}
use mitup_telegram_bot.CardRefresh.{MeetingRefresh, refresh, RefreshQueue, submit}

-- `__cause__` of a network error: the first three are CONNECT_FAILURE_CAUSES.
pub data Cause : Type 0 where
  connect_error connect_timeout pool_timeout read_timeout other_cause : Cause

-- What Telegram answers to one edit of a card. A bad request is told by the patterns that its
-- message matches: EDIT_MESSAGE_ERRORS_TO_IGNORE, MESSAGE_NOT_FOUND_ERROR and
-- CUSTOM_EMOJI_REJECTION.
pub data Answer : Type 0 where
  accepted : Answer
  refused : (not_modified not_found custom_emoji : Bool) → Answer
  forbidden : Answer
  unreached : Cause → Answer
  failed : Answer

-- What a closure that returns has written to the outbox.
pub data FixUp : Type 0 where
  nothing : FixUp
  dead_message : ℕ → FixUp
  confirmed_digest : ℕ → ℕ → FixUp

-- How a closure ends: it returns, or raises InactiveUserInteraction, BadRequest (told by whether it
-- says that the message is not modified), NetworkError or another exception.
pub data Ending : Type 0 where
  returned : FixUp → Ending
  inactive_user : ℕ → Ending
  bad_request : Bool → Ending
  network_error : Cause → Ending
  other_error : Ending

pub record Attempt : Type 0 where
  pub token : ℕ
  pub idempotent : Bool
  pub ending : Ending

pub record QueuedApiCall : Type 0 where
  pub token : ℕ
  pub invoke : List Attempt → Ending
  pub idempotent : Bool
  pub inline_message_id : Option ℕ

pub record ApiOutbox : Type 0 where
  pub calls : List QueuedApiCall
  pub dead_message_ids : List ℕ
  pub inactive_tg_user_ids : List ℕ
  pub confirmed_render_digests : List (ℕ × ℕ)
  pub meeting_refreshes : List MeetingRefresh

pub data DrainOutcome : Type 0 where
  call_sent call_failed network_failed inline_edit_timed_out : DrainOutcome

pub record DrainReport : Type 0 where
  pub queued : ℕ
  pub sent : ℕ
  pub failed : ℕ
  pub consecutive_network_failures : ℕ
  pub inline_edit_timeouts : ℕ
  pub abandoned : List ℕ
  pub skipped_inline_message_ids : List ℕ

abbrev pub queued_call_attempts : ℕ
queued_call_attempts = 3

abbrev pub drain_network_failure_limit : ℕ
drain_network_failure_limit = 3

abbrev pub drain_inline_edit_timeout_limit : ℕ
drain_inline_edit_timeout_limit = 3

unfoldable pub record_outcome : DrainOutcome → DrainReport → DrainReport
record_outcome call_sent r = record r { sent = suc r.sent; consecutive_network_failures = 0 }
record_outcome call_failed r = record r { failed = suc r.failed; consecutive_network_failures = 0 }
record_outcome network_failed r = record r {
  failed = suc r.failed;
  consecutive_network_failures = suc r.consecutive_network_failures;
}
record_outcome inline_edit_timed_out r = record r {
  failed = suc r.failed;
  inline_edit_timeouts = suc r.inline_edit_timeouts;
}

abbrev pub network_is_dead : DrainReport → Bool
network_is_dead r = leb drain_network_failure_limit r.consecutive_network_failures

abbrev pub inline_edits_are_stalled : DrainReport → Bool
inline_edits_are_stalled r = leb drain_inline_edit_timeout_limit r.inline_edit_timeouts

abbrev pub failure_never_reached_telegram : Cause → Bool
failure_never_reached_telegram connect_error = true
failure_never_reached_telegram connect_timeout = true
failure_never_reached_telegram pool_timeout = true
failure_never_reached_telegram read_timeout = false
failure_never_reached_telegram other_cause = false

pub queued_call_is_retryable : QueuedApiCall → Cause → Bool
queued_call_is_retryable queued cause = failure_never_reached_telegram cause || queued.idempotent

pub network_failure_outcome : QueuedApiCall → Cause → DrainOutcome
network_failure_outcome queued read_timeout =
    if not (is_none queued.inline_message_id) then inline_edit_timed_out else network_failed
network_failure_outcome queued connect_error = network_failed
network_failure_outcome queued connect_timeout = network_failed
network_failure_outcome queued pool_timeout = network_failed
network_failure_outcome queued other_cause = network_failed

-- Whether a closure that ended like this is run again, with attempts left.
abbrev pub is_retried : QueuedApiCall → Ending → Bool
is_retried queued (network_error cause) = queued_call_is_retryable queued cause
is_retried queued (returned fix_up) = false
is_retried queued (inactive_user id) = false
is_retried queued (bad_request not_modified) = false
is_retried queued other_error = false

abbrev pub attempted : QueuedApiCall → List Attempt → Ending → List Attempt
attempted queued before ending =
    before
    ++ (record { token = queued.token; idempotent = queued.idempotent; ending = ending } ∷ [])

-- `_invoke_queued_with_retry`, with the attempts that are left after this one.
unfoldable pub invoke_queued_with_retry : QueuedApiCall → ℕ → List Attempt → List Attempt × Ending
invoke_queued_with_retry queued zero before =
    let ending = queued.invoke before in (attempted queued before ending, ending)
invoke_queued_with_retry queued (suc left) before =
    let ending = queued.invoke before in
    let again = invoke_queued_with_retry queued left (attempted queued before ending) in
    if is_retried queued ending then again else (attempted queued before ending, ending)

-- `digests[id] = digest`.
abbrev pub set_digest : ℕ → ℕ → List (ℕ × ℕ) → List (ℕ × ℕ)
set_digest id digest [] = (id, digest) ∷ []
set_digest id digest ((i, d) ∷ digests) =
    let rest = set_digest id digest digests in
    if id == i then (i, digest) ∷ digests else (i, d) ∷ rest

abbrev pub write_fix_up : FixUp → ApiOutbox → ApiOutbox
write_fix_up nothing o = o
write_fix_up (dead_message id) o = record o { dead_message_ids = o.dead_message_ids ++ (id ∷ []) }
write_fix_up (confirmed_digest id digest) o = record o {
  confirmed_render_digests = set_digest id digest o.confirmed_render_digests;
}

-- How `_drain_queued_call` takes the ending of a call.
unfoldable pub classified : QueuedApiCall → Ending → ApiOutbox → ApiOutbox × DrainOutcome
classified queued (returned fix_up) o = (write_fix_up fix_up o, call_sent)
classified queued (inactive_user id) o =
    (record o { inactive_tg_user_ids = o.inactive_tg_user_ids ++ (id ∷ []) }, call_sent)
classified queued (bad_request not_modified) o =
    (o, if not_modified then call_sent else call_failed)
classified queued (network_error cause) o = (o, network_failure_outcome queued cause)
classified queued other_error o = (o, call_failed)

-- The report, the outbox and the attempts made so far.
pub record Draining : Type 0 where
  pub report : DrainReport
  pub outbox : ApiOutbox
  pub attempts : List Attempt

-- `_drain_queued_call`, and the record of its outcome.
unfoldable pub drain_queued_call : QueuedApiCall → Draining → Draining
drain_queued_call queued d =
    let run = invoke_queued_with_retry queued (queued_call_attempts - 1) d.attempts in
    let ended = classified queued run.1 d.outbox in
    record { report = record_outcome ended.1 d.report; outbox = ended.0; attempts = run.0 }

abbrev pub is_skipped : QueuedApiCall → DrainReport → Bool
is_skipped queued r = not (is_none queued.inline_message_id) && inline_edits_are_stalled r

abbrev pub skip : Option ℕ → Draining → Draining
skip none d = d
skip (some id) d = record d {
  report = record d.report {
    skipped_inline_message_ids = d.report.skipped_inline_message_ids ++ (id ∷ []);
  };
}

abbrev pub abandon : List QueuedApiCall → Draining → Draining
abandon rest d = record d {
  report = record d.report { abandoned = map (λ queued. queued.token) rest };
}

-- The loop of `_drain_outbox`.
unfoldable pub drain_calls : List QueuedApiCall → Draining → Draining
drain_calls [] d = d
drain_calls (queued ∷ rest) d =
    let passed_over = drain_calls rest (skip queued.inline_message_id d) in
    let after = drain_queued_call queued d in
    let continued = drain_calls rest after in
    if is_skipped queued d.report
    then passed_over
    else if network_is_dead after.report
    then abandon rest after
    else continued

unfoldable pub drain_outbox : ApiOutbox → List Attempt → Draining
drain_outbox o attempts = drain_calls o.calls (record {
  report = record {
    queued = length o.calls;
    sent = 0;
    failed = 0;
    consecutive_network_failures = 0;
    inline_edit_timeouts = 0;
    abandoned = [];
    skipped_inline_message_ids = [];
  };
  outbox = o;
  attempts = attempts;
})

abbrev pub submit_all : List MeetingRefresh → RefreshQueue → RefreshQueue
submit_all [] q = q
submit_all (r ∷ rest) q = submit_all rest (submit (refresh r) q).0

-- The drain, then the refreshes of the outbox, where a queue runs.
unfoldable pub execute_queued :
    ApiOutbox → List Attempt → Option RefreshQueue → Draining × Option RefreshQueue
execute_queued o attempts none = (drain_outbox o attempts, none)
execute_queued o attempts (some q) =
    (drain_outbox o attempts, some (submit_all o.meeting_refreshes q))
