-- ===== src/CardRefresh.antt =====
-- The queue of background jobs: libs/telegram/mitup_bot/card_refresh.py, with the jobs of
-- libs/telegram/mitup_bot/api_wrapper.py. A dictionary is the list of its entries in insertion
-- order, a frozen set the list of its members, and the clock is an argument, in milliseconds. What a
-- job draws when it runs, logs and the metrics' records are left out.
pub mod Merging
pub mod Coverage
pub mod Bound
mod Tests
use mitup_telegram_bot.Base.{
  ℕ, suc, ◌+◌, ◌-◌, ◌≡◌, Bool, true, false, not, ◌&&◌, Option, none, some, List, [], ◌∷◌, ◌++◌,
  length, filter, find, max, min, leb, mem, opt_eq, ◌==◌, is_none, if◌then◌else◌,
}

-- `("meeting", id)`, or the tuple of another kind of job.
pub data JobKey : Type 0 where
  meeting_job_key : ℕ → JobKey
  other_key : ℕ → JobKey

abbrev pub key_eq : JobKey → JobKey → Bool
key_eq (meeting_job_key m) (meeting_job_key n) = m == n
key_eq (meeting_job_key m) (other_key n) = false
key_eq (other_key m) (meeting_job_key n) = false
key_eq (other_key m) (other_key n) = m == n

pub record MeetingRefresh : Type 0 where
  pub meeting_id : ℕ
  pub skip_message_db_id : Option ℕ
  pub message_db_ids : Option (List ℕ)
  pub origin_update_id : Option ℕ
  pub hold_ms : ℕ
  pub coalesced : ℕ
  pub attempt : ℕ
  pub enqueued_at : ℕ
  pub hold_since : ℕ

-- The rendered message is named by a number.
pub record KeyedSend : Type 0 where
  pub key : JobKey
  pub chat_id : ℕ
  pub payload : ℕ
  pub origin_update_id : Option ℕ
  pub hold_ms : ℕ
  pub coalesced : ℕ
  pub attempt : ℕ
  pub enqueued_at : ℕ
  pub hold_since : ℕ

pub data BackgroundJob : Type 0 where
  refresh : MeetingRefresh → BackgroundJob
  send : KeyedSend → BackgroundJob

abbrev pub job_key : BackgroundJob → JobKey
job_key (refresh r) = meeting_job_key r.meeting_id
job_key (send s) = s.key

abbrev pub ready_at : BackgroundJob → ℕ
ready_at (refresh r) = r.hold_since + r.hold_ms
ready_at (send s) = s.hold_since + s.hold_ms

pub merge_skip : Option ℕ → Option ℕ → Option ℕ
merge_skip waiting incoming = if opt_eq waiting incoming then waiting else none

pub merge_scopes : Option (List ℕ) → Option (List ℕ) → Option (List ℕ)
merge_scopes none incoming = none
merge_scopes (some waiting) none = none
merge_scopes (some waiting) (some incoming) = some (waiting ++ incoming)

pub coalesce : MeetingRefresh → MeetingRefresh → MeetingRefresh
coalesce waiting incoming = record waiting {
  skip_message_db_id = merge_skip waiting.skip_message_db_id incoming.skip_message_db_id;
  message_db_ids = merge_scopes waiting.message_db_ids incoming.message_db_ids;
  coalesced = suc waiting.coalesced;
  hold_ms = incoming.hold_ms;
  hold_since = incoming.hold_since;
}

-- The incoming job wins, with the wait of the one that it replaces.
pub merge_jobs : BackgroundJob → BackgroundJob → BackgroundJob
merge_jobs (refresh w) (refresh i) = refresh (coalesce w i)
merge_jobs (refresh w) (send i) = send (record i {
  origin_update_id = w.origin_update_id;
  coalesced = suc w.coalesced;
  attempt = w.attempt;
  enqueued_at = w.enqueued_at;
})
merge_jobs (send w) (refresh i) = refresh (record i {
  origin_update_id = w.origin_update_id;
  coalesced = suc w.coalesced;
  attempt = w.attempt;
  enqueued_at = w.enqueued_at;
})
merge_jobs (send w) (send i) = send (record i {
  origin_update_id = w.origin_update_id;
  coalesced = suc w.coalesced;
  attempt = w.attempt;
  enqueued_at = w.enqueued_at;
})

abbrev pub Jobs : Type 0
Jobs = List (JobKey × BackgroundJob)

abbrev pub lookup : JobKey → Jobs → Option BackgroundJob
lookup key [] = none
lookup key ((k, job) ∷ jobs) = if key_eq key k then some job else lookup key jobs

-- `jobs[key] = job`: in place where the key is there, at the end where it is new.
pub put : JobKey → BackgroundJob → Jobs → Jobs
put key job [] = (key, job) ∷ []
put key job ((k, j) ∷ jobs) =
    let rest = put key job jobs in if key_eq key k then (k, job) ∷ jobs else (k, j) ∷ rest

-- `del jobs[key]`.
pub del : JobKey → Jobs → Jobs
del key jobs = filter (λ entry. not (key_eq key entry.0)) jobs

pub record TickCounters : Type 0 where
  pub queued_high_water : ℕ
  pub succeeded : ℕ
  pub failed : ℕ

pub record_depth : ℕ → TickCounters → TickCounters
record_depth depth counters = record counters {
  queued_high_water = max counters.queued_high_water depth;
}

-- `TickCounters.drain`: what the window accumulated, and the counters of the next one.
abbrev pub drain_counters : ℕ → TickCounters → TickCounters × TickCounters
drain_counters depth counters =
    (record_depth depth counters, record { queued_high_water = 0; succeeded = 0; failed = 0 })

pub record RefreshQueue : Type 0 where
  pub max_pending : ℕ
  pub pending : Jobs
  pub in_flight : Jobs
  pub counters : TickCounters
  pub accepting : Bool

-- A refresh of a meeting whose job is running passes no card over.
pub unskipped : RefreshQueue → BackgroundJob → BackgroundJob
unskipped q (send s) = send s
unskipped q (refresh r) =
    if is_none (lookup (meeting_job_key r.meeting_id) q.in_flight)
    then refresh r
    else refresh (record r { skip_message_db_id = none })

abbrev pub queued : BackgroundJob → RefreshQueue → RefreshQueue × Bool
queued job q =
    let pending = put (job_key job) job q.pending in
    (record q { pending = pending; counters = record_depth (length pending) q.counters }, true)

abbrev pub submitted : RefreshQueue → BackgroundJob → Option BackgroundJob → RefreshQueue × Bool
submitted q job none = if leb q.max_pending (length q.pending) then (q, false) else queued job q
submitted q job (some waiting) = queued (merge_jobs waiting job) q

pub submit : BackgroundJob → RefreshQueue → RefreshQueue × Bool
submit job q =
    let incoming = unskipped q job in
    if not q.accepting
    then (q, false)
    else submitted q incoming (lookup (job_key incoming) q.pending)

-- A stopping queue holds no job back.
abbrev pub ms_until_ready : ℕ → RefreshQueue → BackgroundJob → ℕ
ms_until_ready now q job = if not q.accepting then 0 else ready_at job - now

abbrev pub taken :
    RefreshQueue → Option (JobKey × BackgroundJob) → Option (RefreshQueue × BackgroundJob)
taken q none = none
taken q (some (k, job)) = some (
  record q { pending = del (job_key job) q.pending; in_flight = put (job_key job) job q.in_flight },
  job,
)

-- The oldest job whose hold has run out leaves `pending` before it reads the meeting.
pub take_job : ℕ → RefreshQueue → Option (RefreshQueue × BackgroundJob)
take_job now q = taken q (find (λ entry. ms_until_ready now q entry.1 == 0) q.pending)

abbrev pub next_attempt : BackgroundJob → BackgroundJob
next_attempt (refresh r) = refresh (record r { attempt = suc r.attempt })
next_attempt (send s) = send (record s { attempt = suc s.attempt })

-- `pending.setdefault(key, job)`.
abbrev pub set_default : BackgroundJob → Jobs → Option BackgroundJob → Jobs
set_default job jobs none = put (job_key job) job jobs
set_default job jobs (some other) = jobs

pub requeue : BackgroundJob → RefreshQueue → RefreshQueue
requeue job q = record q {
  pending = set_default (next_attempt job) q.pending (lookup (job_key job) q.pending);
}

-- The `finally` clause of `run_next`.
pub landed : BackgroundJob → RefreshQueue → RefreshQueue
landed job q = record q { in_flight = del (job_key job) q.in_flight }

abbrev pub count_outcome : Bool → TickCounters → TickCounters
count_outcome true c = record c { succeeded = suc c.succeeded }
count_outcome false c = record c { failed = suc c.failed }

-- A job that ended, whatever became of it.
pub job_done : Bool → BackgroundJob → RefreshQueue → RefreshQueue
job_done success job q = landed job (record q { counters = count_outcome success q.counters })

-- A job that a cancellation interrupted.
pub job_cancelled : BackgroundJob → RefreshQueue → RefreshQueue
job_cancelled job q = landed job (requeue job q)

-- The first step of `drain_pending`.
pub stop_accepting : RefreshQueue → RefreshQueue
stop_accepting q = record q { accepting = false }
