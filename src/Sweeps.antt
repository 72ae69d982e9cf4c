-- ===== src/Sweeps.antt =====
-- The two sweeps that warn about and delete meetings: apps/events/mitup_bot/events/
-- deletion_sweep.py, warn_meeting_deletions.py and delete_meetings.py, with purge_meetups of
-- libs/data/mitup_bot/deletion.py. The table of meetings is a list; whether an owner wants a notice
-- and how Telegram answered the send to them are functions of the owner's id. The marking of an
-- unreachable owner is the users' component, and logs and metrics are left out.
pub mod Groups
pub mod Settled
pub mod Windows
pub mod Once
mod Tests
use mitup_telegram_bot.Base.{
  ℕ, zero, suc, ◌+◌, ◌≡◌, Bool, true, false, not, ◌&&◌, Option, none, some, List, [], ◌∷◌, ◌++◌,
  map, filter, length, mem, ◌==◌, if◌then◌else◌,
}
use mitup_telegram_bot.Supporter.Lifecycle.{
  LifecyclePolicy, owner_tier_window_elapsed, deletion_warning_delay,
}
use mitup_telegram_bot.Meeting.{Meetup}
use mitup_telegram_bot.Meeting.Schedule.{record_deletion_warning}

-- How the send to one owner resolved: `on_success`, `on_unreachable` or `on_error`.
pub data SendAnswer : Type 0 where
  reached unreachable raised : SendAnswer

pub record NoticeOutcome : Type 0 where
  pub delivered : List Meetup
  pub unreachable_meetups : List Meetup
  pub failed : List Meetup
  pub opted_out : List Meetup
  pub failed_chunks : ℕ

abbrev pub no_outcome : NoticeOutcome
no_outcome = record {
  delivered = [];
  unreachable_meetups = [];
  failed = [];
  opted_out = [];
  failed_chunks = 0;
}

pub settled : NoticeOutcome → List Meetup
settled o = (o.delivered ++ o.unreachable_meetups) ++ o.opted_out

-- `invitees_purged` only reaches the log and is left out.
abbrev pub merge : NoticeOutcome → NoticeOutcome → NoticeOutcome
merge totals chunk = record totals {
  delivered = totals.delivered ++ chunk.delivered;
  unreachable_meetups = totals.unreachable_meetups ++ chunk.unreachable_meetups;
  failed = totals.failed ++ chunk.failed;
  opted_out = totals.opted_out ++ chunk.opted_out;
}

-- The meetings whose owner wants the notice, and the others.
pub partition_by_opt_in : (ℕ → Bool) → List Meetup → List Meetup × List Meetup
partition_by_opt_in wants_notice [] = ([], [])
partition_by_opt_in wants_notice (m ∷ ms) =
    let rest = partition_by_opt_in wants_notice ms in
    if wants_notice m.owner_id then (m ∷ rest.0, rest.1) else (rest.0, m ∷ rest.1)

-- `groups[owner].append(meetup)`, on a dict in insertion order.
pub append_to : Meetup → List (ℕ × List Meetup) → List (ℕ × List Meetup)
append_to m [] = (m.owner_id, m ∷ []) ∷ []
append_to m ((owner, ms) ∷ groups) =
    let rest = append_to m groups in
    if owner == m.owner_id then (owner, ms ++ (m ∷ [])) ∷ groups else (owner, ms) ∷ rest

unfoldable pub group_from : List (ℕ × List Meetup) → List Meetup → List (ℕ × List Meetup)
group_from groups [] = groups
group_from groups (m ∷ ms) = group_from (append_to m groups) ms

-- The groups with the owner that keys each.
pub group_by_owner : List Meetup → List (ℕ × List Meetup)
group_by_owner = group_from []

-- `dict.fromkeys(ids)`.
pub distinct_ids : List ℕ → List ℕ
distinct_ids [] = []
distinct_ids (u ∷ us) = u ∷ filter (λ v. not (u == v)) (distinct_ids us)

-- `batched(xs, size)`: the first chunk has room for so many more.
pub split_chunks : ℕ → ℕ → List ℕ → List ℕ × List (List ℕ)
split_chunks size room [] = ([], [])
split_chunks size zero (u ∷ us) =
    let rest = split_chunks size size us in ([], (u ∷ rest.0) ∷ rest.1)
split_chunks size (suc room) (u ∷ us) = let rest = split_chunks size room us in (u ∷ rest.0, rest.1)

-- The first element of a chunk takes one of its places.
pub batched : ℕ → List ℕ → List (List ℕ)
batched zero us = []
batched (suc size) us = (split_chunks size zero us).1

abbrev pub owners_per_chunk : ℕ
owners_per_chunk = 20

pub owner_chunks : List Meetup → List (List ℕ)
owner_chunks ms = batched owners_per_chunk (distinct_ids (map (λ m. m.owner_id) ms))

-- The callback of a group's answer extends its bucket.
pub bucket : SendAnswer → List Meetup → NoticeOutcome → NoticeOutcome
bucket reached ms o = record o { delivered = ms ++ o.delivered }
bucket unreachable ms o = record o { unreachable_meetups = ms ++ o.unreachable_meetups }
bucket raised ms o = record o { failed = ms ++ o.failed }

pub resolve_groups : (ℕ → SendAnswer) → List (ℕ × List Meetup) → NoticeOutcome → NoticeOutcome
resolve_groups answers [] o = o
resolve_groups answers ((owner, ms) ∷ groups) o =
    bucket (answers owner) ms (resolve_groups answers groups o)

-- The digests go out one per owner, and the answers sort the meetings.
pub notify_owners : (ℕ → SendAnswer) → (ℕ → Bool) → List Meetup → NoticeOutcome
notify_owners answers wants_notice ms =
    let parts = partition_by_opt_in wants_notice ms in
    resolve_groups answers (group_by_owner parts.0) (record no_outcome { opted_out = parts.1 })

-- Who gets a digest.
pub messaged : (ℕ → Bool) → List Meetup → List ℕ
messaged wants_notice ms =
    map (λ group. group.0) (group_by_owner (partition_by_opt_in wants_notice ms).0)

abbrev known : Option Bool → Bool
known none = false
known (some b) = b

-- A window after a stamp that may be NULL.
unfoldable pub window_elapsed : (LifecyclePolicy → ℕ) → Option ℕ → ℕ → Meetup → Bool
window_elapsed duration_of none now m = false
window_elapsed duration_of (some stamp) now m =
    known (owner_tier_window_elapsed duration_of stamp now m.owner_level)

-- `MEETUPS_ABOUT_TO_BE_DELETED_STATEMENT`, on one row.
abbrev pub about_to_be_deleted : ℕ → Meetup → Bool
about_to_be_deleted now m =
    not m.expiration_notification_sent
    && window_elapsed deletion_warning_delay m.expiration_time now m

-- `MEETUPS_TO_DELETE_STATEMENT`, on one row.
pub to_delete : ℕ → Meetup → Bool
to_delete now m =
    m.expiration_notification_sent
    && (window_elapsed (λ policy. policy.inactive_retention) m.expiration_time now m
        && window_elapsed (λ policy. policy.deletion_warning_lead) m.warned_time now m)

-- The rows a chunk reads: those the statement selects, of the chunk's owners.
abbrev pub selected : (Meetup → Bool) → List ℕ → Meetup → Bool
selected statement owner_ids m = statement m && mem m.owner_id owner_ids

abbrev pub has_id_of : List Meetup → Meetup → Bool
has_id_of ms m = mem m.id (map (λ other. other.id) ms)

-- What one chunk's transaction meets: its clock, the answers to its sends, and whether it commits.
pub record ChunkRun : Type 0 where
  pub now : ℕ
  pub answers : ℕ → SendAnswer
  pub commits : Bool

pub warn_owner_chunk : (ℕ → Bool) → ChunkRun → List ℕ → List Meetup → List Meetup × NoticeOutcome
warn_owner_chunk wants_notice run owner_ids table =
    let meetups = filter (selected (about_to_be_deleted run.now) owner_ids) table in
    let outcome = notify_owners run.answers wants_notice meetups in
    (
      map (λ m. if has_id_of (settled outcome) m then record_deletion_warning run.now m else m)
          table,
      outcome,
    )

-- `purge_meetups`, of the meetings; the rows of their invitees are the users' table.
pub purge_meetups : List Meetup → List Meetup → List Meetup
purge_meetups gone table = filter (λ m. not (has_id_of gone m)) table

pub delete_owner_chunk : (ℕ → Bool) → ChunkRun → List ℕ → List Meetup → List Meetup × NoticeOutcome
delete_owner_chunk wants_notice run owner_ids table =
    let meetups = filter (selected (to_delete run.now) owner_ids) table in
    let outcome = notify_owners run.answers wants_notice meetups in
    (purge_meetups (settled outcome) table, outcome)

abbrev pub Process : Type 0
Process = ChunkRun → List ℕ → List Meetup → List Meetup × NoticeOutcome

-- One chunk: a chunk that raised leaves the table as it was and is counted.
abbrev pub sweep_chunk :
    Process → ChunkRun → List ℕ → List Meetup × NoticeOutcome → List Meetup × NoticeOutcome
sweep_chunk process run owner_ids (table, totals) =
    let done = process run owner_ids table in
    if run.commits
    then (done.0, merge totals done.1)
    else (table, record totals { failed_chunks = suc totals.failed_chunks })

-- The chunks one after another, each in a transaction of its own.
abbrev pub sweep_chunks :
    Process
    → (ℕ → ChunkRun)
    → List (List ℕ)
    → List Meetup × NoticeOutcome
    → List Meetup × NoticeOutcome
sweep_chunks process runs [] state = state
sweep_chunks process runs (owner_ids ∷ chunks) state =
    sweep_chunks process (λ n. runs (suc n)) chunks (sweep_chunk process (runs 0) owner_ids state)
