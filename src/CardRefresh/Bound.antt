-- ===== src/CardRefresh/Bound.antt =====
-- What a submit does to the queue of background jobs, and its cap:
-- libs/telegram/mitup_bot/card_refresh.py.
use mitup_telegram_bot.Base.{
  ◌≤◌, ◌≡◌, Bool, true, false, not, Option, none, some, length, ltb, ◌&&◌, ◌||◌, is_none,
  if◌then◌else◌,
}
use mitup_telegram_bot.CardRefresh.{JobKey, key_eq, BackgroundJob, merge_jobs, RefreshQueue, lookup}

-- The job that waits after an accepted submit.
abbrev pub joined : BackgroundJob → Option BackgroundJob → BackgroundJob
joined incoming none = incoming
joined incoming (some waiting) = merge_jobs waiting incoming

-- The queue has a job to merge with, or a place.
abbrev pub admits : RefreshQueue → JobKey → Bool
admits q key =
    q.accepting && (not (is_none (lookup key q.pending)) || ltb (length q.pending) q.max_pending)

-- What a submit under the key has done to the queue, read at any key, by its answer.
abbrev pub Submitted : RefreshQueue → JobKey → BackgroundJob → JobKey → RefreshQueue × Bool → Type 0
Submitted q key job other (after, true) =
    (admits q key ≡ true)
    × ((lookup other after.pending
          ≡ (if key_eq other key then some job else lookup other q.pending))
        × ((length q.pending ≤ length after.pending) × (length after.pending ≤ q.max_pending)))
Submitted q key job other (after, false) = (admits q key ≡ false) × (after ≡ q)
