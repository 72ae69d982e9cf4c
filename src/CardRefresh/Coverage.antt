-- ===== src/CardRefresh/Coverage.antt =====
-- The cards that the queue of background jobs still has to draw: libs/telegram/mitup_bot/
-- card_refresh.py.
pub mod Dictionary
pub mod Steps
use mitup_telegram_bot.Base.{
  ℕ, ◌≡◌, Bool, true, false, not, ◌&&◌, ◌||◌, Option, none, some, opt_eq, is_none,
}
use mitup_telegram_bot.CardRefresh.{
  JobKey, key_eq, meeting_job_key, BackgroundJob, refresh, send, job_key, RefreshQueue, lookup,
  submit, take_job, job_done, job_cancelled, stop_accepting,
}
use mitup_telegram_bot.CardRefresh.Merging.{draws}

-- What is said of one card of one meeting.
module _ (meeting_id card : ℕ) where
  -- The job is one of the meeting's and draws the card.
  abbrev pub is_mine : BackgroundJob → Bool
  is_mine job = key_eq (meeting_job_key meeting_id) (job_key job) && draws card job

  abbrev pub drawn_by : Option BackgroundJob → Bool
  drawn_by none = false
  drawn_by (some job) = draws card job

  -- The waiting job of the meeting draws the card.
  abbrev pub is_covered : RefreshQueue → Bool
  is_covered q = drawn_by (lookup (meeting_job_key meeting_id) q.pending)

  -- A message to send is not submitted under the meeting's key.
  abbrev pub KeptApart : BackgroundJob → Type 0
  KeptApart (refresh r) = Unit
  KeptApart (send s) = key_eq (meeting_job_key meeting_id) s.key ≡ false

-- The queue, and whether some accepted refresh of the card has not started since.
pub record Watched : Type 0 where
  pub queue : RefreshQueue
  pub owed : Bool

-- What happens to the queue. A submit that is accepted owes its cards, and a job that is taken
-- reads the meeting afterwards, so it owes them no more. A job that a stop interrupts owes them
-- again; it is one whose card the job submitted meanwhile draws too, where there is one.
pub data Step (meeting_id card : ℕ) : Watched → Watched → Type 0 where
  submits :
      (w : Watched) (job : BackgroundJob)
      → KeptApart meeting_id card job
      → Step meeting_id card w (record {
        queue = (submit job w.queue).0;
        owed = w.owed || ((submit job w.queue).1 && is_mine meeting_id card job);
      })
  takes :
      (w : Watched) (now : ℕ) (queue : RefreshQueue) (job : BackgroundJob)
      → take_job now w.queue ≡ some (queue, job)
      → Step meeting_id card w
          (record { queue = queue; owed = w.owed && not (is_mine meeting_id card job) })
  ends :
      (w : Watched) (success : Bool) (job : BackgroundJob)
      → Step meeting_id card w (record w { queue = job_done success job w.queue })
  interrupted :
      (w : Watched) (job : BackgroundJob)
      → KeptApart meeting_id card job
      → (is_mine meeting_id card job
          && not (
              is_none (lookup (meeting_job_key meeting_id) w.queue.pending)
              || is_covered meeting_id card w.queue))
        ≡ false
      → Step meeting_id card w (record {
        queue = job_cancelled job w.queue;
        owed = w.owed || is_mine meeting_id card job;
      })
  stops : (w : Watched) → Step meeting_id card w (record w { queue = stop_accepting w.queue })
