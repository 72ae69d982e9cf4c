-- ===== src/CardRefresh/Tests.antt =====
-- Runs of the queue of background jobs, and instances of the theorems about it.
use mitup_telegram_bot.Base.{ℕ, ◌≡◌, refl, true, false, Option, none, some, List, [], ◌∷◌}
use mitup_telegram_bot.CardRefresh.{
  meeting_job_key, BackgroundJob, refresh, RefreshQueue, submit, unskipped, put, merge_jobs,
  coalesce, merge_skip, merge_scopes, record_depth, del, job_cancelled, landed, requeue,
}
use mitup_telegram_bot.CardRefresh.Coverage.{is_covered, submits}
use mitup_telegram_bot.CardRefresh.Coverage.Steps.{at_start, after, owed-is_covered}

abbrev refresh_of : Option ℕ → Option (List ℕ) → BackgroundJob
refresh_of skip scope = refresh (record {
  meeting_id = 4;
  skip_message_db_id = skip;
  message_db_ids = scope;
  origin_update_id = none;
  hold_ms = 0;
  coalesced = 0;
  attempt = 1;
  enqueued_at = 0;
  hold_since = 0;
})

abbrev empty_queue : RefreshQueue
empty_queue = record {
  max_pending = 2;
  pending = [];
  in_flight = [];
  counters = record { queued_high_water = 0; succeeded = 0; failed = 0 };
  accepting = true;
}

-- Two updates of meeting 4 that each rendered another card: the merged job draws both.
owed-is_covered_example :
    is_covered 4 7
      (submit (refresh_of (some 8) none) (submit (refresh_of (some 7) none) empty_queue).0).0
    ≡ true
unfolding submit unskipped put merge_jobs coalesce merge_skip merge_scopes record_depth
owed-is_covered_example =
    owed-is_covered 4 7
      (record {
        queue =
            (submit (refresh_of (some 8) none) (submit (refresh_of (some 7) none) empty_queue).0).0;
        owed = true;
      })
      (after _ _
        (after _ _ (at_start empty_queue refl)
          (submits (record { queue = empty_queue; owed = false }) (refresh_of (some 7) none) tt))
        (submits
          (record { queue = (submit (refresh_of (some 7) none) empty_queue).0; owed = false })
          (refresh_of (some 8) none) tt))
      refl

-- A queue at its cap merges a refresh of the meeting that waits there.
abbrev full_queue : RefreshQueue
full_queue = record empty_queue {
  max_pending = 1;
  pending = (meeting_job_key 4, refresh_of (some 7) none) ∷ [];
}

-- A refresh of every card that a stop interrupts, while a refresh of card 3 alone is waiting: what is
-- left is the refresh of card 3, and card 7 is not drawn.
abbrev interrupted_queue : RefreshQueue
interrupted_queue = record empty_queue {
  in_flight = (meeting_job_key 4, refresh_of none none) ∷ [];
}

interrupted_scope :
    is_covered 4 7 (
      job_cancelled
        (refresh_of none none)
        (submit (refresh_of none (some (3 ∷ []))) interrupted_queue).0)
    ≡ false
unfolding submit unskipped put record_depth job_cancelled landed requeue del
interrupted_scope = refl
