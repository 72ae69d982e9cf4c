-- ===== src/Sweeps/Tests.antt =====
-- Runs of the deletion sweeps, and instances of the theorems about them.
use mitup_telegram_bot.Base.{
  ℕ, ◌*◌, ◌≤◌, ◌≡◌, refl, Bool, true, false, not, ◌&&◌, none, some, List, [], ◌∷◌, map, filter,
  count, ◌==◌, if◌then◌else◌, arith,
}
use mitup_telegram_bot.Supporter.{none_level}
use mitup_telegram_bot.Supporter.Lifecycle.{day}
use mitup_telegram_bot.Meeting.{Meetup}
use mitup_telegram_bot.Meeting.Schedule.{record_deletion_warning}
use mitup_telegram_bot.Sweeps.{
  SendAnswer, reached, raised, ChunkRun, selected, to_delete, about_to_be_deleted, warn_owner_chunk,
  delete_owner_chunk, owner_chunks, batched, split_chunks,
}
use mitup_telegram_bot.Sweeps.Groups.{settles}
use mitup_telegram_bot.Sweeps.Settled.{warn_owner_chunk_lem, delete_owner_chunk_lem}
use mitup_telegram_bot.Sweeps.Windows.{nothing_deleted_within_lead}
use mitup_telegram_bot.Sweeps.Once.{is_owner, sweep_messages, written_once}

-- A meeting that expired when the clock started.
abbrev expired : ℕ → ℕ → Meetup
expired id owner_id = record {
  id = id;
  owner_id = owner_id;
  owner_level = none_level;
  waiting_list = false;
  public = false;
  lock_on_start = false;
  datetime = none;
  end_datetime = none;
  active = false;
  activated_time = 0;
  expiration_time = some 0;
  warned_time = none;
  expiration_notification_sent = false;
  started_notification_sent = false;
  max_members = none;
  messages = [];
  joined_links = [];
}

abbrev table : List Meetup
table = expired 1 7 ∷ expired 2 8 ∷ expired 3 7 ∷ []

-- The send to the eighth user fails.
abbrev answers : ℕ → SendAnswer
answers owner = if owner == 8 then raised else reached

abbrev on_day : ℕ → ChunkRun
on_day n = record { now = n * day; answers = answers; commits = true }

abbrev everybody : ℕ → Bool
everybody owner = true

chunks_test : batched 2 (1 ∷ 2 ∷ 3 ∷ 4 ∷ 5 ∷ []) ≡ (1 ∷ 2 ∷ []) ∷ (3 ∷ 4 ∷ []) ∷ (5 ∷ []) ∷ []
unfolding batched split_chunks
chunks_test = refl

delete_owner_chunk_lem_example :
    (delete_owner_chunk everybody (on_day 100) (7 ∷ 8 ∷ []) table).0
    ≡ filter
        (λ m. not (selected (to_delete (100 * day)) (7 ∷ 8 ∷ []) m && settles answers everybody m))
        table
delete_owner_chunk_lem_example =
    delete_owner_chunk_lem everybody (on_day 100) (7 ∷ 8 ∷ []) table (ground arith)

warn_owner_chunk_lem_example :
    (warn_owner_chunk everybody (on_day 84) (7 ∷ 8 ∷ []) table).0
    ≡ map
        (λ m.
          if selected (about_to_be_deleted (84 * day)) (7 ∷ 8 ∷ []) m && settles answers everybody m
          then record_deletion_warning (84 * day) m
          else m)
        table
warn_owner_chunk_lem_example =
    warn_owner_chunk_lem everybody (on_day 84) (7 ∷ 8 ∷ []) table (ground arith)

nothing_deleted_within_lead_example :
    (delete_owner_chunk everybody
      (on_day 91)
      (7 ∷ [])
      (warn_owner_chunk everybody (on_day 84) (7 ∷ []) table).0).0
    ≡ (warn_owner_chunk everybody (on_day 84) (7 ∷ []) table).0
nothing_deleted_within_lead_example =
    nothing_deleted_within_lead everybody everybody (on_day 84) (on_day 91) (7 ∷ []) (7 ∷ []) table
      (ground arith) (refl, (refl, (refl, tt))) (omega arith)

written_once_example :
    count (is_owner 7) (
      sweep_messages everybody
        (λ n. about_to_be_deleted (84 * day))
        (λ n. table)
        (owner_chunks table))
    ≤ 1
written_once_example =
    written_once 7 everybody (λ n. about_to_be_deleted (84 * day)) (λ n. table) table
