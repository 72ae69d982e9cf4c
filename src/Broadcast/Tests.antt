-- ===== src/Broadcast/Tests.antt =====
-- Runs of the broadcast sender, and instances of the theorems about it.
use mitup_telegram_bot.Base.{
  ℕ, ◌+◌, ◌≡◌, ◌≤◌, ◌==◌, refl, inr, false, none, some, List, [], ◌∷◌, ◌++◌, if◌then◌else◌, All,
  Unique, map, count, arith,
}
use mitup_telegram_bot.Users.{User, member, left}
use mitup_telegram_bot.Broadcast.{
  Broadcast, BroadcastMessage, BroadcastDelivery, PendingDelivery, pending, sent, retry_pending,
  sending, done, failed,
}
use mitup_telegram_bot.Broadcast.Claiming.{
  claim_pending_batch, count_deliveries, materialize_audience, insert_audience,
  claim_next_broadcast, reachable,
}
use mitup_telegram_bot.Broadcast.Audience.Insertion.{Enqueued}
use mitup_telegram_bot.Broadcast.Audience.{materialize_audience-Enqueued}
use mitup_telegram_bot.Broadcast.Delivery.{
  SendResult, returned, retry_after, deliver_batch, deliver_one, resolve_delivery_outcome,
}
use mitup_telegram_bot.Broadcast.Recording.{
  Rows, record_batch_outcomes, mark_deliveries, schedule_retries, release_unattempted,
  deactivate_skipped_users,
}
use mitup_telegram_bot.Broadcast.Finalize.{finalize_broadcast, finalize_and_report}
use mitup_telegram_bot.Broadcast.Finalize.Totals.{Accounts, finalize_broadcast-Accounts}
use mitup_telegram_bot.Broadcast.Finalize.Twice.{LateAgain, late_finalization}
use mitup_telegram_bot.Broadcast.Once.{arrivals, unexpected_ends}
use mitup_telegram_bot.Broadcast.Once.Workers.{
  World, Steps, claim, work, stop, next, held, recorded, delivered_once,
}

abbrev member_of : ℕ → User
member_of id = record {
  id = id;
  tg_user_id = some (100 + id);
  language = 1;
  status = member;
  left_time = none;
  member_time = some 0;
}

abbrev audience : List User
audience =
    member_of 1
    ∷ member_of 2
    ∷ record (member_of 3) { status = left }
    ∷ record (member_of 4) { tg_user_id = none }
    ∷ record (member_of 5) { language = 7 }
    ∷ []

abbrev message : ℕ → BroadcastMessage
message language = record {
  language = language;
  sent_count = 0;
  failed_count = 0;
  skipped_count = 0;
  orphan_count = 0;
}

abbrev news : Broadcast
news = record {
  id = 9;
  status = sending;
  author_tg_id = 101;
  attempts = 1;
  total_recipients = none;
  sent_count = 0;
  failed_count = 0;
  skipped_count = 0;
  orphan_count = 0;
  sending_started_time = some 10;
  completed_time = none;
  messages = message 0 ∷ message 1 ∷ [];
}

abbrev row : ℕ → ℕ → ℕ → BroadcastDelivery
row id user language = record {
  id = id;
  broadcast_id = 9;
  user_id = user;
  language_sent = language;
  status = pending;
  attempt_count = 0;
  next_attempt_time = none;
  sent_time = none;
}

-- Who cannot be reached is left out; who reads another language gets the fallback.
abbrev snapshot : Rows
snapshot = row 50 1 1 ∷ row 51 2 1 ∷ row 54 5 0 ∷ []

audience_test :
    materialize_audience 50 0 9 (0 ∷ 1 ∷ []) audience (news ∷ []) []
    ≡ (record news { total_recipients = some 3 } ∷ [], snapshot, 3)
unfolding materialize_audience insert_audience count_deliveries
audience_test = refl

resumed_test :
    (claim_next_broadcast 30 (λ id. false) (record news { attempts = 5 } ∷ [])).0
    ≡ record news { attempts = 6 } ∷ []
unfolding claim_next_broadcast
resumed_test = refl

abbrev p : ℕ → ℕ → ℕ → PendingDelivery
p id user language = record {
  delivery_id = id;
  user_id = user;
  language_sent = language;
  attempt_count = 1;
}

abbrev flooded : PendingDelivery → SendResult
flooded p = if p.delivery_id == 51 then retry_after 30 else returned

-- The second send meets flood control: the third is put back with its attempt.
flood_test :
    (recorded 100
      (deliver_batch 90 flooded (0 ∷ 1 ∷ []) (p 50 1 1 ∷ p 51 2 1 ∷ p 54 5 0 ∷ [])).1
      (claim_pending_batch 80 (λ id. false) 9 snapshot).0
      audience)
    ≡ record (row 50 1 1) { status = sent; attempt_count = 1; sent_time = some 100 }
      ∷ record (row 51 2 1) {
        status = retry_pending;
        attempt_count = 1;
        next_attempt_time = some 125;
      }
      ∷ record (row 54 5 0) { status = retry_pending; next_attempt_time = some 135 }
      ∷ []
unfolding deliver_batch deliver_one resolve_delivery_outcome claim_pending_batch
    record_batch_outcomes mark_deliveries schedule_retries release_unattempted
    deactivate_skipped_users
flood_test = refl

no_rows : count_deliveries 9 [] ≡ 0
unfolding count_deliveries
no_rows = refl

audience-Unique : Unique (map (λ (user : User). user.id) audience)
audience-Unique = ground arith

materialize_audience-Enqueued_example :
    let result = materialize_audience 50 0 9 (0 ∷ 1 ∷ []) audience (news ∷ []) [] in
    All (Enqueued 9 (0 ∷ 1 ∷ []) 0 result.1) audience
    × ((result.2 ≡ count reachable audience)
        × (count_deliveries 9 result.1 ≡ count reachable audience))
materialize_audience-Enqueued_example =
    materialize_audience-Enqueued 50 0 9 (0 ∷ 1 ∷ []) audience (news ∷ []) [] no_rows
      audience-Unique

some_recipients :
    ((materialize_audience 50 0 9 (0 ∷ 1 ∷ []) audience (news ∷ []) []).2 == 0) ≡ false
unfolding materialize_audience insert_audience count_deliveries
some_recipients = refl

finalize_broadcast-Accounts_example :
    Accounts (count_deliveries 9 snapshot) (finalize_broadcast 200 9 done (news ∷ []) snapshot)
finalize_broadcast-Accounts_example =
    finalize_broadcast-Accounts 200 9 done (news ∷ []) snapshot news refl
      ((ground arith, tt), (tt, tt)) (inr refl, (inr refl, (inr refl, tt)))

late_finalization_example :
    LateAgain 300 9 failed (finalize_and_report 200 9 done (news ∷ []) snapshot)
late_finalization_example =
    late_finalization 200 300 9 done failed (news ∷ []) snapshot news refl refl

abbrev claimed_world : World
claimed_world = record {
  rows = (claim_pending_batch 80 (λ id. false) 9 snapshot).0;
  batches = (claim_pending_batch 80 (λ id. false) 9 snapshot).1 ∷ [];
  log = [];
}

abbrev worked_world : World
worked_world = record {
  rows =
      recorded 100
        (deliver_batch 90 flooded (0 ∷ 1 ∷ [])
          (claim_pending_batch 80 (λ id. false) 9 snapshot).1).1
        (claim_pending_batch 80 (λ id. false) 9 snapshot).0 audience;
  batches = [];
  log =
      (deliver_batch 90 flooded (0 ∷ 1 ∷ []) (claim_pending_batch 80 (λ id. false) 9 snapshot).1).0
      ++ [];
}

-- One worker claims the three deliveries, sends and records them.
one_run : Steps (record { rows = snapshot; batches = []; log = [] }) worked_world
one_run =
    next (record { rows = snapshot; batches = []; log = [] }) claimed_world worked_world
      (claim 80 (λ id. false) 9 (record { rows = snapshot; batches = []; log = [] }))
      (next claimed_world worked_world worked_world
        (work 90 100 flooded (0 ∷ 1 ∷ []) audience
          (claim_pending_batch 80 (λ id. false) 9 snapshot).0 [] []
          (claim_pending_batch 80 (λ id. false) 9 snapshot).1 [])
        (stop worked_world))

delivered_once_example :
    held 50 worked_world.batches + arrivals 50 worked_world.log
    ≤ 1 + unexpected_ends 50 worked_world.log
delivered_once_example = delivered_once 50 snapshot worked_world (omega arith) one_run
