-- ===== src/Writes/Tests.antt =====
-- Runs of the critical sections, and instances of the theorems about them.
use mitup_telegram_bot.Base.{◌≡◌, refl, true, false, none, some, [], ◌∷◌, find}
use mitup_telegram_bot.Users.{User, member}
use mitup_telegram_bot.Outbox.{
  inactive_user, ApiOutbox, drain_outbox, drain_calls, drain_queued_call, invoke_queued_with_retry,
  classified, execute_queued, record_outcome,
}
use mitup_telegram_bot.Writes.{
  World, begin_write, apply_reconcile, reconcile_outbox, without_repeats, mark_first, has_tg_id,
}
use mitup_telegram_bot.Writes.Unreachable.Marking.{departed}
use mitup_telegram_bot.Writes.Unreachable.{begin_write-departed}

abbrev ana : User
ana = record {
  id = 1;
  tg_user_id = some 70;
  language = 0;
  status = member;
  left_time = none;
  member_time = none;
}

-- A message to the account 70, which has blocked the bot.
abbrev promoted : ApiOutbox
promoted = record {
  calls =
      record {
        token = 1;
        invoke = λ before. inactive_user 70;
        idempotent = false;
        inline_message_id = none;
      }
      ∷ [];
  dead_message_ids = [];
  inactive_tg_user_ids = [];
  confirmed_render_digests = [];
  meeting_refreshes = [];
}

abbrev before_write : World
before_write = record {
  db = record { messages = []; users = ana ∷ [] };
  attempts = [];
  refresh_queue = none;
}

begin_write-departed_example :
    departed
      (find (has_tg_id 70) (begin_write 9 (λ db. some (db, promoted)) before_write).0.db.users)
    ≡ true
unfolding begin_write execute_queued drain_outbox drain_calls drain_queued_call
    invoke_queued_with_retry classified record_outcome apply_reconcile reconcile_outbox
    without_repeats mark_first
begin_write-departed_example =
    begin_write-departed 70 9 (λ db. some (db, promoted)) before_write refl refl
