-- ===== src/Writes/Unreachable.antt =====
-- Accounts that a fan-out finds unreachable: libs/data/mitup_bot/db.py and
-- libs/telegram/mitup_bot/reconcile.py.
pub mod Marking
pub mod Noting
use mitup_telegram_bot.Base.{
  ℕ, suc, zero, ◌-◌, ◌==◌, ◌≡◌, refl, sym, ap, ◌∙◌, Bool, true, false, not, ◌&&◌, ◌||◌, Option,
  none, some, List, [], ◌∷◌, ◌++◌, any, find, mem, opt_eq, is_none, if◌then◌else◌, arith, ==_iff,
  subst, Bool-cases, inl, inr,
}
use mitup_telegram_bot.Users.{User, member, left, status_eq, set_status, mark_inactive}
use mitup_telegram_bot.Users.Status.{mark_inactive-status, mark_inactive-tg_user_id}
use mitup_telegram_bot.CardRefresh.{RefreshQueue}
use mitup_telegram_bot.Outbox.{
  Ending, returned, inactive_user, bad_request, network_error, other_error, nothing, dead_message,
  confirmed_digest, FixUp, write_fix_up, ApiOutbox, Attempt, QueuedApiCall, is_retried, attempted,
  invoke_queued_with_retry, queued_call_attempts, classified, Draining, drain_queued_call, skip,
  is_skipped, network_is_dead, abandon, drain_calls, drain_outbox, execute_queued,
}
use mitup_telegram_bot.Outbox.Drain.{pass}
use mitup_telegram_bot.Outbox.Sends.{tried_again}
use mitup_telegram_bot.Writes.{
  Db, World, has_tg_id, mark_first, mark_all, without_repeats, reconcile_outbox, is_empty,
  apply_reconcile, after_body, begin_write,
}
use mitup_telegram_bot.Writes.Unreachable.Marking.{departed, apply_reconcile-departed}
use mitup_telegram_bot.Writes.Unreachable.Noting.{
  is_inactive, finds_inactive, Noted, drain_outbox-Noted,
}

module _ (id : ℕ) where
  listed_now : (before listed : Bool) → before ≡ false → (before || listed) ≡ true → listed ≡ true
  listed_now true listed e h = cc e
  listed_now false listed e h = h

  fan_out-departed :
      (now : ℕ) (o : ApiOutbox) (attempts : List Attempt) (q : Option RefreshQueue) (db : Db)
      → finds_inactive id attempts ≡ false
      → finds_inactive id (execute_queued o attempts q).0.attempts ≡ true
      → departed (
          find (has_tg_id id) (apply_reconcile now (execute_queued o attempts q).0.outbox db).users)
        ≡ true
  unfolding execute_queued
  fan_out-departed now o attempts none db new found =
      apply_reconcile-departed id now _ db
        (listed_now (finds_inactive id attempts) _ new (drain_outbox-Noted id o attempts found))
  fan_out-departed now o attempts (some q) db new found =
      apply_reconcile-departed id now _ db
        (listed_now (finds_inactive id attempts) _ new (drain_outbox-Noted id o attempts found))

  after_body-departed :
      (now : ℕ) (w : World) (result : Option (Db × ApiOutbox))
      → finds_inactive id w.attempts ≡ false
      → finds_inactive id (after_body now w result).0.attempts ≡ true
      → departed (find (has_tg_id id) (after_body now w result).0.db.users) ≡ true
  after_body-departed now w none new found = absurd (cc (new, found))
  after_body-departed now w (some (db, o)) new found =
      fan_out-departed now o w.attempts w.refresh_queue db new found

-- A write that finds an account unreachable leaves its user out of the members: once its calls have
-- run, the first user with that Telegram id is no member any more. An account is found unreachable
-- when one of the write's calls ends so, and none had before it.
pub begin_write-departed :
    (id now : ℕ) (body : Db → Option (Db × ApiOutbox)) (w : World)
    → finds_inactive id w.attempts ≡ false
    → finds_inactive id (begin_write now body w).0.attempts ≡ true
    → departed (find (has_tg_id id) (begin_write now body w).0.db.users) ≡ true
unfolding begin_write
begin_write-departed id now body w new found = after_body-departed id now w (body w.db) new found
