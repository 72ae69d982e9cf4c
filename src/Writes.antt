-- ===== src/Writes.antt =====
-- The critical sections that write: begin_write of libs/data/mitup_bot/db.py, with the reconciler of
-- libs/telegram/mitup_bot/reconcile.py. The body of a section is what it commits with the outbox it
-- has queued, or `none` where it raises; the clock is an argument. The phase mark that the error
-- handler reads, sessions and logs are left out.
pub mod Unreachable
mod Tests
use mitup_telegram_bot.Base.{
  ℕ, ◌==◌, Bool, true, false, not, ◌&&◌, Option, none, some, List, [], ◌∷◌, map, filter, mem,
  opt_eq, is_none, if◌then◌else◌,
}
use mitup_telegram_bot.Messages.{Message}
use mitup_telegram_bot.Users.{User, mark_inactive}
use mitup_telegram_bot.CardRefresh.{RefreshQueue}
use mitup_telegram_bot.Outbox.{ApiOutbox, Attempt, Draining, execute_queued}

-- The rows that a reconciliation touches; a message has its id beside it.
pub record Db : Type 0 where
  pub messages : List (ℕ × Message)
  pub users : List User

abbrev pub digest_of : ℕ → List (ℕ × ℕ) → Option ℕ
digest_of id [] = none
digest_of id ((i, digest) ∷ digests) = if id == i then some digest else digest_of id digests

abbrev pub stamped : Option ℕ → Message → Message
stamped none message = message
stamped (some digest) message = record message { render_digest = some digest }

-- The statement's `CASE`.
abbrev pub stamp : List (ℕ × ℕ) → ℕ × Message → ℕ × Message
stamp digests (id, message) = (id, stamped (digest_of id digests) message)

abbrev pub advance_render_digests : List (ℕ × ℕ) → List (ℕ × Message) → List (ℕ × Message)
advance_render_digests [] messages = messages
advance_render_digests (d ∷ ds) messages = map (stamp (d ∷ ds)) messages

abbrev pub delete_dead : List ℕ → List (ℕ × Message) → List (ℕ × Message)
delete_dead [] messages = messages
delete_dead (i ∷ ids) messages = filter (λ row. not (mem row.0 (i ∷ ids))) messages

abbrev pub has_tg_id : ℕ → User → Bool
has_tg_id tg_user_id user = opt_eq user.tg_user_id (some tg_user_id)

-- The first user of the account, marked inactive.
pub mark_first : ℕ → ℕ → List User → List User
mark_first now tg_user_id [] = []
mark_first now tg_user_id (user ∷ users) =
    let rest = mark_first now tg_user_id users in
    if has_tg_id tg_user_id user then (mark_inactive now user).0 ∷ users else user ∷ rest

-- `dict.fromkeys(ids)`, after the ones seen so far.
pub without_repeats : List ℕ → List ℕ → List ℕ
without_repeats seen [] = []
without_repeats seen (id ∷ ids) =
    let rest = without_repeats (id ∷ seen) ids in
    if mem id seen then without_repeats seen ids else id ∷ rest

abbrev pub mark_all : ℕ → List ℕ → List User → List User
mark_all now [] users = users
mark_all now (id ∷ ids) users = mark_all now ids (mark_first now id users)

pub reconcile_outbox : ℕ → ApiOutbox → Db → Db
reconcile_outbox now o db = record {
  messages =
      advance_render_digests o.confirmed_render_digests
        (delete_dead o.dead_message_ids db.messages);
  users = mark_all now (without_repeats [] o.inactive_tg_user_ids) db.users;
}

abbrev pub is_empty {ℓ} : {A : Type ℓ} → List A → Bool
is_empty [] = true
is_empty (x ∷ xs) = false

-- A drain that recorded nothing opens no transaction.
pub apply_reconcile : ℕ → ApiOutbox → Db → Db
apply_reconcile now o db =
    if is_empty o.dead_message_ids
      && is_empty o.inactive_tg_user_ids
      && is_empty o.confirmed_render_digests
    then db
    else reconcile_outbox now o db

-- The database, what was sent, and the queue of background jobs where one runs.
pub record World : Type 0 where
  pub db : Db
  pub attempts : List Attempt
  pub refresh_queue : Option RefreshQueue

-- What follows the body: nothing where it raised, and otherwise the fan-out and the fix-ups.
abbrev pub after_body : ℕ → World → Option (Db × ApiOutbox) → World × Bool
after_body now w none = (w, false)
after_body now w (some (db, outbox)) =
    let fan_out = execute_queued outbox w.attempts w.refresh_queue in
    (
      record {
        db = apply_reconcile now fan_out.0.outbox db;
        attempts = fan_out.0.attempts;
        refresh_queue = fan_out.1;
      },
      true,
    )

-- `begin_write`, with whether it committed.
pub begin_write : ℕ → (Db → Option (Db × ApiOutbox)) → World → World × Bool
begin_write now body w = after_body now w (body w.db)
