-- ===== src/Broadcast/Claiming.antt =====
-- The claim phase: events/broadcast/claiming.py.
use mitup_telegram_bot.Base.{
  ℕ, suc, ◌==◌, leb, ltb, is_none, not, ◌&&◌, ◌||◌, Bool, false, Option, none, some, List, [], ◌∷◌,
  ◌++◌, map, filter, count, find, any, take, mem, sort_by, if◌then◌else◌,
}
use mitup_telegram_bot.Users.{User, member, status_eq}
use mitup_telegram_bot.Broadcast.{
  Broadcast, BroadcastDelivery, ClaimedBroadcast, PendingDelivery, pending, in_progress,
  retry_pending, queued, sending, is_broadcast, is_delivery, unfinished, max_broadcast_attempts,
  broadcast_batch_size,
}

abbrev pub queued_or_sending : Broadcast → Bool
queued_or_sending b = is_broadcast b.status queued || is_broadcast b.status sending

-- The statement's `ORDER BY id LIMIT 1` over the rows that no other transaction has locked.
abbrev pub oldest_claimable : (ℕ → Bool) → List Broadcast → Option Broadcast
oldest_claimable locked rows =
    find (λ b. queued_or_sending b && not (locked b.id)) (sort_by (λ b. b.id) rows)

abbrev pub started : ℕ → Broadcast → Broadcast
started now b =
    if is_broadcast b.status queued
    then record b { attempts = suc b.attempts; status = sending; sending_started_time = some now }
    else record b { attempts = suc b.attempts }

unfoldable pub claim_next_broadcast :
    ℕ → (ℕ → Bool) → List Broadcast → List Broadcast × Option ClaimedBroadcast
claim_next_broadcast now locked rows = elim (oldest_claimable locked rows) [
  | none ↦ (rows, none)
  | some b ↦ (
    map (λ row. if row.id == b.id then started now row else row) rows,
    some (record {
      broadcast_id = b.id;
      author_tg_id = b.author_tg_id;
      attempts = suc b.attempts;
      terminal_failure = ltb max_broadcast_attempts (suc b.attempts);
    }),
  )
]

abbrev pub unfinished_of : ℕ → BroadcastDelivery → Bool
unfinished_of broadcast_id row = row.broadcast_id == broadcast_id && unfinished row.status

abbrev pub count_unfinished_deliveries : ℕ → List BroadcastDelivery → ℕ
count_unfinished_deliveries broadcast_id = count (unfinished_of broadcast_id)

abbrev pub reset_broadcast_attempts : ℕ → List Broadcast → List Broadcast
reset_broadcast_attempts broadcast_id =
    map (λ b. if b.id == broadcast_id then record b { attempts = 0 } else b)

unfoldable pub count_deliveries : ℕ → List BroadcastDelivery → ℕ
count_deliveries broadcast_id = count (λ row. row.broadcast_id == broadcast_id)

-- A NULL time makes the comparison NULL, which does not select the row.
abbrev pub is_due : ℕ → Option ℕ → Bool
is_due now none = false
is_due now (some time) = leb time now

abbrev pub claimable : ℕ → ℕ → BroadcastDelivery → Bool
claimable now broadcast_id row =
    row.broadcast_id == broadcast_id
    && (is_delivery row.status pending
        || (is_delivery row.status retry_pending && is_due now row.next_attempt_time))

-- SKIP LOCKED leaves out the rows that another transaction's claim has locked.
abbrev pub claim_ids : ℕ → (ℕ → Bool) → ℕ → List BroadcastDelivery → List ℕ
claim_ids now locked broadcast_id rows = take broadcast_batch_size (
    sort_by (λ n. n)
      (map (λ row. row.id)
        (filter (λ row. claimable now broadcast_id row && not (locked row.id)) rows)))

abbrev pub claimed_row : BroadcastDelivery → BroadcastDelivery
claimed_row row = record row {
  status = in_progress;
  attempt_count = suc row.attempt_count;
  next_attempt_time = none;
}

-- A PendingDelivery of a row that the UPDATE returns.
abbrev pub pending_delivery : BroadcastDelivery → PendingDelivery
pending_delivery row = record {
  delivery_id = row.id;
  user_id = row.user_id;
  language_sent = row.language_sent;
  attempt_count = row.attempt_count;
}

-- The rows come back in no order and are sorted by their id. The load of the recipients that a
-- foreign key keeps in the table is left out.
abbrev pub resolve_claimed_recipients : List BroadcastDelivery → List PendingDelivery
resolve_claimed_recipients claimed = sort_by (λ p. p.delivery_id) (map pending_delivery claimed)

unfoldable pub claim_pending_batch :
    ℕ → (ℕ → Bool) → ℕ → List BroadcastDelivery → List BroadcastDelivery × List PendingDelivery
claim_pending_batch now locked broadcast_id rows =
    let ids = claim_ids now locked broadcast_id rows in
    (
      map (λ row. if mem row.id ids then claimed_row row else row) rows,
      resolve_claimed_recipients (map claimed_row (filter (λ row. mem row.id ids) rows)),
    )

-- `count_broadcast_backlog`: QUEUED, SENDING, and RETRY_PENDING deliveries.
abbrev pub count_broadcast_backlog : List Broadcast → List BroadcastDelivery → ℕ × ℕ × ℕ
count_broadcast_backlog broadcasts rows = (
  count (λ b. is_broadcast b.status queued) broadcasts,
  count (λ b. is_broadcast b.status sending) broadcasts,
  count (λ row. is_delivery row.status retry_pending) rows,
)

-- A member who is not the anonymous invitee.
abbrev pub reachable : User → Bool
reachable user = status_eq user.status member && not (is_none user.tg_user_id)

abbrev pub audience_row : ℕ → ℕ → List ℕ → ℕ → User → BroadcastDelivery
audience_row id broadcast_id message_languages fallback user = record {
  id = id;
  broadcast_id = broadcast_id;
  user_id = user.id;
  language_sent = if mem user.language message_languages then user.language else fallback;
  status = pending;
  attempt_count = 0;
  next_attempt_time = none;
  sent_time = none;
}

abbrev pub row_for : ℕ → ℕ → BroadcastDelivery → Bool
row_for broadcast_id user_id row = row.broadcast_id == broadcast_id && row.user_id == user_id

-- INSERT … SELECT … ON CONFLICT DO NOTHING; the ids are those of the sequence from `next` on.
unfoldable pub insert_audience :
    ℕ → ℕ → List ℕ → ℕ → List User → List BroadcastDelivery → List BroadcastDelivery
insert_audience next broadcast_id languages fallback [] rows = rows
insert_audience next broadcast_id languages fallback (user ∷ users) rows =
    insert_audience (suc next) broadcast_id languages fallback users (
      if reachable user && not (any (row_for broadcast_id user.id) rows)
      then rows ++ (audience_row next broadcast_id languages fallback user ∷ [])
      else rows)

abbrev pub set_total : ℕ → ℕ → List Broadcast → List Broadcast
set_total broadcast_id total =
    map (λ b. if b.id == broadcast_id then record b { total_recipients = some total } else b)

unfoldable pub materialize_audience :
    ℕ
    → ℕ
    → ℕ
    → List ℕ
    → List User
    → List Broadcast
    → List BroadcastDelivery
    → List Broadcast × List BroadcastDelivery × ℕ
materialize_audience next fallback broadcast_id languages users broadcasts rows =
    let existing = count_deliveries broadcast_id rows in
    if not (existing == 0)
    then (broadcasts, rows, existing)
    else let rows' = insert_audience next broadcast_id languages fallback users rows in
      let total = count_deliveries broadcast_id rows' in
      (set_total broadcast_id total broadcasts, rows', total)
