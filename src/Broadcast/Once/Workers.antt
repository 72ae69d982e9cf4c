-- ===== src/Broadcast/Once/Workers.antt =====
-- Several workers of events/broadcast at one table, in any order of their transactions: claims,
-- batches that are sent and recorded, workers that die while they send, and the finalization's
-- writes. No new audience is put in the table.
use mitup_telegram_bot.Base.{
  and_right, ℕ, ◌+◌, ◌≡◌, ◌≤◌, refl, ◌==◌, Bool, not, ◌&&◌, Option, none, some, List, [], ◌∷◌, ◌++◌,
  take, count, arith, count-append, count-take, count-filter, count-le,
}
use mitup_telegram_bot.Users.{User}
use mitup_telegram_bot.Broadcast.{
  BroadcastDelivery, PendingDelivery, BatchResult, delivery_failed, unfinished,
}
use mitup_telegram_bot.Broadcast.Claiming.{claim_pending_batch, unfinished_of}
use mitup_telegram_bot.Broadcast.Delivery.{SendResult, Sent, deliver_batch}
use mitup_telegram_bot.Broadcast.Recording.{Rows, record_batch_outcomes}
use mitup_telegram_bot.Broadcast.Finalize.{fail_unattempted_deliveries, purge_deliveries}
use mitup_telegram_bot.Broadcast.Once.{
  is_settling, rows_of, open_rows, in_batch, settlings, arrivals, unexpected_ends, arrivals_split,
  rows_of-claim, claim-conserves, open_le_rows,
}
use mitup_telegram_bot.Broadcast.Once.Outcomes.{reopened, deliver_batch_le}
use mitup_telegram_bot.Broadcast.Once.Records.{
  Recorded, record_batch_outcomes-Recorded, Bounded, write_closing, write_keeps,
}

-- The table, the batches in the workers' hands, and the messages that Telegram was handed.
pub record World : Type 0 where
  pub rows : Rows
  pub batches : List (List PendingDelivery)
  pub log : List Sent

abbrev rows_after : Rows → Option (Rows × List User × ℕ) → Rows
rows_after rows none = rows
rows_after rows (some (rows', users', left)) = rows'

-- The rows after a batch: a raised exception leaves them IN_PROGRESS.
abbrev pub recorded : ℕ → Option BatchResult → Rows → List User → Rows
recorded now none rows users = rows
recorded now (some result) rows users =
    rows_after rows (record_batch_outcomes now result rows users)

pub data Step : World → World → Type 0 where
  claim :
      (now : ℕ) (locked : ℕ → Bool) (broadcast_id : ℕ) (w : World)
      → Step w (record w {
        rows = (claim_pending_batch now locked broadcast_id w.rows).0;
        batches = (claim_pending_batch now locked broadcast_id w.rows).1 ∷ w.batches;
      })
  work :
      (sending recording : ℕ) (send : PendingDelivery → SendResult) (languages : List ℕ)
      (users : List User) (rows : Rows) (before after : List (List PendingDelivery))
      (batch : List PendingDelivery) (log : List Sent)
      → Step
          (record { rows = rows; batches = before ++ (batch ∷ after); log = log })
          (record {
            rows = recorded recording (deliver_batch sending send languages batch).1 rows users;
            batches = before ++ after;
            log = (deliver_batch sending send languages batch).0 ++ log;
          })
  crash :
      (n sending : ℕ) (send : PendingDelivery → SendResult) (languages : List ℕ) (rows : Rows)
      (before after : List (List PendingDelivery)) (batch : List PendingDelivery) (log : List Sent)
      → Step
          (record { rows = rows; batches = before ++ (batch ∷ after); log = log })
          (record {
            rows = rows;
            batches = before ++ after;
            log = take n (deliver_batch sending send languages batch).0 ++ log;
          })
  fail_rest :
      (broadcast_id : ℕ) (w : World)
      → Step w (record w { rows = (fail_unattempted_deliveries broadcast_id w.rows).0 })
  purge :
      (broadcast_id : ℕ) (w : World)
      → Step w (record w { rows = purge_deliveries broadcast_id w.rows })

pub data Steps : World → World → Type 0 where
  stop : (w : World) → Steps w w
  next : (a b c : World) → Step a b → Steps b c → Steps a c

module _ (d : ℕ) where
  abbrev pub held : List (List PendingDelivery) → ℕ
  held [] = 0
  held (batch ∷ batches) = in_batch d batch + held batches

  held-append :
      (before after : List (List PendingDelivery))
      → held (before ++ after) ≡ held before + held after
  held-append [] after = omega arith
  held-append (batch ∷ before) after = omega (arith, held-append before after)

  -- Where the delivery can be: waiting, in hands, or perhaps arrived.
  abbrev places : World → ℕ
  places w = open_rows d w.rows + held w.batches + settlings d w.log

  recorded-Bounded :
      (now : ℕ) (result : Option BatchResult) (rows : Rows) (users : List User)
      → rows_of d rows ≤ 1
      → Bounded d (reopened d result) rows (recorded now result rows users)
  recorded-Bounded now none rows users one = (refl, omega arith)
  recorded-Bounded now (some result) rows users one =
      go (record_batch_outcomes now result rows users)
        (record_batch_outcomes-Recorded d now result rows users one)
    where
      go :
          (o : Option (Rows × List User × ℕ))
          → Recorded d (reopened d (some result)) rows o
          → Bounded d (reopened d (some result)) rows (rows_after rows o)
      go none r = (refl, omega arith)
      go (some (rows', users', left)) r = r

  fail_rest-closes :
      (id : ℕ) (rows : Rows)
      → (rows_of d (fail_unattempted_deliveries id rows).0 ≡ rows_of d rows)
        × (open_rows d (fail_unattempted_deliveries id rows).0 ≤ open_rows d rows)
  unfolding fail_unattempted_deliveries
  fail_rest-closes id rows =
      let failed = λ (row : BroadcastDelivery). record row { status = delivery_failed } in
      (
        write_keeps d (unfinished_of id) failed (λ row. refl) rows,
        write_closing d (unfinished_of id) failed (λ row. refl) (λ row. refl) rows,
      )

  count-purge :
      (p : BroadcastDelivery → Bool) (id : ℕ) (rows : Rows)
      → count p (purge_deliveries id rows) ≤ count p rows
  unfolding purge_deliveries
  count-purge p id rows = omega (
    arith,
    count-filter p (λ (row : BroadcastDelivery). not (row.broadcast_id == id)) rows,
    count-le (λ row. not (row.broadcast_id == id) && p row) p (λ row e. and_right _ _ e) rows,
  )

  Step-places :
      (a b : World)
      → Step a b
      → rows_of d a.rows ≤ 1
      → (rows_of d b.rows ≤ 1) × (places b ≤ places a)
  Step-places a b (claim now locked id w) one = (
    omega (arith, one, rows_of-claim d now locked id w.rows),
    omega (arith, claim-conserves d now locked id w.rows one),
  )
  Step-places a b (work sending recording send languages users rows before after batch log) one =
      let done = deliver_batch sending send languages batch in
      let r = recorded-Bounded recording done.1 rows users one in
      (
        omega (arith, one, r.0),
        omega (
          arith,
          r.1,
          one,
          r.0,
          open_le_rows d (recorded recording done.1 rows users),
          deliver_batch_le d sending send languages batch,
          held-append before after,
          held-append before (batch ∷ after),
          count-append (λ (s : Sent). s.delivery_id == d && is_settling s.result) done.0 log,
        ),
      )
  Step-places a b (crash n sending send languages rows before after batch log) one =
      let sent = (deliver_batch sending send languages batch).0 in
      (
        one,
        omega (
          arith,
          deliver_batch_le d sending send languages batch,
          held-append before after,
          held-append before (batch ∷ after),
          count-take (λ (s : Sent). s.delivery_id == d && is_settling s.result) n sent,
          count-append (λ (s : Sent). s.delivery_id == d && is_settling s.result) (take n sent) log,
        ),
      )
  Step-places a b (fail_rest id w) one =
      let c = fail_rest-closes id w.rows in (omega (arith, one, c.0), omega (arith, c.1))
  Step-places a b (purge id w) one = (
    omega (arith, one, count-purge (λ row. row.id == d) id w.rows),
    omega (arith, count-purge (λ row. row.id == d && unfinished row.status) id w.rows),
  )

  Steps-places : (a b : World) → Steps a b → rows_of d a.rows ≤ 1 → places b ≤ places a
  Steps-places a b (stop w) one = omega arith
  Steps-places a b (next a' m b' s ss) one =
      let step = Step-places a' m s one in omega (arith, step.1, Steps-places m b' ss step.0)

  -- No delivery is sent twice, but after an error that the sender does not expect: however many
  -- workers claim, send, record, crash and finalize, in whatever order and while no audience is
  -- added, a delivery is in the hands of one worker at most, and at most one of its sends may have
  -- reached the recipient, besides those that ended in an unexpected exception, each of which adds
  -- one at most; without such an end the delivery in hands has not arrived. The delivery's id is
  -- unique in the table, and at the start nothing is claimed or sent.
  pub delivered_once :
      (rows : Rows) (b : World)
      → rows_of d rows ≤ 1
      → Steps (record { rows = rows; batches = []; log = [] }) b
      → held b.batches + arrivals d b.log ≤ 1 + unexpected_ends d b.log
  delivered_once rows b one steps = omega (
    arith,
    one,
    open_le_rows d rows,
    arrivals_split d b.log,
    Steps-places (record { rows = rows; batches = []; log = [] }) b steps one,
  )
