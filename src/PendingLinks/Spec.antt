-- ===== src/PendingLinks/Spec.antt =====
-- What pending_links.py promises, over a map from code hashes to rows in place of the table.
use mitup_telegram_bot.Base.{
  ℕ, Bool, not, ◌&&◌, ◌||◌, Option, none, some, List, ltb, ◌==◌, opt_eq, is_none, if◌then◌else◌,
  filtered,
}
use mitup_telegram_bot.Supporter.{SupporterLevel}
use mitup_telegram_bot.PendingLinks.{
  PatreonPendingLink, ClaimedLink, staged, to_claimed_link, finished, claimed_by_any,
  stage_pending_link, claim_pending_link, consume_pending_link, delete_finished_pending_links,
  delete_pending_links_for_users,
}

-- A statement that the bot or the recurrent jobs run, with the database clock at that moment.
pub data Statement : Type 0 where
  stage : ℕ → ℕ → ℕ → Option ℕ → SupporterLevel → Statement
  claim consume : ℕ → ℕ → ℕ → Statement
  sweep : ℕ → Statement
  erase_users : List ℕ → Statement

abbrev pub Rows : Type 0
Rows = List PatreonPendingLink

abbrev pub staged_or : Rows → Option (Rows × ℕ) → Rows
staged_or rows none = rows
staged_or rows (some (rows', _)) = rows'

module _ (hash : ℕ → ℕ) where
  -- The table after a statement and the link that it reads.
  abbrev pub run : Statement → Rows → Rows × Option ClaimedLink
  run (stage now code patreon name level) rows =
      (staged_or rows (stage_pending_link hash now rows code patreon name level), none)
  run (claim now code user) rows = claim_pending_link hash now rows code user
  run (consume now code user) rows = consume_pending_link hash now rows code user
  run (sweep now) rows = ((delete_finished_pending_links now rows).0, none)
  run (erase_users users) rows = ((delete_pending_links_for_users users rows).0, none)

-- One code's row, or its absence.
abbrev pub Cell : Type 0
Cell = Option PatreonPendingLink

abbrev pub cell_stage : ℕ → ℕ → ℕ → Option ℕ → SupporterLevel → Cell → Cell
cell_stage now h patreon name level none = some (staged h patreon name level now)
cell_stage now h patreon name level (some row) = some row

abbrev pub claim_row : ℕ → ℕ → PatreonPendingLink → PatreonPendingLink
claim_row now user row = record row { claimed_tg_user_id = some user; claimed_time = some now }

abbrev pub consume_row : ℕ → PatreonPendingLink → PatreonPendingLink
consume_row now row = record row { consumed_time = some now }

-- A link can be used until its expiration, and only while it is not consumed.
abbrev pub usable : ℕ → PatreonPendingLink → Bool
usable now row = is_none row.consumed_time && ltb now row.expiration

abbrev pub free_for : ℕ → ℕ → PatreonPendingLink → Bool
free_for now user row =
    usable now row && (is_none row.claimed_tg_user_id || opt_eq row.claimed_tg_user_id (some user))

abbrev pub held_by : ℕ → ℕ → PatreonPendingLink → Bool
held_by now user row = usable now row && opt_eq row.claimed_tg_user_id (some user)

abbrev pub cell_claim : ℕ → ℕ → Cell → Cell × Option ClaimedLink
cell_claim now user none = (none, none)
cell_claim now user (some row) =
    if free_for now user row
    then (some (claim_row now user row), some (to_claimed_link row))
    else (some row, none)

abbrev pub cell_consume : ℕ → ℕ → Cell → Cell × Option ClaimedLink
cell_consume now user none = (none, none)
cell_consume now user (some row) =
    if held_by now user row
    then (some (consume_row now row), some (to_claimed_link row))
    else (some row, none)

module _ (hash : ℕ → ℕ) where
  -- What a statement does to the row of one hash.
  abbrev pub cell_after : ℕ → Statement → Cell → Cell
  cell_after h (stage now code patreon name level) c =
      if h == hash code then cell_stage now (hash code) patreon name level c else c
  cell_after h (claim now code user) c = if h == hash code then (cell_claim now user c).0 else c
  cell_after h (consume now code user) c = if h == hash code then (cell_consume now user c).0 else c
  cell_after h (sweep now) c = filtered (λ row. not (finished now row)) c
  cell_after h (erase_users users) c = filtered (λ row. not (claimed_by_any users row)) c

  -- What a statement answers, from the row of the hash that it names.
  abbrev pub answer : Statement → (ℕ → Cell) → Option ClaimedLink
  answer (stage now code patreon name level) cell = none
  answer (claim now code user) cell = (cell_claim now user (cell (hash code))).1
  answer (consume now code user) cell = (cell_consume now user (cell (hash code))).1
  answer (sweep now) cell = none
  answer (erase_users users) cell = none
