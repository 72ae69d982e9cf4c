-- ===== src/PendingLinks.antt =====
-- The pending Patreon links: libs/patreon/mitup_bot/patreon/pending_links.py over the table of
-- libs/data/mitup_bot/models/subscriptions.py. The table is the list of its rows. Codes, hashes,
-- Patreon ids and names are numbers that stand for the strings; the SHA-256 of a code is a
-- parameter. The database clock is an argument, and an UPDATE or a DELETE acts on each row that its
-- filter admits, which is what one statement does under the row locks.
pub mod Table
pub mod Spec
pub mod Refinement
pub mod Redeem
pub mod Expiry
pub mod Unnoticed
mod Tests
use mitup_telegram_bot.Base.{
  ℕ, ◌+◌, Bool, true, false, not, ◌&&◌, ◌||◌, Option, none, some, List, [], ◌∷◌, ◌++◌, map, ltb,
  leb, ◌==◌, opt_eq, is_none, filter, count, find, any, if◌then◌else◌,
}
use mathlib.Core.Option
use mitup_telegram_bot.Supporter.{SupporterLevel}

pub record PatreonPendingLink : Type 0 where
  pub code_hash : ℕ
  pub patreon_user_id : ℕ
  pub patreon_full_name : Option ℕ
  pub supporter_level : SupporterLevel
  pub expiration : ℕ
  pub claimed_tg_user_id : Option ℕ
  pub claimed_time : Option ℕ
  pub consumed_time : Option ℕ

pub record ClaimedLink : Type 0 where
  pub patreon_user_id : ℕ
  pub patreon_full_name : Option ℕ
  pub granted_level : SupporterLevel

-- Seconds.
abbrev pub pairing_code_ttl_seconds : ℕ
pairing_code_ttl_seconds = 900

abbrev pub has_hash : ℕ → PatreonPendingLink → Bool
has_hash h row = row.code_hash == h

-- The row that `stage_pending_link` builds; claimed by nobody and not consumed.
abbrev pub staged : ℕ → ℕ → Option ℕ → SupporterLevel → ℕ → PatreonPendingLink
staged h patreon_user_id patreon_full_name supporter_level now = record {
  code_hash = h;
  patreon_user_id = patreon_user_id;
  patreon_full_name = patreon_full_name;
  supporter_level = supporter_level;
  expiration = now + pairing_code_ttl_seconds;
  claimed_tg_user_id = none;
  claimed_time = none;
  consumed_time = none;
}

-- RETURNING, mapped onto a ClaimedLink.
abbrev pub to_claimed_link : PatreonPendingLink → ClaimedLink
to_claimed_link row = record {
  patreon_user_id = row.patreon_user_id;
  patreon_full_name = row.patreon_full_name;
  granted_level = row.supporter_level;
}

-- The filter of both transitions, on the hash of the code.
abbrev pub live_row : ℕ → ℕ → PatreonPendingLink → Bool
live_row h now row = has_hash h row && (is_none row.consumed_time && ltb now row.expiration)

abbrev pub claimable : ℕ → ℕ → ℕ → PatreonPendingLink → Bool
claimable h now user row =
    live_row h now row
    && (is_none row.claimed_tg_user_id || opt_eq row.claimed_tg_user_id (some user))

abbrev pub consumable : ℕ → ℕ → ℕ → PatreonPendingLink → Bool
consumable h now user row = live_row h now row && opt_eq row.claimed_tg_user_id (some user)

abbrev pub spent_by : ℕ → ℕ → PatreonPendingLink → Bool
spent_by h user row =
    has_hash h row && (not (is_none row.consumed_time) && opt_eq row.claimed_tg_user_id (some user))

abbrev pub finished : ℕ → PatreonPendingLink → Bool
finished now row = not (is_none row.consumed_time) || leb row.expiration now

abbrev pub claimed_by_any : List ℕ → PatreonPendingLink → Bool
claimed_by_any users row = any (λ user. opt_eq row.claimed_tg_user_id (some user)) users

-- `UPDATE … WHERE p … SET …`: the new table, and the row that `.first()` reads of RETURNING.
abbrev pub update_where :
    (PatreonPendingLink → Bool)
    → (PatreonPendingLink → PatreonPendingLink)
    → List PatreonPendingLink
    → List PatreonPendingLink × Option ClaimedLink
update_where p set rows = (
  map (λ row. if p row then set row else row) rows,
  Option.map (λ row. to_claimed_link (set row)) (find p rows),
)

-- `DELETE … WHERE p`: the rows left, and how many went.
abbrev pub delete_where :
    (PatreonPendingLink → Bool) → List PatreonPendingLink → List PatreonPendingLink × ℕ
delete_where p rows = (filter (λ row. not (p row)) rows, count p rows)

pub data ClaimFailure : Type 0 where
  unknown_code expired consumed claimed_by_other unclaimed : ClaimFailure

module _ (hash_pairing_code : ℕ → ℕ) where
  -- `code` is the one that `generate_pairing_code` mints. The unique column refuses a hash that
  -- the table holds, which is the IntegrityError `none`.
  pub stage_pending_link :
      ℕ
      → List PatreonPendingLink
      → ℕ
      → ℕ
      → Option ℕ
      → SupporterLevel
      → Option (List PatreonPendingLink × ℕ)
  stage_pending_link now rows code patreon_user_id patreon_full_name supporter_level =
      let h = hash_pairing_code code in
      if any (has_hash h) rows
      then none
      else some
          (rows ++ (staged h patreon_user_id patreon_full_name supporter_level now ∷ []), code)

  pub claim_pending_link :
      ℕ → List PatreonPendingLink → ℕ → ℕ → List PatreonPendingLink × Option ClaimedLink
  claim_pending_link now rows code tg_user_id =
      update_where (claimable (hash_pairing_code code) now tg_user_id)
        (λ row. record row { claimed_tg_user_id = some tg_user_id; claimed_time = some now }) rows

  pub consume_pending_link :
      ℕ → List PatreonPendingLink → ℕ → ℕ → List PatreonPendingLink × Option ClaimedLink
  consume_pending_link now rows code tg_user_id =
      update_where (consumable (hash_pairing_code code) now tg_user_id)
        (λ row. record row { consumed_time = some now }) rows

  pub classify_claim_failure : ℕ → List PatreonPendingLink → ℕ → ℕ → ClaimFailure
  classify_claim_failure now rows code tg_user_id =
      elim (find (has_hash (hash_pairing_code code)) rows) [
        | none ↦ unknown_code
        | some row ↦
            if not (is_none row.consumed_time)
            then consumed
            else if not (is_none row.claimed_tg_user_id)
                && not (opt_eq row.claimed_tg_user_id (some tg_user_id))
            then claimed_by_other
            else if leb row.expiration now
            then expired
            else unclaimed
      ]

  abbrev pub spent_link_of : List PatreonPendingLink → ℕ → ℕ → Option ClaimedLink
  spent_link_of rows code tg_user_id =
      Option.map to_claimed_link (find (spent_by (hash_pairing_code code) tg_user_id) rows)

pub delete_finished_pending_links : ℕ → List PatreonPendingLink → List PatreonPendingLink × ℕ
delete_finished_pending_links now rows = delete_where (finished now) rows

abbrev is_empty : List ℕ → Bool
is_empty [] = true
is_empty (x ∷ xs) = false

pub delete_pending_links_for_users : List ℕ → List PatreonPendingLink → List PatreonPendingLink × ℕ
delete_pending_links_for_users tg_user_ids rows =
    if is_empty tg_user_ids then (rows, 0) else delete_where (claimed_by_any tg_user_ids) rows
