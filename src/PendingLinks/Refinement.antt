-- ===== src/PendingLinks/Refinement.antt =====
-- The statements of pending_links.py on the table implement the map of PendingLinks/Spec.antt.
use mitup_telegram_bot.Base.{
  ℕ, ◌≡◌, refl, ap, sym, subst, ◌∙◌, inl, inr, Bool, true, false, not, ◌&&◌, Option, none, some,
  List, [], ◌∷◌, ◌++◌, ◌==◌, ==_iff, is_none, find, any, if◌then◌else◌, filtered, Unique,
  Bool-cases, arith,
}
use mathlib.Core.Option
use mitup_telegram_bot.Supporter.{SupporterLevel}
use mitup_telegram_bot.PendingLinks.{
  PatreonPendingLink, ClaimedLink, has_hash, staged, to_claimed_link, claimable, consumable,
  finished, claimed_by_any, update_where, stage_pending_link, claim_pending_link,
  consume_pending_link, delete_finished_pending_links, delete_pending_links_for_users,
}
use mitup_telegram_bot.PendingLinks.Table.{
  hashes, row_of, find-hash, row_of-filter, Unique-filter_rows, row_of-stage, Unique-stage,
  set_where, hashes-update, row_of-update,
}
use mitup_telegram_bot.PendingLinks.Spec.{
  Statement, stage, claim, consume, sweep, erase_users, Rows, run, staged_or, Cell, cell_stage,
  claim_row, consume_row, free_for, held_by, cell_claim, cell_consume, cell_after, answer,
}

find-ext :
    (p q : PatreonPendingLink → Bool)
    → ((row : PatreonPendingLink) → p row ≡ q row)
    → (rows : Rows) → find p rows ≡ find q rows
find-ext p q e [] = refl
find-ext p q e (r ∷ rows) = rw (e r, find-ext p q e rows) refl

row_of-hash :
    (h : ℕ) (rows : Rows) (row : PatreonPendingLink) → row_of h rows ≡ some row → row.code_hash ≡ h
row_of-hash h [] row e = ground arith
row_of-hash h (r ∷ rows) row e = ground (arith, row_of-hash h rows row)

-- An UPDATE whose filter names a hash acts on the row of that hash alone.
module _ (H : ℕ) (p q : PatreonPendingLink → Bool) (set : PatreonPendingLink → PatreonPendingLink)
    (splits : (row : PatreonPendingLink) → p row ≡ (has_hash H row && q row))
    (same : (row : PatreonPendingLink) → (set row).code_hash ≡ row.code_hash) where
  set_one :
      (h : ℕ) (c : Cell)
      → ((row : PatreonPendingLink) → c ≡ some row → row.code_hash ≡ h)
      → Option.map (set_where p set same) c
        ≡ (if h == H then Option.map (set_where q set same) c else c)
  set_one h none named = ground arith
  set_one h (some row) named = ground (arith, named row refl, splits row)

  row_of-update_where :
      (h : ℕ) (rows : Rows)
      → row_of h (update_where p set rows).0
        ≡ (if h == H then Option.map (set_where q set same) (row_of h rows) else row_of h rows)
  row_of-update_where h rows =
      row_of-update p set same h rows ∙ set_one h (row_of h rows) (row_of-hash h rows)

  answer-update_where :
      (rows : Rows)
      → Unique (hashes rows)
      → (update_where p set rows).1
        ≡ Option.map (λ row. to_claimed_link (set row)) (filtered q (row_of H rows))
  answer-update_where rows u =
      ap (Option.map (λ row. to_claimed_link (set row)))
        (find-ext p (λ row. has_hash H row && q row) splits rows ∙ find-hash H q rows u)

  Unique-update_where :
      (rows : Rows) → Unique (hashes rows) → Unique (hashes (update_where p set rows).0)
  Unique-update_where rows u = subst Unique (sym (hashes-update p set same rows)) u

and_assoc : (a b c : Bool) → ((a && b) && c) ≡ (a && (b && c))
and_assoc a b c = ground arith

module _ (hash : ℕ → ℕ) (now code user : ℕ) where
  claimable_splits :
      (row : PatreonPendingLink)
      → claimable (hash code) now user row ≡ (has_hash (hash code) row && free_for now user row)
  claimable_splits row = ground arith

  consumable_splits :
      (row : PatreonPendingLink)
      → consumable (hash code) now user row ≡ (has_hash (hash code) row && held_by now user row)
  consumable_splits row = ground arith

  claim_cell :
      (c : Cell)
      → Option.map (set_where (free_for now user) (claim_row now user) (λ _. refl)) c
        ≡ (cell_claim now user c).0
  claim_cell none = refl
  claim_cell (some row) = ground arith

  claim_answer :
      (c : Cell)
      → Option.map
          (λ row. to_claimed_link (claim_row now user row))
          (filtered (free_for now user) c)
        ≡ (cell_claim now user c).1
  claim_answer none = refl
  claim_answer (some row) = ground arith

  consume_cell :
      (c : Cell)
      → Option.map (set_where (held_by now user) (consume_row now) (λ _. refl)) c
        ≡ (cell_consume now user c).0
  consume_cell none = refl
  consume_cell (some row) = ground arith

  consume_answer :
      (c : Cell)
      → Option.map (λ row. to_claimed_link (consume_row now row)) (filtered (held_by now user) c)
        ≡ (cell_consume now user c).1
  consume_answer none = refl
  consume_answer (some row) = ground arith

abbrev pub Implements : (ℕ → ℕ) → Statement → Rows → Rows × Option ClaimedLink → ℕ → Type 0
Implements hash s rows after h =
    Unique (hashes after.0)
    × (row_of h after.0 ≡ cell_after hash h s (row_of h rows))
    × (after.1 ≡ answer hash s (λ k. row_of k rows))

module _ (hash : ℕ → ℕ) (h : ℕ) (rows : Rows) (u : Unique (hashes rows)) where
  claim-Implements :
      (now code user : ℕ)
      → Implements hash (claim now code user) rows (claim_pending_link hash now rows code user) h
  unfolding claim_pending_link
  claim-Implements now code user =
      let p = claimable (hash code) now user in
      let q = free_for now user in
      let set = claim_row now user in
      let splits = claimable_splits hash now code user in
      (
        Unique-update_where (hash code) p q set splits (λ _. refl) rows u,
        row_of-update_where (hash code) p q set splits (λ _. refl) h rows
            ∙ ap (λ c. if h == hash code then c else row_of h rows)
                (claim_cell hash now code user (row_of h rows)),
        answer-update_where (hash code) p q set splits (λ _. refl) rows u
            ∙ claim_answer hash now code user (row_of (hash code) rows),
      )

  consume-Implements :
      (now code user : ℕ)
      → Implements hash
          (consume now code user)
          rows
          (consume_pending_link hash now rows code user)
          h
  unfolding consume_pending_link
  consume-Implements now code user =
      let p = consumable (hash code) now user in
      let q = held_by now user in
      let set = consume_row now in
      let splits = consumable_splits hash now code user in
      (
        Unique-update_where (hash code) p q set splits (λ _. refl) rows u,
        row_of-update_where (hash code) p q set splits (λ _. refl) h rows
            ∙ ap (λ c. if h == hash code then c else row_of h rows)
                (consume_cell hash now code user (row_of h rows)),
        answer-update_where (hash code) p q set splits (λ _. refl) rows u
            ∙ consume_answer hash now code user (row_of (hash code) rows),
      )

  delete_none_erases : (c : Cell) → filtered (λ row. not (claimed_by_any [] row)) c ≡ c
  delete_none_erases none = refl
  delete_none_erases (some row) = refl

  erase-Implements :
      (users : List ℕ)
      → Implements hash
          (erase_users users)
          rows
          ((delete_pending_links_for_users users rows).0, none)
          h
  unfolding delete_pending_links_for_users
  erase-Implements [] = (u, sym (delete_none_erases (row_of h rows)), refl)
  erase-Implements (x ∷ xs) =
      let left = λ (row : PatreonPendingLink). not (claimed_by_any (x ∷ xs) row) in
      (Unique-filter_rows left rows u, row_of-filter h left rows u, refl)

  sweep-Implements :
      (now : ℕ)
      → Implements hash (sweep now) rows ((delete_finished_pending_links now rows).0, none) h
  unfolding delete_finished_pending_links
  sweep-Implements now =
      let left = λ (row : PatreonPendingLink). not (finished now row) in
      (Unique-filter_rows left rows u, row_of-filter h left rows u, refl)

pub any-row_of : (h : ℕ) (rows : Rows) → any (has_hash h) rows ≡ not (is_none (row_of h rows))
any-row_of h [] = refl
any-row_of h (r ∷ rows) = ground (arith, any-row_of h rows)

cell_stage_taken :
    (now h patreon : ℕ) (name : Option ℕ) (level : SupporterLevel) (c : Cell)
    → is_none c ≡ false
    → cell_stage now h patreon name level c ≡ c
cell_stage_taken now h patreon name level none e = cc
cell_stage_taken now h patreon name level (some row) e = refl

cell_stage_fresh :
    (now h patreon : ℕ) (name : Option ℕ) (level : SupporterLevel) (c : Cell)
    → is_none c ≡ true
    → cell_stage now h patreon name level c ≡ some (staged h patreon name level now)
cell_stage_fresh now h patreon name level none e = refl
cell_stage_fresh now h patreon name level (some row) e = cc

-- Two ways to change one cell agree where they agree on that cell.
one_cell :
    (h H : ℕ) (new : Cell) (f : Cell → Cell) (cell : ℕ → Cell)
    → new ≡ f (cell H)
    → (if h == H then new else cell h) ≡ (if h == H then f (cell h) else cell h)
one_cell h H new f cell e = elim (Bool-cases (h == H)) [
  | inl here ↦ rw here (e ∙ ap (λ k. f (cell k)) (sym ((==_iff h H).0 here)))
  | inr elsewhere ↦ rw elsewhere refl
]

module _ (hash : ℕ → ℕ) (h : ℕ) (rows : Rows) (u : Unique (hashes rows)) (now code patreon : ℕ)
    (name : Option ℕ) (level : SupporterLevel) where
  stage_refused :
      any (has_hash (hash code)) rows ≡ true
      → stage_pending_link hash now rows code patreon name level ≡ none
  unfolding stage_pending_link
  stage_refused e = rw e refl

  stage_added :
      any (has_hash (hash code)) rows ≡ false
      → stage_pending_link hash now rows code patreon name level
        ≡ some (rows ++ (staged (hash code) patreon name level now ∷ []), code)
  unfolding stage_pending_link
  stage_added e = rw e refl

  stage-Implements :
      Implements hash
        (stage now code patreon name level)
        rows
        (staged_or rows (stage_pending_link hash now rows code patreon name level), none)
        h
  stage-Implements =
      let here = row_of (hash code) rows in
      let taken = any-row_of (hash code) rows in
      elim (Bool-cases (is_none here)) [
        | inl fresh ↦
            let free = taken ∙ ap not fresh in
            let row = staged (hash code) patreon name level now in
            rw (stage_added free) (
              Unique-stage row rows free u,
              row_of-stage h row rows free
                  ∙ one_cell h (hash code) (some row)
                      (cell_stage now (hash code) patreon name level) (λ k. row_of k rows)
                      (sym (cell_stage_fresh now (hash code) patreon name level here fresh)),
              refl,
            )
        | inr held ↦ rw (stage_refused (taken ∙ ap not held)) (
          u,
          keep (hash code) h
              ∙ one_cell h (hash code) here (cell_stage now (hash code) patreon name level)
                  (λ k. row_of k rows)
                  (sym (cell_stage_taken now (hash code) patreon name level here held)),
          refl,
        )
      ]
    where
      keep : (H k : ℕ) → row_of k rows ≡ (if k == H then row_of H rows else row_of k rows)
      keep H k = elim (Bool-cases (k == H)) [
        | inl same ↦ rw same (ap (λ j. row_of j rows) ((==_iff k H).0 same))
        | inr other ↦ rw other refl
      ]

-- Each statement on the table does to every code's row what the map's transition does, answers
-- what the map answers, and keeps the hashes distinct. The rows have distinct hashes, as the
-- unique column keeps them.
pub run-Implements :
    (hash : ℕ → ℕ) (s : Statement) (rows : Rows) (h : ℕ)
    → Unique (hashes rows)
    → Implements hash s rows (run hash s rows) h
run-Implements hash (stage now code patreon name level) rows h u =
    stage-Implements hash h rows u now code patreon name level
run-Implements hash (claim now code user) rows h u = claim-Implements hash h rows u now code user
run-Implements hash (consume now code user) rows h u =
    consume-Implements hash h rows u now code user
run-Implements hash (sweep now) rows h u = sweep-Implements hash h rows u now
run-Implements hash (erase_users users) rows h u = erase-Implements hash h rows u users
