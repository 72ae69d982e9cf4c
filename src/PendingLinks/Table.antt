-- ===== src/PendingLinks/Table.antt =====
-- The table of pending_links.py as a map from code hashes to rows, and each statement as what it
-- does to that map.
use mitup_telegram_bot.Base.{
  ℕ, ◌≡◌, ◌≢◌, refl, inl, inr, Bool, false, ◌&&◌, Option, none, some, List, [], ◌∷◌, ◌++◌, map,
  ◌==◌, filter, find, any, if◌then◌else◌, filtered, Absent, Unique, Bool-cases, arith,
}
use mathlib.Core.Option
use mitup_telegram_bot.PendingLinks.{PatreonPendingLink, has_hash}

abbrev pub hashes : List PatreonPendingLink → List ℕ
hashes = map (λ row. row.code_hash)

-- The row of a hash.
abbrev pub row_of : ℕ → List PatreonPendingLink → Option PatreonPendingLink
row_of h = find (has_hash h)

module _ (h : ℕ) (p : PatreonPendingLink → Bool) where
  Absent-find :
      (q : PatreonPendingLink → Bool) (rows : List PatreonPendingLink)
      → Absent h (hashes rows)
      → find (λ row. has_hash h row && q row) rows ≡ none
  Absent-find q [] a = refl
  Absent-find q (r ∷ rows) a = ground (arith, Absent-find q rows a.1)

  Absent-row_of : (rows : List PatreonPendingLink) → Absent h (hashes rows) → row_of h rows ≡ none
  Absent-row_of [] a = refl
  Absent-row_of (r ∷ rows) a = ground (arith, Absent-row_of rows a.1)

  Absent-filter_rows :
      (rows : List PatreonPendingLink) → Absent h (hashes rows) → Absent h (hashes (filter p rows))
  Absent-filter_rows [] a = tt
  Absent-filter_rows (r ∷ rows) a = ground (arith, Absent-filter_rows rows a.1)

  -- A filter that names the hash reads the row of that hash alone.
  pub find-hash :
      (rows : List PatreonPendingLink)
      → Unique (hashes rows)
      → find (λ row. has_hash h row && p row) rows ≡ filtered p (row_of h rows)
  find-hash [] u = refl
  find-hash (r ∷ rows) u =
      ground (arith, find-hash rows u.1, Absent-row_of rows, Absent-find p rows)

  pub row_of-filter :
      (rows : List PatreonPendingLink)
      → Unique (hashes rows)
      → row_of h (filter p rows) ≡ filtered p (row_of h rows)
  row_of-filter [] u = refl
  row_of-filter (r ∷ rows) u = ground (arith, row_of-filter rows u.1, Absent-row_of rows)

pub Unique-filter_rows :
    (p : PatreonPendingLink → Bool) (rows : List PatreonPendingLink)
    → Unique (hashes rows)
    → Unique (hashes (filter p rows))
Unique-filter_rows p [] u = tt
Unique-filter_rows p (r ∷ rows) u =
    ground (arith, Unique-filter_rows p rows u.1, Absent-filter_rows r.code_hash p rows u.0)

pub row_of-stage :
    (h : ℕ) (row : PatreonPendingLink) (rows : List PatreonPendingLink)
    → any (has_hash row.code_hash) rows ≡ false
    → row_of h (rows ++ (row ∷ [])) ≡ (if h == row.code_hash then some row else row_of h rows)
row_of-stage h row [] e = ground arith
row_of-stage h row (r ∷ rows) e = ground (arith, row_of-stage h row rows)

Absent-stage :
    (h : ℕ) (row : PatreonPendingLink) (rows : List PatreonPendingLink)
    → row.code_hash ≢ h
    → Absent h (hashes rows)
    → Absent h (hashes (rows ++ (row ∷ [])))
Absent-stage h row [] k a = (k, tt)
Absent-stage h row (r ∷ rows) k a = (a.0, Absent-stage h row rows k a.1)

pub Unique-stage :
    (row : PatreonPendingLink) (rows : List PatreonPendingLink)
    → any (has_hash row.code_hash) rows ≡ false
    → Unique (hashes rows)
    → Unique (hashes (rows ++ (row ∷ [])))
Unique-stage row [] e u = (tt, tt)
Unique-stage row (r ∷ rows) e u =
    ground (arith, Unique-stage row rows, Absent-stage r.code_hash row rows)

module _ (p : PatreonPendingLink → Bool) (set : PatreonPendingLink → PatreonPendingLink)
    (same : (row : PatreonPendingLink) → (set row).code_hash ≡ row.code_hash) where
  abbrev pub set_where : PatreonPendingLink → PatreonPendingLink
  set_where row = if p row then set row else row

  set_where_hash : (row : PatreonPendingLink) → (set_where row).code_hash ≡ row.code_hash
  set_where_hash row = elim (Bool-cases (p row)) [
    | inl admitted ↦ rw admitted (same row)
    | inr refused ↦ rw refused refl
  ]

  pub hashes-update : (rows : List PatreonPendingLink) → hashes (map set_where rows) ≡ hashes rows
  hashes-update [] = refl
  hashes-update (r ∷ rows) = rw (set_where_hash r, hashes-update rows) refl

  pub row_of-update :
      (h : ℕ) (rows : List PatreonPendingLink)
      → row_of h (map set_where rows) ≡ Option.map set_where (row_of h rows)
  row_of-update h [] = refl
  row_of-update h (r ∷ rows) = ground (arith, row_of-update h rows, set_where_hash r)
