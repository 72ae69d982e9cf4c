-- ===== src/PendingLinks/Unnoticed.antt =====
-- What the sweep of finished links changes for those who redeem codes after it:
-- libs/patreon/mitup_bot/patreon/pending_links.py.
use mitup_telegram_bot.Base.{
  ℕ, ◌≡◌, ◌≤◌, ◌==◌, refl, ap, sym, ◌∙◌, Bool, true, false, not, ◌&&◌, Option, none, some, List, [],
  ◌∷◌, is_none, if◌then◌else◌, filtered, Unique, ◌⊎◌, inl, inr, Bool-cases, ==_iff, arith, All,
  subst,
}
use mitup_telegram_bot.PendingLinks.{PatreonPendingLink, ClaimedLink, finished, claimed_by_any}
use mitup_telegram_bot.PendingLinks.Table.{hashes, row_of}
use mitup_telegram_bot.PendingLinks.Spec.{
  Statement, stage, claim, consume, sweep, erase_users, Rows, run, Cell, cell_claim, cell_consume,
  cell_after, answer, usable, free_for, held_by,
}
use mitup_telegram_bot.PendingLinks.Refinement.{run-Implements}

-- What the statements answer, one after the other.
abbrev pub answers : (ℕ → ℕ) → List Statement → Rows → List (Option ClaimedLink)
answers hash [] rows = []
answers hash (s ∷ ss) rows = (run hash s rows).1 ∷ answers hash ss (run hash s rows).0

if_no {ℓ} : {A : Type ℓ} (b : Bool) (x y : A) → b ≡ false → (if b then x else y) ≡ y
if_no true x y e = cc e
if_no false x y e = refl

if_same {ℓ} : {A : Type ℓ} (b : Bool) (x : A) → (if b then x else x) ≡ x
if_same true x = refl
if_same false x = refl

module _ (hash : ℕ → ℕ) (now : ℕ) (swept_rows : Rows) where
  -- A statement that runs after the moment, and stages only a code that was not in the table.
  abbrev pub Later : Statement → Type 0
  Later (stage t code patreon name level) = is_none (row_of (hash code) swept_rows) ≡ true
  Later (claim t code user) = now ≤ t
  Later (consume t code user) = now ≤ t
  Later (sweep t) = now ≤ t
  Later (erase_users users) = Unit

  -- A code's row with the sweep and without: the same, or one that the sweep has taken.
  Twin : ℕ → Cell → Cell → Type 0
  Twin h c c' =
      (c ≡ c')
      ⊎ ((row : PatreonPendingLink) × ((c ≡ some row)
            × ((finished now row ≡ true)
                × ((c' ≡ none) × (is_none (row_of h swept_rows) ≡ false)))))

  taken :
      (h : ℕ) (c c' : Cell) (row : PatreonPendingLink)
      → finished now row ≡ true
      → is_none (row_of h swept_rows) ≡ false
      → c ≡ some row
      → c' ≡ none
      → Twin h c c'
  unfolding Twin
  taken h c c' row fin old e e' = inr (row, (e, (fin, (e', old))))

  no_use :
      (t : ℕ) (row : PatreonPendingLink) (whose : Bool)
      → finished now row ≡ true
      → now ≤ t
      → (usable t row && whose) ≡ false
  no_use t row whose fin le = ground arith

  claim-finished :
      (t user : ℕ) (row : PatreonPendingLink)
      → finished now row ≡ true
      → now ≤ t
      → cell_claim t user (some row) ≡ (some row, none)
  claim-finished t user row fin le = if_no (free_for t user row) _ _ (no_use t row _ fin le)

  consume-finished :
      (t user : ℕ) (row : PatreonPendingLink)
      → finished now row ≡ true
      → now ≤ t
      → cell_consume t user (some row) ≡ (some row, none)
  consume-finished t user row fin le = if_no (held_by t user row) _ _ (no_use t row _ fin le)

  sweep-finished :
      (t : ℕ) (row : PatreonPendingLink) → finished now row ≡ true → now ≤ t → finished t row ≡ true
  sweep-finished t row fin le = ground arith

  -- A statement that works on one hash leaves both rows as they are, or is another's.
  at_one :
      (h k : ℕ) (row : PatreonPendingLink) (some_after : Cell)
      → some_after ≡ some row
      → (if h == k then some_after else some row) ≡ some row
  at_one h k row some_after e =
      ap (λ c. if h == k then c else some row) e ∙ if_same (h == k) (some row)

  not_staged :
      (h : ℕ) (code : ℕ)
      → is_none (row_of h swept_rows) ≡ false
      → is_none (row_of (hash code) swept_rows) ≡ true
      → (h == hash code) ≡ false
  not_staged h code old new = elim (Bool-cases (h == hash code)) [
    | inl same ↦
        absurd
          (cc (old, new, ap (λ k. is_none (row_of k swept_rows)) ((==_iff h (hash code)).0 same)))
    | inr other ↦ other
  ]

  -- The two rows stay twins, and the statement answers the same.
  after-Twin :
      (h : ℕ) (s : Statement) (c c' : Cell)
      → Later s
      → Twin h c c'
      → Twin h (cell_after hash h s c) (cell_after hash h s c')
  unfolding Twin
  after-Twin h s c c' later (inl e) = inl (ap (cell_after hash h s) e)
  after-Twin h (stage t code patreon name level) c c' later (inr (row, (e, (fin, (e', old))))) =
      let other = not_staged h code old later in
      taken h _ _ row fin old (if_no (h == hash code) _ _ other ∙ e)
        (if_no (h == hash code) _ _ other ∙ e')
  after-Twin h (claim t code user) c c' later (inr (row, (e, (fin, (e', old))))) =
      taken h _ _ row fin old
        (ap (cell_after hash h (claim t code user)) e
          ∙ at_one h (hash code) row _ (ap (λ r. r.0) (claim-finished t user row fin later)))
        (ap (cell_after hash h (claim t code user)) e' ∙ if_same (h == hash code) none)
  after-Twin h (consume t code user) c c' later (inr (row, (e, (fin, (e', old))))) =
      taken h _ _ row fin old
        (ap (cell_after hash h (consume t code user)) e
          ∙ at_one h (hash code) row _ (ap (λ r. r.0) (consume-finished t user row fin later)))
        (ap (cell_after hash h (consume t code user)) e' ∙ if_same (h == hash code) none)
  after-Twin h (sweep t) c c' later (inr (row, (e, (fin, (e', old))))) = inl (
      ap (cell_after hash h (sweep t)) e
      ∙ if_no (not (finished t row)) _ _ (ap not (sweep-finished t row fin later))
      ∙ sym (ap (cell_after hash h (sweep t)) e'))
  after-Twin h (erase_users users) c c' later (inr (row, (e, (fin, (e', old))))) =
      elim (Bool-cases (not (claimed_by_any users row))) [
        | inl stays ↦
            taken h _ _ row fin old (ap (cell_after hash h (erase_users users)) e ∙ rw stays refl)
              (ap (cell_after hash h (erase_users users)) e')
        | inr gone ↦ inl (
            ap (cell_after hash h (erase_users users)) e
            ∙ if_no (not (claimed_by_any users row)) _ _ gone
            ∙ sym (ap (cell_after hash h (erase_users users)) e'))
      ]

  answer-Twin :
      (s : Statement) (f g : ℕ → Cell)
      → Later s
      → ((h : ℕ) → Twin h (f h) (g h))
      → answer hash s f ≡ answer hash s g
  unfolding Twin
  answer-Twin (stage t code patreon name level) f g later twins = refl
  answer-Twin (claim t code user) f g later twins = elim (twins (hash code)) [
    | inl e ↦ ap (λ c. (cell_claim t user c).1) e
    | inr (row, (e, (fin, (e', old)))) ↦
        ap (λ c. (cell_claim t user c).1) e
        ∙ ap (λ r. r.1) (claim-finished t user row fin later)
        ∙ sym (ap (λ c. (cell_claim t user c).1) e')
  ]
  answer-Twin (consume t code user) f g later twins = elim (twins (hash code)) [
    | inl e ↦ ap (λ c. (cell_consume t user c).1) e
    | inr (row, (e, (fin, (e', old)))) ↦
        ap (λ c. (cell_consume t user c).1) e
        ∙ ap (λ r. r.1) (consume-finished t user row fin later)
        ∙ sym (ap (λ c. (cell_consume t user c).1) e')
  ]
  answer-Twin (sweep t) f g later twins = refl
  answer-Twin (erase_users users) f g later twins = refl

  answers-Twin :
      (ss : List Statement) (a b : Rows)
      → Unique (hashes a)
      → Unique (hashes b)
      → ((h : ℕ) → Twin h (row_of h a) (row_of h b))
      → All Later ss
      → answers hash ss a ≡ answers hash ss b
  answers-Twin [] a b u v twins later = refl
  answers-Twin (s ∷ ss) a b u v twins later =
      let ran = run-Implements hash s a in
      let ran' = run-Implements hash s b in
      let first =
        (ran 0 u).2
        ∙ answer-Twin s (λ h. row_of h a) (λ h. row_of h b) later.0 twins
        ∙ sym (ran' 0 v).2 in
      let rest =
        answers-Twin ss (run hash s a).0 (run hash s b).0 (ran 0 u).0 (ran' 0 v).0
          (λ h.
            subst (λ c. Twin h c (row_of h (run hash s b).0)) (sym (ran h u).1)
              (subst (Twin h (cell_after hash h s (row_of h a))) (sym (ran' h v).1)
                (after-Twin h s (row_of h a) (row_of h b) later.0 (twins h))))
          later.1 in
      ap (λ r. r ∷ answers hash ss (run hash s a).0) first ∙ ap (λ rs. (run hash s b).1 ∷ rs) rest

swept-Twin :
    (hash : ℕ → ℕ) (now : ℕ) (rows : Rows) (h : ℕ) (c : Cell)
    → row_of h rows ≡ c
    → Twin hash now rows h c (filtered (λ (row : PatreonPendingLink). not (finished now row)) c)
unfolding Twin
swept-Twin hash now rows h none e = inl refl
swept-Twin hash now rows h (some row) e = elim (Bool-cases (finished now row)) [
  | inl fin ↦
      inr (row, (refl, (fin, (if_no (not (finished now row)) _ _ (ap not fin), ap is_none e))))
  | inr open_link ↦ inl (rw open_link refl)
]

-- Whatever statements run from the sweep's moment on, with clocks from then on, every claim and
-- every consume among them answers after the sweep what it answers without it: the sweep takes only
-- links that nobody can redeem any more. A code that is staged later is not one of the table's. The
-- table's hashes are distinct. What a failed redemption is put down to, and the finished link that a
-- repeated tap reads, are no part of these answers: those do change.
pub sweep_unnoticed :
    (hash : ℕ → ℕ) (now : ℕ) (rows : Rows) (ss : List Statement)
    → Unique (hashes rows)
    → All (Later hash now rows) ss
    → answers hash ss (run hash (sweep now) rows).0 ≡ answers hash ss rows
sweep_unnoticed hash now rows ss u later =
    let swept = run-Implements hash (sweep now) rows in
    sym (
      answers-Twin hash now rows ss rows (run hash (sweep now) rows).0 u (swept 0 u).0
        (λ h.
          subst (Twin hash now rows h (row_of h rows)) (sym (swept h u).1)
            (swept-Twin hash now rows h (row_of h rows) refl))
        later)
