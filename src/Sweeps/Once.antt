-- ===== src/Sweeps/Once.antt =====
-- How often a deletion sweep writes to an owner: apps/events/mitup_bot/events/deletion_sweep.py.
use mitup_telegram_bot.Base.{
  ℕ, zero, suc, ◌+◌, ◌≤◌, ◌≡◌, refl, ap, sym, ◌∙◌, Bool, false, not, ◌&&◌, List, [], ◌∷◌, ◌++◌, map,
  filter, count, count-append, count-filter, count-none, count-positive, and_false, and_right,
  count-le, weight, ◌==◌, ==_iff, mem, arith, Bool-cases, inl, inr,
}
use mitup_telegram_bot.Meeting.{Meetup}
use mitup_telegram_bot.Sweeps.{
  append_to, group_from, group_by_owner, partition_by_opt_in, messaged, distinct_ids, split_chunks,
  batched, owner_chunks, selected,
}

abbrev pub keys : List (ℕ × List Meetup) → List ℕ
keys = map (λ group. group.0)

module _ (u : ℕ) where
  abbrev pub is_owner : ℕ → Bool
  is_owner v = u == v

  -- How often the chunks name the owner.
  abbrev pub count_all : List (List ℕ) → ℕ
  count_all [] = 0
  count_all (owner_ids ∷ chunks) = count is_owner owner_ids + count_all chunks

  -- A meeting of a new owner brings a new key, and one of a known owner none.
  count-append_to :
      (m : Meetup) (groups : List (ℕ × List Meetup))
      → count is_owner (keys (append_to m groups))
        ≡ count is_owner (keys groups)
          + weight ((u == m.owner_id) && (count is_owner (keys groups) == 0))
  unfolding append_to
  count-append_to m [] = ground arith
  count-append_to m ((owner, ms) ∷ groups) = ground (arith, count-append_to m groups)

  group_from-once :
      (groups : List (ℕ × List Meetup)) (ms : List Meetup)
      → count is_owner (keys groups) ≤ 1
      → count is_owner (keys (group_from groups ms)) ≤ 1
  unfolding group_from
  group_from-once groups [] h = h
  group_from-once groups (m ∷ ms) h =
      group_from-once (append_to m groups) ms (ground (arith, count-append_to m groups, h))

  group_from-absent :
      (groups : List (ℕ × List Meetup)) (ms : List Meetup)
      → count is_owner (keys groups) ≡ 0
      → count (λ m. u == m.owner_id) ms ≡ 0
      → count is_owner (keys (group_from groups ms)) ≡ 0
  unfolding group_from
  group_from-absent groups [] h e = h
  group_from-absent groups (m ∷ ms) h e =
      group_from-absent (append_to m groups) ms (ground (arith, count-append_to m groups, h, e))
        (ground (arith, e))

  wanted-le :
      (wants_notice : ℕ → Bool) (ms : List Meetup)
      → count (λ m. u == m.owner_id) (partition_by_opt_in wants_notice ms).0
        ≤ count (λ m. u == m.owner_id) ms
  unfolding partition_by_opt_in
  wanted-le wants_notice [] = omega arith
  wanted-le wants_notice (m ∷ ms) = ground (arith, wanted-le wants_notice ms)

  absent-mem : (us : List ℕ) → count is_owner us ≡ 0 → mem u us ≡ false
  absent-mem us h = elim (Bool-cases (mem u us)) [
    | inl found ↦ let some_one = count-positive is_owner us found in absurd (omega arith)
    | inr none_found ↦ none_found
  ]

  -- The owner of a selected row is among the chunk's owners.
  selected-absent :
      (statement : Meetup → Bool) (owner_ids : List ℕ) (table : List Meetup)
      → count is_owner owner_ids ≡ 0
      → count (λ m. u == m.owner_id) (filter (selected statement owner_ids) table) ≡ 0
  selected-absent statement owner_ids [] h = refl
  selected-absent statement owner_ids (m ∷ table) h =
      let rest = selected-absent statement owner_ids table h in
      let gone = absent-mem owner_ids h in
      elim (Bool-cases (u == m.owner_id)) [
        | inl same ↦
            let not_named = ap (λ v. mem v owner_ids) (sym ((==_iff u m.owner_id).0 same)) ∙ gone in
            rw (not_named, and_false (statement m)) rest
        | inr other ↦ ground (arith, rest, other)
      ]

  -- A chunk writes once at most to each of its owners, and to nobody else.
  messaged-count :
      (wants_notice : ℕ → Bool) (statement : Meetup → Bool) (owner_ids : List ℕ)
      (table : List Meetup)
      → count is_owner (messaged wants_notice (filter (selected statement owner_ids) table))
        ≤ count is_owner owner_ids
  unfolding messaged group_by_owner
  messaged-count wants_notice statement owner_ids table =
      let rows = filter (selected statement owner_ids) table in
      let wanted = (partition_by_opt_in wants_notice rows).0 in
      elim (Bool-cases (count is_owner owner_ids == 0)) [
        | inl unnamed ↦
            let zero_named = (==_iff (count is_owner owner_ids) 0).0 unnamed in
            let absent = selected-absent statement owner_ids table zero_named in
            let fewer = wanted-le wants_notice rows in
            let written = group_from-absent [] wanted refl (omega arith) in omega (arith, written)
        | inr named ↦
            let once = group_from-once [] wanted (omega arith) in ground (arith, once, named)
      ]

  split_chunks-count :
      (size room : ℕ) (us : List ℕ)
      → count is_owner (split_chunks size room us).0 + count_all (split_chunks size room us).1
        ≡ count is_owner us
  unfolding split_chunks
  split_chunks-count size room [] = omega arith
  split_chunks-count size zero (v ∷ us) = ground (arith, split_chunks-count size size us)
  split_chunks-count size (suc room) (v ∷ us) = ground (arith, split_chunks-count size room us)

  -- Whatever the size of the chunks, they name each owner as often as the list does.
  batched-count : (size : ℕ) (us : List ℕ) → count_all (batched (suc size) us) ≡ count is_owner us
  unfolding batched split_chunks
  batched-count size [] = refl
  batched-count size (v ∷ us) = ground (arith, split_chunks-count size size us)

  other_than : (v : ℕ) → u ≡ v → (w : ℕ) → (not (v == w) && is_owner w) ≡ false
  other_than v e w = ground (arith, e)

  count-distinct : (us : List ℕ) → count is_owner (distinct_ids us) ≤ 1
  unfolding distinct_ids
  count-distinct [] = omega arith
  count-distinct (v ∷ us) =
      let rest = count-distinct us in
      let others = count-filter is_owner (λ w. not (v == w)) (distinct_ids us) in
      elim (Bool-cases (u == v)) [
        | inl same ↦
            let owner_same = (==_iff u v).0 same in
            let dropped =
              count-none (λ w. not (v == w) && is_owner w) (other_than v owner_same)
                (distinct_ids us) in
            ground (arith, same, others, dropped)
        | inr other ↦
            let fewer =
              count-le (λ w. not (v == w) && is_owner w) is_owner
                (λ w e. and_right (not (v == w)) (is_owner w) e) (distinct_ids us) in
            ground (arith, other, others, fewer, rest)
      ]

-- What the chunks of a sweep write, each to the owners of the rows that its own transaction reads.
pub sweep_messages : (ℕ → Bool) → (ℕ → Meetup → Bool) → (ℕ → List Meetup) → List (List ℕ) → List ℕ
sweep_messages wants_notice statements tables [] = []
sweep_messages wants_notice statements tables (owner_ids ∷ chunks) =
    messaged wants_notice (filter (selected (statements 0) owner_ids) (tables 0))
    ++ sweep_messages wants_notice (λ n. statements (suc n)) (λ n. tables (suc n)) chunks

sweep_messages-count :
    (u : ℕ) (wants_notice : ℕ → Bool) (statements : ℕ → Meetup → Bool) (tables : ℕ → List Meetup)
    (chunks : List (List ℕ))
    → count (is_owner u) (sweep_messages wants_notice statements tables chunks) ≤ count_all u chunks
unfolding sweep_messages
sweep_messages-count u wants_notice statements tables [] = omega arith
sweep_messages-count u wants_notice statements tables (owner_ids ∷ chunks) =
    let here = messaged wants_notice (filter (selected (statements 0) owner_ids) (tables 0)) in
    let there =
      sweep_messages wants_notice (λ n. statements (suc n)) (λ n. tables (suc n)) chunks in
    omega (
      arith,
      count-append (is_owner u) here there,
      messaged-count u wants_notice (statements 0) owner_ids (tables 0),
      sweep_messages-count u wants_notice (λ n. statements (suc n)) (λ n. tables (suc n)) chunks,
    )

at_most_one : {a b c : ℕ} → a ≤ b → b ≡ c → c ≤ 1 → a ≤ 1
at_most_one h e k = omega arith

-- One run of a deletion sweep writes at most one digest to an owner, however many of their meetings
-- are nominated, into however many chunks the owners are split, and whatever each chunk's own
-- transaction finds in the table.
pub written_once :
    (u : ℕ) (wants_notice : ℕ → Bool) (statements : ℕ → Meetup → Bool) (tables : ℕ → List Meetup)
    (nominated : List Meetup)
    → count (is_owner u) (sweep_messages wants_notice statements tables (owner_chunks nominated))
      ≤ 1
unfolding owner_chunks
written_once u wants_notice statements tables nominated =
    at_most_one (sweep_messages-count u wants_notice statements tables (owner_chunks nominated))
      (batched-count u 19 (distinct_ids (map (λ m. m.owner_id) nominated)))
      (count-distinct u (map (λ m. m.owner_id) nominated))
