-- ===== src/Sweeps/Groups.antt =====
-- How the digests of the deletion sweeps sort the meetings: apps/events/mitup_bot/events/
-- deletion_sweep.py.
use mitup_telegram_bot.Base.{
  ℕ, ◌+◌, ◌≡◌, refl, ap, Bool, true, false, not, ◌&&◌, List, [], ◌∷◌, ◌++◌, count, count-append,
  count-cons, weight, ◌==◌, ==_iff, if◌then◌else◌, arith, Bool-cases, inl, inr,
}
use mitup_telegram_bot.Meeting.{Meetup}
use mitup_telegram_bot.Sweeps.{
  SendAnswer, reached, unreachable, raised, NoticeOutcome, no_outcome, settled, partition_by_opt_in,
  append_to, group_from, group_by_owner, bucket, resolve_groups, notify_owners,
}

abbrev pub is_raised : SendAnswer → Bool
is_raised reached = false
is_raised unreachable = false
is_raised raised = true

-- The sum of a count over the groups of some owners.
abbrev pub tally : (ℕ → Bool) → (Meetup → Bool) → List (ℕ × List Meetup) → ℕ
tally q p [] = 0
tally q p ((owner, ms) ∷ groups) = (if q owner then count p ms else 0) + tally q p groups

module _ (q : ℕ → Bool) (p : Meetup → Bool) where
  tally-append_to :
      (m : Meetup) (groups : List (ℕ × List Meetup))
      → tally q p (append_to m groups) ≡ weight (q m.owner_id && p m) + tally q p groups
  unfolding append_to
  tally-append_to m [] = ground arith
  tally-append_to m ((owner, ms) ∷ groups) =
      let rest = tally-append_to m groups in
      let longer = count-append p ms (m ∷ []) in
      elim (Bool-cases (owner == m.owner_id)) [
        | inl same ↦
            let owns = ap q ((==_iff owner m.owner_id).0 same) in ground (arith, same, longer, owns)
        | inr other ↦ ground (arith, other, rest)
      ]

  tally-group_from :
      (groups : List (ℕ × List Meetup)) (ms : List Meetup)
      → tally q p (group_from groups ms) ≡ count (λ m. q m.owner_id && p m) ms + tally q p groups
  unfolding group_from
  tally-group_from groups [] = omega arith
  tally-group_from groups (m ∷ ms) =
      let rest = tally-group_from (append_to m groups) ms in
      let one = tally-append_to m groups in
      let first = count-cons (λ n. q n.owner_id && p n) m ms in omega (arith, rest, one, first)

  -- Grouping loses no meeting and invents none.
  pub tally-group_by_owner :
      (ms : List Meetup) → tally q p (group_by_owner ms) ≡ count (λ m. q m.owner_id && p m) ms
  unfolding group_by_owner
  tally-group_by_owner ms = omega (arith, tally-group_from [] ms)

abbrev pub resolves : (ℕ → SendAnswer) → ℕ → Bool
resolves answers owner = not (is_raised (answers owner))

module _ (p : Meetup → Bool) where
  count-settled :
      (o : NoticeOutcome)
      → count p (settled o)
        ≡ count p o.delivered + count p o.unreachable_meetups + count p o.opted_out
  unfolding settled
  count-settled o = omega (
    arith,
    count-append p (o.delivered ++ o.unreachable_meetups) o.opted_out,
    count-append p o.delivered o.unreachable_meetups,
  )

  count-bucket :
      (answer : SendAnswer) (ms : List Meetup) (o : NoticeOutcome)
      → (count p (settled (bucket answer ms o))
          ≡ (if not (is_raised answer) then count p ms else 0) + count p (settled o))
        × (count p (bucket answer ms o).failed
            ≡ (if is_raised answer then count p ms else 0) + count p o.failed)
  unfolding bucket
  count-bucket reached ms o =
      let after = count-settled (record o { delivered = ms ++ o.delivered }) in
      let before = count-settled o in
      let longer = count-append p ms o.delivered in
      (omega (arith, after, before, longer), omega arith)
  count-bucket unreachable ms o =
      let after = count-settled (record o { unreachable_meetups = ms ++ o.unreachable_meetups }) in
      let before = count-settled o in
      let longer = count-append p ms o.unreachable_meetups in
      (omega (arith, after, before, longer), omega arith)
  count-bucket raised ms o =
      let after = count-settled (record o { failed = ms ++ o.failed }) in
      let before = count-settled o in
      (omega (arith, after, before), omega (arith, count-append p ms o.failed))

  count-resolve_groups :
      (answers : ℕ → SendAnswer) (groups : List (ℕ × List Meetup)) (o : NoticeOutcome)
      → (count p (settled (resolve_groups answers groups o))
          ≡ tally (resolves answers) p groups + count p (settled o))
        × (count p (resolve_groups answers groups o).failed
            ≡ tally (λ owner. is_raised (answers owner)) p groups + count p o.failed)
  unfolding resolve_groups
  count-resolve_groups answers [] o = (omega arith, omega arith)
  count-resolve_groups answers ((owner, ms) ∷ groups) o =
      let rest = count-resolve_groups answers groups o in
      let one = count-bucket (answers owner) ms (resolve_groups answers groups o) in
      (omega (arith, rest, one), omega (arith, rest, one))

  count-partition :
      (wants_notice : ℕ → Bool) (ms : List Meetup)
      → (count p (partition_by_opt_in wants_notice ms).0
          ≡ count (λ m. wants_notice m.owner_id && p m) ms)
        × (count p (partition_by_opt_in wants_notice ms).1
            ≡ count (λ m. not (wants_notice m.owner_id) && p m) ms)
  unfolding partition_by_opt_in
  count-partition wants_notice [] = (refl, refl)
  count-partition wants_notice (m ∷ ms) = ground (arith, count-partition wants_notice ms)

-- A meeting is settled unless the send to an owner who wants it raised.
abbrev pub settles : (ℕ → SendAnswer) → (ℕ → Bool) → Meetup → Bool
settles answers wants_notice m =
    if wants_notice m.owner_id then not (is_raised (answers m.owner_id)) else true

count-either :
    (w r p : Meetup → Bool) (ms : List Meetup)
    → count (λ m. w m && (r m && p m)) ms + count (λ m. not (w m) && p m) ms
      ≡ count (λ m. (if w m then r m else true) && p m) ms
count-either w r p [] = omega arith
count-either w r p (m ∷ ms) = ground (arith, count-either w r p ms)

-- Of the meetings handed to it, a notice settles those that it should, each once.
pub count-notify_owners :
    (p : Meetup → Bool) (answers : ℕ → SendAnswer) (wants_notice : ℕ → Bool) (ms : List Meetup)
    → count p (settled (notify_owners answers wants_notice ms))
      ≡ count (λ m. settles answers wants_notice m && p m) ms
unfolding notify_owners
count-notify_owners p answers wants_notice ms =
    let parts = partition_by_opt_in wants_notice ms in
    let start = record no_outcome { opted_out = parts.1 } in
    let resolved = (count-resolve_groups p answers (group_by_owner parts.0) start).0 in
    let begun = count-settled p start in
    let grouped = tally-group_by_owner (resolves answers) p parts.0 in
    let wanted = (count-partition (λ m. resolves answers m.owner_id && p m) wants_notice ms).0 in
    let unwanted = (count-partition p wants_notice ms).1 in
    let both =
      count-either (λ m. wants_notice m.owner_id) (λ m. resolves answers m.owner_id) p ms in
    omega (arith, resolved, begun, grouped, wanted, unwanted, both)
