-- ===== src/Sweeps/Settled.antt =====
-- What a chunk of the deletion sweeps makes of the table: apps/events/mitup_bot/events/
-- warn_meeting_deletions.py and delete_meetings.py.
use mitup_telegram_bot.Base.{
  ℕ, ◌≡◌, refl, ap, ◌∙◌, Bool, true, false, not, ◌&&◌, List, [], ◌∷◌, map, filter, count,
  count-filter, count-ext, weight, leb, ◌==◌, ==_refl, mem, if◌then◌else◌, arith, All, All-imp,
  Absent, Unique,
}
use mitup_telegram_bot.Meeting.{Meetup}
use mitup_telegram_bot.Meeting.Schedule.{record_deletion_warning}
use mitup_telegram_bot.Sweeps.{
  settled, notify_owners, SendAnswer, selected, has_id_of, ChunkRun, about_to_be_deleted, to_delete,
  warn_owner_chunk, delete_owner_chunk, purge_meetups,
}
use mitup_telegram_bot.Sweeps.Groups.{settles, count-notify_owners}

abbrev pub ids : List Meetup → List ℕ
ids = map (λ m. m.id)

mem-count : (n : ℕ) (ms : List Meetup) → mem n (ids ms) ≡ leb 1 (count (λ m. n == m.id) ms)
mem-count n [] = ground arith
mem-count n (m ∷ ms) = ground (arith, mem-count n ms)

module _ (t : Meetup → Bool) where
  -- Rows with one id each: those that have another's are none.
  count-Absent :
      (n : ℕ) (ms : List Meetup)
      → Absent n (ids ms)
      → count (λ other. t other && (n == other.id)) ms ≡ 0
  count-Absent n [] absent = refl
  count-Absent n (m ∷ ms) absent =
      let rest = count-Absent n ms absent.1 in
      let differs = absent.0 in ground (arith, rest, differs)

  count-found :
      (x : Meetup) (xs : List Meetup)
      → Absent x.id (ids xs)
      → count (λ other. t other && (x.id == other.id)) (x ∷ xs) ≡ weight (t x)
  count-found x xs absent =
      let none_else = count-Absent x.id xs absent in
      let self = ==_refl x.id in ground (arith, none_else, self)

  All-skip :
      (x : Meetup) (xs ms : List Meetup)
      → Absent x.id (ids ms)
      → All (λ m. count (λ other. t other && (m.id == other.id)) xs ≡ weight (t m)) ms
      → All (λ m. count (λ other. t other && (m.id == other.id)) (x ∷ xs) ≡ weight (t m)) ms
  All-skip x xs [] absent all = tt
  All-skip x xs (m ∷ ms) absent all =
      let differs = absent.0 in
      let found = all.0 in (ground (arith, differs, found), All-skip x xs ms absent.1 all.1)

  All-found :
      (ms : List Meetup)
      → Unique (ids ms)
      → All (λ m. count (λ other. t other && (m.id == other.id)) ms ≡ weight (t m)) ms
  All-found [] unique = tt
  All-found (x ∷ xs) unique =
      (count-found x xs unique.0, All-skip x xs xs unique.0 (All-found xs unique.1))

and_nest : (a b c : Bool) → (a && (b && c)) ≡ ((a && b) && c)
and_nest true b c = refl
and_nest false b c = refl

leb-weight : (b : Bool) → leb 1 (weight b) ≡ b
leb-weight true = refl
leb-weight false = refl

module _ (statement : Meetup → Bool) (answers : ℕ → SendAnswer) (wants_notice : ℕ → Bool)
    (table : List Meetup) where
  settled_of : List Meetup
  settled_of = settled (notify_owners answers wants_notice (filter statement table))

  -- A row that a chunk of this statement settles.
  abbrev takes : Meetup → Bool
  takes m = statement m && settles answers wants_notice m

  settled-count :
      (n : ℕ)
      → count (λ other. n == other.id) settled_of
        ≡ count (λ other. takes other && (n == other.id)) table
  unfolding settled_of
  settled-count n =
      count-notify_owners (λ other. n == other.id) answers wants_notice (filter statement table)
      ∙ count-filter (λ other. settles answers wants_notice other && (n == other.id)) statement
          table
      ∙ count-ext _ (λ other. takes other && (n == other.id))
          (λ other. and_nest (statement other) (settles answers wants_notice other) (n == other.id))
          table

  has_id-takes :
      (ms : List Meetup)
      → All (λ m. count (λ other. takes other && (m.id == other.id)) table ≡ weight (takes m)) ms
      → All (λ m. has_id_of settled_of m ≡ takes m) ms
  has_id-takes [] all = tt
  has_id-takes (m ∷ ms) all = (
    mem-count m.id settled_of ∙ ap (leb 1) (settled-count m.id ∙ all.0) ∙ leb-weight (takes m),
    has_id-takes ms all.1,
  )

filter-ext :
    (f g : Meetup → Bool) (ms : List Meetup) → All (λ m. f m ≡ g m) ms → filter f ms ≡ filter g ms
filter-ext f g [] all = refl
filter-ext f g (m ∷ ms) all =
    rw all.0 (ap (λ rest. if g m then m ∷ rest else rest) (filter-ext f g ms all.1))

map-ext : (f g : Meetup → Meetup) (ms : List Meetup) → All (λ m. f m ≡ g m) ms → map f ms ≡ map g ms
map-ext f g [] all = refl
map-ext f g (m ∷ ms) all = cc (all.0, map-ext f g ms all.1)

-- A committed chunk of the deletion sweep deletes exactly the meetings that are due at its clock,
-- belong to one of its owners, and whose owner turned the notice off or got an answer from the send
-- that is not a failure; every other row stays, whatever its owner's other meetings. The rows of the
-- table have different ids.
pub delete_owner_chunk_lem :
    (wants_notice : ℕ → Bool) (run : ChunkRun) (owner_ids : List ℕ) (table : List Meetup)
    → Unique (ids table)
    → (delete_owner_chunk wants_notice run owner_ids table).0
      ≡ filter
          (λ m.
            not (selected (to_delete run.now) owner_ids m && settles run.answers wants_notice m))
          table
unfolding delete_owner_chunk purge_meetups settled_of
delete_owner_chunk_lem wants_notice run owner_ids table unique =
    let statement = selected (to_delete run.now) owner_ids in
    filter-ext _ _ table (
      All-imp
        (λ m.
          has_id_of (settled_of statement run.answers wants_notice table) m
          ≡ takes statement run.answers wants_notice table m)
        _ (λ m e. ap not e) table
        (has_id-takes statement run.answers wants_notice table table
          (All-found (takes statement run.answers wants_notice table) table unique)))

-- A committed chunk of the warning sweep records the warning, at its clock, on exactly the meetings
-- whose warning is due, that belong to one of its owners, and whose owner turned the warning off or
-- got an answer from the send that is not a failure; every other row is left as it was. The rows of
-- the table have different ids.
pub warn_owner_chunk_lem :
    (wants_notice : ℕ → Bool) (run : ChunkRun) (owner_ids : List ℕ) (table : List Meetup)
    → Unique (ids table)
    → (warn_owner_chunk wants_notice run owner_ids table).0
      ≡ map
          (λ m.
            if selected (about_to_be_deleted run.now) owner_ids m
              && settles run.answers wants_notice m
            then record_deletion_warning run.now m
            else m)
          table
unfolding warn_owner_chunk settled_of
warn_owner_chunk_lem wants_notice run owner_ids table unique =
    let statement = selected (about_to_be_deleted run.now) owner_ids in
    map-ext _ _ table (
      All-imp
        (λ m.
          has_id_of (settled_of statement run.answers wants_notice table) m
          ≡ takes statement run.answers wants_notice table m)
        _ (λ m e. ap (λ b. if b then record_deletion_warning run.now m else m) e) table
        (has_id-takes statement run.answers wants_notice table table
          (All-found (takes statement run.answers wants_notice table) table unique)))
