-- ===== src/Meeting/Links.antt =====
-- Lemmas on the list of links that models/meetups.py keeps: distinct users, the in-place change of
-- one link, and the sort by arrival.
use mitup_telegram_bot.Base.{
  ℕ, suc, ◌+◌, ◌≡◌, refl, ap, ◌∙◌, ◌≢◌, inl, inr, Bool, true, false, List, [], ◌∷◌, map, ◌==◌,
  arith, filter, count, length, All, Absent, Unique, Bool-cases, ==_refl, if◌then◌else◌,
}
use mitup_telegram_bot.Meeting.{
  JoinedUsers, is_waiting, is_confirmed, key_le, insert, sorted, set_confirmed,
}

abbrev pub ids : List JoinedUsers → List ℕ
ids = map (λ l. l.user_id)

-- The link of one user taken out.
abbrev pub erase : ℕ → List JoinedUsers → List JoinedUsers
erase u [] = []
erase u (l ∷ ls) = if l.user_id == u then ls else l ∷ erase u ls

abbrev pub IsSorted : List JoinedUsers → Type 0
IsSorted [] = Unit
IsSorted (l ∷ ls) = All (λ m. key_le l m ≡ true) ls × IsSorted ls

key_le_trans : (a b c : JoinedUsers) → key_le a b ≡ true → key_le b c ≡ true → key_le a c ≡ true
key_le_trans a b c h k = ground arith

key_le_total : (a b : JoinedUsers) → key_le a b ≡ false → key_le b a ≡ true
key_le_total a b h = ground arith

pub Absent-filter :
    (u : ℕ) (p : JoinedUsers → Bool) (ls : List JoinedUsers)
    → Absent u (ids ls)
    → Absent u (ids (filter p ls))
Absent-filter u p [] h = tt
Absent-filter u p (l ∷ ls) h = ground (arith, Absent-filter u p ls h.1)

pub Unique-filter :
    (p : JoinedUsers → Bool) (ls : List JoinedUsers) → Unique (ids ls) → Unique (ids (filter p ls))
Unique-filter p [] h = tt
Unique-filter p (l ∷ ls) h =
    ground (arith, Unique-filter p ls h.1, Absent-filter l.user_id p ls h.0)

Absent-insert :
    (u : ℕ) (x : JoinedUsers) (ls : List JoinedUsers)
    → x.user_id ≢ u
    → Absent u (ids ls)
    → Absent u (ids (insert x ls))
unfolding insert
Absent-insert u x [] h k = (h, tt)
Absent-insert u x (l ∷ ls) h k = ground (arith, Absent-insert u x ls h k.1)

Absent-sorted : (u : ℕ) (ls : List JoinedUsers) → Absent u (ids ls) → Absent u (ids (sorted ls))
unfolding sorted
Absent-sorted u [] h = tt
Absent-sorted u (l ∷ ls) h = Absent-insert u l (sorted ls) h.0 (Absent-sorted u ls h.1)

All-insert {κ} :
    (P : JoinedUsers → Type κ) (x : JoinedUsers) (ls : List JoinedUsers)
    → P x
    → All P ls
    → All P (insert x ls)
unfolding insert
All-insert P x [] h k = (h, tt)
All-insert P x (l ∷ ls) h k = elim (Bool-cases (key_le x l)) [
  | inl first ↦ rw first (h, k)
  | inr later ↦ rw later (k.0, All-insert P x ls h k.1)
]

below-All :
    (x l : JoinedUsers) (ls : List JoinedUsers)
    → key_le x l ≡ true
    → All (λ m. key_le l m ≡ true) ls
    → All (λ m. key_le x m ≡ true) ls
below-All x l [] h k = tt
below-All x l (m ∷ ls) h k = (key_le_trans x l m h k.0, below-All x l ls h k.1)

IsSorted-insert : (x : JoinedUsers) (ls : List JoinedUsers) → IsSorted ls → IsSorted (insert x ls)
unfolding insert
IsSorted-insert x [] h = (tt, tt)
IsSorted-insert x (l ∷ ls) h = elim (Bool-cases (key_le x l)) [
  | inl first ↦ rw first ((first, below-All x l ls first h.0), h)
  | inr later ↦ rw later (
    All-insert (λ m. key_le l m ≡ true) x ls (key_le_total x l later) h.0,
    IsSorted-insert x ls h.1,
  )
]

-- The sort sorts.
pub sorted-IsSorted : (ls : List JoinedUsers) → IsSorted (sorted ls)
unfolding sorted
sorted-IsSorted [] = tt
sorted-IsSorted (l ∷ ls) = IsSorted-insert l (sorted ls) (sorted-IsSorted ls)

length-insert : (x : JoinedUsers) (ls : List JoinedUsers) → length (insert x ls) ≡ length ls + 1
unfolding insert
length-insert x [] = omega arith
length-insert x (l ∷ ls) = ground (arith, length-insert x ls)

pub length-sorted : (ls : List JoinedUsers) → length (sorted ls) ≡ length ls
unfolding sorted
length-sorted [] = refl
length-sorted (l ∷ ls) = omega (arith, length-insert l (sorted ls), length-sorted ls)

erase-Absent : (u : ℕ) (ls : List JoinedUsers) → Absent u (ids ls) → erase u ls ≡ ls
erase-Absent u [] h = refl
erase-Absent u (l ∷ ls) h = ground (arith, erase-Absent u ls h.1)

erase-insert_self :
    (x : JoinedUsers) (ls : List JoinedUsers)
    → Absent x.user_id (ids ls)
    → erase x.user_id (insert x ls) ≡ ls
unfolding insert
erase-insert_self x [] h = rw (==_refl x.user_id)
erase-insert_self x (l ∷ ls) h = ground (arith, erase-insert_self x ls h.1)

insert_first :
    (x : JoinedUsers) (ls : List JoinedUsers)
    → All (λ m. key_le x m ≡ true) ls
    → insert x ls ≡ x ∷ ls
unfolding insert
insert_first x [] h = refl
insert_first x (l ∷ ls) h = rw h.0

erase-insert_ne :
    (u : ℕ) (x : JoinedUsers) (ls : List JoinedUsers)
    → x.user_id ≢ u
    → IsSorted ls
    → erase u (insert x ls) ≡ insert x (erase u ls)
unfolding insert
erase-insert_ne u x [] h s = ground arith
erase-insert_ne u x (l ∷ ls) h s = ground (
  arith,
  erase-insert_ne u x ls h s.1,
  λ (e : key_le x l ≡ true). insert_first x ls (below-All x l ls e s.0),
)

erase-sorted :
    (u : ℕ) (ls : List JoinedUsers) → Unique (ids ls) → sorted (erase u ls) ≡ erase u (sorted ls)
unfolding sorted
erase-sorted u [] h = refl
erase-sorted u (l ∷ ls) h = ground (
  arith,
  erase-insert_self l (sorted ls) (Absent-sorted l.user_id ls h.0),
  λ (e : l.user_id ≢ u). erase-insert_ne u l (sorted ls) e (sorted-IsSorted ls),
  erase-sorted u ls h.1,
)

-- Confirming one link takes it out of the waiting links and leaves the others.
filter-set_confirmed :
    (u : ℕ) (ls : List JoinedUsers)
    → Unique (ids ls)
    → filter is_waiting (set_confirmed u ls) ≡ erase u (filter is_waiting ls)
unfolding set_confirmed
filter-set_confirmed u [] h = refl
filter-set_confirmed u (l ∷ ls) h = ground (
  arith,
  erase-Absent l.user_id (filter is_waiting ls) (Absent-filter l.user_id is_waiting ls h.0),
  filter-set_confirmed u ls h.1,
)

pub ids-set_confirmed : (u : ℕ) (ls : List JoinedUsers) → ids (set_confirmed u ls) ≡ ids ls
unfolding set_confirmed
ids-set_confirmed u [] = refl
ids-set_confirmed u (l ∷ ls) = ground (arith, ids-set_confirmed u ls)

-- The waiting queue behind its first link, once that link is confirmed.
pub queue-set_confirmed :
    (u : ℕ) (ls : List JoinedUsers)
    → Unique (ids ls)
    → sorted (filter is_waiting (set_confirmed u ls)) ≡ erase u (sorted (filter is_waiting ls))
queue-set_confirmed u ls h =
    ap sorted (filter-set_confirmed u ls h)
    ∙ erase-sorted u (filter is_waiting ls) (Unique-filter is_waiting ls h)

-- Every link is confirmed or waiting.
pub counts-length :
    (ls : List JoinedUsers) → count is_confirmed ls + count is_waiting ls ≡ length ls
counts-length [] = omega arith
counts-length (l ∷ ls) = ground (arith, counts-length ls)

pub length-ids : (ls : List JoinedUsers) → length (ids ls) ≡ length ls
length-ids [] = refl
length-ids (l ∷ ls) = ap suc (length-ids ls)

pub erase_head : (l : JoinedUsers) (ls : List JoinedUsers) → erase l.user_id (l ∷ ls) ≡ ls
erase_head l ls = rw (==_refl l.user_id)
