-- ===== src/RateLimiter/Pauses.antt =====
-- How long a request waits after rate_limiter.py has held a pause.
use mitup_telegram_bot.Base.{
  ℕ, ◌+◌, ◌-◌, ◌≡◌, ◌≤◌, max, refl, Bool, true, false, Option, none, some, leb, inl, inr,
  if◌then◌else◌, Bool-cases, arith,
}
use mitup_telegram_bot.RateLimiter.{
  RequestKey, RetryAfterPauses, key_eq, or_zero, remaining, unless_elapsed, prune, hold,
}

-- The requests that a pause holds back: its key's, or all where it belongs to no key.
abbrev pub applies : Option RequestKey → Option RequestKey → Bool
applies none k = true
applies (some key) none = false
applies (some key) (some k) = key_eq k key

pruned_left :
    (now t g : ℕ) (d : Option ℕ)
    → now ≤ t
    → max (or_zero (unless_elapsed now d)) g - t ≡ max (or_zero d) g - t
pruned_left now t g none le = refl
pruned_left now t g (some d) le = elim (Bool-cases (leb d now)) [
  | inl elapsed ↦ rw elapsed (go (leb-le d now elapsed))
  | inr ahead ↦ rw ahead refl
]
  where
    leb-le : (a b : ℕ) → leb a b ≡ true → a ≤ b
    leb-le a b e = ground arith

    go : d ≤ now → max 0 g - t ≡ max d g - t
    go h = omega (arith, h, le)

key_left :
    (now t g s : ℕ) (d : Option ℕ) (same : Bool)
    → now ≤ t
    → max
          (or_zero (
            if same
            then some (max (or_zero (unless_elapsed now d)) (now + s))
            else unless_elapsed now d))
          g
        - t
      ≡ max (max (or_zero d) g - t) (if same then now + s - t else 0)
key_left now t g s d true le = omega (arith, pruned_left now t g d le)
key_left now t g s d false le = omega (arith, pruned_left now t g d le)

all_left :
    (now t g s : ℕ) (d : Option ℕ)
    → now ≤ t
    → max (or_zero (unless_elapsed now d)) (max g (now + s)) - t
      ≡ max (max (or_zero d) g - t) (now + s - t)
all_left now t g s d le = omega (arith, pruned_left now t g d le)

-- A pause that is held at `now` for `s` makes the requests it applies to wait until `now + s` at
-- least, and changes no other wait: at every later moment, what is left for a key is the longer of
-- what was left before and what is left of the new pause. Dropping the elapsed pauses shows in
-- nothing.
pub remaining-hold :
    (now t s : ℕ) (key k : Option RequestKey) (pauses : RetryAfterPauses)
    → now ≤ t
    → remaining t k (hold now key s pauses)
      ≡ max (remaining t k pauses) (if applies key k then now + s - t else 0)
unfolding remaining hold prune
remaining-hold now t s none none pauses le = omega arith
remaining-hold now t s none (some k) pauses le =
    all_left now t pauses.global_deadline s (pauses.deadlines k) le
remaining-hold now t s (some key) none pauses le = omega arith
remaining-hold now t s (some key) (some k) pauses le =
    key_left now t pauses.global_deadline s (pauses.deadlines k) (key_eq k key) le
