-- ===== src/Sweeps/Windows.antt =====
-- When the deletion sweeps take a meeting: apps/events/mitup_bot/events/warn_meeting_deletions.py
-- and delete_meetings.py.
use mitup_telegram_bot.Base.{
  ℕ, ◌+◌, ◌*◌, ◌%◌, ◌<◌, ◌≤◌, ◌≡◌, refl, ap, sym, ◌∙◌, subst, Bool, true, false, not, ◌&&◌, Option,
  none, some, List, [], ◌∷◌, map, filter, ltb_iff, and_iff, if◌then◌else◌, arith, ◌↔◌, All, All-imp,
  Unique, Bool-cases, inl, inr,
}
use mitup_telegram_bot.Supporter.Lifecycle.{
  LifecyclePolicy, get, day, free_policy, patron_policy, owner_tier_window_elapsed_lem,
}
use mitup_telegram_bot.Supporter.{SupporterLevel, none_level, host_1, host_2, host_3}
use mitup_telegram_bot.Meeting.{Meetup}
use mitup_telegram_bot.Meeting.Schedule.{record_deletion_warning, lifecycle_policy}
use mitup_telegram_bot.Sweeps.{
  ChunkRun, selected, window_elapsed, about_to_be_deleted, to_delete, warn_owner_chunk,
  delete_owner_chunk,
}
use mitup_telegram_bot.Sweeps.Groups.{settles}
use mitup_telegram_bot.Sweeps.Settled.{ids, delete_owner_chunk_lem, warn_owner_chunk_lem}

-- The stamp is there, and the duration after it is past.
abbrev pub PastWindow : Option ℕ → ℕ → ℕ → Type 0
PastWindow none duration now = ⊥
PastWindow (some stamp) duration now = stamp + duration < now

pub window_elapsed_iff :
    (duration_of : LifecyclePolicy → ℕ) (stamp : Option ℕ) (now : ℕ) (m : Meetup)
    → duration_of free_policy % day ≡ 0
    → duration_of patron_policy % day ≡ 0
    → (window_elapsed duration_of stamp now m ≡ true)
      ↔ PastWindow stamp (duration_of (lifecycle_policy m)) now
unfolding window_elapsed
window_elapsed_iff duration_of none now m h k = ground arith
window_elapsed_iff duration_of (some stamp) now m h k =
    rw (owner_tier_window_elapsed_lem duration_of stamp now m.owner_level h k)
      (ltb_iff (stamp + duration_of (lifecycle_policy m)) now)

-- The deletion statement selects a meeting exactly when its warning is recorded and both of its
-- owner's windows are past: the retention since it expired, and the whole lead since the warning.
pub to_delete_iff :
    (now : ℕ) (m : Meetup)
    → (to_delete now m ≡ true) ↔ (
        (m.expiration_notification_sent ≡ true)
        × (PastWindow m.expiration_time (lifecycle_policy m).inactive_retention now
            × PastWindow m.warned_time (lifecycle_policy m).deletion_warning_lead now))
unfolding to_delete
to_delete_iff now m =
    let retention =
      window_elapsed_iff (λ policy. policy.inactive_retention) m.expiration_time now m refl refl in
    let lead =
      window_elapsed_iff (λ policy. policy.deletion_warning_lead) m.warned_time now m refl refl in
    and_iff m.expiration_notification_sent
      (window_elapsed (λ policy. policy.inactive_retention) m.expiration_time now m
        && window_elapsed (λ policy. policy.deletion_warning_lead) m.warned_time now m)
      ((λ e. e), (λ e. e))
      (and_iff (window_elapsed (λ policy. policy.inactive_retention) m.expiration_time now m)
        (window_elapsed (λ policy. policy.deletion_warning_lead) m.warned_time now m) retention
        lead)

-- Seven days' lead, for every tier.
lead_of : (level : SupporterLevel) → (get (some level)).deletion_warning_lead ≡ 7 * day
unfolding get
lead_of none_level = refl
lead_of host_1 = refl
lead_of host_2 = refl
lead_of host_3 = refl

-- A row is not warned, or was warned too late for a deletion at that time.
Held : ℕ → Meetup → Type 0
Held t m = to_delete t m ≡ false

warned-Held : (w t : ℕ) (m : Meetup) → t ≤ w + 7 * day → Held t (record_deletion_warning w m)
unfolding Held record_deletion_warning
warned-Held w t m early = elim (Bool-cases (to_delete t (record_deletion_warning w m))) [
  | inl taken ↦
      let past = ((to_delete_iff t (record_deletion_warning w m)).0 taken).1.1 in
      let lead = lead_of m.owner_level in absurd (omega arith)
  | inr kept ↦ kept
]

unwarned-Held : (t : ℕ) (m : Meetup) → m.expiration_notification_sent ≡ false → Held t m
unfolding Held to_delete
unwarned-Held t m e = rw e refl

-- The rows after a warning sweep's chunk.
warned_row : (Meetup → Bool) → ℕ → Meetup → Meetup
warned_row takes now m = if takes m then record_deletion_warning now m else m

module _ (takes : Meetup → Bool) (w t : ℕ) (early : t ≤ w + 7 * day) where
  warned_row-Held :
      (m : Meetup) → m.expiration_notification_sent ≡ false → Held t (warned_row takes w m)
  unfolding warned_row
  warned_row-Held m e = elim (Bool-cases (takes m)) [
    | inl taken ↦ rw taken (warned-Held w t m early)
    | inr left ↦ rw left (unwarned-Held t m e)
  ]

  All-Held :
      (ms : List Meetup)
      → All (λ m. m.expiration_notification_sent ≡ false) ms
      → All (Held t) (map (warned_row takes w) ms)
  All-Held [] h = tt
  All-Held (m ∷ ms) h = (warned_row-Held m h.0, All-Held ms h.1)

ids-warned_row :
    (takes : Meetup → Bool) (w : ℕ) (ms : List Meetup) → ids (map (warned_row takes w) ms) ≡ ids ms
unfolding warned_row record_deletion_warning
ids-warned_row takes w [] = refl
ids-warned_row takes w (m ∷ ms) = ground (arith, ids-warned_row takes w ms)

filter-keeps : (p : Meetup → Bool) (ms : List Meetup) → All (λ m. p m ≡ true) ms → filter p ms ≡ ms
filter-keeps p [] h = refl
filter-keeps p (m ∷ ms) h = rw h.0 (ap (λ rest. m ∷ rest) (filter-keeps p ms h.1))

held-kept :
    (t : ℕ) (owner_ids : List ℕ) (settled_test : Meetup → Bool) (m : Meetup)
    → Held t m
    → not (selected (to_delete t) owner_ids m && settled_test m) ≡ true
unfolding Held
held-kept t owner_ids settled_test m h = rw h refl

delete-kept :
    (wants_notice : ℕ → Bool) (run : ChunkRun) (owner_ids : List ℕ) (table : List Meetup)
    → Unique (ids table)
    → All (Held run.now) table
    → (delete_owner_chunk wants_notice run owner_ids table).0 ≡ table
delete-kept wants_notice run owner_ids table unique held =
    delete_owner_chunk_lem wants_notice run owner_ids table unique
    ∙ filter-keeps _ table (
        All-imp (Held run.now) _ (held-kept run.now owner_ids (settles run.answers wants_notice))
          table held)

-- From a table in which nobody has been warned, a chunk of the deletion sweep deletes nothing until
-- seven days after the chunk of the warning sweep, whichever owners the two cover and however their
-- sends resolve.
pub nothing_deleted_within_lead :
    (wants_warning wants_notice : ℕ → Bool) (warning deletion : ChunkRun)
    (warned_owners owners : List ℕ) (table : List Meetup)
    → Unique (ids table)
    → All (λ m. m.expiration_notification_sent ≡ false) table
    → deletion.now ≤ warning.now + 7 * day
    → (delete_owner_chunk wants_notice deletion owners
        (warn_owner_chunk wants_warning warning warned_owners table).0).0
      ≡ (warn_owner_chunk wants_warning warning warned_owners table).0
unfolding warned_row
nothing_deleted_within_lead wants_warning wants_notice warning deletion warned_owners owners table
      unique unwarned early =
    let takes : Meetup → Bool = λ m.
      selected (about_to_be_deleted warning.now) warned_owners m
      && settles warning.answers wants_warning m in
    subst (λ after. (delete_owner_chunk wants_notice deletion owners after).0 ≡ after)
      (sym (warn_owner_chunk_lem wants_warning warning warned_owners table unique))
      (delete-kept wants_notice deletion owners (map (warned_row takes warning.now) table)
        (subst Unique (sym (ids-warned_row takes warning.now table)) unique)
        (All-Held takes warning.now deletion.now early table unwarned))
