-- ===== src/CardRefresh/Coverage/Steps.antt =====
-- When the cards that accepted refreshes asked for are drawn by a waiting job: libs/telegram/
-- mitup_bot/card_refresh.py.
use mitup_telegram_bot.Base.{
  ℕ, ◌≡◌, refl, ap, sym, ◌∙◌, subst, Bool, true, false, not, ◌&&◌, ◌||◌, Option, none, some, [],
  find, length, leb, ◌==◌, opt_eq, is_none, if◌then◌else◌, inl, inr, Bool-cases, and_left,
  and_right, ◌⊎◌, ◌≢◌,
}
use mitup_telegram_bot.CardRefresh.{
  JobKey, key_eq, meeting_job_key, BackgroundJob, refresh, send, job_key, merge_jobs, RefreshQueue,
  lookup, put, del, unskipped, queued, submitted, submit, ms_until_ready, taken, take_job,
  next_attempt, set_default, requeue, landed, job_done, job_cancelled, stop_accepting,
}
use mitup_telegram_bot.CardRefresh.Merging.{
  draws, in_scope, draws-coalesce, key_eq_iff, lookup-put, lookup-del,
}
use mitup_telegram_bot.CardRefresh.Coverage.{
  is_mine, drawn_by, is_covered, KeptApart, Watched, Step, submits, takes, ends, interrupted, stops,
}
use mitup_telegram_bot.CardRefresh.Coverage.Dictionary.{
  IsDict, IsDict-put, IsDict-del, lookup-AtKey, lookup-find, job_key-merge_jobs, job_key-unskipped,
}

either_of : (a b : Bool) → (a || b) ≡ true → (a ≡ true) ⊎ (b ≡ true)
either_of true b h = inl refl
either_of false b h = inr h

or_left : (a b : Bool) → a ≡ true → (a || b) ≡ true
or_left true b h = refl
or_left false b h = cc h

or_right : (a b : Bool) → b ≡ true → (a || b) ≡ true
or_right true b h = refl
or_right false b h = h

both_true : (a b : Bool) → a ≡ true → b ≡ true → (a && b) ≡ true
both_true true b h k = k
both_true false b h k = cc h

refused_or :
    (P : RefreshQueue × Bool → Type 0) (refuses : Bool) (refused accepted : RefreshQueue × Bool)
    → P refused
    → P accepted
    → P (if refuses then refused else accepted)
refused_or P true refused accepted h k = h
refused_or P false refused accepted h k = k

none-not-some : {a : RefreshQueue × BackgroundJob} → none ≢ some a
none-not-some e = cc e

pair-inj : {a b : RefreshQueue × BackgroundJob} → some a ≡ some b → a ≡ b
pair-inj e = cc e

excused :
    (mine absent covered : Bool)
    → (mine && not (absent || covered)) ≡ false
    → mine ≡ true
    → absent ≡ false
    → covered ≡ true
excused true true covered h k e = cc e
excused true false true h k e = refl
excused true false false h k e = cc h
excused false absent covered h k e = cc k

only_owed : (owed mine : Bool) → mine ≡ false → (owed || (true && mine)) ≡ true → owed ≡ true
only_owed true mine e h = refl
only_owed false mine e h = cc (e, h)

module _ (meeting_id card : ℕ) where
  drawn_if :
      (b : Bool) (job : BackgroundJob) (rest : Option BackgroundJob)
      → drawn_by meeting_id card (if b then some job else rest)
        ≡ (if b then draws card job else drawn_by meeting_id card rest)
  drawn_if true job rest = refl
  drawn_if false job rest = refl

  abbrev key : JobKey
  key = meeting_job_key meeting_id

  -- A card that is owed is drawn by the waiting job of its meeting.
  pub record IsValid (w : Watched) : Type 0 where
    pub dict : IsDict w.queue.pending
    pub covers : w.owed ≡ true → is_covered meeting_id card w.queue ≡ true

  draws-unskipped :
      (q : RefreshQueue) (job : BackgroundJob)
      → draws card job ≡ true
      → draws card (unskipped q job) ≡ true
  unfolding unskipped
  draws-unskipped q (send s) h = h
  draws-unskipped q (refresh r) h =
      elim (Bool-cases (is_none (lookup (meeting_job_key r.meeting_id) q.in_flight))) [
        | inl idle ↦ rw idle h
        | inr busy ↦
            let scope =
              and_left (in_scope r.message_db_ids card)
                (not (opt_eq r.skip_message_db_id (some card))) h in
            rw (busy, scope) refl
      ]

  draws-merge_jobs :
      (w i : BackgroundJob)
      → KeptApart meeting_id card i
      → key_eq key (job_key i) ≡ true
      → (draws card w || draws card i) ≡ true
      → draws card (merge_jobs w i) ≡ true
  unfolding merge_jobs
  draws-merge_jobs (refresh w) (refresh i) apart mine h = draws-coalesce w i card h
  draws-merge_jobs (send w) (refresh i) apart mine h = h
  draws-merge_jobs w (send i) apart mine h = absurd (cc (apart, mine))

  -- The pending job after a put, of this meeting or another.
  covered-put :
      (job : BackgroundJob) (q : RefreshQueue)
      → drawn_by meeting_id card (lookup key (put (job_key job) job q.pending))
        ≡ (if key_eq key (job_key job) then draws card job else is_covered meeting_id card q)
  covered-put job q =
      ap (drawn_by meeting_id card) (lookup-put key (job_key job) job q.pending)
      ∙ drawn_if (key_eq key (job_key job)) job (lookup key q.pending)

  -- An accepted job draws what was owed and what it owes itself.
  queued-IsValid :
      (w : Watched) (job : BackgroundJob) (mine : Bool)
      → IsValid w
      → (key_eq key (job_key job) ≡ true → (w.owed || mine) ≡ true → draws card job ≡ true)
      → (key_eq key (job_key job) ≡ false → mine ≡ false)
      → IsValid (record { queue = (queued job w.queue).0; owed = w.owed || (true && mine) })
  queued-IsValid w job mine valid same_key other_key = record {
    dict = IsDict-put (job_key job) job w.queue.pending refl valid.dict;
    covers = λ owed. covered-put job w.queue ∙ elim (Bool-cases (key_eq key (job_key job))) [
      | inl same ↦ rw same (same_key same owed)
      | inr other ↦ rw other (valid.covers (only_owed w.owed mine (other_key other) owed))
    ];
  }

  at_key :
      (w : Watched) (incoming : BackgroundJob) (found : Option BackgroundJob)
      → key_eq key (job_key incoming) ≡ true
      → lookup (job_key incoming) w.queue.pending ≡ found
      → is_covered meeting_id card w.queue ≡ drawn_by meeting_id card found
  at_key w incoming found same e =
      ap (λ k. drawn_by meeting_id card (lookup k w.queue.pending))
        ((key_eq_iff key (job_key incoming)).0 same)
      ∙ ap (drawn_by meeting_id card) e

  draws_mine : (job : BackgroundJob) → is_mine meeting_id card job ≡ true → draws card job ≡ true
  draws_mine job h = and_right (key_eq key (job_key job)) (draws card job) h

  not_mine :
      (job : BackgroundJob) (mine : Bool)
      → (mine ≡ true → is_mine meeting_id card job ≡ true)
      → key_eq key (job_key job) ≡ false
      → mine ≡ false
  not_mine job true mine_is other =
      absurd (cc (and_left (key_eq key (job_key job)) (draws card job) (mine_is refl), other))
  not_mine job false mine_is other = refl

  submitted-IsValid :
      (w : Watched) (incoming : BackgroundJob) (mine : Bool) (found : Option BackgroundJob)
      → IsValid w
      → KeptApart meeting_id card incoming
      → (mine ≡ true → is_mine meeting_id card incoming ≡ true)
      → lookup (job_key incoming) w.queue.pending ≡ found
      → IsValid (record {
        queue = (submitted w.queue incoming found).0;
        owed = w.owed || ((submitted w.queue incoming found).1 && mine);
      })
  submitted-IsValid w incoming mine none valid apart mine_is e =
      elim (Bool-cases (leb w.queue.max_pending (length w.queue.pending))) [
        | inl full ↦ rw full (record {
          dict = valid.dict;
          covers = λ owed. valid.covers (only_owed w.owed false refl owed);
        })
        | inr room ↦ rw room (
            queued-IsValid w incoming mine valid
              (λ same owed. elim (either_of w.owed mine owed) [
                | inl before ↦ absurd (cc (valid.covers before, at_key w incoming none same e))
                | inr now ↦ draws_mine incoming (mine_is now)
              ])
              (λ other. not_mine incoming mine mine_is other))
      ]
  submitted-IsValid w incoming mine (some waiting) valid apart mine_is e =
      let same_keys = lookup-AtKey (job_key incoming) w.queue.pending waiting valid.dict.0 e in
      let merged_key = job_key-merge_jobs waiting incoming same_keys in
      queued-IsValid w (merge_jobs waiting incoming) mine valid
        (λ same owed.
          let own = ap (key_eq key) (sym merged_key) ∙ same in
          draws-merge_jobs waiting incoming apart own (elim (either_of w.owed mine owed) [
            | inl before ↦
                or_left (draws card waiting) (draws card incoming)
                  (sym (at_key w incoming (some waiting) own e) ∙ valid.covers before)
            | inr now ↦
                or_right (draws card waiting) (draws card incoming)
                  (draws_mine incoming (mine_is now))
          ]))
        (λ other. not_mine incoming mine mine_is (ap (key_eq key) (sym merged_key) ∙ other))

  mine-unskipped :
      (q : RefreshQueue) (job : BackgroundJob)
      → is_mine meeting_id card job ≡ true
      → is_mine meeting_id card (unskipped q job) ≡ true
  mine-unskipped q job h =
      both_true (key_eq key (job_key (unskipped q job))) (draws card (unskipped q job))
        (ap (key_eq key) (job_key-unskipped q job)
          ∙ and_left (key_eq key (job_key job)) (draws card job) h)
        (draws-unskipped q job (draws_mine job h))

  KeptApart-unskipped :
      (q : RefreshQueue) (job : BackgroundJob)
      → KeptApart meeting_id card job
      → KeptApart meeting_id card (unskipped q job)
  unfolding unskipped
  KeptApart-unskipped q (send s) apart = apart
  KeptApart-unskipped q (refresh r) apart =
      elim (Bool-cases (is_none (lookup (meeting_job_key r.meeting_id) q.in_flight))) [
        | inl idle ↦ rw idle tt
        | inr busy ↦ rw busy tt
      ]

  submit-IsValid :
      (w : Watched) (job : BackgroundJob)
      → KeptApart meeting_id card job
      → IsValid w
      → IsValid (record {
        queue = (submit job w.queue).0;
        owed = w.owed || ((submit job w.queue).1 && is_mine meeting_id card job);
      })
  unfolding submit
  submit-IsValid w job apart valid =
      let mine = is_mine meeting_id card job in
      let incoming = unskipped w.queue job in
      refused_or
        (λ result. IsValid (record { queue = result.0; owed = w.owed || (result.1 && mine) }))
        (not w.queue.accepting) (w.queue, false)
        (submitted w.queue incoming (lookup (job_key incoming) w.queue.pending))
        (record {
          dict = valid.dict;
          covers = λ owed. valid.covers (only_owed w.owed false refl owed);
        })
        (submitted-IsValid w incoming mine _ valid (KeptApart-unskipped w.queue job apart)
          (mine-unskipped w.queue job) refl)

  -- The job of an entry that a search finds is the one that its meeting's key has.
  taken-covers :
      (w : Watched) (p : JobKey × BackgroundJob → Bool) (entry : JobKey × BackgroundJob)
      → IsValid w
      → find p w.queue.pending ≡ some entry
      → (w.owed && not (is_mine meeting_id card entry.1)) ≡ true
      → drawn_by meeting_id card (lookup key (del (job_key entry.1) w.queue.pending)) ≡ true
  taken-covers w p entry valid e h =
      let owed = and_left w.owed (not (is_mine meeting_id card entry.1)) h in
      let not_this = and_right w.owed (not (is_mine meeting_id card entry.1)) h in
      let found = lookup-find p w.queue.pending entry valid.dict.1 e in
      let own = lookup-AtKey entry.0 w.queue.pending entry.1 valid.dict.0 found in
      let covered = valid.covers owed in
      ap (drawn_by meeting_id card) (lookup-del key (job_key entry.1) w.queue.pending)
      ∙ elim (Bool-cases (key_eq key (job_key entry.1))) [
        | inl same ↦
            let key_same = (key_eq_iff key (job_key entry.1)).0 same ∙ own in
            let drawn =
              sym (
                ap (λ k. drawn_by meeting_id card (lookup k w.queue.pending)) key_same
                ∙ ap (drawn_by meeting_id card) found)
              ∙ covered in
            absurd (
              cc (
                not_this,
                both_true (key_eq key (job_key entry.1)) (draws card entry.1) same drawn,
              ))
        | inr other ↦ rw other covered
      ]

  taken-IsValid :
      (w : Watched) (p : JobKey × BackgroundJob → Bool) (queue : RefreshQueue) (job : BackgroundJob)
      (found : Option (JobKey × BackgroundJob))
      → IsValid w
      → find p w.queue.pending ≡ found
      → taken w.queue found ≡ some (queue, job)
      → IsValid (record { queue = queue; owed = w.owed && not (is_mine meeting_id card job) })
  taken-IsValid w p queue job none valid e t = absurd (none-not-some t)
  taken-IsValid w p queue job (some entry) valid e t =
      subst
        (λ result.
          IsValid
            (record { queue = result.0; owed = w.owed && not (is_mine meeting_id card result.1) }))
        (pair-inj t)
        (record {
          dict = IsDict-del (job_key entry.1) w.queue.pending valid.dict;
          covers = taken-covers w p entry valid e;
        })

  job_key-next_attempt : (job : BackgroundJob) → job_key (next_attempt job) ≡ job_key job
  job_key-next_attempt (refresh r) = refl
  job_key-next_attempt (send s) = refl

  draws-next_attempt : (job : BackgroundJob) → draws card (next_attempt job) ≡ draws card job
  draws-next_attempt (refresh r) = refl
  draws-next_attempt (send s) = refl

  requeue-IsValid :
      (w : Watched) (job : BackgroundJob) (found : Option BackgroundJob)
      → KeptApart meeting_id card job
      → (is_mine meeting_id card job
          && not (is_none (lookup key w.queue.pending) || is_covered meeting_id card w.queue))
        ≡ false
      → IsValid w
      → lookup (job_key job) w.queue.pending ≡ found
      → IsValid (record {
        queue = record w.queue { pending = set_default (next_attempt job) w.queue.pending found };
        owed = w.owed || is_mine meeting_id card job;
      })
  requeue-IsValid w job none apart meanwhile valid e =
      let again = next_attempt job in
      let mine = is_mine meeting_id card job in
      let same_job = job_key-next_attempt job in
      let put_back =
        queued-IsValid w again mine valid
          (λ same owed. elim (either_of w.owed mine owed) [
            | inl before ↦
                let own = ap (key_eq key) (sym same_job) ∙ same in
                absurd (cc (valid.covers before, at_key w job none own e))
            | inr now ↦ draws-next_attempt job ∙ draws_mine job now
          ])
          (λ other. not_mine job mine (λ h. h) (ap (key_eq key) (sym same_job) ∙ other)) in
      record { dict = put_back.dict; covers = put_back.covers }
  requeue-IsValid w job (some other) apart meanwhile valid e =
      let mine = is_mine meeting_id card job in
      record {
        dict = valid.dict;
        covers = λ owed. elim (either_of w.owed mine owed) [
          | inl before ↦ valid.covers before
          | inr now ↦
              let own = and_left (key_eq key (job_key job)) (draws card job) now in
              let there =
                ap (λ k. is_none (lookup k w.queue.pending)) ((key_eq_iff key (job_key job)).0 own)
                ∙ ap is_none e in
              excused mine (is_none (lookup key w.queue.pending))
                (is_covered meeting_id card w.queue) meanwhile now there
        ];
      }

  Step-IsValid : (w v : Watched) → Step meeting_id card w v → IsValid w → IsValid v
  unfolding take_job job_done job_cancelled landed requeue stop_accepting
  Step-IsValid w v (submits w' job apart) valid = submit-IsValid w' job apart valid
  Step-IsValid w v (takes w' now queue job e) valid =
      taken-IsValid w' (λ entry. ms_until_ready now w'.queue entry.1 == 0) queue job _ valid refl e
  Step-IsValid w v (ends w' success job) valid = record { dict = valid.dict; covers = valid.covers }
  Step-IsValid w v (interrupted w' job apart meanwhile) valid =
      let rest = requeue-IsValid w' job _ apart meanwhile valid refl in
      record { dict = rest.dict; covers = rest.covers }
  Step-IsValid w v (stops w') valid = record { dict = valid.dict; covers = valid.covers }

-- The states that the steps lead to from a queue with nothing waiting.
pub data Reachable (meeting_id card : ℕ) : Watched → Type 0 where
  at_start :
      (q : RefreshQueue)
      → q.pending ≡ []
      → Reachable meeting_id card (record { queue = q; owed = false })
  after :
      (w v : Watched)
      → Reachable meeting_id card w
      → Step meeting_id card w v
      → Reachable meeting_id card v

Reachable-IsValid :
    (meeting_id card : ℕ) (w : Watched) → Reachable meeting_id card w → IsValid meeting_id card w
Reachable-IsValid meeting_id card w (at_start q e) = record {
  dict = subst IsDict (sym e) (tt, tt);
  covers = λ owed. cc owed;
}
Reachable-IsValid meeting_id card w (after before v reached step) =
    Step-IsValid meeting_id card before v step (Reachable-IsValid meeting_id card before reached)

-- In every state of the queue, a card for which an accepted refresh asked, and of whose meeting no
-- job that draws it has started since, is drawn by the meeting's waiting job. It holds through
-- merges, refusals, jobs that fail and the stop of the queue, and through a job that the stop
-- interrupts where the job submitted meanwhile, if any, draws the card too. Messages to send are not
-- submitted under the meeting's key.
pub owed-is_covered :
    (meeting_id card : ℕ) (w : Watched)
    → Reachable meeting_id card w
    → w.owed ≡ true
    → is_covered meeting_id card w.queue ≡ true
owed-is_covered meeting_id card w reached owed =
    (Reachable-IsValid meeting_id card w reached).covers owed
