-- ===== src/CardRefresh/Coverage/Dictionary.antt =====
-- The dictionary of waiting jobs: libs/telegram/mitup_bot/card_refresh.py.
use mitup_telegram_bot.Base.{
  ◌≡◌, refl, ap, sym, ◌∙◌, subst, Bool, true, false, not, Option, none, some, [], ◌∷◌, find,
  if◌then◌else◌, All, All-filter, inl, inr, Bool-cases, ◌≢◌, is_none,
}
use mitup_telegram_bot.CardRefresh.{
  JobKey, key_eq, BackgroundJob, refresh, send, job_key, Jobs, lookup, put, del, merge_jobs,
  coalesce, RefreshQueue, unskipped, meeting_job_key,
}
use mitup_telegram_bot.CardRefresh.Merging.{key_eq_iff, key_eq_sym, lookup-put, lookup-del}

-- Each job stands under its own key.
abbrev pub AtKey : JobKey × BackgroundJob → Type 0
AtKey entry = job_key entry.1 ≡ entry.0

-- No key has two entries.
abbrev pub NoRepeat : Jobs → Type 0
NoRepeat [] = Unit
NoRepeat ((k, job) ∷ jobs) = (lookup k jobs ≡ none) × NoRepeat jobs

abbrev pub IsDict : Jobs → Type 0
IsDict jobs = All AtKey jobs × NoRepeat jobs

All-put :
    (key : JobKey) (job : BackgroundJob) (jobs : Jobs)
    → job_key job ≡ key
    → All AtKey jobs
    → All AtKey (put key job jobs)
unfolding put
All-put key job [] e all = (e, tt)
All-put key job ((k, j) ∷ jobs) e all = elim (Bool-cases (key_eq key k)) [
  | inl same ↦ rw same (e ∙ (key_eq_iff key k).0 same, all.1)
  | inr other ↦ rw other (all.0, All-put key job jobs e all.1)
]

NoRepeat-put :
    (key : JobKey) (job : BackgroundJob) (jobs : Jobs) → NoRepeat jobs → NoRepeat (put key job jobs)
unfolding put
NoRepeat-put key job [] h = (refl, tt)
NoRepeat-put key job ((k, j) ∷ jobs) h = elim (Bool-cases (key_eq key k)) [
  | inl same ↦ rw same h
  | inr other ↦
      let differs = key_eq_sym k key ∙ other in
      rw other (
        lookup-put k key job jobs ∙ ap (λ b. if b then some job else lookup k jobs) differs ∙ h.0,
        NoRepeat-put key job jobs h.1,
      )
]

pub IsDict-put :
    (key : JobKey) (job : BackgroundJob) (jobs : Jobs)
    → job_key job ≡ key
    → IsDict jobs
    → IsDict (put key job jobs)
IsDict-put key job jobs e h = (All-put key job jobs e h.0, NoRepeat-put key job jobs h.1)

if_none : (b : Bool) (o : Option BackgroundJob) → o ≡ none → (if b then none else o) ≡ none
if_none true o e = refl
if_none false o e = e

NoRepeat-del : (key : JobKey) (jobs : Jobs) → NoRepeat jobs → NoRepeat (del key jobs)
unfolding del
NoRepeat-del key [] h = tt
NoRepeat-del key ((k, j) ∷ jobs) h = elim (Bool-cases (key_eq key k)) [
  | inl same ↦ rw same (NoRepeat-del key jobs h.1)
  | inr other ↦ rw other (
    lookup-del k key jobs ∙ if_none (key_eq k key) (lookup k jobs) h.0,
    NoRepeat-del key jobs h.1,
  )
]

pub IsDict-del : (key : JobKey) (jobs : Jobs) → IsDict jobs → IsDict (del key jobs)
unfolding del
IsDict-del key jobs h =
    (All-filter AtKey (λ entry. not (key_eq key entry.0)) jobs h.0, NoRepeat-del key jobs h.1)

pub some-inj : {a b : BackgroundJob} → some a ≡ some b → a ≡ b
some-inj e = cc e

some-not-none : {a : BackgroundJob} → some a ≢ none
some-not-none e = cc e

entry-inj : {a b : JobKey × BackgroundJob} → some a ≡ some b → a ≡ b
entry-inj e = cc e

-- The job found under a key has that key.
pub lookup-AtKey :
    (key : JobKey) (jobs : Jobs) (job : BackgroundJob)
    → All AtKey jobs
    → lookup key jobs ≡ some job
    → job_key job ≡ key
lookup-AtKey key [] job all e = cc e
lookup-AtKey key ((k, j) ∷ jobs) job all e = elim (Bool-cases (key_eq key k)) [
  | inl same ↦
      let found = some-inj (sym (ap (λ b. if b then some j else lookup key jobs) same) ∙ e) in
      ap job_key (sym found) ∙ all.0 ∙ sym ((key_eq_iff key k).0 same)
  | inr other ↦
      lookup-AtKey key jobs job all.1
        (sym (ap (λ b. if b then some j else lookup key jobs) other) ∙ e)
]

-- An entry that a search finds is the one of its key.
pub lookup-find :
    (p : JobKey × BackgroundJob → Bool) (jobs : Jobs) (entry : JobKey × BackgroundJob)
    → NoRepeat jobs
    → find p jobs ≡ some entry
    → lookup entry.0 jobs ≡ some entry.1
lookup-find p [] entry h e = cc e
lookup-find p ((k, j) ∷ jobs) entry h e = elim (Bool-cases (p (k, j))) [
  | inl here ↦
      let found = entry-inj (sym (ap (λ b. if b then some (k, j) else find p jobs) here) ∙ e) in
      subst (λ x. lookup x.0 ((k, j) ∷ jobs) ≡ some x.1) found
        (ap (λ b. if b then some j else lookup k jobs) ((key_eq_iff k k).1 refl))
  | inr there ↦
      let rest =
        lookup-find p jobs entry h.1
          (sym (ap (λ b. if b then some (k, j) else find p jobs) there) ∙ e) in
      elim (Bool-cases (key_eq entry.0 k)) [
        | inl same ↦ absurd (
            some-not-none
              (sym rest ∙ ap (λ l. lookup l jobs) ((key_eq_iff entry.0 k).0 same) ∙ h.0))
        | inr other ↦ rw other rest
      ]
]

-- A merged job has the key of the two.
pub job_key-merge_jobs :
    (w i : BackgroundJob) → job_key w ≡ job_key i → job_key (merge_jobs w i) ≡ job_key i
unfolding merge_jobs coalesce
job_key-merge_jobs (refresh w) (refresh i) e = e
job_key-merge_jobs (refresh w) (send i) e = refl
job_key-merge_jobs (send w) (refresh i) e = refl
job_key-merge_jobs (send w) (send i) e = refl

pub job_key-unskipped :
    (q : RefreshQueue) (job : BackgroundJob) → job_key (unskipped q job) ≡ job_key job
unfolding unskipped
job_key-unskipped q (send s) = refl
job_key-unskipped q (refresh r) =
    elim (Bool-cases (is_none (lookup (meeting_job_key r.meeting_id) q.in_flight))) [
      | inl idle ↦ rw idle refl
      | inr busy ↦ rw busy refl
    ]
