-- ===== src/Jobs/Queue/Requeue.antt =====
-- internal/pkg/store/jobs.go: what the requeue of an interrupted job does to the rows.
use mathlib.Core.Path.{subst}
use codarr.Prelude.{
  ℕ, suc, ◌≤◌, List, [], ◌∷◌, some, ok, ◌≡◌, ◌≢◌, refl, sym, ap, ◌∙◌, arith, ◌==◌, leb, Bool-cases,
  Option-cases, inl, inr,
}
use codarr.Jobs.Types.{
  Job, Store, SweepResult, sweep_requeued, max_auto_attempts, queued, Failed, failed, media_queued,
}
use codarr.Jobs.Rows.{find_job, set_job, update_row, requeue_row, finish_row, mark_media, mark}
use codarr.Jobs.Queue.{requeue_or_fail, sweep_one, fail_job_tx, front_priority, capped, blame}
use codarr.Jobs.Queue.Active.{update_row-ok}
use codarr.Jobs.Queue.Next.{and_then-ok}
use codarr.Jobs.Queue.Keeps.{sweep_one-cases}

-- A job that was queued again by itself: its row is queued with one attempt more than before, as the
-- result says, and not more than the cap.
unfoldable pub IsCapped : Store → Store → SweepResult → Type 0
IsCapped s s' r =
    r.action ≡ sweep_requeued
    → (j : Job) × (k : Job) × (find_job r.job_id s.jobs ≡ some j)
      × (find_job r.job_id s'.jobs ≡ some k)
      × (k.state ≡ queued)
      × (k.attempt ≡ suc j.attempt)
      × (r.attempt ≡ k.attempt)
      × (k.attempt ≤ max_auto_attempts)

-- Rows of other ids are as they were.
abbrev pub IsElsewhere : ℕ → Store → Store → Type 0
IsElsewhere id s s' = (i : ℕ) → i ≢ id → find_job i s'.jobs ≡ find_job i s.jobs

module _ (id : ℕ) (f : Job → Job) (same_id : (j : Job) → (f j).id ≡ j.id) where
  find_job-set_job :
      (js : List Job) (j : Job)
      → find_job id js ≡ some j
      → find_job id (set_job id f js) ≡ some (f j)
  unfolding set_job
  find_job-set_job [] j h = absurd (cc h)
  find_job-set_job (k ∷ js) j h = elim (Bool-cases (k.id == id)) [
    | inl e ↦ let same : k ≡ j = ground (arith, e, h) in ground (arith, e, same_id k, ap f same)
    | inr e ↦ ground (arith, e, find_job-set_job js j (ground (arith, e, h)))
  ]

  find_job-elsewhere :
      (i : ℕ) (js : List Job) → i ≢ id → find_job i (set_job id f js) ≡ find_job i js
  unfolding set_job
  find_job-elsewhere i [] n = refl
  find_job-elsewhere i (k ∷ js) n = elim (Bool-cases (k.id == id)) [
    | inl e ↦ ground (arith, e, n, same_id k)
    | inr e ↦ ground (arith, e, find_job-elsewhere i js n)
  ]

  pub update_row-found :
      (s s' : Store)
      → update_row id f s ≡ ok s'
      → ((j : Job) × (find_job id s.jobs ≡ some j) × (find_job id s'.jobs ≡ some (f j)))
        × IsElsewhere id s s'
  update_row-found s s' h =
      let (j, e, same, free) = update_row-ok id f s s' h in
      let jobs = ap (λ (x : Store). x.jobs) same in
      (
        (j, e, ap (find_job id) jobs ∙ find_job-set_job s.jobs j e),
        λ i n. ap (find_job i) jobs ∙ find_job-elsewhere i s.jobs n,
      )

fail_job_tx-IsElsewhere :
    (id now : ℕ) (f : Failed) (s s' : Store) → fail_job_tx id now f s ≡ ok s' → IsElsewhere id s s'
unfolding fail_job_tx
fail_job_tx-IsElsewhere id now f s s' h = elim (Option-cases (find_job id s.jobs)) [
  | inl e ↦ absurd (cc (rw (fail_job_tx, e) at h))
  | inr (j, e) ↦
      let row = finish_row failed now (some f) in
      let (t, u, v) = and_then-ok (update_row id row s) _ s' (rw (fail_job_tx, e) at h) in
      let marked : mark_media j.media_file_id (blame f.message) t ≡ s' = cc v in
      let (found, others) = update_row-found id row (λ i. refl) s t u in
      λ i n. ap (λ (x : Store). find_job i x.jobs) (sym marked) ∙ others i n
]

-- A requeue of the stored row `j` touches no other row, and adds an attempt only under the cap.
pub requeue_or_fail-IsCapped :
    (now : ℕ) (j : Job) (s s' : Store) (r : SweepResult)
    → find_job j.id s.jobs ≡ some j
    → requeue_or_fail now j s ≡ ok (r, s')
    → (r.job_id ≡ j.id) × IsCapped s s' r × IsElsewhere j.id s s'
unfolding requeue_or_fail IsCapped
requeue_or_fail-IsCapped now j s s' r stored h =
    elim (Bool-cases (leb max_auto_attempts j.attempt)) [
      | inl y ↦
          let (t, u, v) =
            and_then-ok (fail_job_tx j.id now (capped j.attempt) s) _ (r, s')
              (rw (requeue_or_fail, y) at h) in
          let same : t ≡ s' = cc v in
          (
            cc v,
            λ a. absurd (cc (a, v)),
            λ i n.
                ap (λ (x : Store). find_job i x.jobs) (sym same)
                ∙ fail_job_tx-IsElsewhere j.id now (capped j.attempt) s t u i n,
          )
      | inr n ↦
          let front = front_priority j.priority s.jobs in
          let row =
            λ (i : Job). requeue_row front (suc i.attempt) i.queued_at i.failure i.finished_at i in
          let (t, u, v) =
            and_then-ok (update_row j.id row s) _ (r, s') (rw (requeue_or_fail, n) at h) in
          let marked : mark_media j.media_file_id (mark media_queued) t ≡ s' = cc v in
          let ((i, e, after), others) = update_row-found j.id row (λ i. refl) s t u in
          let same : i ≡ j = cc (e, stored) in
          let named : j.id ≡ r.job_id = cc v in
          let counted : suc j.attempt ≡ r.attempt = cc v in
          (
            sym named,
            λ a. (
              j,
              row j,
              subst (λ d. find_job d s.jobs ≡ some j) named stored,
              subst (λ d. find_job d s'.jobs ≡ some (row j)) named
                  (ap (λ (x : Store). find_job j.id x.jobs) (sym marked)
                    ∙ after
                    ∙ ap (λ x. some (row x)) same),
              refl,
              refl,
              sym counted,
              ground (arith, n),
            ),
            λ i n'. ap (λ (x : Store). find_job i x.jobs) (sym marked) ∙ others i n',
          )
    ]

pub sweep_one-IsCapped :
    (now : ℕ) (j : Job) (s s' : Store) (r : SweepResult)
    → find_job j.id s.jobs ≡ some j
    → sweep_one now j s ≡ ok (r, s')
    → (r.job_id ≡ j.id) × IsCapped s s' r × IsElsewhere j.id s s'
unfolding IsCapped
sweep_one-IsCapped now j s s' r stored h = elim (sweep_one-cases now j s) [
  | inl e ↦
      let same : s ≡ s' = cc (e, h) in
      (
        cc (e, h),
        λ a. absurd (cc (e, h, a)),
        λ i n. ap (λ (x : Store). find_job i x.jobs) (sym same),
      )
  | inr e ↦ requeue_or_fail-IsCapped now j s s' r stored (sym e ∙ h)
]
