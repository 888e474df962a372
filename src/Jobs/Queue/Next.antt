-- ===== src/Jobs/Queue/Next.antt =====
-- A job that goes to the front of the queue is the next one that is claimed.
use codarr.Prelude.{
  ℕ, suc, none, some, Result, ok, err, ◌≡◌, refl, sym, ap, ◌∙◌, leb, arith, Bool-cases,
  Option-cases, inl, inr,
}
use codarr.Jobs.Types.{
  Job, Store, StoreError, SweepResult, sweep_requeued, max_auto_attempts, media_queued,
}
use codarr.Jobs.Rows.{find_job, update_row, requeue_row, and_then, mark, mark_media}
use codarr.Jobs.Queue.{
  next_queued, front_priority, requeue_or_fail, restart_job, is_restartable, fail_job_tx,
}
use codarr.Jobs.Queue.Front.{update_row-next}

pub and_then-ok :
    {A B : Type 0} (m : Result StoreError A) (f : A → Result StoreError B) (b : B)
    → and_then m f ≡ ok b
    → (a : A) × (m ≡ ok a) × (f a ≡ ok b)
and_then-ok (ok a) f b h = (a, refl, h)
and_then-ok (err e) f b h = absurd (cc h)

-- After a requeue of an interrupted job that succeeds, the first job of the queue, the one that is
-- claimed next, has its id, whatever else is queued.
pub requeue_or_fail-next :
    (now : ℕ) (j : Job) (s s' : Store) (r : SweepResult)
    → requeue_or_fail now j s ≡ ok (r, s')
    → r.action ≡ sweep_requeued
    → (k : Job) × (next_queued s'.jobs ≡ some k) × (k.id ≡ j.id)
unfolding requeue_or_fail
requeue_or_fail-next now j s s' r h a = elim (Bool-cases (leb max_auto_attempts j.attempt)) [
  | inl y ↦
      let (t, u, v) =
        and_then-ok (fail_job_tx j.id now _ s) _ (r, s') (rw (requeue_or_fail, y) at h) in
      absurd (cc (a, v))
  | inr n ↦
      let front = front_priority j.priority s.jobs in
      let row =
        λ (i : Job). requeue_row front (suc i.attempt) i.queued_at i.failure i.finished_at i in
      let (t, u, v) =
        and_then-ok (update_row j.id row s) _ (r, s') (rw (requeue_or_fail, n) at h) in
      let (k, next, first) =
        update_row-next j.id j.priority row s t (λ i same. (same, refl, refl)) u in
      let stored : mark_media j.media_file_id (mark media_queued) t ≡ s' = cc v in
      (k, ap (λ (x : Store). next_queued x.jobs) (sym stored) ∙ next, first.0)
]

-- After a restart by hand that succeeds, the first job of the queue, the one that is claimed next,
-- has its id, whatever else is queued.
pub restart_job-next :
    (id now : ℕ) (s s' : Store)
    → restart_job id now s ≡ ok s'
    → (k : Job) × (next_queued s'.jobs ≡ some k) × (k.id ≡ id)
unfolding restart_job
restart_job-next id now s s' h = elim (Option-cases (find_job id s.jobs)) [
  | inl e ↦ absurd (ground (arith, e, h))
  | inr (j, e) ↦ elim (Bool-cases (is_restartable j.state)) [
    | inr n ↦ absurd (ground (arith, e, n, h))
    | inl y ↦
        let row = requeue_row (front_priority j.priority s.jobs) 0 now none none in
        let (t, u, v) = and_then-ok (update_row id row s) _ s' (rw (restart_job, e, y) at h) in
        let (k, next, first) =
          update_row-next id j.priority row s t (λ i same. (same, refl, refl)) u in
        let stored : mark_media j.media_file_id (mark media_queued) t ≡ s' = cc v in
        (k, ap (λ (x : Store). next_queued x.jobs) (sym stored) ∙ next, first.0)
  ]
]
