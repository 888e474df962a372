-- ===== src/Jobs/Queue/Keeps.antt =====
-- Every transaction on the queue keeps the index.
use codarr.Prelude.{
  ℕ, suc, [], ◌∷◌, Option, none, some, ok, ◌≡◌, refl, sym, ◌∙◌, leb, arith, Bool-cases,
  Option-cases, inl, inr, ◌⊎◌, ℤ,
}
use mathlib.Core.Path.{subst}
use codarr.Jobs.Types.{
  Job, JobState, Media, Store, SweepResult, Failed, max_auto_attempts, cancelled, failed, done,
  is_terminal_state, media_queued, media_processing, sweep_needs_check,
}
use codarr.Jobs.Rows.{
  find_job, update_row, requeue_row, mark_media, has_active, new_row, is_entry, claim_row,
  state_row, finish_row, mark,
}
use codarr.Jobs.Queue.{
  next_queued, front_priority, requeue_or_fail, restart_job, is_restartable, fail_job_tx, fail_job,
  enqueue_job, claim_next_job, set_job_state, cancel_job, requeue_interrupted_job, sweep_one, blame,
  capped, swept, needs_check,
}
use codarr.Jobs.Promotion.{record_promoted, promoted, find_media}
use codarr.Jobs.Queue.Next.{and_then-ok}
use codarr.Jobs.Queue.Active.{
  IsIndexed, count, has_id, update_row-IsIndexed, count-++, has_active-count,
}

pub enqueue_job-IsIndexed :
    (m : ℕ) (p : ℤ) (attempt now : ℕ) (s : Store)
    → IsIndexed s
    → IsIndexed (enqueue_job m p attempt now s).1
unfolding enqueue_job count
enqueue_job-IsIndexed m p attempt now s w = elim (Bool-cases (has_active m s.jobs)) [
  | inl e ↦ rw (enqueue_job, e) w
  | inr e ↦
      let row = new_row s.next_id m p attempt now ∷ [] in
      let free = has_active-count m s.jobs e in
      let new = w.fresh s.next_id (omega arith) in
      rw (enqueue_job, e)
        (record {
          one_active = λ i. ground (arith, count-++ (is_entry i) s.jobs row, w.one_active i, free);
          one_row = λ i. ground (arith, count-++ (has_id i) s.jobs row, w.one_row i, new);
          fresh = λ i l.
              ground (arith, count-++ (has_id i) s.jobs row, w.fresh i (omega (arith, l)), l);
        })
]

pub marked-IsIndexed :
    (t s' : Store) (k : ℕ) (g : Media → Media) → IsIndexed t → mark_media k g t ≡ s' → IsIndexed s'
marked-IsIndexed t s' k g w stored =
    subst IsIndexed stored
      (record { one_active = w.one_active; one_row = w.one_row; fresh = w.fresh })

pub set_job_state-IsIndexed :
    (id : ℕ) (state : JobState) (s s' : Store)
    → IsIndexed s
    → set_job_state id state s ≡ ok s'
    → IsIndexed s'
unfolding set_job_state
set_job_state-IsIndexed id state s s' w h =
    update_row-IsIndexed id (state_row state) s s' (λ j. (refl, refl)) w h

pub claim_next_job-IsIndexed :
    (now : ℕ) (s s' : Store) (j : Option Job)
    → IsIndexed s
    → claim_next_job now s ≡ ok (j, s')
    → IsIndexed s'
unfolding claim_next_job
claim_next_job-IsIndexed now s s' j w h = elim (Option-cases (next_queued s.jobs)) [
  | inl e ↦ subst IsIndexed (cc (rw (claim_next_job, e) at h)) w
  | inr (k, e) ↦
      let (t, u, v) =
        and_then-ok (update_row k.id (claim_row now) s) _ (j, s') (rw (claim_next_job, e) at h) in
      marked-IsIndexed t s' k.media_file_id (mark media_processing)
        (update_row-IsIndexed k.id (claim_row now) s t (λ i. (refl, refl)) w u) (cc v)
]

pub cancel_job-IsIndexed :
    (id now : ℕ) (s s' : Store) → IsIndexed s → cancel_job id now s ≡ ok s' → IsIndexed s'
unfolding cancel_job
cancel_job-IsIndexed id now s s' w h = elim (Option-cases (find_job id s.jobs)) [
  | inl e ↦ absurd (cc (rw (cancel_job, e) at h))
  | inr (j, e) ↦ elim (Bool-cases (is_terminal_state j.state)) [
    | inl y ↦ absurd (cc (rw (cancel_job, e, y) at h))
    | inr n ↦
        update_row-IsIndexed id (finish_row cancelled now j.failure) s s' (λ j. (refl, refl)) w
          (rw (cancel_job, e, n) at h)
  ]
]

pub record_promoted-IsIndexed :
    (id m now : ℕ) (s s' : Store) → IsIndexed s → record_promoted id m now s ≡ ok s' → IsIndexed s'
unfolding record_promoted
record_promoted-IsIndexed id m now s s' w h =
    let row = finish_row done now none in
    let (t, u, v) = and_then-ok (update_row id row s) _ s' h in
    elim (Option-cases (find_media m t.media)) [
      | inl e ↦ absurd (cc (rw e at v))
      | inr (_, e) ↦
          marked-IsIndexed t s' m promoted (update_row-IsIndexed id row s t (λ i. (refl, refl)) w u)
            (cc (rw e at v))
    ]

pub fail_job_tx-IsIndexed :
    (id now : ℕ) (f : Failed) (s s' : Store)
    → IsIndexed s
    → fail_job_tx id now f s ≡ ok s'
    → IsIndexed s'
unfolding fail_job_tx
fail_job_tx-IsIndexed id now f s s' w h = elim (Option-cases (find_job id s.jobs)) [
  | inl e ↦ absurd (cc (rw (fail_job_tx, e) at h))
  | inr (j, e) ↦
      let row = finish_row failed now (some f) in
      let (t, u, v) = and_then-ok (update_row id row s) _ s' (rw (fail_job_tx, e) at h) in
      marked-IsIndexed t s' j.media_file_id (blame f.message)
        (update_row-IsIndexed id row s t (λ i. (refl, refl)) w u) (cc v)
]

pub restart_job-IsIndexed :
    (id now : ℕ) (s s' : Store) → IsIndexed s → restart_job id now s ≡ ok s' → IsIndexed s'
unfolding restart_job
restart_job-IsIndexed id now s s' w h = elim (Option-cases (find_job id s.jobs)) [
  | inl e ↦ absurd (cc (rw (restart_job, e) at h))
  | inr (j, e) ↦ elim (Bool-cases (is_restartable j.state)) [
    | inr n ↦ absurd (cc (rw (restart_job, e, n) at h))
    | inl y ↦
        let row = requeue_row (front_priority j.priority s.jobs) 0 now none none in
        let (t, u, v) = and_then-ok (update_row id row s) _ s' (rw (restart_job, e, y) at h) in
        marked-IsIndexed t s' j.media_file_id (mark media_queued)
          (update_row-IsIndexed id row s t (λ i. (refl, refl)) w u) (cc v)
  ]
]

pub requeue_or_fail-IsIndexed :
    (now : ℕ) (j : Job) (s s' : Store) (r : SweepResult)
    → IsIndexed s
    → requeue_or_fail now j s ≡ ok (r, s')
    → IsIndexed s'
unfolding requeue_or_fail
requeue_or_fail-IsIndexed now j s s' r w h = elim (Bool-cases (leb max_auto_attempts j.attempt)) [
  | inl y ↦
      let (t, u, v) =
        and_then-ok (fail_job_tx j.id now (capped j.attempt) s) _ (r, s')
          (rw (requeue_or_fail, y) at h) in
      subst IsIndexed (cc v) (fail_job_tx-IsIndexed j.id now (capped j.attempt) s t w u)
  | inr n ↦
      let front = front_priority j.priority s.jobs in
      let row =
        λ (i : Job). requeue_row front (suc i.attempt) i.queued_at i.failure i.finished_at i in
      let (t, u, v) =
        and_then-ok (update_row j.id row s) _ (r, s') (rw (requeue_or_fail, n) at h) in
      marked-IsIndexed t s' j.media_file_id (mark media_queued)
        (update_row-IsIndexed j.id row s t (λ i. (refl, refl)) w u) (cc v)
]

pub sweep_one-cases :
    (now : ℕ) (j : Job) (s : Store)
    → (sweep_one now j s ≡ ok (swept j sweep_needs_check j.attempt, s))
      ⊎ (sweep_one now j s ≡ requeue_or_fail now j s)
unfolding sweep_one
sweep_one-cases now j s = elim (Bool-cases (needs_check j.state)) [
  | inl y ↦ inl (rw (sweep_one, y) refl)
  | inr n ↦ inr (rw (sweep_one, n) refl)
]

pub sweep_one-IsIndexed :
    (now : ℕ) (j : Job) (s s' : Store) (r : SweepResult)
    → IsIndexed s
    → sweep_one now j s ≡ ok (r, s')
    → IsIndexed s'
unfolding sweep_one
sweep_one-IsIndexed now j s s' r w h = elim (sweep_one-cases now j s) [
  | inl e ↦ subst IsIndexed (cc (e, h)) w
  | inr e ↦ requeue_or_fail-IsIndexed now j s s' r w (sym e ∙ h)
]

pub fail_job-IsIndexed :
    (id now : ℕ) (f : Failed) (s s' : Store)
    → IsIndexed s
    → fail_job id now f s ≡ ok s'
    → IsIndexed s'
unfolding fail_job
fail_job-IsIndexed id now f s s' w h = fail_job_tx-IsIndexed id now f s s' w (ground (arith, h))

pub requeue_interrupted_job-IsIndexed :
    (id now : ℕ) (s s' : Store) (r : SweepResult)
    → IsIndexed s
    → requeue_interrupted_job id now s ≡ ok (r, s')
    → IsIndexed s'
unfolding requeue_interrupted_job
requeue_interrupted_job-IsIndexed id now s s' r w h = elim (Option-cases (find_job id s.jobs)) [
  | inl e ↦ absurd (cc (rw (requeue_interrupted_job, e) at h))
  | inr (j, e) ↦ requeue_or_fail-IsIndexed now j s s' r w (rw (requeue_interrupted_job, e) at h)
]
