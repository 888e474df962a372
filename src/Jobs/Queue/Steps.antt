-- ===== src/Jobs/Queue/Steps.antt =====
-- The transactions on the queue as steps, in any order, and what every reachable queue is like.
use codarr.Prelude.{ℕ, [], Option, ok, ◌≡◌, refl, arith, ℤ}
use codarr.Jobs.Types.{Job, JobState, Store, SweepResult, Failed}
use codarr.Jobs.Queue.{
  restart_job, fail_job, enqueue_job, claim_next_job, set_job_state, cancel_job,
  requeue_interrupted_job, sweep_one,
}
use codarr.Jobs.Promotion.{record_promoted}
use codarr.Jobs.Queue.Active.{IsIndexed, count}
use codarr.Jobs.Queue.Keeps.{
  cancel_job-IsIndexed, claim_next_job-IsIndexed, enqueue_job-IsIndexed, fail_job-IsIndexed,
  requeue_interrupted_job-IsIndexed, restart_job-IsIndexed, set_job_state-IsIndexed,
  sweep_one-IsIndexed, record_promoted-IsIndexed,
}

-- One committed transaction. An error rolls back, so it is no step.
pub data Step : Store → Store → Type 0 where
  enqueues :
      (m : ℕ) (p : ℤ) (attempt now : ℕ) (s : Store) → Step s (enqueue_job m p attempt now s).1
  claims : (now : ℕ) (s s' : Store) (j : Option Job) → claim_next_job now s ≡ ok (j, s') → Step s s'
  sets_state :
      (id : ℕ) (state : JobState) (s s' : Store) → set_job_state id state s ≡ ok s' → Step s s'
  records : (id m now : ℕ) (s s' : Store) → record_promoted id m now s ≡ ok s' → Step s s'
  cancels : (id now : ℕ) (s s' : Store) → cancel_job id now s ≡ ok s' → Step s s'
  fails : (id now : ℕ) (f : Failed) (s s' : Store) → fail_job id now f s ≡ ok s' → Step s s'
  restarts : (id now : ℕ) (s s' : Store) → restart_job id now s ≡ ok s' → Step s s'
  sweeps :
      (now : ℕ) (j : Job) (s s' : Store) (r : SweepResult)
      → sweep_one now j s ≡ ok (r, s')
      → Step s s'
  requeues :
      (id now : ℕ) (s s' : Store) (r : SweepResult)
      → requeue_interrupted_job id now s ≡ ok (r, s')
      → Step s s'

-- The queues that are reached from an empty one.
pub data IsReachable : Store → Type 0 where
  starts : (s : Store) → s.jobs ≡ [] → IsReachable s
  steps : (s s' : Store) → IsReachable s → Step s s' → IsReachable s'

Step-IsIndexed : (s s' : Store) → IsIndexed s → Step s s' → IsIndexed s'
Step-IsIndexed s _ w (enqueues m p attempt now _) = enqueue_job-IsIndexed m p attempt now s w
Step-IsIndexed s s' w (claims now _ _ j h) = claim_next_job-IsIndexed now s s' j w h
Step-IsIndexed s s' w (sets_state id state _ _ h) = set_job_state-IsIndexed id state s s' w h
Step-IsIndexed s s' w (records id m now _ _ h) = record_promoted-IsIndexed id m now s s' w h
Step-IsIndexed s s' w (cancels id now _ _ h) = cancel_job-IsIndexed id now s s' w h
Step-IsIndexed s s' w (fails id now f _ _ h) = fail_job-IsIndexed id now f s s' w h
Step-IsIndexed s s' w (restarts id now _ _ h) = restart_job-IsIndexed id now s s' w h
Step-IsIndexed s s' w (sweeps now j _ _ r h) = sweep_one-IsIndexed now j s s' r w h
Step-IsIndexed s s' w (requeues id now _ _ r h) =
    requeue_interrupted_job-IsIndexed id now s s' r w h

-- In every queue that the transactions reach, whatever their order, a file has at most one active
-- job, and a row id names one job.
pub IsReachable-IsIndexed : (s : Store) → IsReachable s → IsIndexed s
unfolding count
IsReachable-IsIndexed s (starts _ e) = record {
  one_active = λ m. rw (e) (omega arith);
  one_row = λ i. rw (e) (omega arith);
  fresh = λ i l. rw (e) refl;
}
IsReachable-IsIndexed s' (steps s _ r t) = Step-IsIndexed s s' (IsReachable-IsIndexed s r) t
