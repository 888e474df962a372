-- ===== src/Jobs/Queue.antt =====
-- internal/pkg/store/jobs.go: the transactions on the queue. `now` is the time of the call.
pub mod Active
pub mod Front
pub mod Next
pub mod Order
pub mod Keeps
pub mod Requeue
pub mod Steps
use codarr.Prelude.{
  ℕ, zero, suc, ◌+◌, String, Bool, true, false, not, ◌&&◌, ◌||◌, List, [], ◌∷◌, ◌++◌, Option, none,
  some, Result, ok, err, any, find_first, ltb, leb, ◌==◌, if◌then◌else◌, ℤ, pos, ◌-ℤ◌, ltb_ℤ, eq_ℤ,
  min_ℤ, str_eq, itoa, ◌<>◌,
}
use codarr.Jobs.Types.{
  JobState, queued, running, awaiting_stream_end, promoting, cancelled, failed, FailureCode,
  fail_none, fail_interrupted, MediaStatus, media_queued, media_processing, media_failed,
  is_active_state, is_in_flight_state, is_queued_state, is_terminal_state, max_auto_attempts,
  Failed, Job, Media, Store, StoreError, not_found, conflict, invalid_failure, SweepAction,
  sweep_requeued, sweep_failed, sweep_needs_check, SweepResult,
}
use codarr.Jobs.Rows.{
  find_job, set_job, set_media, is_entry, has_active, other_active, with_jobs, update_row, mark,
  mark_media, and_then, new_row, claim_row, state_row, finish_row, requeue_row,
}

-- `EnqueueJob`: whether a job was created, and its row.
unfoldable pub enqueue_job : ℕ → ℤ → ℕ → ℕ → Store → Option Job × Store
unfolding has_active set_media
enqueue_job media_file_id priority attempt queued_at s =
    let row = new_row s.next_id media_file_id priority attempt queued_at in
    if has_active media_file_id s.jobs then (none, s) else (
      some row,
      record {
        jobs = s.jobs ++ row ∷ [];
        media = set_media media_file_id (mark media_queued) s.media;
        next_id = suc s.next_id;
      },
    )

-- `ORDER BY priority ASC, queued_at ASC, id ASC`
unfoldable pub runs_before : Job → Job → Bool
runs_before j k =
    ltb_ℤ j.priority k.priority
    || eq_ℤ j.priority k.priority
      && (ltb j.queued_at k.queued_at || j.queued_at == k.queued_at && ltb j.id k.id)

abbrev pub is_queued : Job → Bool
is_queued j = is_queued_state j.state

first_of : Job → Option Job → Job
first_of j none = j
first_of j (some k) = if runs_before k j then k else j

unfoldable pub next_queued : List Job → Option Job
unfolding runs_before first_of
next_queued [] = none
next_queued (j ∷ js) =
    let rest = next_queued js in if is_queued j then some (first_of j rest) else rest

-- `ClaimNextJob`: the row as it was picked; the stored one is running.
unfoldable pub claim_next_job : ℕ → Store → Result StoreError (Option Job × Store)
unfolding next_queued update_row set_media
claim_next_job now s = elim (next_queued s.jobs) [
  | none ↦ ok (none, s)
  | some j ↦
      and_then (update_row j.id (claim_row now) s)
        (λ s'. ok (some (claim_row now j), mark_media j.media_file_id (mark media_processing) s'))
]

-- `SetJobState`
unfoldable pub set_job_state : ℕ → JobState → Store → Result StoreError Store
unfolding update_row
set_job_state id state s = update_row id (state_row state) s

-- `CancelJob`, of a job that has not ended.
unfoldable pub cancel_job : ℕ → ℕ → Store → Result StoreError Store
unfolding update_row is_terminal_state
cancel_job id now s = elim (find_job id s.jobs) [
  | none ↦ err not_found
  | some j ↦
      if is_terminal_state j.state
      then err not_found
      else update_row id (finish_row cancelled now j.failure) s
]

abbrev blame : String → Media → Media
blame message m = record { id = m.id; status = media_failed; last_error = message }

-- `failJobTx`
unfoldable pub fail_job_tx : ℕ → ℕ → Failed → Store → Result StoreError Store
unfolding update_row set_media
fail_job_tx id now failure s = elim (find_job id s.jobs) [
  | none ↦ err not_found
  | some j ↦
      and_then (update_row id (finish_row failed now (some failure)) s)
        (λ s'. ok (mark_media j.media_file_id (blame failure.message) s'))
]

abbrev pub is_code : FailureCode → Bool
is_code fail_none = false
is_code _ = true

-- `FailJob`, which wants a code and a message.
unfoldable pub fail_job : ℕ → ℕ → Failed → Store → Result StoreError Store
unfolding fail_job_tx
fail_job id now failure s =
    if not (is_code failure.code) || str_eq failure.message ""
    then err invalid_failure
    else fail_job_tx id now failure s

-- The least priority of a queued job, if there is one.
least : ℤ → Option ℤ → ℤ
least p none = p
least p (some q) = min_ℤ q p

unfoldable pub min_queued : List Job → Option ℤ
unfolding least
min_queued [] = none
min_queued (j ∷ js) =
    let rest = min_queued js in if is_queued j then some (least j.priority rest) else rest

-- `frontPriority`, of a job with this priority.
unfoldable pub front_priority : ℤ → List Job → ℤ
unfolding min_queued least
front_priority own js = least own (min_queued js) -ℤ pos 1

-- `RestartJob`, of a cancelled or a failed job.
abbrev is_restartable : JobState → Bool
is_restartable cancelled = true
is_restartable failed = true
is_restartable _ = false

unfoldable pub restart_job : ℕ → ℕ → Store → Result StoreError Store
unfolding front_priority update_row set_media
restart_job id now s = elim (find_job id s.jobs) [
  | none ↦ err not_found
  | some j ↦
      let front = front_priority j.priority s.jobs in
      if not (is_restartable j.state)
      then err not_found
      else and_then (update_row id (requeue_row front 0 now none none) s)
          (λ s'. ok (mark_media j.media_file_id (mark media_queued) s'))
]

abbrev swept : Job → SweepAction → ℕ → SweepResult
swept j action attempt = record {
  job_id = j.id;
  media_file_id = j.media_file_id;
  found_state = j.state;
  action = action;
  attempt = attempt;
  staging_path = j.staging_path;
}

abbrev capped : ℕ → Failed
capped attempt = record {
  code = fail_interrupted;
  message =
      "interrupted "
      <> itoa (suc attempt)
      <> " times; the automatic restart cap of "
      <> itoa max_auto_attempts
      <> " was reached, retry manually";
  stderr_tail = "";
}

-- `requeueOrFail`
unfoldable pub requeue_or_fail : ℕ → Job → Store → Result StoreError (SweepResult × Store)
unfolding fail_job_tx front_priority update_row set_media
requeue_or_fail now j s =
    let front = front_priority j.priority s.jobs in
    if leb max_auto_attempts j.attempt
    then and_then (fail_job_tx j.id now (capped j.attempt) s)
        (λ s'. ok (swept j sweep_failed j.attempt, s'))
    else and_then
        (update_row j.id
          (λ row. requeue_row front (suc row.attempt) row.queued_at row.failure row.finished_at row)
          s)
        (λ s'. ok (
          swept j sweep_requeued (suc j.attempt),
          mark_media j.media_file_id (mark media_queued) s',
        ))

-- `RequeueInterruptedJob`
unfoldable pub requeue_interrupted_job : ℕ → ℕ → Store → Result StoreError (SweepResult × Store)
unfolding requeue_or_fail
requeue_interrupted_job id now s = elim (find_job id s.jobs) [
  | none ↦ err not_found
  | some j ↦ requeue_or_fail now j s
]

-- A promotion in flight is left as found: deciding it needs the files.
abbrev needs_check : JobState → Bool
needs_check promoting = true
needs_check awaiting_stream_end = true
needs_check _ = false

-- `sweepOne`
unfoldable pub sweep_one : ℕ → Job → Store → Result StoreError (SweepResult × Store)
unfolding requeue_or_fail
sweep_one now j s =
    if needs_check j.state
    then ok (swept j sweep_needs_check j.attempt, s)
    else requeue_or_fail now j s
