-- ===== src/Jobs/Types.antt =====
-- internal/pkg/domain/job.go, and the rows of the tables `jobs` and `media_files` as far as the queue
-- reads and writes them. Columns that only the execution writes are left out.
use codarr.Prelude.{ℕ, String, Bool, true, false, List, Option, ℤ, not}

pub data JobState : Type 0 where
  queued running verifying awaiting_stream_end promoting done cancelled failed : JobState

pub data FailureCode : Type 0 where
  fail_none fail_interrupted fail_preflight fail_probe fail_ffmpeg fail_verification fail_promote :
      FailureCode
  fail_internal : FailureCode

pub data MediaStatus : Type 0 where
  media_new media_analyzed media_queued media_processing media_done media_failed : MediaStatus
  media_ignored media_skipped media_missing : MediaStatus

-- `ActiveJobStates`, the states of the partial unique index.
unfoldable pub is_active_state : JobState → Bool
is_active_state queued = true
is_active_state running = true
is_active_state verifying = true
is_active_state awaiting_stream_end = true
is_active_state promoting = true
is_active_state done = false
is_active_state cancelled = false
is_active_state failed = false

-- `InFlightJobStates`, the states that a crash leaves behind.
unfoldable pub is_in_flight_state : JobState → Bool
is_in_flight_state running = true
is_in_flight_state verifying = true
is_in_flight_state awaiting_stream_end = true
is_in_flight_state promoting = true
is_in_flight_state queued = false
is_in_flight_state done = false
is_in_flight_state cancelled = false
is_in_flight_state failed = false

abbrev pub is_queued_state : JobState → Bool
is_queued_state queued = true
is_queued_state _ = false

-- `cancelled`, `done` and `failed`.
unfoldable pub is_terminal_state : JobState → Bool
unfolding is_active_state
is_terminal_state s = not (is_active_state s)

-- `MaxAutoAttempts`
abbrev pub max_auto_attempts : ℕ
max_auto_attempts = 3

pub record Failed : Type 0 where
  pub code : FailureCode
  pub message : String
  pub stderr_tail : String

pub record Job : Type 0 where
  pub id : ℕ
  pub media_file_id : ℕ
  pub priority : ℤ
  pub state : JobState
  pub attempt : ℕ
  pub staging_path : String
  pub blocked_by : String
  pub failure : Option Failed
  pub queued_at : ℕ
  pub started_at : Option ℕ
  pub finished_at : Option ℕ

pub record Media : Type 0 where
  pub id : ℕ
  pub status : MediaStatus
  pub last_error : String

-- The two tables and the next row id.
pub record Store : Type 0 where
  pub jobs : List Job
  pub media : List Media
  pub next_id : ℕ

-- `conflict` is the partial unique index refusing a row.
pub data StoreError : Type 0 where
  not_found conflict invalid_failure : StoreError

pub data SweepAction : Type 0 where
  sweep_requeued sweep_failed sweep_needs_check : SweepAction

pub record SweepResult : Type 0 where
  pub job_id : ℕ
  pub media_file_id : ℕ
  pub found_state : JobState
  pub action : SweepAction
  pub attempt : ℕ
  pub staging_path : String
