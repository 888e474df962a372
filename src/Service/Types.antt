-- ===== src/Service/Types.antt =====
-- What internal/job/execute.go reads of the settings, the media row and the job row, and the state of
-- one job on its way.
use codarr.Prelude.{ℕ, String, Bool, List, Option}
use codarr.Domain.Kind
use codarr.Domain.Plan.{Plan}
use codarr.Domain.Transform.{TransformRecord}
use codarr.Probe
use codarr.Promote.Types.{SourceState, Staging}
use codarr.Hardware.{Capabilities, Selection}
use codarr.Jobs.Types.{MediaStatus, JobState}

pub data JobOrigin : Type 0 where
  origin_ingest origin_manual origin_recheck origin_space_sweep : JobOrigin

pub record Settings : Type 0 where
  pub temp_dir : String
  pub queue_paused : Bool
  pub prioritise_quick_jobs : Bool
  pub full_hash_enabled : Bool

pub record MediaFile : Type 0 where
  pub id : ℕ
  pub path : String
  pub ignored : Bool
  pub analyzed : Bool
  pub status : MediaStatus
  pub size_bytes : ℕ
  pub mtime : ℕ
  pub fingerprint : String
  pub probe_json : String
  pub plan : Option Plan
  pub plan_kind : Kind.Kind
  pub plan_reasons : List String

-- domain.Job, as the service reads it.
pub record Work : Type 0 where
  pub id : ℕ
  pub media_file_id : ℕ
  pub kind : Kind.Kind
  pub origin : JobOrigin
  pub state : JobState
  pub staging_path : String
  pub used_temp_dir : Bool
  pub final_out_time_us : ℕ
  pub started_at : Option ℕ

pub record RunResult : Type 0 where
  pub final_out_time_us : ℕ
  pub stderr_tail : String

-- The fields `blocked` and `argv` live in the calls that set them; `output` is the probe of the
-- output, a local of `finalise`.
pub record Task : Type 0 where
  pub job : Work
  pub media : MediaFile
  pub settings : Settings
  pub probe : Probe.Result
  pub plan : Plan
  pub source : SourceState
  pub staging : Staging
  pub caps : Capabilities
  pub selection : Selection
  pub decode_retried : Bool
  pub force_software : Bool
  pub needs_idet : Bool
  pub estimate : ℕ
  pub final_out_us : ℕ
  pub transform : TransformRecord
  pub output : Option Probe.Result
