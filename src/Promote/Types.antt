-- ===== src/Promote/Types.antt =====
-- The requests and results of internal/promote, and what can go wrong. An error keeps its code and
-- which check failed; its formatted message is not modelled.
use codarr.Prelude.{ℕ, String, Bool, List, Option, Rat}
use codarr.Domain.Plan.{Plan, StreamType}
use codarr.Domain.Transform.{VideoState, OutputIdentity}

pub data FailureCode : Type 0 where
  fail_preflight fail_verification fail_promote : FailureCode

-- Which check or call failed. `spent` is not an error of the program: it says that the model's fuel
-- for waiting ran out.
pub data Cause : Type 0 where
  not_absolute source_gone source_is_dir source_linked size_changed mtime_changed : Cause
  source_unread fingerprint_changed not_writable probe_unclosed probe_unremoved : Cause
  space_unread no_space staging_unstat device_split : Cause
  output_unreadable output_unstat : Cause
  duration_unknown duration_differs no_out_time out_time_differs : Cause
  stream_count stream_order no_audio language_missing : Cause
  no_video codec_changed profile_changed resolution_changed level_not_rewritten level_changed :
      Cause
  dovi_lost grew : Cause
  hash_failed source_unstat gained_links copy_failed sync_failed rename_failed cancelled : Cause
  mode_lost mtime_lost promoted_unstat promoted_unread : Cause
  spent : Cause

pub record Failure : Type 0 where
  pub code : FailureCode
  pub cause : Cause

pub record SourceState : Type 0 where
  pub size_bytes : ℕ
  pub mtime : ℕ
  pub fingerprint : String
  pub duration_seconds : Rat
  pub video : Option VideoState
  pub legacy_container : Bool

pub record Staging : Type 0 where
  pub path : String
  pub final_path : String
  pub used_temp_dir : Bool
  pub cross_device : Bool

pub record Request : Type 0 where
  pub source_path : String
  pub staging : Staging
  pub plan : Plan
  pub source : SourceState
  pub full_hash_enabled : Bool
  pub final_out_time_seconds : Rat

pub record PreflightRequest : Type 0 where
  pub job_id : ℕ
  pub source_path : String
  pub source : SourceState
  pub output_ext : String

-- One stream of the probed output.
pub record OutputStream : Type 0 where
  pub type : StreamType
  pub codec : String
  pub profile : String
  pub level : String
  pub width : ℕ
  pub height : ℕ
  pub language : String
  pub dolby_vision : Bool

pub record Output : Type 0 where
  pub duration_seconds : Rat
  pub streams : List OutputStream

-- A warning that goes with a success.
pub data Warning : Type 0 where
  legacy_duration dovi_degraded ownership_lost notify_failed : Warning

-- `Result`: what promotion produced, on the error paths too.
pub record Promoted : Type 0 where
  pub identity : Option OutputIdentity
  pub warnings : List Warning
  pub renamed : Bool
