-- ===== src/Service/Load.antt =====
-- internal/job/execute.go, load and replan: a job's state from its rows, planned anew.
use codarr.Prelude.{
  ℕ, String, Bool, true, false, not, [], Option, none, some, Result, ok, err, str_eq, max, itoa,
  ◌<>◌, if◌then◌else◌,
}
use codarr.Domain.Kind
use codarr.Domain.Plan.{Plan, Scan, needs_write, no_encoder}
use codarr.Probe
use codarr.Probe.{duration_of}
use codarr.Promote.Types.{SourceState, Staging}
use codarr.Decide.Transform.{new_transform}
use codarr.Hardware.{Capabilities, Selection, main}
use codarr.Decide.Engine.{PlanError, no_probe, no_video_stream, no_audio_streams, plan}
use codarr.Decide.Force.{force_video_encode}
use codarr.Jobs.Types.{fail_internal, fail_probe}
use codarr.Service.Types.{
  JobOrigin, origin_ingest, origin_manual, origin_recheck, origin_space_sweep, Settings, MediaFile,
  Work, Task,
}
use codarr.Service.Fault.{Fault, failf, wrapf, other}
use codarr.Service.Effects.{World, Action, ◌>>=◌, return, lift, ask}

abbrev pub sweep_reason : String
sweep_reason = "space reclaim sweep: re-encoded to HEVC at the measured target"

abbrev pub is_space_sweep : JobOrigin → Bool
is_space_sweep origin_space_sweep = true
is_space_sweep _ = false

abbrev pub origin_name : JobOrigin → String
origin_name origin_ingest = "ingest"
origin_name origin_manual = "manual"
origin_name origin_recheck = "recheck"
origin_name origin_space_sweep = "space_sweep"

-- `planFor`
unfoldable pub plan_for : JobOrigin → Plan → Option Plan
unfolding force_video_encode
plan_for origin p =
    if not (is_space_sweep origin) then some p else force_video_encode p sweep_reason

unfoldable pub stored_probe : World → MediaFile → Result Fault Probe.Result
stored_probe w m =
    if str_eq m.probe_json ""
    then err (
        failf fail_probe (
          m.path
          <> " has no stored ffprobe result, so it cannot be planned; analyse it again first"))
    else elim (w.parse m.probe_json) [
      | ok probe ↦ ok probe
      | err e ↦
          err (
            wrapf fail_probe e ("the stored ffprobe result for " <> m.path <> " could not be read"))
    ]

unfoldable pub plan_error : PlanError → Fault
plan_error no_probe = other "decide: no probe"
plan_error no_video_stream = other "decide: no video stream"
plan_error no_audio_streams = other "decide: no audio streams"

-- What one call of `replan` settles on, or the error.
unfoldable pub replanned :
    World → Work → MediaFile → Probe.Result → ℕ → Option Scan → Result Fault (Plan × Bool)
unfolding plan plan_for plan_error
replanned w job media probe target scan =
    elim (plan w.policy_hash (some probe) (record { path = media.path; idet_scan = scan })) [
      | err e ↦ err (
          wrapf fail_internal (plan_error e)
            ("planning " <> media.path <> " against the current policy failed"))
      | ok analysis ↦ elim (plan_for job.origin analysis.plan) [
        | none ↦ err (
            failf fail_internal (
              media.path
              <> " cannot be re-encoded for the space sweep: the current policy plans its video as "
              <> Kind.display analysis.plan.kind))
        | some p ↦
            if not (needs_write p)
            then err (
                failf fail_internal (
                  media.path
                  <> " plans as skip under the current policy, so there is nothing to do; it was queued as "
                  <> Kind.display job.kind
                  <> " under an older one"))
            else ok (
              record p { target_video_bitrate = max p.target_video_bitrate target },
              analysis.needs_idet_sample,
            )
      ]
    ]

abbrev pub with_plan : Task → Plan × Bool → Task
with_plan t p = record t { plan = p.0; needs_idet = p.1 }

unfoldable pub replan : World → Option Scan → Task → Action Task
unfolding replanned
replan w scan t = do
  p ← lift (replanned w t.job t.media t.probe t.plan.target_video_bitrate scan)
  return (with_plan t p)

abbrev unread : SourceState
unread = record {
  size_bytes = 0;
  mtime = 0;
  fingerprint = "";
  duration_seconds = record { num = 0; den = 1 };
  video = none;
  legacy_container = false;
}

abbrev unstaged : Staging
unstaged = record { path = ""; final_path = ""; used_temp_dir = false; cross_device = false }

abbrev unselected : Selection
unselected = record {
  encoder = no_encoder;
  profile = main;
  fell_back = false;
  software_only = false;
  reason = "";
}

abbrev unprobed : Capabilities
unprobed = record { device = ""; ffmpeg_version = ""; entries = [] }

-- A task whose other fields have their zero values.
abbrev pub new_task : Work → MediaFile → Settings → Probe.Result → Plan × Bool → Task
new_task job media settings probe p = record {
  job = job;
  media = media;
  settings = settings;
  probe = probe;
  plan = p.0;
  source = unread;
  staging = unstaged;
  caps = unprobed;
  selection = unselected;
  decode_retried = false;
  force_software = false;
  needs_idet = p.1;
  estimate = 0;
  final_out_us = 0;
  transform = new_transform probe p.0 0;
  output = none;
}

abbrev pub read_settings : World → Action Settings
read_settings w =
    ask "settings" w.settings (λ e. wrapf fail_internal e "the settings could not be read")

abbrev pub read_media : World → ℕ → Action MediaFile
read_media w id =
    ask "media" (λ h. w.media h id)
      (λ e. wrapf fail_internal e ("media file " <> itoa id <> " could not be read"))

unfoldable pub load : World → Work → Action Task
unfolding stored_probe replanned
load w job = do
  settings ← read_settings w
  media ← read_media w job.media_file_id
  probe ← lift (stored_probe w media)
  p ← lift (replanned w job media probe 0 none)
  return (new_task job media settings probe p)
