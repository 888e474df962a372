-- ===== src/Service/Prepare.antt =====
-- internal/job/execute.go, between the claim and the first byte of output: preflight, the bitrate, the
-- scan, the encoder and the record.
pub mod Laws
use codarr.Prelude.{
  ℕ, ◌/◌, ltb, String, Bool, true, false, not, List, [], ◌∷◌, Option, none, some, Result, ok, err,
  Rat, str_eq, itoa, ◌<>◌, split_on, if◌then◌else◌,
}
use codarr.Domain.Plan.{Plan, Scan, encodes_video}
use codarr.Domain.Path.{output_ext}
use codarr.Probe
use codarr.Probe.{Stream, primary_video, duration_of, frame_rate, is_hdr, zero_rat}
use codarr.Promote.Types.{SourceState, Staging, PreflightRequest}
use codarr.Promote.Effects.{join_path}
use codarr.Decide.Policy.{is_legacy_container}
use codarr.Decide.Bitrate.{resolve_video_bitrate}
use codarr.Decide.Transform.{new_transform}
use codarr.Domain.Transform.{VideoState, TransformRecord}
use codarr.Ffmpeg.Bitrate.{BitrateInput, target_from_samples, target_from_fallback}
use codarr.Ffmpeg.Idet.{idet_args, parse_idet}
use codarr.Hardware.{select}
use codarr.Jobs.Types.{fail_internal, fail_probe}
use codarr.Service.Types.{Work, Task, RunResult}
use codarr.Service.Fault.{Fault, failf, wrapf, wrapped, cancelled}
use codarr.Service.Effects.{
  World, Trace, Action, ◌>>=◌, ◌>>◌, return, throw, lift, catch, ask, write, attempt, make_dir,
  remove_dir, store_transform, ran, staged,
}
use codarr.Service.Load.{replan}

abbrev source_state : World → Task → SourceState
source_state w t = record {
  size_bytes = t.media.size_bytes;
  mtime = t.media.mtime;
  fingerprint = t.media.fingerprint;
  duration_seconds = duration_of t.probe;
  video = t.transform.video.before;
  legacy_container = is_legacy_container t.plan.source_container;
}

abbrev preflight_request : World → Task → PreflightRequest
preflight_request w t = record {
  job_id = t.job.id;
  source_path = t.media.path;
  source = source_state w t;
  output_ext = output_ext t.plan.output_container t.media.path;
}

-- `setStaging` is the event `staged`.
abbrev set_staging : String → Action Bool
set_staging path h = (ok true, staged path ∷ h)

unfoldable pub preflight : World → Task → Action Task
preflight w t = do
  staging ←
      ask "preflight" (λ h. w.preflight h (preflight_request w t))
        (wrapped ("preflight of " <> t.media.path))
  set_staging staging.path
  return (record t { source = source_state w t; staging = staging })

abbrev stream_input : Option Stream → ℕ → BitrateInput
stream_input none source = record {
  width = 0;
  height = 0;
  fps = zero_rat;
  hdr = false;
  source_bitrate = source;
}
stream_input (some v) source = record {
  width = v.width;
  height = v.height;
  fps = frame_rate v;
  hdr = is_hdr v;
  source_bitrate = source;
}

unfoldable pub bitrate_input : Probe.Result → BitrateInput
unfolding resolve_video_bitrate primary_video
bitrate_input probe = stream_input (primary_video probe) (resolve_video_bitrate (some probe)).0

-- `sampleProbe`; the directory is removed whether the encodes succeed or not.
unfoldable pub sample_probe : World → String → String → String → Rat → Action ℕ
sample_probe w temp_dir name path duration =
    let dir = join_path temp_dir (".codarr-probe-" <> name) in
    if str_eq temp_dir ""
    then throw (
        failf fail_probe
          "no temp directory is configured, so the sample probe has nowhere to write")
    else (do
      write w (make_dir dir) (λ e.
          wrapf fail_probe e ("the sample probe directory " <> dir <> " could not be created"))
      base ← catch (
          ask "sample" (λ h. w.sample h path duration)
            (λ e. wrapf fail_probe e ("the sample probe of " <> path <> " failed")))
      attempt w (remove_dir dir)
      lift base)

abbrev with_target : Task → ℕ → Task
with_target t bps = record t { plan = record t.plan { target_video_bitrate = bps } }

-- `thrown` when `e` only says that the job is to stop, else `k`.
unfoldable pub unless_stopped : {A : Type 0} → World → Fault → Fault → Action A → Action A
unfolding cancelled
unless_stopped w e thrown k h = if cancelled (w.ctx_done h) e then throw thrown h else k h

-- The end of `resolveBitrate`: a sample, or an error that counts only when the job is to stop.
unfoldable pub targeted : World → Task → Result Fault ℕ → Action Task
unfolding bitrate_input unless_stopped
targeted w t (ok base) =
    return (with_target t (target_from_samples (base ∷ []) (bitrate_input t.probe)))
targeted w t (err e) =
    unless_stopped w e e (return (with_target t (target_from_fallback (bitrate_input t.probe))))

unfoldable pub resolve_bitrate : World → Task → Action Task
unfolding sample_probe targeted
resolve_bitrate w t = if not (encodes_video t.plan) then return t else (do
  base ←
      catch (sample_probe w t.settings.temp_dir (itoa t.job.id) t.media.path (duration_of t.probe))
  targeted w t base)

-- One run of ffmpeg: its result, with its error beside it.
unfoldable pub run_ffmpeg : World → List String → Action (RunResult × Option Fault)
run_ffmpeg w argv h = (ok (w.run h argv), ran argv (is_ok (w.run h argv).1) ∷ h)
  where
    is_ok : Option Fault → Bool
    is_ok none = true
    is_ok (some e) = false

unfoldable pub scanned : World → Task → RunResult × Option Fault → Action Task
unfolding parse_idet unless_stopped
scanned w t (res, none) = replan w (some (parse_idet res.stderr_tail)) t
scanned w t (res, some e) =
    unless_stopped w e (wrapped ("idet sample of " <> t.media.path) e) (return t)

unfoldable pub resolve_scan : World → Task → Action Task
unfolding run_ffmpeg scanned
resolve_scan w t =
    if not t.needs_idet
    then return t
    else (do answer ← run_ffmpeg w (idet_args t.media.path); scanned w t answer)

unfoldable pub select_encoder : World → Task → Action Task
unfolding select
select_encoder w t = do
  caps ← ask "capabilities" w.capabilities (λ e.
      wrapf fail_internal e ("the hardware capabilities could not be read for " <> t.media.path))
  return (
      if not (encodes_video t.plan)
      then record t { caps = caps }
      else record t { caps = caps; selection = select caps t.plan.hdr })

-- The measured target, in place of the prediction of the video's bitrate.
abbrev with_bitrate : ℕ → Option VideoState → Option VideoState
with_bitrate bps none = none
with_bitrate bps (some v) =
    some (if ltb 0 bps then record v { bitrate_kbps = some (bps / 1000) } else v)

unfoldable pub filled_transform : Task → TransformRecord
unfolding new_transform
filled_transform t =
    let rec = new_transform t.probe t.plan t.estimate in
    record rec {
      video = record rec.video { after = with_bitrate t.plan.target_video_bitrate rec.video.after };
    }

unfoldable pub write_transform : World → Task → Action Task
unfolding filled_transform
write_transform w t = do
  write w (store_transform t.job.id (filled_transform t)) (λ e.
      wrapf fail_internal e
        ("the transform record of job " <> itoa t.job.id <> " could not be updated"))
  return (record t { transform = filled_transform t })

abbrev estimated : World → Task → Action Task
estimated w t h = (ok (record t { estimate = w.estimate h t }), h)

unfoldable pub prepare : World → Task → Action Task
unfolding preflight resolve_bitrate resolve_scan select_encoder write_transform
prepare w t = do
  t₁ ← preflight w t
  t₂ ← resolve_bitrate w t₁
  t₃ ← resolve_scan w t₂
  t₄ ← select_encoder w t₃
  t₅ ← estimated w t₄
  write_transform w t₅
