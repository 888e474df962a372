-- ===== src/Service/Encode.antt =====
-- internal/job/execute.go, encode: the runs of ffmpeg, each after the one that failed. `fuel` bounds
-- the rounds; running out of it is the error `spent`. Progress writes are left out.
pub mod Laws
pub mod Sound
pub mod Runs
use codarr.Prelude.{
  ℕ, zero, suc, String, Bool, true, false, not, ◌||◌, List, [], ◌∷◌, ◌++◌, Option, none, some,
  Result, ok, err, str_eq, itoa, join, split_on, trim_space, ◌<>◌, if◌then◌else◌,
}
use codarr.Domain.Plan.{
  Plan, Encoder, encoder_name, DecodePath, on_hardware, in_software, decode_name, encodes_video,
}
use codarr.Probe.{Stream, primary_video}
use codarr.Decide.Policy.{is_legacy_container}
use codarr.Ffmpeg.Argv
use codarr.Ffmpeg.Argv.{Command, BuildError}
use codarr.Hardware.{Selection, decode_path, retry_in_software, next}
use codarr.Jobs.Types.{fail_internal, fail_ffmpeg}
use codarr.Service.Types.{Task, RunResult}
use codarr.Service.Fault.{Fault, own, wrapf, wrapped, other, spent, text}
use codarr.Service.Effects.{
  World, Trace, Action, ◌>>=◌, ◌>>◌, return, throw, lift, catch, write, store_execution,
}
use codarr.Service.Prepare.{run_ffmpeg, unless_stopped}

abbrev codec_of : Option Stream → String
codec_of none = ""
codec_of (some v) = v.codec_name

abbrev is_in_software : DecodePath → Bool
is_in_software in_software = true
is_in_software on_hardware = false

-- `build`, with the request that it makes.
unfoldable pub request_of : World → Task → Argv.Request
unfolding decode_path primary_video
request_of w t =
    let codec = codec_of (primary_video t.probe) in
    record {
      plan = t.plan;
      source = record {
        path = t.media.path;
        video_codec = codec;
        legacy_container = is_legacy_container t.plan.source_container;
      };
      output = t.staging.path;
      tags = record { version = w.version; policy = t.plan.policy_hash };
      encoder = t.selection.encoder;
      device = t.caps.device;
      force_software_decode =
          t.force_software || is_in_software (decode_path t.caps t.selection.encoder codec);
    }

build_text : BuildError → String
build_text Argv.nothing_to_do = "ffmpeg: plan produces no output file"
build_text Argv.no_video_stream = "ffmpeg: plan maps no video stream"
build_text Argv.no_audio_stream = "ffmpeg: plan maps no audio stream"
build_text Argv.missing_codec = "ffmpeg: stream has no target codec"
build_text Argv.missing_bitrate = "ffmpeg: video encode has no target bitrate"
build_text Argv.missing_encoder = "ffmpeg: video encode has no encoder"
build_text Argv.missing_device = "ffmpeg: hardware encode has no render device"

build_error : Task → BuildError → Fault
unfolding build_text
build_error t e =
    wrapf fail_internal (other (build_text e))
      ("the ffmpeg invocation for " <> t.media.path <> " could not be built")

unfoldable pub build : World → Task → Result Fault Command
unfolding request_of build_error Argv.build
build w t = elim (Argv.build (request_of w t)) [ ok cmd ↦ ok cmd | err e ↦ err (build_error t e) ]

-- `recordExecution`, of the command that runs.
unfoldable pub record_execution : World → Command → Task → Action Bool
record_execution w cmd t =
    write w
      (store_execution (record {
        job_id = t.job.id;
        staging_path = t.staging.path;
        used_temp_dir = t.staging.used_temp_dir;
        argv = cmd.args;
        encoder = t.selection.encoder;
        decode_path = cmd.decode_path;
        fell_back = t.selection.fell_back;
        fallback_reason = t.selection.reason;
        source_size = t.media.size_bytes;
        estimated_seconds = t.estimate;
        final_out_time_us = t.final_out_us;
      }))
      (λ e. wrapf fail_internal e ("recording what job " <> itoa t.job.id <> " is running failed"))

abbrev no_result : RunResult
no_result = record { final_out_time_us = 0; stderr_tail = "" }

abbrev wrap_run : Task → Option Fault → Option Fault
wrap_run t none = none
wrap_run t (some e) = some (wrapped ("running ffmpeg for job " <> itoa t.job.id) e)

-- The end of `attempt`: a record that could not be written counts as a failed run.
unfoldable pub run_recorded :
    World → Task → Command → Result Fault Bool → Action (RunResult × Option Fault)
unfolding run_ffmpeg
run_recorded w t cmd (err e) = return (no_result, some e)
run_recorded w t cmd (ok done) = do
  answer ← run_ffmpeg w cmd.args
  return (answer.0, wrap_run t answer.1)

unfoldable pub attempt : World → Task → Command → Action (RunResult × Option Fault)
unfolding record_execution run_recorded
attempt w t cmd = do recorded ← catch (record_execution w cmd t); run_recorded w t cmd recorded

abbrev retried : Task → String → Task
retried t reason = record t {
  decode_retried = true;
  force_software = true;
  selection = record t.selection {
    fell_back = true;
    reason = trim_space (t.selection.reason <> " " <> reason);
  };
}

abbrev stepped : Task → Selection → Task
stepped t s = record t { selection = s; decode_retried = false; force_software = false }

abbrev step_encoder : Task → Option Task
step_encoder t =
    if not (encodes_video t.plan) then none else elim (next t.caps t.selection.encoder t.plan.hdr) [
      | none ↦ none
      | some s ↦ some (stepped t s)
    ]

-- `stepBack`: the state to try next, if there is one.
unfoldable pub step_back : Task → Command → Option Task
unfolding retry_in_software next
step_back t cmd = elim (retry_in_software cmd.decode_path t.decode_retried) [
  | some reason ↦ some (retried t reason)
  | none ↦ step_encoder t
]

-- `describeAttempt`
abbrev describe_attempt : Task → Command → String
describe_attempt t cmd =
    (if str_eq (encoder_name t.selection.encoder) ""
      then "stream copy"
      else encoder_name t.selection.encoder)
    <> " with "
    <> decode_name cmd.decode_path
    <> " decode"

last_full : List String → String
last_full [] = ""
last_full (l ∷ ls) = let rest = last_full ls in if str_eq rest "" then trim_space l else rest

unfoldable pub last_line : String → String
unfolding last_full
last_line tail = last_full (split_on b'\n' tail)

unfoldable pub encode_exhausted : Task → List String → RunResult → Fault → Fault
unfolding last_line text
encode_exhausted t tried res e =
    own fail_ffmpeg
      ("ffmpeg did not write a usable output for "
        <> t.media.path
        <> " after trying "
        <> join ", " tried
        <> ": "
        <> (if str_eq (last_line res.stderr_tail) "" then text e else last_line res.stderr_tail))
      res.stderr_tail

-- The next round from there, or the end of the loop.
abbrev pub again_or :
    (List String → Task → Action Task) → Fault → List String → Option Task → Action Task
again_or again e tried none = throw e
again_or again e tried (some t) = again tried t

abbrev pub finished : Task → RunResult → Task
finished t res = record t { final_out_us = res.final_out_time_us }

-- After one run: the end of the loop, or its next round.
unfoldable pub after_attempt :
    World
    → (List String → Task → Action Task)
    → List String
    → Task
    → Command
    → RunResult × Option Fault
    → Action Task
unfolding record_execution unless_stopped step_back encode_exhausted
after_attempt w again tried t cmd (res, none) =
    record_execution w cmd (finished t res) >> return (finished t res)
after_attempt w again tried t cmd (res, some e) =
    let tried' = tried ++ describe_attempt t cmd ∷ [] in
    unless_stopped w e e (again_or again (encode_exhausted t tried' res e) tried' (step_back t cmd))

unfoldable pub encode_round :
    World → (List String → Task → Action Task) → List String → Task → Action Task
unfolding build attempt after_attempt
encode_round w again tried t = do
  cmd ← lift (build w t)
  out ← attempt w t cmd
  after_attempt w again tried t cmd out

unfoldable pub encode : ℕ → World → List String → Task → Action Task
unfolding encode_round
encode zero w tried t = throw spent
encode (suc fuel) w tried t = encode_round w (λ tried' t'. encode fuel w tried' t') tried t
