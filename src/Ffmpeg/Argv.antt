-- ===== src/Ffmpeg/Argv.antt =====
-- internal/ffmpeg/argv.go, with the constants of policy.go: the argument vector for a plan.
pub mod Laws
pub mod Options
use codarr.Prelude.{
  ℕ, zero, suc, ◌*◌, ◌/◌, ◌%◌, String, Bool, true, false, not, ◌&&◌, ◌||◌, List, [], ◌∷◌, ◌++◌,
  Option, none, some, Result, ok, err, any, is_empty, str_eq, join, itoa, ltb, ◌==◌, ◌<>◌,
  if◌then◌else◌,
}
use codarr.Domain.Plan.{
  Decision, copy, encode, drop, StreamType, video, audio, subtitle, is_mp4, StreamPlan, Plan,
  Encoder, no_encoder, qsv, vaapi, software, encoder_name, is_software, DecodePath, on_hardware,
  in_software, eq_decision, eq_type, needs_write, video_stream,
}

pub data BuildError : Type 0 where
  nothing_to_do no_video_stream no_audio_stream missing_codec missing_bitrate : BuildError
  missing_encoder missing_device : BuildError

pub record Source : Type 0 where
  pub path : String
  pub video_codec : String
  pub legacy_container : Bool

pub record Tags : Type 0 where
  pub version : String
  pub policy : String

pub record Request : Type 0 where
  pub plan : Plan
  pub source : Source
  pub output : String
  pub tags : Tags
  pub encoder : Encoder
  pub device : String
  pub force_software_decode : Bool

pub record Command : Type 0 where
  pub args : List String
  pub decode_path : DecodePath

-- One kept stream at its position in the output.
pub record OutStream : Type 0 where
  pub plan : StreamPlan
  pub letter : String
  pub spec : String

-- The Boolean switch of the Go code, not the table of internal/decide.
unfoldable pub hardware_decodable : String → Bool
hardware_decodable codec = any (str_eq codec) ("h264" ∷ "hevc" ∷ "mpeg2video" ∷ "vc1" ∷ "vp9" ∷ [])

abbrev pub is_out : StreamType → StreamPlan → Bool
is_out type s = eq_type s.type type && not (eq_decision s.decision drop)

abbrev pub out_stream : String → ℕ → StreamPlan → OutStream
out_stream letter n s = record { plan = s; letter = letter; spec = letter <> ":" <> itoa n }

-- The streams of one type that are kept, numbered from `n`.
unfoldable pub group_from : StreamType → String → ℕ → List StreamPlan → List OutStream
group_from type letter n [] = []
group_from type letter n (s ∷ ss) =
    let skipped = group_from type letter n ss in
    let taken = out_stream letter n s ∷ group_from type letter (suc n) ss in
    if is_out type s then taken else skipped

unfoldable pub output_streams : List StreamPlan → List OutStream
unfolding group_from
output_streams streams =
    group_from video "v" 0 streams
    ++ (group_from audio "a" 0 streams ++ group_from subtitle "s" 0 streams)

abbrev lacks_codec : OutStream → Bool
lacks_codec o = not (eq_decision o.plan.decision copy) && str_eq o.plan.target_codec ""

abbrev of_type : StreamType → OutStream → Bool
of_type t o = eq_type o.plan.type t

abbrev pub is_encoded : Option StreamPlan → Bool
is_encoded none = false
is_encoded (some v) = eq_decision v.decision encode

unfoldable pub encodes_video : Plan → Bool
unfolding video_stream
encodes_video p = is_encoded (video_stream p)

unfoldable pub validate_encode : Request → Option BuildError
unfolding encodes_video
validate_encode req =
    if not (encodes_video req.plan)
    then none
    else if str_eq (encoder_name req.encoder) ""
    then some missing_encoder
    else if req.plan.target_video_bitrate == 0
    then some missing_bitrate
    else if not (is_software req.encoder) && str_eq req.device ""
    then some missing_device
    else none

unfoldable pub validate : Request → List OutStream → Option BuildError
unfolding validate_encode
validate req outs =
    if any lacks_codec outs
    then some missing_codec
    else if not (any (of_type video) outs)
    then some no_video_stream
    else if not (any (of_type audio) outs)
    then some no_audio_stream
    else validate_encode req

unfoldable pub decode_path : Request → DecodePath
unfolding encodes_video hardware_decodable
decode_path req =
    if not (encodes_video req.plan)
    then in_software
    else if req.force_software_decode
    then in_software
    else if is_software req.encoder
    then in_software
    else if not (hardware_decodable req.source.video_codec)
    then in_software
    else on_hardware

unfoldable pub backend : Encoder → String
backend vaapi = "vaapi"
backend _ = "qsv"

unfoldable pub hw_device_args : Request → List String
unfolding encodes_video backend
hw_device_args req =
    if not (encodes_video req.plan) || is_software req.encoder
    then []
    else "-init_hw_device"
      ∷ (backend req.encoder <> "=hw:" <> req.device)
      ∷ "-filter_hw_device"
      ∷ "hw"
      ∷ []

unfoldable pub hw_accel_args : Request → DecodePath → List String
unfolding backend
hw_accel_args req in_software = []
hw_accel_args req on_hardware =
    "-hwaccel" ∷ backend req.encoder ∷ "-hwaccel_output_format" ∷ backend req.encoder ∷ []

hw_deinterlace : Encoder → String
hw_deinterlace vaapi = "deinterlace_vaapi"
hw_deinterlace _ = "vpp_qsv=deinterlace=2"

abbrev video_profile : Plan → String
video_profile p = if p.hdr then "main10" else "main"

abbrev upload_pix_fmt : Plan → String
upload_pix_fmt p = if p.hdr then "p010le" else "nv12"

abbrev software_pix_fmt : Plan → String
software_pix_fmt p = if p.hdr then "yuv420p10le" else "yuv420p"

unfoldable pub video_filters : Request → DecodePath → String
unfolding hw_deinterlace
video_filters req on_hardware =
    join "," (if req.plan.deinterlace then hw_deinterlace req.encoder ∷ [] else [])
video_filters req in_software = join "," (
    (if req.plan.deinterlace then "bwdif=mode=send_frame" ∷ [] else [])
    ++ (if not (is_software req.encoder)
        then ("format=" <> upload_pix_fmt req.plan) ∷ "hwupload=extra_hw_frames=64" ∷ []
        else []))

unfoldable pub hdr_transfer_arg : Plan → String
hdr_transfer_arg p = if str_eq p.hdr_transfer "arib-std-b67" then "arib-std-b67" else "smpte2084"

unfoldable pub mp4_hevc_tag_args : Plan → List String
mp4_hevc_tag_args p =
    if p.dolby_vision
    then "-strict" ∷ "unofficial" ∷ "-tag:v" ∷ "dvh1" ∷ []
    else "-tag:v" ∷ "hvc1" ∷ []

-- The largest rate is 8/5 of the target, the buffer twice the target.
unfoldable pub rate_control_args : ℕ → List String
rate_control_args target =
    "-b:v"
    ∷ itoa target
    ∷ "-maxrate"
    ∷ itoa (target * 8 / 5)
    ∷ "-bufsize"
    ∷ itoa (target * 2 / 1)
    ∷ []

unfoldable pub copied_video_args : Request → List String
unfolding mp4_hevc_tag_args
copied_video_args req =
    "-c:v"
      ∷ "copy"
      ∷ (if is_mp4 req.plan.output_container && str_eq req.source.video_codec "hevc"
          then mp4_hevc_tag_args req.plan
          else [])
    ++ (if req.plan.level_rewrite then "-bsf:v" ∷ "h264_metadata=level=4.2" ∷ [] else [])

abbrev filter_args : String → List String
filter_args chain = if str_eq chain "" then [] else "-vf" ∷ chain ∷ []

unfoldable pub encoded_video_args : Request → DecodePath → List String
unfolding video_filters hdr_transfer_arg mp4_hevc_tag_args rate_control_args
encoded_video_args req decode =
    filter_args (video_filters req decode)
    ++ ("-c:v" ∷ encoder_name req.encoder ∷ "-profile:v" ∷ video_profile req.plan ∷ [])
    ++ (if is_software req.encoder then "-pix_fmt" ∷ software_pix_fmt req.plan ∷ [] else [])
    ++ (if req.plan.hdr
        then "-color_primaries"
          ∷ "bt2020"
          ∷ "-color_trc"
          ∷ hdr_transfer_arg req.plan
          ∷ "-colorspace"
          ∷ "bt2020nc"
          ∷ []
        else [])
    ++ (if is_mp4 req.plan.output_container then mp4_hevc_tag_args req.plan else [])
    ++ rate_control_args req.plan.target_video_bitrate

unfoldable pub video_args : Request → OutStream → DecodePath → List String
unfolding copied_video_args encoded_video_args
video_args req o decode =
    if not (eq_decision o.plan.decision encode)
    then copied_video_args req
    else encoded_video_args req decode

unfoldable pub bitrate_arg : ℕ → String
bitrate_arg bps = if bps % 1000 == 0 then itoa (bps / 1000) <> "k" else itoa bps

-- `audioCodec` and `subtitleCodec`, which are the same.
abbrev pub out_codec : OutStream → String
out_codec o = if eq_decision o.plan.decision copy then "copy" else o.plan.target_codec

unfoldable pub audio_args : OutStream → List String
unfolding bitrate_arg
audio_args o =
    let codec = ("-c:" <> o.spec) ∷ out_codec o ∷ [] in
    if eq_decision o.plan.decision copy
    then codec
    else codec
      ++ (if ltb 0 o.plan.target_bitrate
          then ("-b:" <> o.spec) ∷ bitrate_arg o.plan.target_bitrate ∷ []
          else [])
      ++ (if ltb 0 o.plan.target_channels
          then ("-ac:" <> o.spec) ∷ itoa o.plan.target_channels ∷ []
          else [])

unfoldable pub metadata_args : OutStream → List String
metadata_args o =
    (if str_eq o.plan.language ""
      then []
      else ("-metadata:s:" <> o.spec) ∷ ("language=" <> o.plan.language) ∷ [])
    ++ (if str_eq o.plan.title ""
        then []
        else ("-metadata:s:" <> o.spec) ∷ ("title=" <> o.plan.title) ∷ [])

abbrev flag : Bool → String → List String
flag b name = if b then name ∷ [] else []

unfoldable pub disposition_value : StreamPlan → String
disposition_value s =
    let flags =
      flag s.default "default"
      ++ flag s.forced "forced"
      ++ flag s.comment "comment"
      ++ flag s.visual_impaired "visual_impaired" in
    if is_empty flags then "0" else join "+" flags

unfoldable pub codec_args : Request → OutStream → DecodePath → StreamType → List String
unfolding video_args audio_args
codec_args req o decode video = video_args req o decode
codec_args req o decode audio = audio_args o
codec_args req o decode subtitle = ("-c:" <> o.spec) ∷ out_codec o ∷ []

unfoldable pub stream_args : Request → DecodePath → OutStream → List String
unfolding codec_args metadata_args disposition_value
stream_args req decode o =
    "-map" ∷ ("0:" <> o.letter <> ":" <> itoa o.plan.source_index) ∷ []
    ++ codec_args req o decode o.plan.type
    ++ metadata_args o
    ++ (("-disposition:" <> o.spec) ∷ disposition_value o.plan ∷ [])

abbrev pub concat_map : (OutStream → List String) → List OutStream → List String
concat_map f [] = []
concat_map f (o ∷ os) = f o ++ concat_map f os

unfoldable pub args_of : Request → List OutStream → DecodePath → List String
unfolding hw_device_args hw_accel_args stream_args
args_of req outs decode =
    "-hide_banner" ∷ "-nostdin" ∷ "-y" ∷ []
    ++ hw_device_args req
    ++ hw_accel_args req decode
    ++ (if req.source.legacy_container then "-fflags" ∷ "+genpts" ∷ [] else [])
    ++ ("-i" ∷ req.source.path ∷ [])
    ++ concat_map (stream_args req decode) outs
    ++ ("-map_metadata" ∷ "0" ∷ "-map_chapters" ∷ "0" ∷ [])
    ++ (if is_mp4 req.plan.output_container
        then "-movflags" ∷ "+faststart+use_metadata_tags" ∷ []
        else [])
    ++ ("-metadata"
        ∷ "CODARR=1"
        ∷ "-metadata"
        ∷ ("CODARR_VERSION=" <> req.tags.version)
        ∷ "-metadata"
        ∷ ("CODARR_POLICY=" <> req.tags.policy)
        ∷ "-progress"
        ∷ "pipe:1"
        ∷ "-nostats"
        ∷ req.output
        ∷ [])

unfoldable pub build : Request → Result BuildError Command
unfolding needs_write output_streams validate decode_path args_of
build req =
    let outs = output_streams req.plan.streams in
    let decode = decode_path req in
    if not (needs_write req.plan) then err nothing_to_do else elim (validate req outs) [
      | some e ↦ err e
      | none ↦ ok (record { args = args_of req outs decode; decode_path = decode })
    ]
