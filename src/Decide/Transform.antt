-- ===== src/Decide/Transform.antt =====
-- internal/decide/transform.go: the record of a job as the plan predicts it, and as the finished output
-- was measured. A source stream that is missing reads as one whose fields are all empty.
pub mod Merge
pub mod Laws
use codarr.Prelude.{
  ℕ, zero, ◌/◌, String, Bool, true, false, List, [], ◌∷◌, Option, none, some, ltb, ◌==◌, length,
  map, pos, get_elem?, str_eq, if◌then◌else◌,
}
use codarr.Domain.Plan.{
  Plan, StreamPlan, Scan, progressive, interlaced, audio, subtitle, video, copy, encode, convert,
  drop, Container, container_name, eq_decision, eq_type, video_stream,
}
use codarr.Domain.Transform.{
  VideoState, VideoTransform, AudioState, AudioTransform, SubtitleState, SubtitleTransform,
  TransformRecord,
}
use codarr.Probe
use codarr.Probe.{
  Stream, type_video, type_audio, type_subtitle, type_attachment, level_string, one_decimal,
  frame_rate, is_hdr, primary_video, streams_of_type, size_bytes, bit_rate_bps, bps_tag_bps,
}
use codarr.Decide.Policy.{level_rewrite_target, video_encode_codec, subtitle_target_for_container}
use codarr.Decide.Audio.{channel_notation, layout_name}
use codarr.Decide.Reason.{source_stream}
use codarr.Decide.Engine.{normalise_format_name}
use codarr.Decide.Bitrate.{BitrateSource, unresolved, resolve_video_bitrate}

abbrev empty_stream : Stream
empty_stream = record {
  index = 0;
  codec_name = "";
  codec_type = "";
  profile = "";
  level = pos 0;
  width = 0;
  height = 0;
  pix_fmt = "";
  r_frame_rate = "";
  avg_frame_rate = "";
  duration = "";
  channels = 0;
  channel_layout = "";
  bit_rate = "";
  field_order = "";
  color_transfer = "";
  refs = 0;
  disposition = record {
    default = 0;
    forced = 0;
    comment = 0;
    visual_impaired = 0;
    attached_pic = 0;
  };
  tags = [];
  side_data_list = [];
}

abbrev or_empty : Option Stream → Stream
or_empty none = empty_stream
or_empty (some s) = s

abbrev in_kbps : Option ℕ → Option ℕ
in_kbps none = none
in_kbps (some bps) = some (bps / 1000)

unfoldable pub stream_bitrate_kbps : Stream → Option ℕ
unfolding bit_rate_bps bps_tag_bps
stream_bitrate_kbps s =
    in_kbps (elim (bit_rate_bps s) [ some bps ↦ some bps | none ↦ bps_tag_bps s ])

abbrev pub scan_of : Stream → Scan
scan_of s = if Probe.interlaced s then interlaced else progressive

unfoldable pub video_state : Stream → Scan → VideoState
unfolding level_string frame_rate is_hdr stream_bitrate_kbps
video_state s scan = record {
  codec = s.codec_name;
  profile = s.profile;
  level = level_string s;
  width = s.width;
  height = s.height;
  fps = frame_rate s;
  bitrate_kbps = stream_bitrate_kbps s;
  pix_fmt = s.pix_fmt;
  hdr = is_hdr s;
  scan = scan;
}

abbrev not_encoded : VideoState → Plan → VideoState
not_encoded after p =
    if p.level_rewrite then record after { level = one_decimal level_rewrite_target } else after

abbrev is_encode : Option StreamPlan → Bool
is_encode none = false
is_encode (some s) = eq_decision s.decision encode

unfoldable pub predicted_video_state : VideoState → Plan → VideoState
unfolding video_stream
predicted_video_state before p =
    let after = if p.deinterlace then record before { scan = progressive } else before in
    if is_encode (video_stream p)
    then record after {
      codec = video_encode_codec;
      level = "";
      bitrate_kbps = none;
      profile = if p.hdr then "Main 10" else "Main";
      pix_fmt = if p.hdr then "yuv420p10le" else "yuv420p";
    }
    else not_encoded after p

-- The state of the source, with the bitrate of the file where one is known.
unfoldable pub video_before : Probe.Result → Plan → StreamPlan → VideoState
unfolding source_stream video_state resolve_video_bitrate
video_before probe p plan =
    let src = or_empty (source_stream probe type_video plan.source_index) in
    let before = video_state src (if p.deinterlace then interlaced else scan_of src) in
    let bps = (resolve_video_bitrate (some probe)).0 in
    if ltb 0 bps then record before { bitrate_kbps = some (bps / 1000) } else before

unfoldable pub video_transform : Probe.Result → Plan → VideoTransform
unfolding video_stream video_before predicted_video_state
video_transform probe p = elim (video_stream p) [
  | none ↦ record { action = none; reason = ""; before = none; after = none }
  | some plan ↦ record {
    action = some plan.decision;
    reason = plan.reason;
    before = some (video_before probe p plan);
    after = some (predicted_video_state (video_before probe p plan) p);
  }
]

abbrev title_ptr : String → Option String
title_ptr title = if str_eq title "" then none else some title

abbrev pub audio_state : Stream → AudioState
audio_state s = record {
  codec = s.codec_name;
  profile = s.profile;
  channels = s.channels;
  layout = layout_name s;
  bitrate_kbps = stream_bitrate_kbps s;
}

abbrev audio_target : StreamPlan → AudioState
audio_target plan = record {
  codec = plan.target_codec;
  profile = "";
  channels = plan.target_channels;
  layout = channel_notation plan.target_channels;
  bitrate_kbps = some (plan.target_bitrate / 1000);
}

unfoldable pub audio_transform : Probe.Result → StreamPlan → AudioTransform
unfolding source_stream
audio_transform probe plan =
    let before = audio_state (or_empty (source_stream probe type_audio plan.source_index)) in
    record {
      source_index = plan.source_index;
      output_index = plan.output_index;
      language = plan.language;
      title = title_ptr plan.title;
      action = plan.decision;
      reason = plan.reason;
      before = before;
      after = elim plan.decision [
        | drop ↦ none
        | copy ↦ some before
        | encode ↦ some (audio_target plan)
        | convert ↦ some (audio_target plan)
      ];
    }

unfoldable pub subtitle_transform : Probe.Result → StreamPlan → Container → SubtitleTransform
unfolding source_stream
subtitle_transform probe plan container =
    let src = or_empty (source_stream probe type_subtitle plan.source_index) in
    let before : SubtitleState = record { codec = src.codec_name; forced = plan.forced } in
    record {
      source_index = plan.source_index;
      output_index = plan.output_index;
      language = plan.language;
      action = plan.decision;
      reason = plan.reason;
      before = before;
      after = elim plan.decision [
        | drop ↦ none
        | copy ↦ some before
        | encode ↦ some before
        | convert ↦
            some (record { codec = subtitle_target_for_container container; forced = plan.forced })
      ];
    }

audio_transforms : Probe.Result → List StreamPlan → List AudioTransform
unfolding audio_transform
audio_transforms probe [] = []
audio_transforms probe (s ∷ ss) =
    let rest = audio_transforms probe ss in
    if eq_type s.type audio then audio_transform probe s ∷ rest else rest

subtitle_transforms : Probe.Result → Container → List StreamPlan → List SubtitleTransform
unfolding subtitle_transform
subtitle_transforms probe c [] = []
subtitle_transforms probe c (s ∷ ss) =
    let rest = subtitle_transforms probe c ss in
    if eq_type s.type subtitle then subtitle_transform probe s c ∷ rest else rest

unfoldable pub new_transform : Probe.Result → Plan → ℕ → TransformRecord
unfolding video_transform audio_transforms subtitle_transforms
new_transform probe p estimated = record {
  container = record { before = p.source_container; after = container_name p.output_container };
  video = video_transform probe p;
  audio = audio_transforms probe p.streams;
  subtitles = subtitle_transforms probe p.output_container p.streams;
  attachments = record { before = length (streams_of_type probe type_attachment); after = 0 };
  chapters = record { before = length probe.chapters; after = length probe.chapters };
  size = record { before_bytes = size_bytes probe.format; after_bytes = 0 };
  duration = record { estimated = estimated; actual = none };
  output_identity = none;
}
