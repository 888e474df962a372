-- ===== src/Decide/Transform/Merge.antt =====
-- internal/decide/transform.go, MergeMeasured: the record with what was measured of the output.
use codarr.Prelude.{
  ℕ, ◌/◌, Bool, true, false, List, Option, none, some, ltb, ◌==◌, length, map, get_elem?,
  if◌then◌else◌,
}
use codarr.Domain.Transform.{
  VideoState, VideoTransform, AudioTransform, SubtitleTransform, TransformRecord,
}
use codarr.Probe
use codarr.Probe.{
  Stream, type_video, type_audio, type_subtitle, type_attachment, level_string, one_decimal,
  frame_rate, is_hdr, primary_video, streams_of_type, size_bytes, bit_rate_bps, bps_tag_bps,
}
use codarr.Decide.Engine.{normalise_format_name}
use codarr.Decide.Bitrate.{BitrateSource, unresolved, resolve_video_bitrate}
use codarr.Decide.Transform.{scan_of, video_state, audio_state}

abbrev pub at_output_index : List Stream → Option ℕ → Option Stream
at_output_index streams none = none
at_output_index streams (some i) = get_elem? streams i

abbrev pub set_audio : AudioTransform → Option Stream → AudioTransform
set_audio t none = t
set_audio t (some s) = record t { after = some (audio_state s) }

abbrev pub merge_audio_one : List Stream → AudioTransform → AudioTransform
merge_audio_one streams t = set_audio t (at_output_index streams t.output_index)

unfoldable pub merge_audio : List AudioTransform → Probe.Result → List AudioTransform
unfolding streams_of_type
merge_audio tracks out = map (merge_audio_one (streams_of_type out type_audio)) tracks

abbrev pub set_subtitle : SubtitleTransform → Option Stream → SubtitleTransform
set_subtitle t none = t
set_subtitle t (some s) = record t {
  after = some (record { codec = s.codec_name; forced = s.disposition.forced == 1 });
}

abbrev pub merge_subtitle_one : List Stream → SubtitleTransform → SubtitleTransform
merge_subtitle_one streams t = set_subtitle t (at_output_index streams t.output_index)

unfoldable pub merge_subtitles : List SubtitleTransform → Probe.Result → List SubtitleTransform
unfolding streams_of_type
merge_subtitles tracks out = map (merge_subtitle_one (streams_of_type out type_subtitle)) tracks

abbrev is_resolved : ℕ × BitrateSource → Bool
is_resolved (bps, unresolved) = false
is_resolved (bps, _) = true

unfoldable pub measured : Probe.Result → Stream → VideoState
unfolding video_state resolve_video_bitrate
measured out s =
    let state = video_state s (scan_of s) in
    let bitrate = resolve_video_bitrate (some out) in
    if is_resolved bitrate then record state { bitrate_kbps = some (bitrate.0 / 1000) } else state

unfoldable pub set_video :
    Probe.Result → VideoTransform → Option Stream → Option VideoState → VideoTransform
unfolding measured
set_video out v (some s) (some b) = record v { after = some (measured out s) }
set_video out v (some s) none = v
set_video out v none before = v

unfoldable pub merge_video : VideoTransform → Probe.Result → VideoTransform
unfolding primary_video set_video
merge_video v out = set_video out v (primary_video out) v.before

unfoldable pub merge_measured : TransformRecord → Option Probe.Result → ℕ → TransformRecord
unfolding merge_audio merge_subtitles merge_video normalise_format_name
merge_measured rec none actual = record rec {
  duration = record rec.duration { actual = some actual };
}
merge_measured rec (some out) actual =
    let size = size_bytes out.format in
    record rec {
      duration = record rec.duration { actual = some actual };
      container = record rec.container { after = normalise_format_name out.format.format_name };
      attachments = record rec.attachments { after = length (streams_of_type out type_attachment) };
      chapters = record rec.chapters { after = length out.chapters };
      size = if ltb 0 size then record rec.size { after_bytes = size } else rec.size;
      video = merge_video rec.video out;
      audio = merge_audio rec.audio out;
      subtitles = merge_subtitles rec.subtitles out;
    }
