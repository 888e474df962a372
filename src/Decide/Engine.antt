-- ===== src/Decide/Engine.antt =====
-- internal/decide/engine.go: the whole plan of one probed file. The hash of the policy is a
-- parameter: the digest that computes it is not modelled.
pub mod Streams
pub mod Indices
pub mod Settled
use codarr.Prelude.{
  ℕ, zero, suc, String, Bool, true, false, not, ◌&&◌, ◌||◌, List, [], ◌∷◌, ◌++◌, Option, none, some,
  Result, ok, err, str_eq, contains, split_on, any, ◌==◌, if◌then◌else◌,
}
use codarr.Domain.Kind
use codarr.Domain.Plan.{
  Decision, copy, encode, convert, drop, StreamType, video, audio, subtitle, Container, matroska,
  mp4, Scan, progressive, interlaced, StreamPlan, Plan, video_stream, eq_decision, eq_type,
  container_name,
}
use codarr.Probe
use codarr.Probe.{
  Stream, primary_video, streams_of_type, type_video, type_audio, type_subtitle, is_attached_pic,
  language, title, field_order_known,
}
use codarr.Decide.Policy.{AudioTarget, container_for, legacy_scan_codecs, video_encode_codec}
use codarr.Decide.Video.{VideoVerdict, plan_video}
use codarr.Decide.Audio.{AudioVerdict, plan_audio}
use codarr.Decide.Subtitle.{SubtitleVerdict, plan_subtitle}
use codarr.Decide.Reason.{reason_lines}

pub data PlanError : Type 0 where
  no_probe no_video_stream no_audio_streams : PlanError

-- `idet_scan` is the answer to an earlier request for an idet sample, if any.
pub record Options : Type 0 where
  pub path : String
  pub idet_scan : Option Scan

pub record Analysis : Type 0 where
  pub plan : Plan
  pub needs_idet_sample : Bool

unfoldable pub source_path : Probe.Result → Options → String
source_path probe opts = if str_eq opts.path "" then probe.format.filename else opts.path

unfoldable pub resolve_scan : Stream → Options → Scan × Bool
resolve_scan video_source opts = elim opts.idet_scan [
  | some interlaced ↦ (interlaced, false)
  | some progressive ↦ (progressive, false)
  | none ↦ if Probe.interlaced video_source then (interlaced, false) else (
    progressive,
    not (field_order_known video_source) && contains legacy_scan_codecs video_source.codec_name,
  )
]

abbrev pub base_plan : StreamType → ℕ → Stream → StreamPlan
base_plan t ordinal s = record {
  type = t;
  source_index = ordinal;
  output_index = none;
  decision = copy;
  reason = "";
  language = language s;
  title = title s;
  target_codec = "";
  target_bitrate = 0;
  target_channels = 0;
  default = s.disposition.default == 1;
  forced = s.disposition.forced == 1;
  comment = s.disposition.comment == 1;
  visual_impaired = s.disposition.visual_impaired == 1;
}

unfoldable pub video_stream_plan : ℕ → VideoVerdict → ℕ → Stream → StreamPlan
video_stream_plan primary v i s =
    let p = base_plan video i s in
    if s.index == primary
    then record p {
      decision = v.decision;
      reason = v.reason;
      target_codec = if eq_decision v.decision encode then video_encode_codec else "";
    }
    else if is_attached_pic s
    then record p { decision = drop; reason = "attached picture (cover art)" }
    else record p { decision = drop; reason = "secondary video stream" }

abbrev with_target : StreamPlan → Option AudioTarget → StreamPlan
with_target p none = p
with_target p (some t) = record p {
  target_codec = t.codec;
  target_bitrate = t.bitrate;
  target_channels = t.channels;
}

unfoldable pub audio_stream_plan : Container → ℕ → Stream → StreamPlan
audio_stream_plan container i s =
    let v = plan_audio s container in
    with_target (record (base_plan audio i s) { decision = v.decision; reason = v.reason }) v.target

unfoldable pub subtitle_stream_plan : Container → ℕ → Stream → StreamPlan
subtitle_stream_plan container i s =
    let v = plan_subtitle s container in
    record (base_plan subtitle i s) {
      decision = v.decision;
      reason = v.reason;
      target_codec = if eq_decision v.decision convert then v.target else "";
    }

-- The loop `for i, s := range streams` that appends one plan for each stream.
abbrev pub plan_each : (ℕ → Stream → StreamPlan) → ℕ → List Stream → List StreamPlan
plan_each f i [] = []
plan_each f i (s ∷ ss) = f i s ∷ plan_each f (suc i) ss

unfoldable pub video_plans : Probe.Result → Stream → VideoVerdict → List StreamPlan
video_plans probe primary v =
    plan_each (video_stream_plan primary.index v) 0 (streams_of_type probe type_video)

unfoldable pub audio_plans : Probe.Result → Container → List StreamPlan
audio_plans probe container =
    plan_each (audio_stream_plan container) 0 (streams_of_type probe type_audio)

unfoldable pub subtitle_plans : Probe.Result → Container → List StreamPlan
subtitle_plans probe container =
    plan_each (subtitle_stream_plan container) 0 (streams_of_type probe type_subtitle)

-- The map `next` of `assignOutputIndices`.
abbrev pub bump : (StreamType → ℕ) → StreamType → StreamType → ℕ
bump next t u = if eq_type t u then suc (next t) else next u

unfoldable pub assign_from : (StreamType → ℕ) → List StreamPlan → List StreamPlan
assign_from next [] = []
assign_from next (p ∷ ps) =
    let skipped = p ∷ assign_from next ps in
    let numbered =
      record p { output_index = some (next p.type) } ∷ assign_from (bump next p.type) ps in
    if eq_decision p.decision drop then skipped else numbered

unfoldable pub assign_output_indices : List StreamPlan → List StreamPlan
unfolding assign_from
assign_output_indices plans = assign_from (λ t. 0) plans

unfoldable pub has_work : List StreamPlan → StreamType → Bool
has_work streams t = any (λ s. eq_type s.type t && not (eq_decision s.decision copy)) streams

abbrev is_some : Option ℕ → Bool
is_some none = false
is_some (some n) = true

unfoldable pub has_output_audio : List StreamPlan → Bool
has_output_audio streams = any (λ s. eq_type s.type audio && is_some s.output_index) streams

abbrev pub label_if : Bool → String → List String → List String
label_if b l rest = if b then l ∷ rest else rest

abbrev pub encodes : Option StreamPlan → Bool
encodes none = false
encodes (some v) = eq_decision v.decision encode

unfoldable pub derive_kind : Plan → Kind.Kind
derive_kind p = Kind.kind_of (
    label_if (encodes (video_stream p)) Kind.label_video (
      label_if (has_work p.streams audio) Kind.label_audio (
        label_if (has_work p.streams subtitle) Kind.label_subtitles (
          label_if
            (p.level_rewrite || not (str_eq p.source_container (container_name p.output_container)))
            Kind.label_remux []))))

abbrev first_family : List String → Option String
first_family [] = none
first_family (n ∷ ns) =
    let rest = first_family ns in
    if str_eq n (container_name matroska) || str_eq n (container_name mp4) then some n else rest

abbrev first_name : List String → String
first_name [] = ""
first_name (n ∷ ns) = n

unfoldable pub normalise_format_name : String → String
normalise_format_name format_name =
    let names = split_on b',' format_name in
    if str_eq format_name ""
    then "unknown"
    else elim (first_family names) [ some n ↦ n | none ↦ first_name names ]

abbrev profile_or_zero : Option ℕ → ℕ
profile_or_zero none = 0
profile_or_zero (some n) = n

abbrev known : Option ℕ → Bool
known none = false
known (some n) = true

-- The plan of a file whose primary video stream is known, before the audio guard.
unfoldable pub draft : String → Probe.Result → Options → Stream → Plan
draft policy_hash probe opts primary =
    let out = container_for (source_path probe opts) in
    let (scan, idet_pending) = resolve_scan primary opts in
    let verdict = plan_video primary scan idet_pending in
    let streams =
      assign_output_indices (
        video_plans probe primary verdict ++ (audio_plans probe out ++ subtitle_plans probe out)) in
    let p : Plan = record {
      kind = Kind.kind_skip;
      source_container = normalise_format_name probe.format.format_name;
      output_container = out;
      streams = streams;
      level_rewrite = verdict.level_rewrite;
      deinterlace = verdict.deinterlace;
      hdr = verdict.hdr;
      hdr_transfer = "";
      dolby_vision = known verdict.dolby_vision;
      dolby_vision_profile = profile_or_zero verdict.dolby_vision;
      target_video_bitrate = 0;
      reasons = [];
      policy_hash = policy_hash;
    } in
    record p { kind = derive_kind p }

unfoldable pub plan : String → Option Probe.Result → Options → Result PlanError Analysis
plan policy_hash none opts = err no_probe
plan policy_hash (some probe) opts = elim (primary_video probe) [
  | none ↦ err no_video_stream
  | some primary ↦
      let p = draft policy_hash probe opts primary in
      let (scan, idet_pending) = resolve_scan primary opts in
      if not (Kind.is_skip p.kind) && not (has_output_audio p.streams)
      then err no_audio_streams
      else ok (record {
        plan = record p { reasons = reason_lines probe p };
        needs_idet_sample = (plan_video primary scan idet_pending).needs_idet;
      })
]
