-- ===== src/Decide/Reason.antt =====
-- internal/decide/reason.go: the lines that explain a plan, one for each stream, then the container
-- and the plan itself.
use codarr.Prelude.{
  ℕ, String, ◌&&◌, List, [], ◌∷◌, ◌++◌, map, Option, none, some, str_eq, join, itoa, to_upper,
  get_elem?, length, keep, ltb, ◌==◌, ◌<>◌, if◌then◌else◌,
}
use codarr.Domain.Kind
use codarr.Domain.Plan.{
  Decision, encode, convert, drop, StreamType, video, audio, subtitle, StreamPlan, Plan,
  video_stream, eq_decision, eq_type, container_name, decision_name,
}
use codarr.Probe
use codarr.Probe.{Stream, streams_of_type, type_audio, type_subtitle}
use codarr.Decide.Policy.{video_encode_profile}
use codarr.Decide.Video.{codec_name_of}
use codarr.Decide.Audio.{channel_notation}

unfoldable pub source_stream : Probe.Result → String → ℕ → Option Stream
unfolding streams_of_type
source_stream probe codec_type ordinal = get_elem? (streams_of_type probe codec_type) ordinal

-- A missing stream reads as one with no channels and no codec name.
channels_at : Option Stream → ℕ
channels_at none = 0
channels_at (some s) = s.channels

codec_at : Option Stream → String
codec_at none = "unknown"
codec_at (some s) = codec_name_of s

label_of : Probe.Result → StreamPlan → StreamType → String
unfolding source_stream channels_at codec_at
label_of probe s video = elim s.output_index [
  | some i ↦ "video"
  | none ↦ "video " <> itoa s.source_index
]
label_of probe s audio =
    "audio "
    <> itoa s.source_index
    <> " ("
    <> s.language
    <> ", "
    <> channel_notation (channels_at (source_stream probe type_audio s.source_index))
    <> ")"
label_of probe s subtitle =
    "subtitle "
    <> itoa s.source_index
    <> " ("
    <> s.language
    <> ", "
    <> codec_at (source_stream probe type_subtitle s.source_index)
    <> ")"

unfoldable pub stream_line : Probe.Result → StreamPlan → String
unfolding label_of
stream_line probe s =
    let line = label_of probe s s.type <> ": " <> to_upper (decision_name s.decision) in
    if str_eq s.reason "" then line else line <> " - " <> s.reason

count : Plan → StreamType → Decision → ℕ
count p t d =
    length (keep (λ (s : StreamPlan). eq_type s.type t && eq_decision s.decision d) p.streams)

plural : ℕ → String → String
plural n word = if n == 1 then word else word <> "s"

copied_summary : Plan → String
copied_summary p =
    if p.level_rewrite then "video copied with a level flag rewrite" else "video copied"

video_summary : Plan → String
unfolding copied_summary
video_summary p = elim (video_stream p) [
  | none ↦ copied_summary p
  | some v ↦
      if eq_decision v.decision encode
      then "video re-encoded to HEVC " <> to_upper (video_encode_profile p.hdr)
      else copied_summary p
]

counted : ℕ → String → String → List String → List String
unfolding plural
counted n kind done rest =
    if ltb 0 n
    then (itoa n <> " " <> kind <> " " <> plural n "stream" <> " " <> done) ∷ rest
    else rest

summarise : Plan → String
unfolding video_summary counted count
summarise p =
    if Kind.is_skip p.kind
    then "every stream is already compatible"
    else join ", " (
        video_summary p
        ∷ counted (count p audio encode) "audio" "re-encoded" (
            counted (count p subtitle convert) "subtitle" "converted" (
              counted (count p subtitle drop) "subtitle" "dropped" (
                if str_eq p.source_container (container_name p.output_container)
                then []
                else ("container "
                    <> p.source_container
                    <> " -> "
                    <> container_name p.output_container)
                  ∷ []))))

unfoldable pub plan_line : Plan → String
unfolding summarise
plan_line p = "plan: " <> to_upper (Kind.display p.kind) <> " - " <> summarise p

unfoldable pub reason_lines : Probe.Result → Plan → List String
unfolding stream_line plan_line
reason_lines probe p =
    map (stream_line probe) p.streams
    ++ (("container: " <> p.source_container <> " -> " <> container_name p.output_container)
        ∷ plan_line p
        ∷ [])
