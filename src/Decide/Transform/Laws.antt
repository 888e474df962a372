-- ===== src/Decide/Transform/Laws.antt =====
-- The halves of a record: a measurement leaves what was before.
use codarr.Prelude.{ℕ, List, [], ◌∷◌, Option, none, some, ltb, map, ◌≡◌, refl, Bool-cases, inl, inr}
use codarr.Domain.Transform.{
  VideoState, VideoTransform, AudioTransform, SubtitleTransform, TransformRecord,
}
use codarr.Probe
use codarr.Probe.{Stream, primary_video, size_bytes, streams_of_type, type_audio, type_subtitle}
use codarr.Decide.Transform.Merge.{
  merge_measured, merge_video, merge_audio, merge_subtitles, merge_audio_one, merge_subtitle_one,
  set_audio, set_subtitle, set_video, at_output_index,
}

abbrev video_source : VideoTransform → VideoTransform
video_source t = record t { after = none }

abbrev audio_source : AudioTransform → AudioTransform
audio_source t = record t { after = none }

abbrev subtitle_source : SubtitleTransform → SubtitleTransform
subtitle_source t = record t { after = none }

-- What a record says of the source and of the decisions: all but what comes after, and the time
-- that the job took.
unfoldable pub source_half : TransformRecord → TransformRecord
source_half rec = record rec {
  container = record rec.container { after = "" };
  video = video_source rec.video;
  audio = map audio_source rec.audio;
  subtitles = map subtitle_source rec.subtitles;
  attachments = record rec.attachments { after = 0 };
  chapters = record rec.chapters { after = 0 };
  size = record rec.size { after_bytes = 0 };
  duration = record rec.duration { actual = none };
}

set_video-source :
    (out : Probe.Result) (v : VideoTransform) (s : Option Stream) (b : Option VideoState)
    → video_source (set_video out v s b) ≡ video_source v
unfolding set_video
set_video-source out v (some s) (some b) = refl
set_video-source out v (some s) none = refl
set_video-source out v none b = refl

set_audio-source :
    (t : AudioTransform) (s : Option Stream) → audio_source (set_audio t s) ≡ audio_source t
set_audio-source t none = refl
set_audio-source t (some s) = refl

set_subtitle-source :
    (t : SubtitleTransform) (s : Option Stream)
    → subtitle_source (set_subtitle t s) ≡ subtitle_source t
set_subtitle-source t none = refl
set_subtitle-source t (some s) = refl

-- Mapping a function that a second one forgets.
map-forget :
    {A B : Type 0} (f : A → A) (g : A → B) (xs : List A)
    → ((x : A) → g (f x) ≡ g x)
    → map g (map f xs) ≡ map g xs
map-forget f g [] e = refl
map-forget f g (x ∷ xs) e = λ i. e x i ∷ map-forget f g xs e i

rebuilt :
    (rec : TransformRecord) {v v' : VideoTransform} {a a' : List AudioTransform}
    {s s' : List SubtitleTransform}
    → v ≡ v'
    → a ≡ a'
    → s ≡ s'
    → record rec { video = v; audio = a; subtitles = s }
      ≡ record rec { video = v'; audio = a'; subtitles = s' }
rebuilt rec p q r = λ i. record rec { video = p i; audio = q i; subtitles = r i }

-- A measurement of the output, or its failure, changes nothing that the record says of the source
-- or of the decisions.
pub merge_measured-source_half :
    (rec : TransformRecord) (out : Option Probe.Result) (actual : ℕ)
    → source_half (merge_measured rec out actual) ≡ source_half rec
unfolding source_half merge_measured merge_video merge_audio merge_subtitles
merge_measured-source_half rec none actual = refl
merge_measured-source_half rec (some out) actual =
    let videos = set_video-source out rec.video (primary_video out) rec.video.before in
    let audios =
      map-forget (merge_audio_one (streams_of_type out type_audio)) audio_source rec.audio (λ t.
        set_audio-source t (at_output_index (streams_of_type out type_audio) t.output_index)) in
    let texts =
      map-forget (merge_subtitle_one (streams_of_type out type_subtitle)) subtitle_source
        rec.subtitles
        (λ t.
          set_subtitle-source t
            (at_output_index (streams_of_type out type_subtitle) t.output_index)) in
    let rest = rebuilt (source_half rec) videos audios texts in
    elim (Bool-cases (ltb 0 (size_bytes out.format))) [ inl e ↦ rw e rest | inr e ↦ rw e rest ]
