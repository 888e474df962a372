-- ===== src/Decide/Engine/Streams.antt =====
-- The stream plans of a file, summed up by what its streams are.
use codarr.Prelude.{
  ℕ, suc, Bool, true, false, not, ◌&&◌, ◌||◌, List, [], ◌∷◌, ◌++◌, some, ◌≡◌, refl, arith, any, All,
  any-append, All-append, find_first, str_eq, contains, is_empty, ◌==◌, Bool-cases, inl, inr,
  eq_iff, keep, ◌∙◌, if◌then◌else◌,
}
use codarr.Domain.Plan.{
  copy, encode, drop, StreamType, video, audio, subtitle, Container, StreamPlan, eq_decision,
  eq_type, is_kept_video,
}
use codarr.Probe
use codarr.Probe.{
  Stream, primary_video, is_primary_video, streams_of_type, type_video, type_audio, type_subtitle,
}
use codarr.Decide.Policy.{audio_copy_list, subtitle_target_for_container}
use codarr.Decide.Video.{VideoVerdict}
use codarr.Decide.Audio.{plan_audio}
use codarr.Decide.Subtitle.{plan_subtitle}
use codarr.Decide.Subtitle.Laws.{plan_subtitle-target}
use codarr.Decide.Engine.{
  plan_each, video_stream_plan, audio_stream_plan, subtitle_stream_plan, video_plans, audio_plans,
  subtitle_plans, encodes,
}
use codarr.Decide.Engine.Indices.{IsFresh, is_kept}

any-plan_each :
    (q : StreamPlan → Bool) (r : Stream → Bool) (f : ℕ → Stream → StreamPlan) (i : ℕ)
    (ss : List Stream)
    → ((i : ℕ) (s : Stream) → q (f i s) ≡ r s)
    → any q (plan_each f i ss) ≡ any r ss
any-plan_each q r f i [] same = refl
any-plan_each q r f i (s ∷ ss) same = ground (arith, same i s, any-plan_each q r f (suc i) ss same)

All-plan_each :
    (f : ℕ → Stream → StreamPlan) (i : ℕ) (ss : List Stream)
    → ((i : ℕ) (s : Stream) → IsFresh (f i s))
    → All IsFresh (plan_each f i ss)
All-plan_each f i [] fresh = tt
All-plan_each f i (s ∷ ss) fresh = (fresh i s, All-plan_each f (suc i) ss fresh)

-- The tests of `hasWork` and `hasOutputAudio`.
abbrev pub works : StreamType → StreamPlan → Bool
works t s = eq_type s.type t && not (eq_decision s.decision copy)

abbrev pub off_copy_list : Stream → Bool
off_copy_list s = not (contains (audio_copy_list s.channels) s.codec_name)

abbrev pub off_target : Container → Stream → Bool
off_target c s = not (str_eq s.codec_name (subtitle_target_for_container c))

abbrev never : Stream → Bool
never s = false

abbrev always : Stream → Bool
always s = true

module _ (primary : ℕ) (v : VideoVerdict) (i : ℕ) (s : Stream) where
  video-type : (video_stream_plan primary v i s).type ≡ video
  unfolding video_stream_plan
  video-type = ground arith

  video-IsFresh : IsFresh (video_stream_plan primary v i s)
  unfolding video_stream_plan
  video-IsFresh = ground arith

  video-decision :
      (video_stream_plan primary v i s).decision ≡ (if s.index == primary then v.decision else drop)
  unfolding video_stream_plan
  video-decision = ground arith

module _ (c : Container) (i : ℕ) (s : Stream) where
  audio-type : (audio_stream_plan c i s).type ≡ audio
  unfolding audio_stream_plan
  audio-type = ground arith

  audio-IsFresh : IsFresh (audio_stream_plan c i s)
  unfolding audio_stream_plan
  audio-IsFresh = ground arith

  audio-decision :
      (audio_stream_plan c i s).decision
      ≡ (if contains (audio_copy_list s.channels) s.codec_name then copy else encode)
  unfolding audio_stream_plan plan_audio
  audio-decision = ground arith

  subtitle-type : (subtitle_stream_plan c i s).type ≡ subtitle
  unfolding subtitle_stream_plan
  subtitle-type = refl

  subtitle-IsFresh : IsFresh (subtitle_stream_plan c i s)
  unfolding subtitle_stream_plan
  subtitle-IsFresh = refl

  subtitle-copied :
      eq_decision (subtitle_stream_plan c i s).decision copy
      ≡ str_eq s.codec_name (subtitle_target_for_container c)
  unfolding subtitle_stream_plan
  subtitle-copied = elim (Bool-cases (str_eq s.codec_name (subtitle_target_for_container c))) [
    | inl e ↦ rw (e, plan_subtitle-target s c ((eq_iff _ _).0 e)) refl
    | inr e ↦ rw e (unfold plan_subtitle in ground arith)
  ]

any-never : (ss : List Stream) → any never ss ≡ false
any-never [] = refl
any-never (s ∷ ss) = any-never ss

any-always : (ss : List Stream) → any always ss ≡ not (is_empty ss)
any-always [] = refl
any-always (s ∷ ss) = refl

-- All stream plans of a file, before they are numbered.
abbrev pub all_plans : Probe.Result → Stream → VideoVerdict → Container → List StreamPlan
all_plans probe primary v c =
    video_plans probe primary v ++ (audio_plans probe c ++ subtitle_plans probe c)

module _ (probe : Probe.Result) (primary : Stream) (v : VideoVerdict) (c : Container) where
  any-all_plans :
      (q : StreamPlan → Bool) (rv ra rs : Stream → Bool)
      → ((i : ℕ) (s : Stream) → q (video_stream_plan primary.index v i s) ≡ rv s)
      → ((i : ℕ) (s : Stream) → q (audio_stream_plan c i s) ≡ ra s)
      → ((i : ℕ) (s : Stream) → q (subtitle_stream_plan c i s) ≡ rs s)
      → any q (all_plans probe primary v c) ≡ (
          any rv (streams_of_type probe type_video)
          || (any ra (streams_of_type probe type_audio)
              || any rs (streams_of_type probe type_subtitle)))
  unfolding video_plans audio_plans subtitle_plans
  any-all_plans q rv ra rs hv ha hs =
      let vs = plan_each (video_stream_plan primary.index v) 0 (streams_of_type probe type_video) in
      let as' = plan_each (audio_stream_plan c) 0 (streams_of_type probe type_audio) in
      let ss = plan_each (subtitle_stream_plan c) 0 (streams_of_type probe type_subtitle) in
      ground (
        arith,
        any-append q vs (as' ++ ss),
        any-append q as' ss,
        any-plan_each q rv (video_stream_plan primary.index v) 0 (streams_of_type probe type_video)
            hv,
        any-plan_each q ra (audio_stream_plan c) 0 (streams_of_type probe type_audio) ha,
        any-plan_each q rs (subtitle_stream_plan c) 0 (streams_of_type probe type_subtitle) hs,
      )

  pub audio_work :
      any (works audio) (all_plans probe primary v c)
      ≡ any off_copy_list (streams_of_type probe type_audio)
  audio_work =
      any-all_plans (works audio) never off_copy_list never
        (λ i s. rw (video-type primary.index v i s))
        (λ i s. rw (audio-type c i s) (ground (arith, audio-decision c i s)))
        (λ i s. rw (subtitle-type c i s))
      ∙ ground (
        arith,
        any-never (streams_of_type probe type_video),
        any-never (streams_of_type probe type_subtitle),
      )

  pub subtitle_work :
      any (works subtitle) (all_plans probe primary v c)
      ≡ any (off_target c) (streams_of_type probe type_subtitle)
  subtitle_work =
      any-all_plans (works subtitle) never never (off_target c)
        (λ i s. rw (video-type primary.index v i s)) (λ i s. rw (audio-type c i s))
        (λ i s. rw (subtitle-type c i s, subtitle-copied c i s))
      ∙ ground (
        arith,
        any-never (streams_of_type probe type_video),
        any-never (streams_of_type probe type_audio),
      )

  pub kept_audio :
      any (is_kept audio) (all_plans probe primary v c)
      ≡ not (is_empty (streams_of_type probe type_audio))
  kept_audio =
      any-all_plans (is_kept audio) never always never (λ i s. rw (video-type primary.index v i s))
        (λ i s. rw (audio-type c i s) (ground (arith, audio-decision c i s)))
        (λ i s. rw (subtitle-type c i s))
      ∙ ground (
        arith,
        any-never (streams_of_type probe type_video),
        any-never (streams_of_type probe type_subtitle),
        any-always (streams_of_type probe type_audio),
      )

  pub all_plans-IsFresh : All IsFresh (all_plans probe primary v c)
  unfolding video_plans audio_plans subtitle_plans
  all_plans-IsFresh =
      All-append IsFresh _ _
        (All-plan_each _ 0 (streams_of_type probe type_video) (video-IsFresh primary.index v))
        (All-append IsFresh _ _
          (All-plan_each _ 0 (streams_of_type probe type_audio) (audio-IsFresh c))
          (All-plan_each _ 0 (streams_of_type probe type_subtitle) (subtitle-IsFresh c)))

-- A verdict on the primary stream is the decision for the first video stream that is kept.
first-plan_each :
    (primary : ℕ) (v : VideoVerdict) (i : ℕ) (ss : List Stream) (rest : List StreamPlan)
    → eq_decision v.decision drop ≡ false
    → any (λ s. s.index == primary) ss ≡ true
    → encodes (find_first is_kept_video (plan_each (video_stream_plan primary v) i ss ++ rest))
      ≡ eq_decision v.decision encode
first-plan_each primary v i [] rest h k = cc
first-plan_each primary v i (s ∷ ss) rest h k = ground (
  arith,
  video-type primary v i s,
  video-decision primary v i s,
  first-plan_each primary v (suc i) ss rest h,
)

-- The primary stream is among the video streams.
primary_found :
    (ss : List Stream) (primary : Stream)
    → find_first is_primary_video ss ≡ some primary
    → any (λ s. s.index == primary.index) (keep (λ s. str_eq s.codec_type type_video) ss) ≡ true
primary_found [] primary h = cc
primary_found (s ∷ ss) primary h = ground (arith, primary_found ss primary)

module _ (probe : Probe.Result) (primary : Stream) (v : VideoVerdict) (c : Container) where
  pub first_kept_video :
      primary_video probe ≡ some primary
      → eq_decision v.decision drop ≡ false
      → encodes (find_first is_kept_video (all_plans probe primary v c))
        ≡ eq_decision v.decision encode
  unfolding primary_video video_plans streams_of_type
  first_kept_video found kept =
      first-plan_each primary.index v 0 _ _ kept (primary_found probe.streams primary found)
