-- ===== src/Decide/Engine/Settled.antt =====
-- When a file needs no write, and when a plan is refused, said of the file.
use codarr.Prelude.{
  String, Bool, true, false, not, ◌&&◌, ◌||◌, List, [], some, ok, err, ◌≡◌, refl, ◌↔◌, arith, any,
  All, any-false_iff, str_eq, is_empty, Bool-cases, inl, inr, ◌∙◌, find_first, if◌then◌else◌,
}
use codarr.Domain.Kind
use codarr.Domain.Plan.{
  encode, drop, audio, subtitle, Container, StreamPlan, eq_decision, container_name, video_stream,
  is_kept_video, needs_write,
}
use codarr.Probe
use codarr.Probe.{Stream, primary_video, streams_of_type, type_audio, type_subtitle}
use codarr.Decide.Policy.{container_for}
use codarr.Decide.Video.{VideoVerdict, plan_video}
use codarr.Decide.Engine.{
  Options, Analysis, no_audio_streams, plan, draft, derive_kind, label_if, encodes, has_work,
  has_output_audio, source_path, resolve_scan, normalise_format_name, assign_output_indices,
  assign_from,
}
use codarr.Decide.Reason.{reason_lines}
use codarr.Decide.Engine.Indices.{any-assign_from, first-assign_from, has_output_audio-assign_from}
use codarr.Decide.Engine.Streams.{
  all_plans, works, off_copy_list, off_target, audio_work, subtitle_work, kept_audio,
  all_plans-IsFresh, first_kept_video,
}

-- A kind collected by four tests is empty when all four fail.
skip_table :
    (v a s r : Bool)
    → Kind.is_skip (
        Kind.kind_of (
          label_if v Kind.label_video (
            label_if a Kind.label_audio
              (label_if s Kind.label_subtitles (label_if r Kind.label_remux [])))))
      ≡ not (v || (a || (s || r)))
unfolding Kind.kind_of Kind.is_skip
skip_table true true true true = refl
skip_table true true true false = refl
skip_table true true false true = refl
skip_table true true false false = refl
skip_table true false true true = refl
skip_table true false true false = refl
skip_table true false false true = refl
skip_table true false false false = refl
skip_table false true true true = refl
skip_table false true true false = refl
skip_table false true false true = refl
skip_table false true false false = refl
skip_table false false true true = refl
skip_table false false true false = refl
skip_table false false false true = refl
skip_table false false false false = refl

-- The container, and the verdict on the primary stream, that a plan of this file works with.
abbrev pub out_container : Probe.Result → Options → Container
out_container probe opts = container_for (source_path probe opts)

abbrev pub verdict_of : Stream → Options → VideoVerdict
verdict_of primary opts =
    let (scan, pending) = resolve_scan primary opts in plan_video primary scan pending

pub never_dropped :
    (primary : Stream) (opts : Options)
    → eq_decision (verdict_of primary opts).decision drop ≡ false
unfolding plan_video
never_dropped primary opts = ground arith

-- A file that the policy leaves alone: the video is copied with its level flag, every audio stream is
-- on the copy list for its channel count, every subtitle already has the format of the container,
-- and the container is the one that the file's extension calls for.
pub record IsSettled (probe : Probe.Result) (opts : Options) (primary : Stream) : Type 0 where
  pub video_copied : eq_decision (verdict_of primary opts).decision encode ≡ false
  pub level_kept : (verdict_of primary opts).level_rewrite ≡ false
  pub audio_listed : All (λ s. off_copy_list s ≡ false) (streams_of_type probe type_audio)
  pub subtitles_native :
      All
        (λ s. off_target (out_container probe opts) s ≡ false)
        (streams_of_type probe type_subtitle)
  pub container_kept :
      str_eq
        (normalise_format_name probe.format.format_name)
        (container_name (out_container probe opts))
      ≡ true

module _ (hash : String) (probe : Probe.Result) (opts : Options) (primary : Stream) where
  abbrev pub plans : List StreamPlan
  plans = all_plans probe primary (verdict_of primary opts) (out_container probe opts)

  draft_streams : (draft hash probe opts primary).streams ≡ assign_from (λ t. 0) plans
  unfolding draft assign_output_indices
  draft_streams = refl

  draft_kind :
      Kind.is_skip (draft hash probe opts primary).kind
      ≡ not (
          encodes (find_first is_kept_video (assign_from (λ t. 0) plans))
          || (any (works audio) (assign_from (λ t. 0) plans)
              || (any (works subtitle) (assign_from (λ t. 0) plans)
                  || ((verdict_of primary opts).level_rewrite
                      || not (
                          str_eq
                            (normalise_format_name probe.format.format_name)
                            (container_name (out_container probe opts)))))))
  unfolding draft derive_kind has_work video_stream assign_output_indices
  draft_kind = skip_table _ _ _ _

  module _ (found : primary_video probe ≡ some primary) where
    draft_skip :
        Kind.is_skip (draft hash probe opts primary).kind
        ≡ not (
            eq_decision (verdict_of primary opts).decision encode
            || (any off_copy_list (streams_of_type probe type_audio)
                || (any
                      (off_target (out_container probe opts))
                      (streams_of_type probe type_subtitle)
                    || ((verdict_of primary opts).level_rewrite
                        || not (
                            str_eq
                              (normalise_format_name probe.format.format_name)
                              (container_name (out_container probe opts)))))))
    draft_skip =
        draft_kind
        ∙ rw (
          first-assign_from is_kept_video (λ t. 0) plans (λ p n. refl),
          any-assign_from (works audio) (λ t. 0) plans (λ p n. refl),
          any-assign_from (works subtitle) (λ t. 0) plans (λ p n. refl),
          first_kept_video probe primary (verdict_of primary opts) (out_container probe opts) found
              (never_dropped primary opts),
          audio_work probe primary (verdict_of primary opts) (out_container probe opts),
          subtitle_work probe primary (verdict_of primary opts) (out_container probe opts),
        )

    draft_skip_iff :
        (Kind.is_skip (draft hash probe opts primary).kind ≡ true) ↔ IsSettled probe opts primary
    draft_skip_iff =
        let audio_iff = any-false_iff off_copy_list (streams_of_type probe type_audio) in
        let subtitle_iff =
          any-false_iff (off_target (out_container probe opts))
            (streams_of_type probe type_subtitle) in
        rw draft_skip (
          λ h. record {
            video_copied = ground (arith, h);
            level_kept = ground (arith, h);
            audio_listed = audio_iff.0 (ground (arith, h));
            subtitles_native = subtitle_iff.0 (ground (arith, h));
            container_kept = ground (arith, h);
          },
          λ settled. ground (
            arith,
            settled.video_copied,
            settled.level_kept,
            settled.container_kept,
            audio_iff.1 settled.audio_listed,
            subtitle_iff.1 settled.subtitles_native,
          ),
        )

  draft_audio :
      has_output_audio (draft hash probe opts primary).streams
      ≡ not (is_empty (streams_of_type probe type_audio))
  draft_audio = rw draft_streams (
      has_output_audio-assign_from (λ t. 0) plans
        (all_plans-IsFresh probe primary (verdict_of primary opts) (out_container probe opts))
      ∙ kept_audio probe primary (verdict_of primary opts) (out_container probe opts))

  module _ (found : primary_video probe ≡ some primary) where
    pub plan_found : plan hash (some probe) opts ≡ (
        if not (Kind.is_skip (draft hash probe opts primary).kind)
          && not (not (is_empty (streams_of_type probe type_audio)))
        then err no_audio_streams
        else ok (record {
          plan = record (draft hash probe opts primary) {
            reasons = reason_lines probe (draft hash probe opts primary);
          };
          needs_idet_sample = (verdict_of primary opts).needs_idet;
        }))
    unfolding plan
    plan_found = rw (found, plan) (rw draft_audio)

    pub kind_of_plan :
        (a : Analysis)
        → plan hash (some probe) opts ≡ ok a
        → a.plan.kind ≡ (draft hash probe opts primary).kind
    kind_of_plan a h = ground (arith, plan_found)

    -- A plan asks for no write exactly when the file is settled.
    pub needs_write_iff :
        (a : Analysis)
        → plan hash (some probe) opts ≡ ok a
        → (needs_write a.plan ≡ false) ↔ IsSettled probe opts primary
    unfolding needs_write
    needs_write_iff a h = rw (kind_of_plan a h) (
      λ k. (draft_skip_iff found).0 (ground (arith, k)),
      λ settled. ground (arith, (draft_skip_iff found).1 settled),
    )

    -- The engine refuses a file with a video stream exactly when it has no audio stream and is not
    -- settled, and then for that reason: a plan never writes a file without audio.
    pub plan_refused_iff :
        (plan hash (some probe) opts ≡ err no_audio_streams)
        ↔ ((streams_of_type probe type_audio ≡ []) × ¬ IsSettled probe opts primary)
    plan_refused_iff = (
      λ h. (
        ground (arith, plan_found),
        λ settled. ground (arith, plan_found, (draft_skip_iff found).1 settled),
      ),
      λ (silent, busy). elim (Bool-cases (Kind.is_skip (draft hash probe opts primary).kind)) [
        | inl e ↦ absurd (busy ((draft_skip_iff found).0 e))
        | inr e ↦ plan_found ∙ rw (e, silent)
      ],
    )
