-- ===== src/Decide/Force/Protected.antt =====
-- internal/decide/engine.go and video.go: Dolby Vision profile 5 is not encoded, by a plan or by the sweep.
use codarr.Prelude.{String, true, false, some, none, ok, ◌≡◌, refl, arith, ◌∙◌}
use codarr.Domain.Kind
use codarr.Domain.Plan.{encode, encodes_video, is_kept_video, video_stream, eq_decision}
use codarr.Probe
use codarr.Probe.{Stream, primary_video, dolby_vision_profile}
use codarr.Decide.Video.Verdicts.{plan_video-profile_5}
use codarr.Decide.Engine.{Options, Analysis, plan, draft, resolve_scan, assign_output_indices}
use codarr.Decide.Engine.Indices.{first-assign_from}
use codarr.Decide.Engine.Streams.{first_kept_video}
use codarr.Decide.Engine.Settled.{
  plans, plan_found, kind_of_plan, verdict_of, out_container, never_dropped,
}
use codarr.Decide.Force.{force_video_encode}
use codarr.Decide.Force.Laws.{derive_kind-video}

module _ (hash : String) (probe : Probe.Result) (opts : Options) (primary : Stream)
    (found : primary_video probe ≡ some primary) where
  draft-encodes :
      Kind.has (draft hash probe opts primary).kind Kind.label_video
      ≡ eq_decision (verdict_of primary opts).decision encode
  unfolding draft video_stream assign_output_indices
  draft-encodes =
      derive_kind-video _
      ∙ first-assign_from is_kept_video (λ t. 0) (plans hash probe opts primary) (λ p n. refl)
      ∙ first_kept_video probe primary (verdict_of primary opts) (out_container probe opts) found
          (never_dropped primary opts)

  draft-vision :
      dolby_vision_profile primary ≡ some 5
      → ((draft hash probe opts primary).dolby_vision ≡ true)
        × ((draft hash probe opts primary).dolby_vision_profile ≡ 5)
  unfolding draft
  draft-vision five =
      let (scan, pending) = resolve_scan primary opts in
      let (_, dv) = plan_video-profile_5 primary scan pending five in (rw dv refl, rw dv refl)

  plan-vision :
      (a : Analysis)
      → plan hash (some probe) opts ≡ ok a
      → (a.plan.dolby_vision ≡ (draft hash probe opts primary).dolby_vision)
        × (a.plan.dolby_vision_profile ≡ (draft hash probe opts primary).dolby_vision_profile)
  plan-vision a h = (
    ground (arith, h, plan_found hash probe opts primary found),
    ground (arith, h, plan_found hash probe opts primary found),
  )

  -- When the primary video stream of a file has Dolby Vision profile 5, the file's plan encodes no
  -- video, whatever is wrong with the stream, and an encode cannot be forced on it for any reason.
  pub plan-protected :
      (a : Analysis)
      → plan hash (some probe) opts ≡ ok a
      → dolby_vision_profile primary ≡ some 5
      → (encodes_video a.plan ≡ false)
        × ((reason : String) → force_video_encode a.plan reason ≡ none)
  unfolding encodes_video force_video_encode
  plan-protected a h five =
      let (scan, pending) = resolve_scan primary opts in
      let (copied, _) = plan_video-profile_5 primary scan pending five in
      let (known, profile) = draft-vision five in
      let (shown, kept) = plan-vision a h in
      (
        rw (kind_of_plan hash probe opts primary found a h) (draft-encodes ∙ rw copied refl),
        λ reason. rw (shown, known, kept, profile) refl,
      )
