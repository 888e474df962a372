-- ===== src/Promote/Verify/Laws.antt =====
-- What a verified output is, check by check.
use codarr.Prelude.{ℕ, ◌≤◌, Bool, true, false, List, [], ◌∷◌, map, ok, err, ◌≡◌, any, if◌then◌else◌}
use codarr.Domain.Plan.{encodes_video, StreamPlan}
use codarr.Promote.Types.{Request, Output, OutputStream}
use codarr.Promote.Verify.{
  Check, within_tolerance, expected_streams, is_audio, first_video, carries_dovi,
}

-- What holds of a probed output that passed every check.
pub record IsVerified (req : Request) (out : Output) (size : ℕ) : Type 0 where
  pub same_streams :
      map (λ (s : OutputStream). s.type) out.streams
      ≡ map (λ (p : StreamPlan). p.type) (expected_streams req.plan)
  pub has_audio : any is_audio out.streams ≡ true
  pub no_growth : encodes_video req.plan ≡ true → size ≤ req.source.size_bytes
  pub duration :
      req.source.legacy_container ≡ false
      → within_tolerance out.duration_seconds req.source.duration_seconds ≡ true
  pub dolby_vision :
      req.plan.dolby_vision ≡ true
      → req.plan.dolby_vision_profile ≡ 5
      → carries_dovi (first_video out) ≡ true

passes : Check → Bool
passes (ok ws) = true
passes (err e) = false

all_pass : List Check → Bool
unfolding passes
all_pass [] = true
all_pass (c ∷ cs) = if passes c then all_pass cs else false
