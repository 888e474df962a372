-- ===== src/Decide/Force.antt =====
-- internal/decide/video.go, ForceVideoEncode: the plan of the space reclaim sweep, which re-encodes
-- a video stream that the policy would copy.
pub mod Laws
pub mod Protected
use codarr.Prelude.{
  ℕ, zero, suc, String, Bool, true, false, not, ◌&&◌, List, [], ◌∷◌, ◌++◌, Option, none, some,
  starts, to_upper, ◌==◌, ◌<>◌, if◌then◌else◌,
}
use codarr.Domain.Plan.{encode, StreamPlan, Plan, is_kept_video, decision_name}
use codarr.Decide.Policy.{video_encode_codec}
use codarr.Decide.Video.{dolby_vision_no_encode_profile}
use codarr.Decide.Engine.{derive_kind}
use codarr.Decide.Reason.{plan_line}

abbrev pub forced : String → StreamPlan → StreamPlan
forced reason s = record s { decision = encode; target_codec = video_encode_codec; reason = reason }

-- The loop that changes the first kept video stream; `none` where there is none.
unfoldable pub force_first : String → List StreamPlan → Option (List StreamPlan)
force_first reason [] = none
force_first reason (s ∷ ss) =
    let rest = force_first reason ss in
    if is_kept_video s
    then some (forced reason s ∷ ss)
    else elim rest [ none ↦ none | some ss' ↦ some (s ∷ ss') ]

-- Where the first video line and the last plan line of a reason block stand.
find_lines : ℕ → Option ℕ → Option ℕ → List String → Option ℕ × Option ℕ
find_lines i found plan [] = (found, plan)
find_lines i none plan (line ∷ lines) =
    let here = starts line "video: " in
    find_lines (suc i) (if here then some i else none)
      (if here then plan else if starts line "plan: " then some i else plan) lines
find_lines i (some v) plan (line ∷ lines) =
    find_lines (suc i) (some v) (if starts line "plan: " then some i else plan) lines

set_line : ℕ → String → List String → List String
set_line i l [] = []
set_line zero l (line ∷ lines) = l ∷ lines
set_line (suc i) l (line ∷ lines) = line ∷ set_line i l lines

-- A position that was not found means that the line is appended.
put_line : Option ℕ → String → List String → List String
unfolding set_line
put_line none l lines = lines ++ l ∷ []
put_line (some i) l lines = set_line i l lines

unfoldable pub rewrite_reasons : List String → String → String → List String
unfolding find_lines put_line
rewrite_reasons reasons video_line plan_line' =
    let (found, plan) = find_lines 0 none none reasons in
    put_line plan plan_line' (put_line found video_line reasons)

abbrev rekinded : Plan → Plan
rekinded p = record p { kind = derive_kind p }

abbrev pub with_streams : String → Plan → List StreamPlan → Plan
with_streams reason p streams =
    let q = rekinded (record p { streams = streams; level_rewrite = false }) in
    record q {
      reasons =
          rewrite_reasons q.reasons
            ("video: " <> to_upper (decision_name encode) <> " - " <> reason) (plan_line q);
    }

unfoldable pub force_video_encode : Plan → String → Option Plan
force_video_encode p reason =
    if p.dolby_vision && p.dolby_vision_profile == dolby_vision_no_encode_profile
    then none
    else elim (force_first reason p.streams) [
      | none ↦ none
      | some streams ↦ some (with_streams reason p streams)
    ]
