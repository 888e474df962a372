-- ===== src/Promote/Verify.antt =====
-- internal/promote/verify.go: the checks on the probed output, before anything is destroyed.
-- Durations are fractions, compared exactly.
pub mod Laws
use codarr.Prelude.{
  ℕ, zero, suc, ◌+◌, ◌-◌, ◌*◌, String, Bool, true, false, not, ◌&&◌, ◌||◌, List, [], ◌∷◌, ◌++◌, map,
  Option, none, some, Rat, Result, ok, err, str_eq, codes, lower_codes, codes_eq, any, keep,
  find_first, length, leb, ltb, ◌==◌, if◌then◌else◌,
}
use mathlib.Core.List.{reverse}
use codarr.Domain.Plan.{
  Decision, copy, drop, StreamType, video, audio, StreamPlan, Plan, video_stream, encodes_video,
  eq_decision, eq_type,
}
use codarr.Domain.Transform.{VideoState}
use codarr.Promote.Types.{
  Failure, Cause, fail_verification, duration_unknown, duration_differs, no_out_time,
  out_time_differs, stream_count, stream_order, no_audio, language_missing, no_video, codec_changed,
  profile_changed, resolution_changed, level_not_rewritten, level_changed, dovi_lost, grew, Request,
  Output, OutputStream, Warning, legacy_duration, dovi_degraded,
}

abbrev pub Check : Type 0
Check = Result Failure (List Warning)

abbrev pub failed : Cause → Check
failed c = err (record { code = fail_verification; cause = c })

abbrev pub passed : Check
passed = ok []

-- `math.Abs(got-want)/want <= 0.01`, for a positive `want`.
unfoldable pub within_tolerance : Rat → Rat → Bool
within_tolerance got want =
    let g = got.num * want.den in let w = want.num * got.den in leb (100 * ((g - w) + (w - g))) w

unfoldable pub verify_duration : Request → Output → Check
unfolding within_tolerance
verify_duration req out =
    let src = req.source.duration_seconds in
    let final = req.final_out_time_seconds in
    if ltb 0 src.num && within_tolerance out.duration_seconds src
    then passed
    else if not req.source.legacy_container
    then (if src.num == 0 then failed duration_unknown else failed duration_differs)
    else if final.num == 0
    then failed no_out_time
    else if not (within_tolerance out.duration_seconds final)
    then failed out_time_differs
    else ok (legacy_duration ∷ [])

-- `*out[i].OutputIndex < *out[j].OutputIndex`; a stream without an index has been left out.
abbrev index_of : StreamPlan → ℕ
index_of p = elim p.output_index [ none ↦ 0 | some i ↦ i ]

abbrev pub is_expected : StreamPlan → Bool
is_expected p = elim p.output_index [ none ↦ false | some i ↦ not (eq_decision p.decision drop) ]

-- `sort.SliceStable`, by insertion from the back.
abbrev insert_stable : StreamPlan → List StreamPlan → List StreamPlan
insert_stable p [] = p ∷ []
insert_stable p (q ∷ qs) =
    let rest = insert_stable p qs in if ltb (index_of q) (index_of p) then q ∷ rest else p ∷ q ∷ qs

abbrev sort_stable : List StreamPlan → List StreamPlan
sort_stable [] = []
sort_stable (p ∷ ps) = insert_stable p (sort_stable ps)

unfoldable pub expected_streams : Plan → List StreamPlan
expected_streams p = sort_stable (keep is_expected p.streams)

same_types : List StreamPlan → List OutputStream → Check
same_types [] outs = passed
same_types (want ∷ wants) [] = passed
same_types (want ∷ wants) (got ∷ outs) =
    let rest = same_types wants outs in
    if eq_type got.type want.type then rest else failed stream_order

unfoldable pub verify_stream_shape : Request → Output → Check
unfolding expected_streams same_types
verify_stream_shape req out =
    let expected = expected_streams req.plan in
    if not (length out.streams == length expected)
    then failed stream_count
    else same_types expected out.streams

abbrev pub is_audio : OutputStream → Bool
is_audio s = eq_type s.type audio

-- The lower-case languages of the output's audio streams.
abbrev present : Output → List (List ℕ)
present out = map (λ (s : OutputStream). lower_codes s.language) (keep is_audio out.streams)

abbrev pub has_codes : List (List ℕ) → List ℕ → Bool
has_codes ls l = any (λ k. codes_eq k l) ls

audio_languages : List (List ℕ) → List StreamPlan → List (List ℕ)
audio_languages out [] = out
audio_languages out (s ∷ ss) =
    let lang = lower_codes s.language in
    audio_languages
      (if not (eq_type s.type audio) || str_eq s.language ""
        then out
        else if has_codes out lang
        then out
        else out ++ lang ∷ [])
      ss

unfoldable pub expected_audio_languages : Plan → List (List ℕ)
unfolding expected_streams audio_languages
expected_audio_languages p = audio_languages [] (expected_streams p)

unfoldable pub verify_audio : Request → Output → Check
unfolding expected_audio_languages
verify_audio req out =
    if not (any is_audio out.streams)
    then failed no_audio
    else if any (λ want. not (has_codes (present out) want)) (expected_audio_languages req.plan)
    then failed language_missing
    else passed

abbrev is_video : OutputStream → Bool
is_video s = eq_type s.type video

unfoldable pub first_video : Output → Option OutputStream
first_video out = find_first is_video out.streams

-- `strings.TrimSpace` and the removal of dots, on ASCII.
abbrev is_space : ℕ → Bool
is_space c = c == 32 || leb 9 c && leb c 13

abbrev trim_front : List ℕ → List ℕ
trim_front [] = []
trim_front (c ∷ cs) = let rest = trim_front cs in if is_space c then rest else c ∷ cs

unfoldable pub normalise_level : String → List ℕ
normalise_level l =
    reverse (trim_front (reverse (trim_front (keep (λ c. not (c == b'.')) (codes l)))))

unfoldable pub verify_video_identity : VideoState → OutputStream → Check
verify_video_identity src got =
    if not (str_eq src.codec "") && not (str_eq got.codec src.codec)
    then failed codec_changed
    else if not (str_eq src.profile "") && not (str_eq got.profile src.profile)
    then failed profile_changed
    else if not (src.width == 0)
        && not (src.height == 0)
        && (not (got.width == src.width) || not (got.height == src.height))
    then failed resolution_changed
    else passed

unfoldable pub verify_level : Plan → String → String → Check
verify_level plan source output =
    if plan.level_rewrite
    then (if codes_eq (normalise_level output) (codes "42")
        then passed
        else failed level_not_rewritten)
    else if str_eq source "" || codes_eq (normalise_level output) (normalise_level source)
    then passed
    else failed level_changed

abbrev pub and_then : Check → Check → Check
and_then (ok w) next = next
and_then (err e) next = err e

abbrev is_copied : Option StreamPlan → Bool
is_copied none = false
is_copied (some p) = eq_decision p.decision copy

unfoldable pub verify_video_copy : Request → Output → Check
unfolding first_video
verify_video_copy req out = elim req.source.video [
  | none ↦ passed
  | some src ↦ if not (is_copied (video_stream req.plan)) then passed else elim (first_video out) [
    | none ↦ failed no_video
    | some got ↦
        and_then (verify_video_identity src got) (verify_level req.plan src.level got.level)
  ]
]

abbrev carries_dovi : Option OutputStream → Bool
carries_dovi none = false
carries_dovi (some s) = s.dolby_vision

unfoldable pub verify_dolby_vision : Request → Output → Check
unfolding first_video
verify_dolby_vision req out =
    if not req.plan.dolby_vision
    then passed
    else if carries_dovi (first_video out)
    then passed
    else if req.plan.dolby_vision_profile == 5
    then failed dovi_lost
    else ok (dovi_degraded ∷ [])

unfoldable pub verify_size : Request → ℕ → Check
verify_size req output_size =
    if not (encodes_video req.plan) || leb output_size req.source.size_bytes
    then passed
    else failed grew

-- The loop over the checks: warnings add up until the first failure, whose error is returned with
-- the warnings so far.
unfoldable pub run_checks : List Warning → List Check → Result Failure (List Warning) × List Warning
run_checks warnings [] = (ok warnings, warnings)
run_checks warnings (ok w ∷ checks) = run_checks (warnings ++ w) checks
run_checks warnings (err e ∷ checks) = (err e, warnings)

abbrev pub checks_of : Request → Output → ℕ → List Check
checks_of req out size =
    verify_duration req out
    ∷ verify_stream_shape req out
    ∷ verify_audio req out
    ∷ verify_video_copy req out
    ∷ verify_dolby_vision req out
    ∷ verify_size req size
    ∷ []

-- `Verify`, once the output has been probed and stat'd.
unfoldable pub verify_output : Request → Output → ℕ → Result Failure (List Warning) × List Warning
unfolding run_checks
verify_output req out size = run_checks [] (checks_of req out size)
