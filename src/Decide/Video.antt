-- ===== src/Decide/Video.antt =====
-- internal/decide/video.go: the copy test for the primary video stream, and its verdict. Reasons are
-- the texts themselves; the profile in one of them is printed by `%q`.
pub mod Laws
pub mod Verdicts
use codarr.Prelude.{
  ℕ, ◌*◌, String, Bool, true, false, not, ◌&&◌, List, [], ◌∷◌, ◌++◌, map, Option, none, some, Rat,
  str_eq, contains, leb, ltb, ◌==◌, join, itoa, quote, ◌<>◌, if◌then◌else◌, is_empty,
}
use codarr.Domain.Plan.{Decision, copy, encode, Scan, progressive, interlaced, is_interlaced}
use codarr.Probe
use codarr.Probe.{
  Stream, level_value, level_string, one_decimal, frame_rate, is_hdr, dolby_vision_profile, chroma,
  bit_depth, is_positive,
}
use codarr.Probe.Chroma.{is_420, is_unknown, chroma_name}
use codarr.Decide.Policy.{
  video_copy_codecs, h264_copy_profiles, hevc_copy_profiles, copy_chroma, h264_max_level,
  level_rewrite_target, level_rewrite_max_width, level_rewrite_max_height, level_rewrite_max_fps,
  level_rewrite_max_refs,
}

pub data FailureKind : Type 0 where
  fail_codec fail_profile fail_level fail_chroma fail_scan : FailureKind

pub record CopyFailure : Type 0 where
  pub kind : FailureKind
  pub text : String

pub record VideoVerdict : Type 0 where
  pub decision : Decision
  pub reason : String
  pub level_rewrite : Bool
  pub deinterlace : Bool
  pub needs_idet : Bool
  pub hdr : Bool
  pub dolby_vision : Option ℕ

-- The profile with no HDR10 base layer.
abbrev pub dolby_vision_no_encode_profile : ℕ
dolby_vision_no_encode_profile = 5

abbrev pub is_profile_5 : Option ℕ → Bool
is_profile_5 none = false
is_profile_5 (some p) = p == dolby_vision_no_encode_profile

abbrev pub scan_name : Scan → String
scan_name progressive = "progressive"
scan_name interlaced = "interlaced"

unfoldable pub codec_name_of : Stream → String
codec_name_of s = if str_eq s.codec_name "" then "unknown" else s.codec_name

abbrev above : Rat → Rat → Bool
above a b = ltb (b.num * a.den) (a.num * b.den)

scan_failure : Scan → List CopyFailure
scan_failure scan =
    if is_interlaced scan then record { kind = fail_scan; text = "interlaced" } ∷ [] else []

profile_failure : Stream → List CopyFailure
profile_failure s =
    let allowed = if str_eq s.codec_name "h264" then h264_copy_profiles else hevc_copy_profiles in
    if str_eq s.profile ""
    then record { kind = fail_profile; text = "profile is unknown" } ∷ []
    else if not (contains allowed s.profile)
    then record {
      kind = fail_profile;
      text = "profile " <> quote s.profile <> " is not on the copy list for " <> s.codec_name;
    }
      ∷ []
    else []

level_failure : Stream → List CopyFailure
level_failure s = if not (str_eq s.codec_name "h264") then [] else elim (level_value s) [
  | none ↦ record { kind = fail_level; text = "level is unknown" } ∷ []
  | some level ↦
      if above level h264_max_level
      then record {
        kind = fail_level;
        text = "level " <> level_string s <> " is above " <> one_decimal h264_max_level;
      }
        ∷ []
      else []
]

chroma_failure : Stream → List CopyFailure
chroma_failure s =
    if is_420 (chroma s)
    then []
    else record {
      kind = fail_chroma;
      text = "chroma " <> chroma_name (chroma s) <> " is not " <> chroma_name copy_chroma;
    }
      ∷ []

unfoldable pub copy_failures : Stream → Scan → List CopyFailure
unfolding scan_failure profile_failure level_failure chroma_failure
copy_failures s scan =
    if not (contains video_copy_codecs s.codec_name)
    then record {
      kind = fail_codec;
      text = "codec " <> codec_name_of s <> " is not on the copy list";
    }
      ∷ scan_failure scan
    else profile_failure s ++ (level_failure s ++ (chroma_failure s ++ scan_failure scan))

unfoldable pub level_rewrite_applies : Stream → Bool
level_rewrite_applies s = elim (level_value s) [
  | none ↦ false
  | some level ↦
      ltb 0 s.width
      && leb s.width level_rewrite_max_width
      && ltb 0 s.height
      && leb s.height level_rewrite_max_height
      && is_positive (frame_rate s)
      && leb (frame_rate s).num (level_rewrite_max_fps * (frame_rate s).den)
      && leb 1 s.refs
      && leb s.refs level_rewrite_max_refs
]

pub join_failures : List CopyFailure → String
join_failures fails = join ", " (map (λ f. f.text) fails)

pub append_dv : String → Option ℕ → String
append_dv reason none = reason
append_dv reason (some p) = reason <> ", Dolby Vision profile " <> itoa p

-- A part that is left out when its text is empty.
abbrev part : String → List String → List String
part s rest = if str_eq s "" then rest else s ∷ rest

pub describe_video : Stream → Scan → String
describe_video s scan =
    let level = level_string s in
    let depth = bit_depth s in
    join " " (
      codec_name_of s
      ∷ part s.profile (
          part (if str_eq level "" then "" else "L" <> level) (
            part (if ltb 0 depth then itoa depth <> "-bit" else "") (
              part (if is_unknown (chroma s) then "" else chroma_name (chroma s))
                (scan_name scan ∷ part (if is_hdr s then "HDR" else "") [])))))

-- `len(fails) == 1 && fails[0].kind == failLevel`.
abbrev pub only_level : List CopyFailure → Bool
only_level [] = false
only_level (f ∷ []) = elim f.kind [ fail_level ↦ true | _ ↦ false ]
only_level (f ∷ g ∷ fs) = false

unfoldable pub plan_video : Stream → Scan → Bool → VideoVerdict
plan_video s scan idet_pending =
    let dv = dolby_vision_profile s in
    let fails = copy_failures s scan in
    let target = one_decimal level_rewrite_target in
    if is_empty fails
    then record {
      decision = copy;
      reason = append_dv (describe_video s scan) dv;
      level_rewrite = false;
      deinterlace = false;
      needs_idet = false;
      hdr = is_hdr s;
      dolby_vision = dv;
    }
    else if is_profile_5 dv
    then record {
      decision = copy;
      reason = "Dolby Vision profile 5 is never re-encoded (" <> join_failures fails <> ")";
      level_rewrite = false;
      deinterlace = false;
      needs_idet = false;
      hdr = is_hdr s;
      dolby_vision = dv;
    }
    else if only_level fails && level_rewrite_applies s
    then record {
      decision = copy;
      reason =
          append_dv
            ("level "
              <> level_string s
              <> " -> "
              <> target
              <> " flag rewrite (content fits "
              <> target
              <> ", refs="
              <> itoa s.refs
              <> ")")
            dv;
      level_rewrite = true;
      deinterlace = false;
      needs_idet = false;
      hdr = is_hdr s;
      dolby_vision = dv;
    }
    else record {
      decision = encode;
      reason = append_dv (join_failures fails) dv;
      level_rewrite = false;
      deinterlace = is_interlaced scan;
      needs_idet = idet_pending;
      hdr = is_hdr s;
      dolby_vision = dv;
    }
