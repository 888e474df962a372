-- ===== src/Decide/Video/Verdicts.antt =====
-- What each verdict of `plan_video` means for the stream.
use codarr.Prelude.{
  ℕ, ◌+◌, ◌*◌, ◌/◌, ◌≤◌, Bool, true, false, ◌≡◌, ◌≢◌, refl, ◌⊎◌, contains, arith, Bool-cases, inl,
  inr, Option, some, none, List, [], ◌∷◌, is_empty, str_eq,
}
use codarr.Domain.Plan.{Scan, interlaced, copy, encode, is_interlaced}
use codarr.Probe.{Stream, frame_rate, chroma, dolby_vision_profile}
use codarr.Probe.Chroma.{is_420}
use codarr.Decide.Video.{copy_failures, plan_video, level_rewrite_applies, only_level, is_profile_5}
use codarr.Decide.Video.Laws.{IsCopyable, copy_failures-nil_iff, only_level_cases, allowed_profiles}

-- Macroblocks of 16 by 16 in one frame.
abbrev pub macroblocks : Stream → ℕ
macroblocks s = ((s.width + 15) / 16) * ((s.height + 15) / 16)

-- The limits of H.264 level 4.2: frame size, decoded picture buffer and macroblock rate.
pub record FitsLevel42 (s : Stream) : Type 0 where
  pub frame_size : macroblocks s ≤ 8704
  pub picture_buffer : macroblocks s * s.refs ≤ 34816
  pub rate : macroblocks s * (frame_rate s).num ≤ 522240 * (frame_rate s).den

area_le : (a b : ℕ) → a ≤ 120 → b ≤ 68 → a * b ≤ 8160
area_le a b h k = grind arith

buffer_le : (m r : ℕ) → m ≤ 8160 → r ≤ 4 → m * r ≤ 34816
buffer_le m r h k = grind arith

rate_le : (m n d : ℕ) → m ≤ 8160 → n ≤ 60 * d → m * n ≤ 522240 * d
rate_le m n d h k = grind arith

applies_bounds :
    (s : Stream)
    → level_rewrite_applies s ≡ true
    → (s.width ≤ 1920)
      × (s.height ≤ 1088)
      × (s.refs ≤ 4)
      × ((frame_rate s).num ≤ 60 * (frame_rate s).den)
unfolding level_rewrite_applies
applies_bounds s h = ground arith

applies-FitsLevel42 : (s : Stream) → level_rewrite_applies s ≡ true → FitsLevel42 s
applies-FitsLevel42 s h =
    let (w, ht, r, f) = applies_bounds s h in
    let area : macroblocks s ≤ 8160 = area_le _ _ (omega arith) (omega arith) in
    record {
      frame_size = omega arith;
      picture_buffer = buffer_le _ _ area r;
      rate = rate_le _ _ _ area f;
    }

plan_video-rewrite :
    (s : Stream) (scan : Scan) (pending : Bool)
    → (plan_video s scan pending).level_rewrite ≡ true
    → (only_level (copy_failures s scan) ≡ true) × (level_rewrite_applies s ≡ true)
unfolding plan_video
plan_video-rewrite s scan pending h = ground arith

-- A stream whose level flag is rewritten is copied, is progressive 4:2:0 H.264 with a listed profile,
-- and its pictures fit the frame size, the picture buffer and the macroblock rate of level 4.2.
pub level_rewrite-FitsLevel42 :
    (s : Stream) (scan : Scan) (pending : Bool)
    → (plan_video s scan pending).level_rewrite ≡ true
    → ((plan_video s scan pending).decision ≡ copy)
      × (str_eq s.codec_name "h264" ≡ true)
      × (contains (allowed_profiles s.codec_name) s.profile ≡ true)
      × (is_420 (chroma s) ≡ true)
      × (is_interlaced scan ≡ false)
      × FitsLevel42 s
unfolding plan_video
level_rewrite-FitsLevel42 s scan pending h =
    let (only, applies) = plan_video-rewrite s scan pending h in
    let (_, h264, profile, chroma_fits, prog) = only_level_cases s scan only in
    (ground arith, h264, profile, chroma_fits, prog, applies-FitsLevel42 s applies)

nil_of_is_empty {ℓ} : {A : Type ℓ} (xs : List A) → is_empty xs ≡ true → xs ≡ []
nil_of_is_empty [] h = refl
nil_of_is_empty (x ∷ xs) h = cc

-- A video stream is copied only if it passes the copy test, is Dolby Vision profile 5, or has its level
-- flag rewritten.
pub plan_video-copy :
    (s : Stream) (scan : Scan) (pending : Bool)
    → (plan_video s scan pending).decision ≡ copy
    → IsCopyable s scan
      ⊎ ((dolby_vision_profile s ≡ some 5) ⊎ ((plan_video s scan pending).level_rewrite ≡ true))
unfolding plan_video
plan_video-copy s scan pending h = elim (Bool-cases (is_empty (copy_failures s scan))) [
  | inl e ↦ inl ((copy_failures-nil_iff s scan).0 (nil_of_is_empty _ e))
  | inr e ↦ inr (ground arith)
]

pub plan_video-profile_5 :
    (s : Stream) (scan : Scan) (pending : Bool)
    → dolby_vision_profile s ≡ some 5
    → ((plan_video s scan pending).decision ≡ copy)
      × ((plan_video s scan pending).dolby_vision ≡ some 5)
unfolding plan_video
plan_video-profile_5 s scan pending h = ground arith

not_profile_5 : (dv : Option ℕ) → dv ≢ some 5 → is_profile_5 dv ≡ false
not_profile_5 none h = refl
not_profile_5 (some p) h = ground arith

interlaced_fails :
    (s : Stream)
    → (is_empty (copy_failures s interlaced) ≡ false)
      × (only_level (copy_failures s interlaced) ≡ false)
interlaced_fails s = (
  elim (Bool-cases (is_empty (copy_failures s interlaced))) [
    | inl e ↦
        absurd (cc ((copy_failures-nil_iff s interlaced).0 (nil_of_is_empty _ e)).progressive_scan)
    | inr e ↦ e
  ],
  elim (Bool-cases (only_level (copy_failures s interlaced))) [
    | inl e ↦ absurd (cc (only_level_cases s interlaced e).4)
    | inr e ↦ e
  ],
)

-- An interlaced stream is never copied as it is, unless it is Dolby Vision profile 5: it is encoded
-- and deinterlaced.
pub plan_video-interlaced :
    (s : Stream) (pending : Bool)
    → dolby_vision_profile s ≢ some 5
    → ((plan_video s interlaced pending).decision ≡ encode)
      × ((plan_video s interlaced pending).deinterlace ≡ true)
unfolding plan_video
plan_video-interlaced s pending h =
    ground (arith, not_profile_5 (dolby_vision_profile s) h, interlaced_fails s)

-- Only an encode deinterlaces or asks for an idet sample, and a progressive stream is never
-- deinterlaced.
pub plan_video-encode :
    (s : Stream) (scan : Scan) (pending : Bool)
    → let v = plan_video s scan pending in
      ((v.deinterlace ≡ true) → (v.decision ≡ encode) × (scan ≡ interlaced))
      × ((v.needs_idet ≡ true) → (v.decision ≡ encode) × (pending ≡ true))
unfolding plan_video
plan_video-encode s scan pending = ground arith
