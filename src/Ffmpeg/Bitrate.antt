-- ===== src/Ffmpeg/Bitrate.antt =====
-- internal/ffmpeg/bitrate.go: the bitrate that an encode aims at, in bits per second. The factors of
-- the code, floats there, are exact fractions here.
pub mod Laws
use codarr.Prelude.{
  ℕ, zero, suc, ◌+◌, ◌-◌, ◌*◌, ◌/◌, ◌%◌, Bool, true, false, List, [], ◌∷◌, Rat, ltb, leb, ◌==◌,
  if◌then◌else◌, min, max, length,
}

pub data Resolution : Type 0 where
  res_576p res_720p res_1080p res_1440p res_2160p : Resolution

-- Tiers on the width alone.
unfoldable pub resolution_of : ℕ → Resolution
resolution_of width =
    if leb 3840 width
    then res_2160p
    else if leb 2560 width
    then res_1440p
    else if leb 1920 width
    then res_1080p
    else if leb 1280 width
    then res_720p
    else res_576p

unfoldable pub floor : Resolution → ℕ
floor res_576p = 800000
floor res_720p = 1500000
floor res_1080p = 2500000
floor res_1440p = 4000000
floor res_2160p = 8000000

unfoldable pub ceiling : Resolution → ℕ
ceiling res_576p = 2500000
ceiling res_720p = 4000000
ceiling res_1080p = 8000000
ceiling res_1440p = 12000000
ceiling res_2160p = 20000000

-- Bits per pixel, in thousandths.
unfoldable pub bpp : Resolution → ℕ
bpp res_1440p = 60
bpp res_2160p = 55
bpp _ = 65

-- `source_bitrate` is 0 when it could not be resolved.
pub record BitrateInput : Type 0 where
  pub width : ℕ
  pub height : ℕ
  pub fps : Rat
  pub hdr : Bool
  pub source_bitrate : ℕ

-- The source first, then the floor, which is allowed to win over it, then the ceiling.
unfoldable pub clamp : ℕ → BitrateInput → ℕ
unfolding resolution_of floor ceiling
clamp target input =
    let res = resolution_of input.width in
    let capped =
      if ltb 0 input.source_bitrate then min target (input.source_bitrate * 85 / 100) else target in
    min (max capped (floor res)) (ceiling res)

-- `sort.Ints`
insert : ℕ → List ℕ → List ℕ
insert x [] = x ∷ []
insert x (y ∷ ys) = let rest = insert x ys in if leb x y then x ∷ y ∷ ys else y ∷ rest

unfoldable pub sort : List ℕ → List ℕ
unfolding insert
sort [] = []
sort (x ∷ xs) = insert x (sort xs)

-- `s[i]`, where `i` is in range.
at : List ℕ → ℕ → ℕ
at [] i = 0
at (x ∷ xs) zero = x
at (x ∷ xs) (suc i) = at xs i

unfoldable pub median : List ℕ → ℕ
unfolding sort at
median [] = 0
median (v ∷ vs) =
    let s = sort (v ∷ vs) in
    let mid = length s / 2 in
    if length s % 2 == 1 then at s mid else (at s (mid - 1) + at s mid) / 2

-- The hardware correction is 1.25.
unfoldable pub target_from_samples : List ℕ → BitrateInput → ℕ
unfolding median clamp
target_from_samples samples input =
    let base = median samples in if base == 0 then 0 else clamp (base * 125 / 100) input

-- The factor for more than 30 frames a second: fps / 24, at most 1.6.
unfoldable rate_scale : Rat → Rat
rate_scale fps =
    if ltb (30 * fps.den) fps.num
    then (if ltb (16 * (24 * fps.den)) (10 * fps.num)
        then record { num = 16; den = 10 }
        else record { num = fps.num; den = 24 * fps.den })
    else record { num = 1; den = 1 }

-- `FallbackBitrate`: the product of the fractions, rounded down once.
unfoldable pub fallback_bitrate : BitrateInput → ℕ
unfolding bpp resolution_of rate_scale
fallback_bitrate input =
    let scale = rate_scale input.fps in
    let hdr = if input.hdr then 125 else 100 in
    (input.width * input.height * input.fps.num * bpp (resolution_of input.width) * scale.num * hdr)
    / (input.fps.den * 1000 * scale.den * 100)

unfoldable pub target_from_fallback : BitrateInput → ℕ
unfolding clamp fallback_bitrate
target_from_fallback input = clamp (fallback_bitrate input) input
