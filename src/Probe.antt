-- ===== src/Probe.antt =====
-- internal/ffprobe/result.go: one ffprobe result, and what is read out of its text fields. A map is
-- an association list in the order in which Go happens to range over it. Floats are fractions.
pub mod Chroma
use codarr.Prelude.{
  ℕ, zero, suc, ◌+◌, ◌*◌, ◌/◌, ◌%◌, String, Bool, true, false, not, ◌&&◌, ◌||◌, List, [], ◌∷◌,
  Option, none, some, ℤ, pos, negsuc, Rat, str_eq, equal_fold, parse_decimal, cut, keep, find_first,
  ltb, ◌==◌, has_prefix, lower_codes, itoa, ◌<>◌, if◌then◌else◌, get_elem?,
}
use Chroma.{chroma_of, bit_depth_of}

pub record Disposition : Type 0 where
  pub default : ℕ
  pub forced : ℕ
  pub comment : ℕ
  pub visual_impaired : ℕ
  pub attached_pic : ℕ

pub record SideData : Type 0 where
  pub type : String
  pub dv_profile : Option ℕ

-- The fields that the program reads. `level` is signed: ffprobe prints -99 for an unknown one.
pub record Stream : Type 0 where
  pub index : ℕ
  pub codec_name : String
  pub codec_type : String
  pub profile : String
  pub level : ℤ
  pub width : ℕ
  pub height : ℕ
  pub pix_fmt : String
  pub r_frame_rate : String
  pub avg_frame_rate : String
  pub duration : String
  pub channels : ℕ
  pub channel_layout : String
  pub bit_rate : String
  pub field_order : String
  pub color_transfer : String
  pub refs : ℕ
  pub disposition : Disposition
  pub tags : List (String × String)
  pub side_data_list : List SideData

pub record Format : Type 0 where
  pub filename : String
  pub format_name : String
  pub duration : String
  pub size : String
  pub bit_rate : String
  pub tags : List (String × String)

-- A chapter is not read beyond its presence, so a list of its titles stands for the list.
pub record Result : Type 0 where
  pub format : Format
  pub streams : List Stream
  pub chapters : List String

abbrev pub type_video : String
type_video = "video"

abbrev pub type_audio : String
type_audio = "audio"

abbrev pub type_subtitle : String
type_subtitle = "subtitle"

abbrev pub type_attachment : String
type_attachment = "attachment"

abbrev pub zero_rat : Rat
zero_rat = record { num = 0; den = 1 }

-- Absent, negative or unparseable is zero. Decimal notation only: the plus sign, the exponents and the
-- hexadecimal form that `strconv.ParseFloat` reads too are zero here.
unfoldable pub parse_float : String → Rat
parse_float s =
    if str_eq s "" || str_eq s "N/A"
    then zero_rat
    else elim (parse_decimal s) [ none ↦ zero_rat | some v ↦ v ]

abbrev pub is_positive : Rat → Bool
is_positive v = ltb 0 v.num

-- `int(v)` for a fraction.
abbrev pub truncate : Rat → ℕ
truncate v = v.num / v.den

-- "24000/1001".
unfoldable pub parse_rational : String → Rat
unfolding parse_float
parse_rational s = elim (cut b'/' s) [
  | none ↦ parse_float s
  | some (num, den) ↦
      let n = parse_float num in
      let d = parse_float den in
      if d.num == 0 then zero_rat else record { num = n.num * d.den; den = n.den * d.num }
]

exact_tag : List (String × String) → String → Option String
exact_tag [] name = none
exact_tag ((k, v) ∷ tags) name =
    let rest = exact_tag tags name in if str_eq k name then some v else rest

folded_tag : List (String × String) → String → Option String
folded_tag [] name = none
folded_tag ((k, v) ∷ tags) name =
    let rest = folded_tag tags name in if equal_fold k name then some v else rest

unfoldable pub lookup_tag : List (String × String) → String → Option String
unfolding exact_tag folded_tag
lookup_tag tags name = elim (exact_tag tags name) [ some v ↦ some v | none ↦ folded_tag tags name ]

unfoldable pub language : Stream → String
unfolding lookup_tag
language s = elim (lookup_tag s.tags "language") [
  | some v ↦ if str_eq v "" then "und" else v
  | none ↦ "und"
]

unfoldable pub title : Stream → String
unfolding lookup_tag
title s = elim (lookup_tag s.tags "title") [ some v ↦ v | none ↦ "" ]

-- A bitrate that counts: positive.
abbrev pub positive : ℕ → Option ℕ
positive n = if ltb 0 n then some n else none

unfoldable pub bit_rate_bps : Stream → Option ℕ
unfolding parse_float
bit_rate_bps s = if str_eq s.bit_rate "" then none else positive (truncate (parse_float s.bit_rate))

bps_tags : List (String × String) → Option ℕ
unfolding parse_float
bps_tags [] = none
bps_tags ((k, v) ∷ tags) =
    let rest = bps_tags tags in
    if has_prefix (lower_codes k) (lower_codes "BPS-")
    then elim (positive (truncate (parse_float v))) [ some n ↦ some n | none ↦ rest ]
    else rest

unfoldable pub bps_tag_bps : Stream → Option ℕ
unfolding lookup_tag parse_float bps_tags
bps_tag_bps s = elim (lookup_tag s.tags "BPS") [
  | some v ↦ elim (positive (truncate (parse_float v))) [ some n ↦ some n | none ↦ bps_tags s.tags ]
  | none ↦ bps_tags s.tags
]

abbrev pub is_attached_pic : Stream → Bool
is_attached_pic s = s.disposition.attached_pic == 1

unfoldable pub frame_rate : Stream → Rat
unfolding parse_rational
frame_rate s =
    let v = parse_rational s.avg_frame_rate in
    if is_positive v then v else parse_rational s.r_frame_rate

-- The level as a fraction: tenths for H.264, thirtieths for HEVC.
scale_level : String → ℕ → Option Rat
scale_level codec zero = none
scale_level codec (suc n) =
    if str_eq codec "h264"
    then some (record { num = suc n; den = 10 })
    else if str_eq codec "hevc"
    then some (record { num = suc n; den = 30 })
    else none

level_value_of : String → ℤ → Option Rat
unfolding scale_level
level_value_of codec (pos n) = scale_level codec n
level_value_of codec (negsuc n) = none

unfoldable pub level_value : Stream → Option Rat
unfolding level_value_of
level_value s = level_value_of s.codec_name s.level

-- `FormatFloat(v, 'f', 1, 64)`: the nearest tenth. (A tie cannot happen: 10 and 30 are the
-- denominators.)
unfoldable pub one_decimal : Rat → String
unfolding itoa
one_decimal v =
    let tenths = (v.num * 20 + v.den) / (2 * v.den) in
    itoa (tenths / 10) <> "." <> itoa (tenths % 10)

unfoldable pub level_string : Stream → String
unfolding level_value one_decimal
level_string s = elim (level_value s) [ none ↦ "" | some v ↦ one_decimal v ]

unfoldable pub interlaced : Stream → Bool
interlaced s =
    str_eq s.field_order "tt"
    || str_eq s.field_order "bb"
    || str_eq s.field_order "tb"
    || str_eq s.field_order "bt"

unfoldable pub field_order_known : Stream → Bool
field_order_known s = not (str_eq s.field_order "" || str_eq s.field_order "unknown")

unfoldable pub is_hdr : Stream → Bool
is_hdr s = str_eq s.color_transfer "smpte2084" || str_eq s.color_transfer "arib-std-b67"

abbrev pub side_data_dovi : String
side_data_dovi = "DOVI configuration record"

dovi_profile : List SideData → Option ℕ
dovi_profile [] = none
dovi_profile (sd ∷ sds) =
    let rest = dovi_profile sds in
    if equal_fold sd.type side_data_dovi
    then elim sd.dv_profile [ none ↦ rest | some p ↦ some p ]
    else rest

unfoldable pub dolby_vision_profile : Stream → Option ℕ
unfolding dovi_profile
dolby_vision_profile s = dovi_profile s.side_data_list

unfoldable pub chroma : Stream → Chroma.Chroma
unfolding chroma_of
chroma s = chroma_of s.pix_fmt

unfoldable pub bit_depth : Stream → ℕ
unfolding bit_depth_of
bit_depth s = bit_depth_of s.pix_fmt

abbrev pub is_primary_video : Stream → Bool
is_primary_video s = str_eq s.codec_type type_video && not (is_attached_pic s)

unfoldable pub primary_video : Result → Option Stream
primary_video r = find_first is_primary_video r.streams

unfoldable pub streams_of_type : Result → String → List Stream
streams_of_type r codec_type = keep (λ s. str_eq s.codec_type codec_type) r.streams

unfoldable pub size_bytes : Format → ℕ
unfolding parse_float
size_bytes f = truncate (parse_float f.size)

unfoldable pub format_bit_rate_bps : Format → ℕ
unfolding parse_float
format_bit_rate_bps f = truncate (parse_float f.bit_rate)

abbrev less : Rat → Rat → Bool
less a b = ltb (a.num * b.den) (b.num * a.den)

longest_duration : Rat → List Stream → Rat
unfolding parse_float
longest_duration longest [] = longest
longest_duration longest (s ∷ ss) =
    let d = parse_float s.duration in longest_duration (if less longest d then d else longest) ss

-- `Result.Duration`.
unfoldable pub duration_of : Result → Rat
unfolding parse_float longest_duration
duration_of r =
    let d = parse_float r.format.duration in
    if is_positive d then d else longest_duration zero_rat r.streams
