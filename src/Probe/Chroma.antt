-- ===== src/Probe/Chroma.antt =====
-- internal/ffprobe/chroma.go: a pixel format's subsampling and bit depth, read from its name.
use codarr.Prelude.{
  ℕ, ◌+◌, ◌-◌, ◌*◌, String, Bool, true, false, ◌||◌, List, [], ◌∷◌, Option, none, some, codes,
  lower_codes, codes_eq, has_prefix, any, ltb, ◌==◌, if◌then◌else◌,
}
use mathlib.Core.List.{reverse}

pub data Chroma : Type 0 where
  chroma_420 chroma_422 chroma_444 chroma_sub chroma_mono chroma_unknown : Chroma

abbrev pub chroma_name : Chroma → String
chroma_name chroma_420 = "4:2:0"
chroma_name chroma_422 = "4:2:2"
chroma_name chroma_444 = "4:4:4"
chroma_name chroma_sub = "subsampled"
chroma_name chroma_mono = "monochrome"
chroma_name chroma_unknown = "unknown"

abbrev pub is_420 : Chroma → Bool
is_420 chroma_420 = true
is_420 _ = false

abbrev pub is_unknown : Chroma → Bool
is_unknown chroma_unknown = true
is_unknown _ = false

-- A `case` with several texts.
abbrev one_of : List String → List ℕ → Bool
one_of names f = any (λ n. codes_eq f (codes n)) names

-- `strings.Contains`.
abbrev has_token : List ℕ → List ℕ → Bool
has_token [] tok = has_prefix [] tok
has_token (c ∷ f) tok = has_prefix (c ∷ f) tok || has_token f tok

named_chroma : List ℕ → Option Chroma
named_chroma f =
    if codes_eq f []
    then some chroma_unknown
    else if one_of
        ("nv12" ∷ "nv21" ∷ "p010le" ∷ "p010be" ∷ "p012le" ∷ "p012be" ∷ "p016le" ∷ "p016be" ∷ []) f
    then some chroma_420
    else if one_of
        ("nv16" ∷ "nv20le" ∷ "nv20be" ∷ "p210le" ∷ "p210be" ∷ "p216le" ∷ "p216be" ∷ "yuyv422"
          ∷ "yvyu422" ∷ "uyvy422" ∷ "nv24" ∷ "nv42" ∷ [])
        f
    then some chroma_422
    else if one_of
        ("p410le" ∷ "p410be" ∷ "p416le" ∷ "p416be" ∷ "ayuv64le" ∷ "ayuv64be" ∷ "xyz12le" ∷ "xyz12be"
          ∷ [])
        f
    then some chroma_444
    else none

is_mono : List ℕ → Bool
is_mono f =
    has_prefix f (codes "gray")
    || has_prefix f (codes "ya")
    || codes_eq f (codes "monow")
    || codes_eq f (codes "monob")

token_chroma : List ℕ → Option Chroma
token_chroma f =
    if has_token f (codes "444")
    then some chroma_444
    else if has_token f (codes "422")
    then some chroma_422
    else if has_token f (codes "420")
    then some chroma_420
    else if has_token f (codes "411") || has_token f (codes "410") || has_token f (codes "440")
    then some chroma_sub
    else none

is_rgb : List ℕ → Bool
is_rgb f =
    any (λ p. has_prefix f (codes p))
      ("rgb" ∷ "bgr" ∷ "gbr" ∷ "argb" ∷ "abgr" ∷ "rgba" ∷ "bgra" ∷ "pal8" ∷ [])

chroma_of_name : List ℕ → Chroma
unfolding named_chroma is_mono token_chroma is_rgb
chroma_of_name f = elim (named_chroma f) [
  | some c ↦ c
  | none ↦ if is_mono f then chroma_mono else elim (token_chroma f) [
    | some c ↦ c
    | none ↦ if is_rgb f then chroma_444 else chroma_unknown
  ]
]

unfoldable pub chroma_of : String → Chroma
unfolding chroma_of_name
chroma_of pix_fmt = chroma_of_name (lower_codes pix_fmt)

-- `strings.TrimPrefix` of one byte.
abbrev trim_byte : ℕ → List ℕ → List ℕ
trim_byte b [] = []
trim_byte b (c ∷ s) = if c == b then s else c ∷ s

-- The digits that are left, or 8 when something else is among them.
depth_digits : ℕ → List ℕ → ℕ
depth_digits depth [] = if depth == 0 then 8 else depth
depth_digits depth (r ∷ s) =
    let rest = depth_digits (depth * 10 + (r - 48)) s in
    if ltb r b'0' || ltb b'9' r then 8 else rest

depth_suffix : List ℕ → ℕ
unfolding depth_digits
depth_suffix s = depth_digits 0 (trim_byte b'a' (trim_byte b'p' s))

-- The text behind the first occurrence of a token of three bytes.
after_token : List ℕ → List ℕ → Option (List ℕ)
after_token (a ∷ b ∷ c ∷ f) tok =
    let rest = after_token (b ∷ c ∷ f) tok in if codes_eq (a ∷ b ∷ c ∷ []) tok then some f else rest
after_token _ tok = none

first_token : List String → List ℕ → Option (List ℕ)
unfolding after_token
first_token [] f = none
first_token (tok ∷ toks) f = elim (after_token f (codes tok)) [
  | some rest ↦ some rest
  | none ↦ first_token toks f
]

-- `strings.TrimSuffix` of two bytes.
trim_suffix : List ℕ → List ℕ → List ℕ
trim_suffix f suffix = elim (reverse f) [
  | [] ↦ f
  | b ∷ rest ↦ elim rest [
    | [] ↦ f
    | a ∷ front ↦ if codes_eq (a ∷ b ∷ []) suffix then reverse front else f
  ]
]

-- The text behind the last 'p'.
after_last_p : List ℕ → Option (List ℕ)
after_last_p [] = none
after_last_p (c ∷ f) = elim (after_last_p f) [
  | some rest ↦ some rest
  | none ↦ if c == b'p' then some f else none
]

trimmed_depth : List ℕ → ℕ
unfolding first_token depth_suffix after_last_p
trimmed_depth f = elim (first_token ("420" ∷ "422" ∷ "444" ∷ "411" ∷ "410" ∷ "440" ∷ []) f) [
  | some rest ↦ depth_suffix rest
  | none ↦
      if has_prefix f (codes "gray")
      then elim f [ a ∷ b ∷ c ∷ d ∷ rest ↦ depth_suffix rest | _ ↦ 8 ]
      else elim (after_last_p f) [ some rest ↦ depth_suffix rest | none ↦ 8 ]
]

named_depth : List ℕ → Option ℕ
named_depth f =
    if one_of ("p010le" ∷ "p010be" ∷ "p210le" ∷ "p210be" ∷ "p410le" ∷ "p410be" ∷ []) f
    then some 10
    else if one_of ("p012le" ∷ "p012be" ∷ []) f
    then some 12
    else if one_of
        ("p016le" ∷ "p016be" ∷ "p216le" ∷ "p216be" ∷ "p416le" ∷ "p416be" ∷ "ayuv64le" ∷ "ayuv64be"
          ∷ [])
        f
    then some 16
    else if one_of ("nv20le" ∷ "nv20be" ∷ []) f
    then some 10
    else none

bit_depth_of_name : List ℕ → ℕ
unfolding named_depth trimmed_depth trim_suffix
bit_depth_of_name f = if codes_eq f [] then 0 else elim (named_depth f) [
  | some d ↦ d
  | none ↦ trimmed_depth (trim_suffix (trim_suffix f (codes "le")) (codes "be"))
]

unfoldable pub bit_depth_of : String → ℕ
unfolding bit_depth_of_name
bit_depth_of pix_fmt = bit_depth_of_name (lower_codes pix_fmt)
