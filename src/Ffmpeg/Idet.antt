-- ===== src/Ffmpeg/Idet.antt =====
-- internal/ffmpeg/idet.go: the interlacing sample and the reading of its counters, which are decimal
-- numbers without a sign.
pub mod Laws
use codarr.Prelude.{
  ℕ, zero, suc, ◌+◌, ◌-◌, ◌*◌, String, Bool, true, false, not, ◌&&◌, ◌||◌, List, [], ◌∷◌, Option,
  none, some, leb, ltb, ◌==◌, codes, codes_eq, has_prefix, split_on, if◌then◌else◌,
}
use codarr.Domain.Plan.{Scan, progressive, interlaced}

unfoldable pub idet_args : String → List String
idet_args src =
    "-hide_banner" ∷ "-nostdin" ∷ "-i" ∷ src ∷ "-frames:v" ∷ "500" ∷ "-vf" ∷ "idet" ∷ "-an" ∷ "-sn"
    ∷ "-f" ∷ "null" ∷ "-" ∷ []

pub record IdetCounts : Type 0 where
  pub tff : ℕ
  pub bff : ℕ
  pub progressive_frames : ℕ

abbrev pub no_counts : IdetCounts
no_counts = record { tff = 0; bff = 0; progressive_frames = 0 }

abbrev pub total : IdetCounts → ℕ
total c = c.tff + c.bff + c.progressive_frames

drop_codes : List ℕ → List ℕ → List ℕ
drop_codes cs [] = cs
drop_codes [] (d ∷ ds) = []
drop_codes (c ∷ cs) (d ∷ ds) = drop_codes cs ds

-- `strings.Cut`, of which the part after the label is used.
unfoldable pub after : List ℕ → List ℕ → Option (List ℕ)
unfolding drop_codes
after label [] = none
after label (c ∷ cs) =
    let rest = after label cs in
    if has_prefix (c ∷ cs) label then some (drop_codes (c ∷ cs) label) else rest

is_space : ℕ → Bool
is_space c = c == 32 || (leb 9 c && leb c 13)

abbrev add_field : List ℕ → List (List ℕ) → List (List ℕ)
add_field [] fs = fs
add_field (c ∷ cs) fs = (c ∷ cs) ∷ fs

-- `strings.Fields`: the word so far, and those after it.
split_fields : List ℕ → List ℕ × List (List ℕ)
unfolding is_space
split_fields [] = ([], [])
split_fields (c ∷ cs) =
    let (word, fs) = split_fields cs in
    if is_space c then ([], add_field word fs) else (c ∷ word, fs)

unfoldable pub fields : List ℕ → List (List ℕ)
unfolding split_fields
fields cs = let (word, fs) = split_fields cs in add_field word fs

read_digits : ℕ → List ℕ → Option ℕ
read_digits acc [] = some acc
read_digits acc (c ∷ cs) =
    let rest = read_digits (acc * 10 + (c - 48)) cs in
    if leb b'0' c && leb c b'9' then rest else none

-- `strconv.Atoi`
unfoldable pub atoi : List ℕ → Option ℕ
unfolding read_digits
atoi [] = none
atoi (c ∷ cs) = read_digits 0 (c ∷ cs)

abbrev set_count : List ℕ → ℕ → IdetCounts → IdetCounts
set_count name n c =
    if codes_eq name (codes "TFF:")
    then record c { tff = n }
    else if codes_eq name (codes "BFF:")
    then record c { bff = n }
    else if codes_eq name (codes "Progressive:")
    then record c { progressive_frames = n }
    else c

abbrev counted : List ℕ → Option ℕ → IdetCounts → IdetCounts
counted name none c = c
counted name (some n) c = set_count name n c

-- The loop over neighbouring fields.
unfoldable pub read_counts : IdetCounts → List (List ℕ) → IdetCounts
unfolding atoi
read_counts c [] = c
read_counts c (name ∷ []) = c
read_counts c (name ∷ value ∷ fs) = read_counts (counted name (atoi value) c) (value ∷ fs)

unfoldable pub idet_line : List ℕ → List ℕ → IdetCounts
unfolding after fields read_counts
idet_line line label = elim (after label line) [
  | none ↦ no_counts
  | some rest ↦ read_counts no_counts (fields rest)
]

abbrev multi_label : List ℕ
multi_label = codes "Multi frame detection:"

abbrev single_label : List ℕ
single_label = codes "Single frame detection:"

abbrev has : List ℕ → List ℕ → Bool
has label line = elim (after label line) [ none ↦ false | some rest ↦ true ]

-- The last summary line of each kind.
unfoldable pub scan_lines : IdetCounts × IdetCounts → List String → IdetCounts × IdetCounts
unfolding after idet_line
scan_lines (multi, single) [] = (multi, single)
scan_lines (multi, single) (l ∷ ls) =
    let line = codes l in
    let next =
      if has multi_label line
      then (idet_line line multi_label, single)
      else if has single_label line
      then (multi, idet_line line single_label)
      else (multi, single) in
    scan_lines next ls

unfoldable pub scan_of : IdetCounts × IdetCounts → Scan
scan_of (multi, single) =
    let counts = if total multi == 0 then single else multi in
    if total counts == 0 || leb (counts.tff + counts.bff) counts.progressive_frames
    then progressive
    else interlaced

unfoldable pub parse_idet : String → Scan
unfolding scan_lines scan_of
parse_idet stderr = scan_of (scan_lines (no_counts, no_counts) (split_on b'\n' stderr))
