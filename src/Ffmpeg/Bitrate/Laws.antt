-- ===== src/Ffmpeg/Bitrate/Laws.antt =====
-- The bounds of a target bitrate.
use codarr.Prelude.{
  ℕ, zero, suc, ◌-◌, ◌*◌, ◌/◌, ◌%◌, ◌≤◌, ◌<◌, ◌≡◌, refl, List, [], ◌∷◌, All, arith, length,
  Bool-cases, inl, inr, leb, max, min, ◌==◌, ltb, if◌then◌else◌,
}
use codarr.Ffmpeg.Bitrate.{
  Resolution, res_576p, res_720p, res_1080p, res_1440p, res_2160p, resolution_of, floor, ceiling,
  BitrateInput, clamp, insert, sort, at, median,
}

floor_le_ceiling : (r : Resolution) → floor r ≤ ceiling r
unfolding floor ceiling
floor_le_ceiling res_576p = omega arith
floor_le_ceiling res_720p = omega arith
floor_le_ceiling res_1080p = omega arith
floor_le_ceiling res_1440p = omega arith
floor_le_ceiling res_2160p = omega arith

-- The three clamps, over any floor below the ceiling.
limits :
    (x s f c : ℕ)
    → f ≤ c
    → (f ≤ min (max x f) c) × (min (max x f) c ≤ c) × (x ≤ s → min (max x f) c ≤ max s f)
limits x s f c h = (omega (arith, h), omega arith, λ l. omega (arith, l))

limits_mono : (x y f c : ℕ) → x ≤ y → min (max x f) c ≤ min (max y f) c
limits_mono x y f c h = omega (arith, h)

-- The source's clamp alone.
abbrev capped : ℕ → ℕ → ℕ
capped t s = if ltb 0 s then min t (s * 85 / 100) else t

capped_le : (t s : ℕ) → 0 < s → capped t s ≤ s * 85 / 100
capped_le t s h = ground (arith, h)

capped_mono : (t t' s : ℕ) → t ≤ t' → capped t s ≤ capped t' s
capped_mono t t' s h = ground (arith, h)

-- A clamped target lies between the floor and the ceiling of its resolution, and above 85% of a known
-- source bitrate only where the floor does.
pub clamp_bounds :
    (target : ℕ) (input : BitrateInput)
    → (floor (resolution_of input.width) ≤ clamp target input)
      × (clamp target input ≤ ceiling (resolution_of input.width))
      × (0 < input.source_bitrate
          → clamp target input
            ≤ max (input.source_bitrate * 85 / 100) (floor (resolution_of input.width)))
unfolding clamp
clamp_bounds target input =
    let s = input.source_bitrate in
    let r = resolution_of input.width in
    let (low, high, known) =
      limits (capped target s) (s * 85 / 100) (floor r) (ceiling r) (floor_le_ceiling r) in
    (low, high, λ l. known (capped_le target s l))

-- More is never clamped to less.
pub clamp_mono : (t t' : ℕ) (input : BitrateInput) → t ≤ t' → clamp t input ≤ clamp t' input
unfolding clamp
clamp_mono t t' input h =
    let r = resolution_of input.width in
    limits_mono (capped t input.source_bitrate) (capped t' input.source_bitrate) (floor r)
      (ceiling r) (capped_mono t t' input.source_bitrate h)

IsBetween : ℕ → ℕ → ℕ → Type 0
IsBetween lo hi x = (lo ≤ x) × (x ≤ hi)

insert-All :
    (lo hi x : ℕ) (xs : List ℕ)
    → IsBetween lo hi x
    → All (IsBetween lo hi) xs
    → All (IsBetween lo hi) (insert x xs)
unfolding insert
insert-All lo hi x [] p q = (p, tt)
insert-All lo hi x (y ∷ ys) p q = elim (Bool-cases (leb x y)) [
  | inl e ↦ rw (e) (p, q)
  | inr e ↦ rw (e) (q.0, insert-All lo hi x ys p q.1)
]

sort-All : (lo hi : ℕ) (xs : List ℕ) → All (IsBetween lo hi) xs → All (IsBetween lo hi) (sort xs)
unfolding sort
sort-All lo hi [] q = tt
sort-All lo hi (x ∷ xs) q = insert-All lo hi x (sort xs) q.0 (sort-All lo hi xs q.1)

length-insert : (x : ℕ) (xs : List ℕ) → length (insert x xs) ≡ suc (length xs)
unfolding insert
length-insert x [] = refl
length-insert x (y ∷ ys) = ground (arith, length-insert x ys)

at-All :
    (lo hi : ℕ) (xs : List ℕ) (i : ℕ)
    → All (IsBetween lo hi) xs
    → i < length xs
    → IsBetween lo hi (at xs i)
unfolding at
at-All lo hi [] i q l = absurd (omega (arith, l))
at-All lo hi (x ∷ xs) zero q l = q.0
at-All lo hi (x ∷ xs) (suc i) q l = at-All lo hi xs i q.1 (omega (arith, l))

-- The median of the samples lies between the bounds that they all keep to.
pub median_bounds :
    (lo hi v : ℕ) (vs : List ℕ)
    → All (λ x. (lo ≤ x) × (x ≤ hi)) (v ∷ vs)
    → (lo ≤ median (v ∷ vs)) × (median (v ∷ vs) ≤ hi)
unfolding median IsBetween sort
median_bounds lo hi v vs q =
    let s = sort (v ∷ vs) in
    let all = sort-All lo hi (v ∷ vs) q in
    let long = length-insert v (sort vs) in
    let middle = at-All lo hi s (length s / 2) all (omega (arith, long)) in
    let before = at-All lo hi s (length s / 2 - 1) all (omega (arith, long)) in
    elim (Bool-cases (length s % 2 == 1)) [
      | inl e ↦ ground (arith, e, middle, before)
      | inr e ↦ ground (arith, e, middle, before)
    ]
