-- ===== src/Pathmap/Attribute/Laws.antt =====
-- A file belongs to the root that lies nearest to it.
use mathlib.Core.Path.{subst}
use codarr.Prelude.{
  ℕ, ◌≤◌, String, true, false, List, [], ◌∷◌, ◌++◌, Option, none, some, ltb, ◌==◌, ◌≡◌, ◌≢◌, eq_iff,
  refl, sym, arith, All, All-append, some-inj, Bool-cases, inl, inr, leb, str_eq, if◌then◌else◌,
}
use codarr.Pathmap.{normalise}
use codarr.Pathmap.Attribute.{
  Root, Attribution, Best, is_candidate, root_size, grow, longest_from, sort_roots, insert_root,
  longest_prefix_matches, root_for, is_of, attribution, attributed, attribute, distinct_instances,
}

-- A root that the file lies under, and none of the roots that it lies under is longer.
pub IsNearest : String → List Root → Root → Type 0
IsNearest file roots r =
    (is_candidate file r ≡ true)
    × All (λ s. is_candidate file s ≡ true → root_size s ≤ root_size r) roots

module _ (file : String) where
  IsOfSize : ℕ → Root → Type 0
  IsOfSize n r = (is_candidate file r ≡ true) × (root_size r ≡ n)

  -- What the loop keeps.
  data IsBest : Best → Type 0 where
    nothing : IsBest ([], none)
    found :
        (n : ℕ) (r : Root) (best : List Root)
        → All (IsOfSize n) (r ∷ best)
        → IsBest (r ∷ best, some n)

  abbrev Reaches : ℕ → Option ℕ → Type 0
  Reaches n o = elim o [ none ↦ ⊥ | some m ↦ n ≤ m ]

  grow-IsBest : (r : Root) (b : Best) → is_candidate file r ≡ true → IsBest b → IsBest (grow r b)
  unfolding IsOfSize
  grow-IsBest r (best, none) c k = found (root_size r) r [] ((c, refl), tt)
  grow-IsBest r (best, some m) c (found n s rest all) = elim (Bool-cases (ltb n (root_size r))) [
    | inl e ↦ rw e (found (root_size r) r [] ((c, refl), tt))
    | inr e ↦ elim (Bool-cases (root_size r == n)) [
      | inl q ↦
          rw (e, q)
            (found n s (rest ++ r ∷ [])
              (All-append (IsOfSize n) (s ∷ rest) (r ∷ []) all ((c, ground (arith, q)), tt)))
      | inr q ↦ rw (e, q) (found n s rest all)
    ]
  ]

  grow-Reaches : (r : Root) (b : Best) → Reaches (root_size r) (grow r b).1
  grow-Reaches r (best, none) = omega arith
  grow-Reaches r (best, some n) = elim (Bool-cases (ltb n (root_size r))) [
    | inl e ↦ rw e (omega arith)
    | inr e ↦ elim (Bool-cases (root_size r == n)) [
      | inl q ↦ rw (e, q) (ground (arith, e))
      | inr q ↦ rw (e, q) (ground (arith, e))
    ]
  ]

  grow_mono : (m : ℕ) (r : Root) (b : Best) → Reaches m b.1 → Reaches m (grow r b).1
  grow_mono m r (best, none) k = absurd k
  grow_mono m r (best, some n) k = elim (Bool-cases (ltb n (root_size r))) [
    | inl e ↦ rw e (ground (arith, e, k))
    | inr e ↦ elim (Bool-cases (root_size r == n)) [ inl q ↦ rw (e, q) k | inr q ↦ rw (e, q) k ]
  ]

  longest_from-IsBest :
      (roots : List Root) (b : Best) → IsBest b → IsBest (longest_from file roots b)
  unfolding longest_from
  longest_from-IsBest [] b k = k
  longest_from-IsBest (r ∷ rs) b k = elim (Bool-cases (is_candidate file r)) [
    | inl e ↦ rw (longest_from, e) (longest_from-IsBest rs (grow r b) (grow-IsBest r b e k))
    | inr e ↦ rw (longest_from, e) (longest_from-IsBest rs b k)
  ]

  longest_from_mono :
      (m : ℕ) (roots : List Root) (b : Best)
      → Reaches m b.1
      → Reaches m (longest_from file roots b).1
  unfolding longest_from
  longest_from_mono m [] b k = k
  longest_from_mono m (r ∷ rs) b k = elim (Bool-cases (is_candidate file r)) [
    | inl e ↦ rw (longest_from, e) (longest_from_mono m rs (grow r b) (grow_mono m r b k))
    | inr e ↦ rw (longest_from, e) (longest_from_mono m rs b k)
  ]

  longest_from-Reaches :
      (roots : List Root) (b : Best)
      → All
          (λ s. is_candidate file s ≡ true → Reaches (root_size s) (longest_from file roots b).1)
          roots
  unfolding longest_from
  longest_from-Reaches [] b = tt
  longest_from-Reaches (r ∷ rs) b =
      let b' = if is_candidate file r then grow r b else b in
      (
        λ c. longest_from_mono (root_size r) rs b' (rw c (grow-Reaches r b)),
        longest_from-Reaches rs b',
      )

  insert_root-All :
      (P : Root → Type 0) (r : Root) (rs : List Root) → P r → All P rs → All P (insert_root r rs)
  unfolding insert_root
  insert_root-All P r [] p ps = (p, tt)
  insert_root-All P r (s ∷ ss) p ps = elim (Bool-cases (leb r.id s.id)) [
    | inl e ↦ rw e (p, ps)
    | inr e ↦ rw e (ps.0, insert_root-All P r ss p ps.1)
  ]

  sort_roots-All : (P : Root → Type 0) (rs : List Root) → All P rs → All P (sort_roots rs)
  unfolding sort_roots
  sort_roots-All P [] ps = tt
  sort_roots-All P (r ∷ rs) ps = insert_root-All P r (sort_roots rs) ps.0 (sort_roots-All P rs ps.1)

  root_for-All :
      (P : Root → Type 0) (first : Root) (rs : List Root) (id : ℕ)
      → P first
      → All P rs
      → P (root_for first rs id)
  unfolding root_for
  root_for-All P first [] id p ps = p
  root_for-All P first (r ∷ rs) id p ps = elim (Bool-cases (is_of id r)) [
    | inl e ↦ rw e ps.0
    | inr e ↦ rw e (root_for-All P first rs id p ps.1)
  ]

  attribution-root :
      (P : Root → Type 0) (first : Root) (rs : List Root) (ids : List ℕ)
      → P first
      → All P rs
      → P (attribution first rs ids).root
  unfolding attribution
  attribution-root P first rs [] p ps = p
  attribution-root P first rs (id ∷ []) p ps = root_for-All P first rs id p ps
  attribution-root P first rs (i ∷ j ∷ ids) p ps = p

  attributed-root :
      (P : Root → Type 0) (rs : List Root) (a : Attribution)
      → All P rs
      → attributed rs ≡ some a
      → P a.root
  unfolding attributed
  attributed-root P [] a ps e = absurd (cc e)
  attributed-root P (r ∷ rs) a ps e =
      subst (λ x. P x.root) (some-inj e)
        (attribution-root P r (r ∷ rs) (distinct_instances (r ∷ rs)) ps.0 ps)

  near :
      (roots rs : List Root) (n : ℕ)
      → All (λ s. is_candidate file s ≡ true → root_size s ≤ n) roots
      → All (IsOfSize n) rs
      → All (IsNearest file roots) rs
  unfolding IsNearest IsOfSize
  near roots [] n all k = tt
  near roots (r ∷ rs) n all k = (
    (
      k.0.0,
      subst (λ m. All (λ s. is_candidate file s ≡ true → root_size s ≤ m) roots) (sym k.0.1) all,
    ),
    near roots rs n all k.1,
  )

  best-IsNearest :
      (roots : List Root) (b : Best)
      → IsBest b
      → All (λ s. is_candidate file s ≡ true → Reaches (root_size s) b.1) roots
      → All (IsNearest file roots) b.0
  best-IsNearest roots b nothing all = tt
  best-IsNearest roots b (found n r best k) all = near roots (r ∷ best) n all k

  attributed-cons : (rs : List Root) → rs ≢ [] → attributed rs ≢ none
  unfolding attributed
  attributed-cons [] k e = k refl
  attributed-cons (r ∷ rs) k e = absurd (cc e)

  insert_root-cons : (r : Root) (rs : List Root) → insert_root r rs ≢ []
  unfolding insert_root
  insert_root-cons r [] = λ q. absurd (cc q)
  insert_root-cons r (s ∷ ss) = elim (Bool-cases (leb r.id s.id)) [
    | inl e ↦ rw e (λ q. absurd (cc q))
    | inr e ↦ rw e (λ q. absurd (cc q))
  ]

  -- A loop that found nothing met no candidate.
  unfound :
      (roots : List Root) (b : Best)
      → IsBest b
      → All (λ s. is_candidate file s ≡ true → Reaches (root_size s) b.1) roots
      → attributed (sort_roots b.0) ≡ none
      → All (λ s. is_candidate file s ≡ false) roots
  unfolding attributed sort_roots
  unfound [] b k all e = tt
  unfound (r ∷ rs) b nothing all e = (
    elim (Bool-cases (is_candidate file r)) [ inl q ↦ absurd (all.0 q) | inr q ↦ q ],
    unfound rs ([], none) nothing all.1 e,
  )
  unfound (r ∷ rs) b (found n s best k) all e =
      absurd (attributed-cons _ (insert_root-cons s (sort_roots best)) e)

-- The root that a file is attributed to is enabled, the file lies under it, and it is the longest
-- of the enabled roots that the file lies under.
pub attribute-IsNearest :
    (roots : List Root) (file : String) (a : Attribution)
    → attribute roots file ≡ some a
    → IsNearest (normalise file) roots a.root
unfolding attribute longest_prefix_matches
attribute-IsNearest roots file a e = elim (Bool-cases (str_eq (normalise file) "")) [
  | inl q ↦ absurd (cc (rw (attribute, q) at e))
  | inr q ↦
      let f = normalise file in
      attributed-root f (IsNearest f roots) (longest_prefix_matches roots f) a
        (sort_roots-All f (IsNearest f roots) (longest_from f roots ([], none)).0 (
          best-IsNearest f roots (longest_from f roots ([], none))
            (longest_from-IsBest f roots ([], none) nothing)
            (longest_from-Reaches f roots ([], none))))
        (rw (attribute, q) at e)
]

-- A file with an absolute path that is attributed to no root lies under none of the enabled roots.
pub attribute-none :
    (roots : List Root) (file : String)
    → normalise file ≢ ""
    → attribute roots file ≡ none
    → All (λ s. is_candidate (normalise file) s ≡ false) roots
unfolding attribute longest_prefix_matches
attribute-none roots file some_path e = elim (Bool-cases (str_eq (normalise file) "")) [
  | inl q ↦ absurd (some_path ((eq_iff (normalise file) "").0 q))
  | inr q ↦
      let f = normalise file in
      unfound f roots (longest_from f roots ([], none))
        (longest_from-IsBest f roots ([], none) nothing) (longest_from-Reaches f roots ([], none))
        (rw (attribute, q) at e)
]
