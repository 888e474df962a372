-- ===== src/Decide/Engine/Indices.antt =====
-- The output positions that `assignOutputIndices` gives.
use codarr.Prelude.{
  ℕ, ◌+◌, Bool, true, false, not, ◌&&◌, List, [], ◌∷◌, ◌++◌, none, some, ◌≡◌, refl, arith, length,
  get_elem?, keep, any, if◌then◌else◌, Bool-cases, inl, inr, ap, ◌∙◌, All, find_first,
}
use codarr.Domain.Plan.{drop, StreamType, audio, StreamPlan, eq_decision, eq_type, eq_type→≡}
use codarr.Decide.Engine.{assign_from, assign_output_indices, bump, has_output_audio, encodes}

-- How many streams of one type a plan keeps.
abbrev pub is_kept : StreamType → StreamPlan → Bool
is_kept t p = eq_type p.type t && not (eq_decision p.decision drop)

abbrev pub kept : StreamType → List StreamPlan → ℕ
kept t ps = length (keep (is_kept t) ps)

-- A plan that is kept gets an output index.
abbrev pub numbered : ℕ → StreamPlan → StreamPlan
numbered n p = if eq_decision p.decision drop then p else record p { output_index = some n }

kept-dropped :
    (q : StreamPlan) (t : StreamType) (front : List StreamPlan)
    → eq_decision q.decision drop ≡ true
    → kept t front ≡ kept t (q ∷ front)
kept-dropped q t front h = ground arith

kept-bump :
    (next : StreamType → ℕ) (q : StreamPlan) (t : StreamType) (front : List StreamPlan)
    → eq_decision q.decision drop ≡ false
    → bump next q.type t + kept t front ≡ next t + kept t (q ∷ front)
kept-bump next q t front h = ground (arith, eq_type→≡ q.type t)

module _ (next : StreamType → ℕ) (q : StreamPlan) (ps : List StreamPlan) where
  assign_from-dropped :
      eq_decision q.decision drop ≡ true → assign_from next (q ∷ ps) ≡ q ∷ assign_from next ps
  unfolding assign_from
  assign_from-dropped e = rw (e, assign_from)

  assign_from-kept :
      eq_decision q.decision drop ≡ false
      → assign_from next (q ∷ ps)
        ≡ record q { output_index = some (next q.type) } ∷ assign_from (bump next q.type) ps
  unfolding assign_from
  assign_from-kept e = rw (e, assign_from)

assign_from-at :
    (next : StreamType → ℕ) (front : List StreamPlan) (p : StreamPlan) (back : List StreamPlan)
    → get_elem? (assign_from next (front ++ p ∷ back)) (length front)
      ≡ some (numbered (next p.type + kept p.type front) p)
assign_from-at next [] p back = unfold assign_from in ground arith
assign_from-at next (q ∷ front) p back = elim (Bool-cases (eq_decision q.decision drop)) [
  | inl e ↦
      ap (λ l. get_elem? l (length (q ∷ front))) (assign_from-dropped next q (front ++ p ∷ back) e)
      ∙ assign_from-at next front p back
      ∙ ap (λ k. some (numbered (next p.type + k) p)) (kept-dropped q p.type front e)
  | inr e ↦
      ap (λ l. get_elem? l (length (q ∷ front))) (assign_from-kept next q (front ++ p ∷ back) e)
      ∙ assign_from-at (bump next q.type) front p back
      ∙ ap (λ n. some (numbered n p)) (kept-bump next q p.type front e)
]

-- At each position a dropped stream is left without an output index, and a kept one gets the number
-- of kept streams of its own type that stand before it.
pub assign_output_indices-at :
    (front : List StreamPlan) (p : StreamPlan) (back : List StreamPlan)
    → get_elem? (assign_output_indices (front ++ p ∷ back)) (length front)
      ≡ some (numbered (kept p.type front) p)
unfolding assign_output_indices
assign_output_indices-at front p back =
    assign_from-at (λ t. 0) front p back ∙ ap (λ n. some (numbered n p)) (omega arith)

-- Numbering changes nothing but the indices, so it keeps the tests that do not read them.
pub any-assign_from :
    (q : StreamPlan → Bool) (next : StreamType → ℕ) (ps : List StreamPlan)
    → ((p : StreamPlan) (n : ℕ) → q (record p { output_index = some n }) ≡ q p)
    → any q (assign_from next ps) ≡ any q ps
unfolding assign_from
any-assign_from q next [] same = refl
any-assign_from q next (p ∷ ps) same = ground (
  arith,
  same p (next p.type),
  any-assign_from q next ps same,
  any-assign_from q (bump next p.type) ps same,
)

pub first-assign_from :
    (q : StreamPlan → Bool) (next : StreamType → ℕ) (ps : List StreamPlan)
    → ((p : StreamPlan) (n : ℕ) → q (record p { output_index = some n }) ≡ q p)
    → encodes (find_first q (assign_from next ps)) ≡ encodes (find_first q ps)
unfolding assign_from
first-assign_from q next [] same = refl
first-assign_from q next (p ∷ ps) same = ground (
  arith,
  same p (next p.type),
  first-assign_from q next ps same,
  first-assign_from q (bump next p.type) ps same,
)

-- No stream has an output index yet.
abbrev pub IsFresh : StreamPlan → Type 0
IsFresh p = p.output_index ≡ none

-- After numbering there is output audio exactly when an audio stream is kept.
pub has_output_audio-assign_from :
    (next : StreamType → ℕ) (ps : List StreamPlan)
    → All IsFresh ps
    → has_output_audio (assign_from next ps) ≡ any (is_kept audio) ps
unfolding assign_from has_output_audio
has_output_audio-assign_from next [] fresh = refl
has_output_audio-assign_from next (p ∷ ps) fresh = ground (
  arith,
  has_output_audio-assign_from next ps fresh.1,
  has_output_audio-assign_from (bump next p.type) ps fresh.1,
)
