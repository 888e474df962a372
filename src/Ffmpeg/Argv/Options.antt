-- ===== src/Ffmpeg/Argv/Options.antt =====
-- internal/ffmpeg/argv.go: the options for a stream name the stream that they are for.
use codarr.Prelude.{
  Bool, ◌++◌, ◌≢◌, contains, if◌then◌else◌, ℕ, suc, String, true, false, List, [], ◌∷◌, some, All,
  All-append, itoa, ◌<>◌, ◌≡◌, refl, sym, ap, Bool-cases, inl, inr, ◌⊎◌,
}
use mathlib.Core.Path.{subst}
use codarr.Domain.Plan.{
  drop, StreamType, video, audio, subtitle, StreamPlan, DecodePath, eq_decision, eq_type, eq_type→≡,
}
use codarr.Decide.Engine.{assign_from, assign_output_indices, bump}
use codarr.Ffmpeg.Argv.{
  Request, OutStream, group_from, output_streams, audio_args, metadata_args, codec_args,
  stream_args, disposition_value,
}

-- How ffmpeg names a type of stream.
abbrev pub letter_of : StreamType → String
letter_of video = "v"
letter_of audio = "a"
letter_of subtitle = "s"

-- A stream that the options name by the letter of its type and the position that the plan gave it.
abbrev IsPlaced : OutStream → Type 0
IsPlaced o =
    (n : ℕ) × (o.plan.output_index ≡ some n)
    × (o.letter ≡ letter_of o.plan.type)
    × (o.spec ≡ letter_of o.plan.type <> ":" <> itoa n)

group_from-IsPlaced :
    (t : StreamType) (next : StreamType → ℕ) (ps : List StreamPlan)
    → All IsPlaced (group_from t (letter_of t) (next t) (assign_from next ps))
unfolding group_from assign_from
group_from-IsPlaced t next [] = tt
group_from-IsPlaced t next (p ∷ ps) =
    let rest = group_from-IsPlaced t (bump next p.type) ps in
    elim (Bool-cases (eq_decision p.decision drop)) [
      | inl d ↦ elim (Bool-cases (eq_type p.type t)) [
        | inl e ↦ rw (d, e, d) (group_from-IsPlaced t next ps)
        | inr e ↦ rw (d, e) (group_from-IsPlaced t next ps)
      ]
      | inr d ↦ elim (Bool-cases (eq_type p.type t)) [
        | inl e ↦
            let same = eq_type→≡ p.type t e in
            rw (d, e, d)
              (
                (
                  next t,
                  ap (λ u. some (next u)) same,
                  ap letter_of (sym same),
                  ap (λ u. letter_of u <> ":" <> itoa (next t)) (sym same),
                ),
                subst
                    (λ n.
                      All IsPlaced
                        (group_from t (letter_of t) n (assign_from (bump next p.type) ps)))
                    (rw e (ap (λ u. suc (next u)) same)) rest,
              )
        | inr e ↦
            rw (d, e)
              (subst
                (λ n.
                  All IsPlaced (group_from t (letter_of t) n (assign_from (bump next p.type) ps)))
                (rw e refl) rest)
      ]
    ]

output_streams-IsPlaced :
    (ps : List StreamPlan) → All IsPlaced (output_streams (assign_output_indices ps))
unfolding output_streams assign_output_indices
output_streams-IsPlaced ps =
    All-append IsPlaced _ _ (at video) (All-append IsPlaced _ _ (at audio) (at subtitle))
  where
    at : (t : StreamType) → All IsPlaced (group_from t (letter_of t) 0 (assign_from (λ _. 0) ps))
    at t = group_from-IsPlaced t (λ _. 0) ps

-- Arguments that come in pairs, an option and its value.
pub Pairs : (String → String → Type 0) → List String → Type 0
Pairs P [] = Unit
Pairs P (x ∷ []) = ⊥
Pairs P (x ∷ y ∷ rest) = P x y × Pairs P rest

module _ (P : String → String → Type 0) where
  Pairs-append : (xs ys : List String) → Pairs P xs → Pairs P ys → Pairs P (xs ++ ys)
  unfolding Pairs
  Pairs-append [] ys h k = k
  Pairs-append (x ∷ []) ys h k = absurd h
  Pairs-append (x ∷ y ∷ rest) ys h k = (h.0, Pairs-append rest ys h.1 k)

  Pairs-if :
      (b : Bool) (xs ys : List String) → Pairs P xs → Pairs P ys → Pairs P (if b then xs else ys)
  Pairs-if true xs ys h k = h
  Pairs-if false xs ys h k = k

  one : (x y : String) → P x y → Pairs P (x ∷ y ∷ [])
  unfolding Pairs
  one x y h = (h, tt)

  empty : Pairs P []
  unfolding Pairs
  empty = tt

-- The options that are followed by the name of an output stream.
abbrev pub stems : List String
stems = "-c:" ∷ "-b:" ∷ "-ac:" ∷ "-metadata:s:" ∷ "-disposition:" ∷ []

-- An option for a stream: it maps the source stream of the plan, or it names the output stream by the
-- letter of its type and the position of the plan.
pub IsOption : StreamPlan → String → String → Type 0
IsOption s option value =
    ((option ≡ "-map") × (value ≡ "0:" <> letter_of s.type <> ":" <> itoa s.source_index))
    ⊎ ((stem : String) × (n : ℕ) × (contains stems stem ≡ true)
        × (s.output_index ≡ some n)
        × (option ≡ stem <> letter_of s.type <> ":" <> itoa n))

module _ (o : OutStream) (placed : IsPlaced o) where
  named :
      (stem value : String)
      → contains stems stem ≡ true
      → Pairs (IsOption o.plan) ((stem <> o.spec) ∷ value ∷ [])
  unfolding IsOption
  named stem value known =
      let (n, at, letter, spec) = placed in
      one (IsOption o.plan) (stem <> o.spec) value
        (inr (stem, n, known, at, ap (λ x. stem <> x) spec))

  audio_args-IsOption : Pairs (IsOption o.plan) (audio_args o)
  unfolding audio_args
  audio_args-IsOption =
      let P = IsOption o.plan in
      Pairs-if P _ _ _ (named "-c:" _ refl) (
        Pairs-append P _ _ (named "-c:" _ refl) (
          Pairs-append P _ _ (Pairs-if P _ _ _ (named "-b:" _ refl) (empty P))
            (Pairs-if P _ _ _ (named "-ac:" _ refl) (empty P))))

  metadata_args-IsOption : Pairs (IsOption o.plan) (metadata_args o)
  unfolding metadata_args
  metadata_args-IsOption =
      let P = IsOption o.plan in
      Pairs-append P _ _ (Pairs-if P _ _ _ (empty P) (named "-metadata:s:" _ refl))
        (Pairs-if P _ _ _ (empty P) (named "-metadata:s:" _ refl))

  codec_args-IsOption :
      (req : Request) (decode : DecodePath) (t : StreamType)
      → t ≢ video
      → Pairs (IsOption o.plan) (codec_args req o decode t)
  unfolding codec_args
  codec_args-IsOption req decode video n = absurd (n refl)
  codec_args-IsOption req decode audio n = audio_args-IsOption
  codec_args-IsOption req decode subtitle n = named "-c:" _ refl

  stream_args-IsOption :
      (req : Request) (decode : DecodePath)
      → o.plan.type ≢ video
      → Pairs (IsOption o.plan) (stream_args req decode o)
  unfolding stream_args IsOption
  stream_args-IsOption req decode n =
      let P = IsOption o.plan in
      let (i, at, letter, spec) = placed in
      let mapped =
        one P "-map" ("0:" <> o.letter <> ":" <> itoa o.plan.source_index)
          (inl (refl, ap (λ l. "0:" <> l <> ":" <> itoa o.plan.source_index) letter)) in
      let disposed = named "-disposition:" (disposition_value o.plan) refl in
      Pairs-append P _ _
        (Pairs-append P _ _
          (Pairs-append P _ _ mapped (codec_args-IsOption req decode o.plan.type n))
          metadata_args-IsOption)
        disposed

-- In the arguments for the sound and the subtitle streams of a plan, which come in pairs, each option
-- maps the stream's own source stream or names the output stream by the letter of its type and the
-- position that the plan assigned to it.
pub output_streams-IsOption :
    (req : Request) (decode : DecodePath) (ps : List StreamPlan)
    → All
        (λ o. o.plan.type ≢ video → Pairs (IsOption o.plan) (stream_args req decode o))
        (output_streams (assign_output_indices ps))
output_streams-IsOption req decode ps =
    every (output_streams (assign_output_indices ps)) (output_streams-IsPlaced ps)
  where
    every :
        (os : List OutStream)
        → All IsPlaced os
        → All (λ o. o.plan.type ≢ video → Pairs (IsOption o.plan) (stream_args req decode o)) os
    every [] k = tt
    every (o ∷ os) k = (stream_args-IsOption o k.0 req decode, every os k.1)
