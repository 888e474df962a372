-- ===== src/Domain/Kind/Laws.antt =====
-- What kind.go promises of a Kind built from labels.
use codarr.Prelude.{
  String, Bool, true, false, List, [], ◌∷◌, contains, keep, not, ◌≡◌, refl, ◌||◌, if◌then◌else◌,
  join, arith,
}
use codarr.Domain.Kind.{
  labels, kind_of, labels_of, has, is_skip, label_video, label_audio, label_subtitles, label_remux,
}

-- The sixteen kinds, by which labels are in.
abbrev chosen : Bool → Bool → Bool → Bool → List String
chosen v a s r =
    let rest₁ = if r then label_remux ∷ [] else [] in
    let rest₂ = if s then label_subtitles ∷ rest₁ else rest₁ in
    let rest₃ = if a then label_audio ∷ rest₂ else rest₂ in if v then label_video ∷ rest₃ else rest₃

-- Each of the sixteen kinds reads back as the labels it was joined from.
sixteen_kinds :
    (v a s r : Bool)
    → (labels_of (join "|" (chosen v a s r)) ≡ chosen v a s r)
      × (is_skip (join "|" (chosen v a s r)) ≡ not (v || a || s || r))
unfolding labels_of is_skip
sixteen_kinds true true true true = (refl, refl)
sixteen_kinds true true true false = (refl, refl)
sixteen_kinds true true false true = (refl, refl)
sixteen_kinds true true false false = (refl, refl)
sixteen_kinds true false true true = (refl, refl)
sixteen_kinds true false true false = (refl, refl)
sixteen_kinds true false false true = (refl, refl)
sixteen_kinds true false false false = (refl, refl)
sixteen_kinds false true true true = (refl, refl)
sixteen_kinds false true true false = (refl, refl)
sixteen_kinds false true false true = (refl, refl)
sixteen_kinds false true false false = (refl, refl)
sixteen_kinds false false true true = (refl, refl)
sixteen_kinds false false true false = (refl, refl)
sixteen_kinds false false false true = (refl, refl)
sixteen_kinds false false false false = (refl, refl)

kept_labels :
    (ls : List String)
    → keep (λ l. contains ls l) labels
      ≡ chosen
          (contains ls label_video)
          (contains ls label_audio)
          (contains ls label_subtitles)
          (contains ls label_remux)
kept_labels ls = refl

module _ (ls : List String) where
  table :
      (labels_of (kind_of ls) ≡ keep (λ l. contains ls l) labels)
      × (is_skip (kind_of ls)
          ≡ not (
              contains ls label_video
              || contains ls label_audio
              || contains ls label_subtitles
              || contains ls label_remux))
  unfolding kind_of
  table =
      sixteen_kinds (contains ls label_video) (contains ls label_audio)
        (contains ls label_subtitles) (contains ls label_remux)

  -- Reading a kind back gives the known labels it was built from, each once and in canonical
  -- order, whatever the order, the duplicates and the unknown labels of the input.
  pub labels_of-kind_of : labels_of (kind_of ls) ≡ keep (λ l. contains ls l) labels
  labels_of-kind_of = table.0

  -- A kind is the empty one exactly when no known label was given.
  pub is_skip-kind_of :
      is_skip (kind_of ls)
      ≡ not (
          contains ls label_video
          || contains ls label_audio
          || contains ls label_subtitles
          || contains ls label_remux)
  is_skip-kind_of = table.1

  pub has_video-kind_of : has (kind_of ls) label_video ≡ contains ls label_video
  unfolding has
  has_video-kind_of = rw labels_of-kind_of (ground arith)
