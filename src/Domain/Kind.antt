-- ===== src/Domain/Kind.antt =====
-- internal/pkg/domain/kind.go: the set of labels that a plan carries, as a pipe-joined text.
pub mod Laws
use codarr.Prelude.{
  ℕ, String, Bool, true, false, List, [], ◌∷◌, str_eq, contains, join, split_on, keep, not,
  if◌then◌else◌, ◌||◌, ◌+◌,
}

abbrev pub label_video : String
label_video = "video"

abbrev pub label_audio : String
label_audio = "audio"

abbrev pub label_subtitles : String
label_subtitles = "subtitles"

abbrev pub label_remux : String
label_remux = "remux"

-- `Labels()`: every label, in canonical order.
abbrev pub labels : List String
labels = label_video ∷ label_audio ∷ label_subtitles ∷ label_remux ∷ []

abbrev pub Kind : Type 0
Kind = String

abbrev pub kind_skip : Kind
kind_skip = ""

unfoldable pub kind_of : List String → Kind
kind_of ls = join "|" (keep (λ l. contains ls l) labels)

unfoldable pub is_skip : Kind → Bool
is_skip k = str_eq k kind_skip

-- `Kind.Labels`.
unfoldable pub labels_of : Kind → List String
labels_of k = if str_eq k kind_skip then [] else split_on b'|' k

unfoldable pub has : Kind → String → Bool
unfolding labels_of
has k l = contains (labels_of k) l

unfoldable pub display : Kind → String
unfolding is_skip
display k = if is_skip k then "skip" else k

abbrev pub priority_quick : ℕ
priority_quick = 90

abbrev pub priority_normal : ℕ
priority_normal = 100

abbrev pub priority_full : ℕ
priority_full = 110

unfoldable pub priority_for : Kind → Bool → ℕ
unfolding is_skip has
priority_for k prioritise_quick =
    if not prioritise_quick || is_skip k
    then priority_normal
    else if has k label_video
    then priority_full
    else priority_quick

pub record KindCounts : Type 0 where
  pub skip : ℕ
  pub video : ℕ
  pub audio : ℕ
  pub subtitles : ℕ
  pub remux : ℕ

abbrev pub no_counts : KindCounts
no_counts = record { skip = 0; video = 0; audio = 0; subtitles = 0; remux = 0 }

-- The `switch` of `AddN`.
count_label : ℕ → KindCounts → String → KindCounts
count_label n c l =
    if str_eq l label_video
    then record c { video = c.video + n }
    else if str_eq l label_audio
    then record c { audio = c.audio + n }
    else if str_eq l label_subtitles
    then record c { subtitles = c.subtitles + n }
    else if str_eq l label_remux
    then record c { remux = c.remux + n }
    else c

count_labels : ℕ → KindCounts → List String → KindCounts
unfolding count_label
count_labels n c [] = c
count_labels n c (l ∷ ls) = count_labels n (count_label n c l) ls

unfoldable pub add_n : KindCounts → Kind → ℕ → KindCounts
unfolding is_skip labels_of count_labels
add_n c k n = if is_skip k then record c { skip = c.skip + n } else count_labels n c (labels_of k)
