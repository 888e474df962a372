-- ===== src/Pathmap.antt =====
-- internal/pkg/pathmap/pathmap.go: rewriting paths between the program's view of the files and that of
-- another service. Lengths count characters, which are bytes in ASCII.
pub mod Attribute
use Prim.Native.Char.{code}
use Prim.Native.String
use codarr.Prelude.{
  ℕ, zero, suc, String, Bool, true, false, not, ◌&&◌, ◌||◌, List, [], ◌∷◌, leb, ltb, ◌==◌, length,
  codes, join, starts, split_on, str_eq, ◌<>◌, if◌then◌else◌,
}

-- domain.PathMapping
pub record PathMapping : Type 0 where
  pub local : String
  pub remote : String

pub record Rule : Type 0 where
  pub from : String
  pub to : String

pub record Mapper : Type 0 where
  pub to_local : List Rule
  pub to_remote : List Rule

abbrev pop : List String → List String
pop [] = []
pop (c ∷ cs) = cs

-- The components of a path, the last one first, after those of `acc`.
resolve : List String → List String → List String
resolve acc [] = acc
resolve acc (c ∷ cs) =
    if str_eq c "" || str_eq c "."
    then resolve acc cs
    else if str_eq c ".."
    then resolve (pop acc) cs
    else resolve (c ∷ acc) cs

abbrev reverse_onto : List String → List String → List String
reverse_onto acc [] = acc
reverse_onto acc (c ∷ cs) = reverse_onto (c ∷ acc) cs

-- `path.Clean` of an absolute path.
unfoldable pub clean : String → String
unfolding resolve
clean p = "/" <> join "/" (reverse_onto [] (resolve [] (split_on b'/' p)))

unfoldable pub normalise : String → String
unfolding clean
normalise p = if str_eq p "" || not (starts p "/") then "" else clean p

unfoldable pub under_prefix : String → String → Bool
under_prefix p prefix =
    if str_eq p prefix
    then true
    else if str_eq prefix "/"
    then starts p "/"
    else starts p (prefix <> "/")

abbrev pub size : String → ℕ
size s = length (codes s)

abbrev drop_text : ℕ → String → String
drop_text zero s = s
drop_text (suc n) String.[] = ""
drop_text (suc n) (String.◌∷◌ c s) = drop_text n s

-- The rewritten path, and whether a rule applied.
unfoldable pub apply_to : List Rule → String → String × Bool
unfolding under_prefix clean
apply_to [] norm = (norm, false)
apply_to (r ∷ rs) norm =
    let rest = apply_to rs norm in
    if not (under_prefix norm r.from)
    then rest
    else if str_eq norm r.from
    then (r.to, true)
    else if str_eq r.from "/"
    then (clean (r.to <> "/" <> norm), true)
    else (r.to <> drop_text (size r.from) norm, true)

unfoldable pub apply : List Rule → String → String × Bool
unfolding normalise apply_to
apply rules p = let norm = normalise p in if str_eq norm "" then (p, false) else apply_to rules norm

-- `a < b` on texts.
abbrev pub codes_lt : List ℕ → List ℕ → Bool
codes_lt cs [] = false
codes_lt [] (d ∷ ds) = true
codes_lt (c ∷ cs) (d ∷ ds) = if c == d then codes_lt cs ds else ltb c d

abbrev pub text_lt : String → String → Bool
text_lt s t = codes_lt (codes s) (codes t)

abbrev pub is_before : Rule → Rule → Bool
is_before r s =
    if size r.from == size s.from then text_lt r.from s.from else ltb (size s.from) (size r.from)

insert_rule : Rule → List Rule → List Rule
insert_rule r [] = r ∷ []
insert_rule r (s ∷ ss) =
    let rest = insert_rule r ss in if is_before s r then s ∷ rest else r ∷ s ∷ ss

unfoldable pub sort_longest_first : List Rule → List Rule
unfolding insert_rule
sort_longest_first [] = []
sort_longest_first (r ∷ rs) = insert_rule r (sort_longest_first rs)

-- The rules that are read on the way to the local view and back.
abbrev is_mapped : PathMapping → Bool
is_mapped pm = not (str_eq (normalise pm.local) "" || str_eq (normalise pm.remote) "")

abbrev pub inward : List PathMapping → List Rule
inward [] = []
inward (pm ∷ pms) =
    let rest = inward pms in
    if is_mapped pm
    then record { from = normalise pm.remote; to = normalise pm.local } ∷ rest
    else rest

abbrev pub outward : List PathMapping → List Rule
outward [] = []
outward (pm ∷ pms) =
    let rest = outward pms in
    if is_mapped pm
    then record { from = normalise pm.local; to = normalise pm.remote } ∷ rest
    else rest

unfoldable pub new_mapper : List PathMapping → Mapper
unfolding sort_longest_first
new_mapper pms = record {
  to_local = sort_longest_first (inward pms);
  to_remote = sort_longest_first (outward pms);
}

unfoldable pub to_local_path : Mapper → String → String × Bool
unfolding apply
to_local_path m remote = apply m.to_local remote

unfoldable pub to_remote_path : Mapper → String → String × Bool
unfolding apply
to_remote_path m local = apply m.to_remote local
