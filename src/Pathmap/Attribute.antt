-- ===== src/Pathmap/Attribute.antt =====
-- internal/pkg/pathmap/attribute.go: which root, and which *arr instance, a file belongs to.
pub mod Laws
use codarr.Prelude.{
  ℕ, String, Bool, true, false, not, ◌&&◌, ◌||◌, List, [], ◌∷◌, ◌++◌, Option, none, some, leb, ltb,
  ◌==◌, length, str_eq, if◌then◌else◌,
}
use codarr.Pathmap.{Mapper, normalise, under_prefix, size, text_lt, to_local_path}

-- domain.Root
pub record Root : Type 0 where
  pub id : ℕ
  pub path : String
  pub arr_instance_id : Option ℕ
  pub imported : Bool
  pub enabled : Bool

pub record Conflict : Type 0 where
  pub path : String
  pub instance_ids : List ℕ

pub record Attribution : Type 0 where
  pub root : Root
  pub arr_instance_id : Option ℕ
  pub conflict : Option Conflict

pub record ImportedRoot : Type 0 where
  pub arr_instance_id : ℕ
  pub reported_path : String
  pub path : String
  pub mapped : Bool

-- The root that a candidate becomes; its id is given by the store.
unfoldable pub root_of : ImportedRoot → Root
root_of r = record {
  id = 0;
  path = r.path;
  arr_instance_id = some r.arr_instance_id;
  imported = true;
  enabled = true;
}

unfoldable pub import_roots : Mapper → ℕ → List String → List ImportedRoot
unfolding normalise to_local_path
import_roots m instance_id [] = []
import_roots m instance_id (remote ∷ reported) =
    let norm = normalise remote in
    let (local, mapped) = to_local_path m norm in
    let rest = import_roots m instance_id reported in
    if str_eq norm ""
    then rest
    else record {
      arr_instance_id = instance_id;
      reported_path = norm;
      path = local;
      mapped = mapped;
    }
      ∷ rest

abbrev is_in : ℕ → List ℕ → Bool
is_in id [] = false
is_in id (i ∷ ids) = i == id || is_in id ids

unfoldable pub append_distinct : List ℕ → ℕ → List ℕ
append_distinct ids id = if is_in id ids then ids else ids ++ id ∷ []

-- `sort.Slice` on ids.
insert_id : ℕ → List ℕ → List ℕ
insert_id i [] = i ∷ []
insert_id i (j ∷ js) = let rest = insert_id i js in if leb i j then i ∷ j ∷ js else j ∷ rest

unfoldable pub sort_ids : List ℕ → List ℕ
unfolding insert_id
sort_ids [] = []
sort_ids (i ∷ is) = insert_id i (sort_ids is)

-- The map from a path to its instances.
claim_path : String → ℕ → List Conflict → List Conflict
unfolding append_distinct
claim_path p id [] = record { path = p; instance_ids = id ∷ [] } ∷ []
claim_path p id (c ∷ cs) =
    let rest = claim_path p id cs in
    if str_eq c.path p
    then record c { instance_ids = append_distinct c.instance_ids id } ∷ cs
    else c ∷ rest

abbrev claim_root : Root → List Conflict → List Conflict
claim_root r cs = elim r.arr_instance_id [
  | none ↦ cs
  | some id ↦
      if str_eq (normalise r.path) "" || not r.enabled
      then cs
      else claim_path (normalise r.path) id cs
]

claims_of : List Root → List Conflict → List Conflict
unfolding claim_path
claims_of [] cs = cs
claims_of (r ∷ rs) cs = claims_of rs (claim_root r cs)

insert_conflict : Conflict → List Conflict → List Conflict
insert_conflict c [] = c ∷ []
insert_conflict c (d ∷ ds) =
    let rest = insert_conflict c ds in if text_lt d.path c.path then d ∷ rest else c ∷ d ∷ ds

sorted_conflicts : List Conflict → List Conflict
unfolding insert_conflict sort_ids
sorted_conflicts [] = []
sorted_conflicts (c ∷ cs) =
    let rest = sorted_conflicts cs in
    if ltb (length c.instance_ids) 2
    then rest
    else insert_conflict (record c { instance_ids = sort_ids c.instance_ids }) rest

unfoldable pub conflicts : List Root → List Conflict
unfolding claims_of sorted_conflicts
conflicts roots = sorted_conflicts (claims_of roots [])

-- The loop's test: a root that the file lies under.
unfoldable pub is_candidate : String → Root → Bool
unfolding normalise under_prefix
is_candidate file r =
    let root = normalise r.path in
    not (str_eq root "" || (not r.enabled || not (under_prefix file root)))

abbrev pub root_size : Root → ℕ
root_size r = size (normalise r.path)

-- The roots so far, with the length of their paths; `none` is -1.
abbrev pub Best : Type 0
Best = List Root × Option ℕ

abbrev pub grow : Root → Best → Best
grow r (best, none) = (r ∷ [], some (root_size r))
grow r (best, some n) =
    if ltb n (root_size r)
    then (r ∷ [], some (root_size r))
    else if root_size r == n
    then (best ++ r ∷ [], some n)
    else (best, some n)

unfoldable pub longest_from : String → List Root → Best → Best
unfolding is_candidate
longest_from file [] b = b
longest_from file (r ∷ rs) b = longest_from file rs (if is_candidate file r then grow r b else b)

insert_root : Root → List Root → List Root
insert_root r [] = r ∷ []
insert_root r (s ∷ ss) =
    let rest = insert_root r ss in if leb r.id s.id then r ∷ s ∷ ss else s ∷ rest

unfoldable pub sort_roots : List Root → List Root
unfolding insert_root
sort_roots [] = []
sort_roots (r ∷ rs) = insert_root r (sort_roots rs)

unfoldable pub longest_prefix_matches : List Root → String → List Root
unfolding longest_from sort_roots
longest_prefix_matches roots file = sort_roots (longest_from file roots ([], none)).0

abbrev add_instance : List ℕ → Option ℕ → List ℕ
add_instance ids none = ids
add_instance ids (some id) = append_distinct ids id

instances_from : List ℕ → List Root → List ℕ
unfolding append_distinct
instances_from ids [] = ids
instances_from ids (r ∷ rs) = instances_from (add_instance ids r.arr_instance_id) rs

unfoldable pub distinct_instances : List Root → List ℕ
unfolding instances_from sort_ids
distinct_instances roots = sort_ids (instances_from [] roots)

abbrev is_of : ℕ → Root → Bool
is_of id r = elim r.arr_instance_id [ none ↦ false | some i ↦ i == id ]

-- The first root of an instance, or else `first`.
unfoldable pub root_for : Root → List Root → ℕ → Root
root_for first [] id = first
root_for first (r ∷ rs) id = let rest = root_for first rs id in if is_of id r then r else rest

unfoldable pub attribution : Root → List Root → List ℕ → Attribution
unfolding root_for
attribution first best [] = record { root = first; arr_instance_id = none; conflict = none }
attribution first best (id ∷ []) = record {
  root = root_for first best id;
  arr_instance_id = some id;
  conflict = none;
}
attribution first best (i ∷ j ∷ ids) = record {
  root = first;
  arr_instance_id = none;
  conflict = some (record { path = normalise first.path; instance_ids = i ∷ j ∷ ids });
}

attributed : List Root → Option Attribution
unfolding distinct_instances attribution
attributed [] = none
attributed (r ∷ rs) = some (attribution r (r ∷ rs) (distinct_instances (r ∷ rs)))

unfoldable pub attribute : List Root → String → Option Attribution
unfolding normalise longest_prefix_matches attributed
attribute roots file =
    if str_eq (normalise file) ""
    then none
    else attributed (longest_prefix_matches roots (normalise file))
