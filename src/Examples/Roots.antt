-- ===== src/Examples/Roots.antt =====
-- Two roots, one inside the other, and files below and beside them; and the paths of a service.
use codarr.Prelude.{true, false, List, [], ◌∷◌, none, some, ◌≡◌, ◌≢◌, refl, All}
use codarr.Pathmap.{normalise, new_mapper, to_local_path, to_remote_path}
use codarr.Pathmap.Attribute.{Root, Attribution, attribute, conflicts, is_candidate}
use codarr.Pathmap.Attribute.Laws.{IsNearest, attribute-IsNearest, attribute-none}

abbrev library : Root
library = record {
  id = 1;
  path = "/media/";
  arr_instance_id = some 7;
  imported = true;
  enabled = true;
}

abbrev films : Root
films = record {
  id = 2;
  path = "/media/films";
  arr_instance_id = some 9;
  imported = true;
  enabled = true;
}

abbrev roots : List Root
roots = library ∷ films ∷ []

abbrev of_films : Attribution
of_films = record { root = films; arr_instance_id = some 9; conflict = none }

attributed_inside : attribute roots "/media/films/a.mkv" ≡ some of_films
unfolding attribute
attributed_inside = refl

cleaned : normalise "/media//films/./b/../a.mkv" ≡ "/media/films/a.mkv"
unfolding normalise
cleaned = refl

claimed_twice :
    conflicts (library ∷ record films { path = "/media" } ∷ [])
    ≡ record { path = "/media"; instance_ids = 7 ∷ 9 ∷ [] } ∷ []
unfolding conflicts normalise
claimed_twice = refl

mapped_both_ways :
    (to_local_path (new_mapper (record { local = "/media"; remote = "/data" } ∷ [])) "/data/a.mkv"
      ≡ ("/media/a.mkv", true))
    × (to_remote_path
          (new_mapper (record { local = "/media"; remote = "/data" } ∷ []))
          "/media-archive"
        ≡ ("/media-archive", false))
unfolding new_mapper to_local_path to_remote_path
mapped_both_ways = (refl, refl)

attribute-IsNearest_example : IsNearest (normalise "/media/films/a.mkv") roots films
attribute-IsNearest_example =
    attribute-IsNearest roots "/media/films/a.mkv" of_films attributed_inside

is_path : normalise "/tmp/a.mkv" ≢ ""
unfolding normalise
is_path e = absurd (cc e)

unattributed : attribute roots "/tmp/a.mkv" ≡ none
unfolding attribute
unattributed = refl

attribute-none_example : All (λ s. is_candidate (normalise "/tmp/a.mkv") s ≡ false) roots
attribute-none_example = attribute-none roots "/tmp/a.mkv" is_path unattributed
