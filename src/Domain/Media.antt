-- ===== src/Domain/Media.antt =====
-- internal/pkg/domain/media.go: whether a file is still what was written.
use codarr.Prelude.{String, str_eq, if◌then◌else◌}

pub data Provenance : Type 0 where
  untouched codarr_output modified : Provenance

unfoldable pub derive_provenance : String → String → Provenance
derive_provenance recorded current =
    if str_eq recorded ""
    then untouched
    else if str_eq recorded current
    then codarr_output
    else modified
