-- ===== src/Domain/Path.antt =====
-- internal/pkg/domain/decision.go, Container.OutputExt: the extension of the output, which is that of
-- the source wherever the container allows it.
use Prim.Native.Char.{code}
use codarr.Prelude.{
  String, Bool, false, not, ◌&&◌, ◌||◌, Option, none, some, ◌==◌, equal_fold, if◌then◌else◌,
}
use codarr.Domain.Plan.{Container, matroska, mp4}

abbrev has_slash : String → Bool
has_slash String.[] = false
has_slash (String.◌∷◌ c s) = code c == b'/' || has_slash s

abbrev ext_from : String → Option String
ext_from String.[] = none
ext_from (String.◌∷◌ c s) = elim (ext_from s) [
  | some e ↦ some e
  | none ↦ if code c == b'.' && not (has_slash s) then some (String.◌∷◌ c s) else none
]

-- `filepath.Ext`
unfoldable pub ext : String → String
ext path = elim (ext_from path) [ none ↦ "" | some e ↦ e ]

unfoldable pub output_ext : Container → String → String
unfolding ext equal_fold
output_ext mp4 path =
    if equal_fold (ext path) ".m4v" || equal_fold (ext path) ".mp4" then ext path else ".mp4"
output_ext matroska path = if equal_fold (ext path) ".mkv" then ext path else ".mkv"
