-- ===== src/Promote/Preflight.antt =====
-- internal/promote/preflight.go: the checks before a byte is encoded.
pub mod Laws
pub mod Room
use codarr.Prelude.{
  ℕ, ◌*◌, ◌/◌, String, Bool, true, false, not, ◌&&◌, ◌||◌, Option, none, some, ok, err, str_eq, leb,
  ltb, ◌==◌, itoa, if◌then◌else◌, starts, ◌<>◌,
}
use codarr.Promote.Types.{
  fail_preflight, not_absolute, source_gone, source_is_dir, source_linked, size_changed,
  mtime_changed, source_unread, fingerprint_changed, not_writable, probe_unclosed, probe_unremoved,
  space_unread, no_space, staging_unstat, device_split, PreflightRequest, Staging, Cause,
}
use codarr.Promote.Effects.{
  World, Action, FileInfo, ◌>>=◌, ◌>>◌, return, fail, look, call, create, close, remove, dir,
  join_path, is_abs,
}

abbrev pub staging_prefix : String
staging_prefix = ".codarr-staging-"

abbrev write_probe_prefix : String
write_probe_prefix = ".codarr-writetest-"

-- The first difference between the file and what analysis recorded of it.
unfoldable changed : PreflightRequest → FileInfo → Option Cause
changed req info =
    if info.is_dir
    then some source_is_dir
    else if not (info.nlink == 1)
    then some source_linked
    else if not (info.size == req.source.size_bytes)
    then some size_changed
    else if not (info.mtime == req.source.mtime)
    then some mtime_changed
    else none

abbrev refuse : Option Cause → Action Bool
refuse none = return true
refuse (some c) = fail fail_preflight c

unfoldable pub check_source_unchanged : World → PreflightRequest → Action Bool
unfolding changed
check_source_unchanged w req = do
  info ← look w.stat req.source_path fail_preflight source_gone
  refuse (changed req info)
  if str_eq req.source.fingerprint "" then return true else (do
    current ← look w.sparse req.source_path fail_preflight source_unread
    if str_eq current req.source.fingerprint
        then return true
        else fail fail_preflight fingerprint_changed)

unfoldable pub check_writable : World → ℕ → String → Action Bool
check_writable w job_id dest_dir =
    let probe = join_path dest_dir (write_probe_prefix <> itoa job_id) in
    do
      call w (create probe) fail_preflight not_writable
      call w (close probe) fail_preflight probe_unclosed
      call w (remove probe) fail_preflight probe_unremoved

-- `ext`: the extension with its dot.
abbrev pub ext : String → String
ext e = if str_eq e "" || starts e "." then e else "." <> e

-- `SpaceFactor`, 1.2 times the source's size.
abbrev pub needed_space : ℕ → ℕ
needed_space size = size * 12 / 10

-- `temp_dir` is the promoter's configuration, "" for none.
unfoldable pub choose_staging : World → String → PreflightRequest → String → Action Staging
choose_staging w temp_dir req dest_dir =
    let name = staging_prefix <> itoa req.job_id <> ext req.output_ext in
    let on_dest = join_path dest_dir name in
    let need = needed_space req.source.size_bytes in
    do
      dest_free ← look w.free_bytes dest_dir fail_preflight space_unread
      if leb need dest_free
          then return (record {
            path = on_dest;
            final_path = on_dest;
            used_temp_dir = false;
            cross_device = false;
          })
          else if str_eq temp_dir ""
          then fail fail_preflight no_space
          else (do
            temp_free ← look w.free_bytes temp_dir fail_preflight space_unread
            if ltb temp_free need
                then fail fail_preflight no_space
                else return (record {
                  path = join_path temp_dir name;
                  final_path = on_dest;
                  used_temp_dir = true;
                  cross_device = false;
                }))

unfoldable pub cross_device : World → String → String → Action Bool
cross_device w staging_dir dest_dir = do
  staging ← look w.stat staging_dir fail_preflight staging_unstat
  dest ← look w.stat dest_dir fail_preflight staging_unstat
  return (not (staging.device == dest.device))

unfoldable pub preflight : World → String → PreflightRequest → Action Staging
unfolding check_source_unchanged check_writable choose_staging cross_device
preflight w temp_dir req =
    let dest_dir = dir req.source_path in
    if not (is_abs req.source_path) then fail fail_preflight not_absolute else (do
      check_source_unchanged w req
      check_writable w req.job_id dest_dir
      staging ← choose_staging w temp_dir req dest_dir
      crosses ← cross_device w (dir staging.path) dest_dir
      if crosses && not staging.used_temp_dir
          then fail fail_preflight device_split
          else return (record {
            path = staging.path;
            final_path = staging.final_path;
            used_temp_dir = staging.used_temp_dir;
            cross_device = crosses;
          }))
