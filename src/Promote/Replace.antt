-- ===== src/Promote/Replace.antt =====
-- internal/promote/promote.go: the replace. `fuel` bounds the rounds of the two loops that wait for a
-- stream to end; running out of it is the cause `spent`.
pub mod Laws
use codarr.Prelude.{
  ℕ, zero, suc, String, Bool, true, false, not, List, [], ◌∷◌, ◌++◌, Option, none, some, Result, ok,
  err, ltb, ◌==◌, ◌%◌, if◌then◌else◌,
}
use codarr.Domain.Transform.{OutputIdentity}
use codarr.Promote.Types.{
  Failure, Cause, fail_preflight, fail_verification, fail_promote, output_unreadable, output_unstat,
  hash_failed, source_unstat, gained_links, staging_unstat, space_unread, no_space, copy_failed,
  sync_failed, rename_failed, cancelled, mode_lost, mtime_lost, promoted_unstat, promoted_unread,
  spent, Request, Output, Warning, ownership_lost, notify_failed, Promoted,
}
use codarr.Promote.Effects.{
  World, Trace, Action, FileInfo, Guard, free, streaming, unanswerable, ◌>>=◌, ◌>>◌, return, fail,
  look, call, try, copy, sync_file, sync_dir, rename, chown, chmod, chtimes, notify, wait, asked,
  reported, dir,
}
use codarr.Promote.Verify.{verify_output}

unfoldable pub full_hash : World → Request → Action (Option String)
full_hash w req =
    if not req.full_hash_enabled
    then return none
    else (do sum ← look w.full req.staging.path fail_promote hash_failed; return (some sum))

unfoldable pub origin_state : World → String → Action FileInfo
origin_state w source_path = do
  info ← look w.stat source_path fail_promote source_unstat
  if info.nlink == 1 then return info else fail fail_promote gained_links

unfoldable pub check_room_for_copy : World → Request → Action Bool
check_room_for_copy w req = do
  info ← look w.stat req.staging.path fail_preflight staging_unstat
  space ← look w.free_bytes (dir req.staging.final_path) fail_preflight space_unread
  if ltb space info.size then fail fail_preflight no_space else return true

unfoldable pub stage_on_destination : World → Request → Action String
unfolding check_room_for_copy
stage_on_destination w req = if not req.staging.cross_device then return req.staging.path else (do
  check_room_for_copy w req
  call w (copy req.staging.path req.staging.final_path) fail_promote copy_failed
  return req.staging.final_path)

-- `IsStreaming`, whose error blocks as a stream does.
abbrev ask : World → String → Action Guard
ask w path h = (ok (w.guard h path), asked path (w.guard h path) ∷ h)

abbrev is_blocked : Guard → Bool
is_blocked free = false
is_blocked (streaming who) = true
is_blocked unanswerable = true

abbrev report : Action Bool
report h = (ok true, reported ∷ h)

unfoldable pub defer_replace : World → Action Bool
defer_replace w = report >> call w wait fail_promote cancelled

unfoldable pub wait_for_stream_end : ℕ → World → String → Action Bool
unfolding defer_replace
wait_for_stream_end zero w path = fail fail_promote spent
wait_for_stream_end (suc fuel) w path = do
  answer ← ask w path
  elim (is_blocked answer) [
    | false ↦ return true
    | true ↦ defer_replace w >> wait_for_stream_end fuel w path
  ]

unfoldable pub sync : World → String → String → Action Bool
sync w staging dest_dir = do
  call w (sync_file staging) fail_promote sync_failed
  call w (sync_dir dest_dir) fail_promote sync_failed

-- Whether the last look found the file blocked; otherwise the rename is the next call.
unfoldable pub recheck_and_rename : World → String → String → Action Bool
recheck_and_rename w staging dest = do
  answer ← ask w dest
  elim (is_blocked answer) [
    | true ↦ return true
    | false ↦ call w (rename staging dest) fail_promote rename_failed >> return false
  ]

unfoldable pub replace : ℕ → World → Request → String → Action Bool
unfolding wait_for_stream_end sync recheck_and_rename defer_replace
replace zero w req staging = fail fail_promote spent
replace (suc fuel) w req staging = do
  wait_for_stream_end (suc fuel) w req.source_path
  sync w staging (dir req.source_path)
  blocked ← recheck_and_rename w staging req.source_path
  elim blocked [ false ↦ return true | true ↦ defer_replace w >> replace fuel w req staging ]

-- `Mode.Perm()`, the lowest nine bits.
abbrev pub permissions : ℕ → ℕ
permissions mode = mode % 512

-- The warnings, and the failure to restore; every step is attempted.
unfoldable pub restore : World → String → FileInfo → Trace → (List Warning × Option Cause) × Trace
restore w dest origin h₀ =
    let owned = w.succeeds h₀ (chown dest origin.uid origin.gid) in
    let h₁ = (try w (chown dest origin.uid origin.gid) h₀).1 in
    let moded = w.succeeds h₁ (chmod dest (permissions origin.mode)) in
    let h₂ = (try w (chmod dest (permissions origin.mode)) h₁).1 in
    let timed = w.succeeds h₂ (chtimes dest origin.mtime) in
    let h₃ = (try w (chtimes dest origin.mtime) h₂).1 in
    (
      (
        if owned then [] else ownership_lost ∷ [],
        if not moded then some mode_lost else if not timed then some mtime_lost else none,
      ),
      h₃,
    )

unfoldable pub record_identity : World → Request → Option String → Action OutputIdentity
record_identity w req full = do
  info ← look w.stat req.source_path fail_promote promoted_unstat
  sum ← look w.sparse req.source_path fail_promote promoted_unread
  (λ (h : Trace). (
    ok (record {
      fingerprint = sum;
      full_hash = full;
      size_bytes = info.size;
      mtime = info.mtime;
      policy_hash = req.plan.policy_hash;
      recorded_at = w.now h;
    }),
    h,
  ))

-- A promotion's result with its error, on every path.
abbrev pub Outcome : Type 0
Outcome = (Promoted × Option Failure) × Trace

abbrev not_renamed : List Warning → Failure → Trace → Outcome
not_renamed ws e h = ((record { identity = none; warnings = ws; renamed = false }, some e), h)

abbrev renamed : Option OutputIdentity → List Warning → Option Failure → Trace → Outcome
renamed identity ws e h = ((record { identity = identity; warnings = ws; renamed = true }, e), h)

-- The end of `settle`: the first of the two errors, or the notification.
unfoldable finish :
    World → Request → List Warning → Option Cause → Result Failure OutputIdentity × Trace → Outcome
finish w req ws (some c) (ok identity, h) =
    renamed (some identity) ws (some (record { code = fail_promote; cause = c })) h
finish w req ws (some c) (err e, h) =
    renamed none ws (some (record { code = fail_promote; cause = c })) h
finish w req ws none (err e, h) = renamed none ws (some e) h
finish w req ws none (ok identity, h) =
    renamed (some identity)
      (if w.succeeds h (notify req.source_path) then ws else ws ++ notify_failed ∷ []) none
      (try w (notify req.source_path) h).1

unfoldable pub settle : World → Request → Option String → FileInfo → List Warning → Trace → Outcome
unfolding restore record_identity finish
settle w req full origin warnings h =
    let restored = restore w req.source_path origin h in
    finish w req (warnings ++ restored.0.0) restored.0.1 (record_identity w req full restored.1)

-- `Verify`, with the warnings that it returns beside an error.
unfoldable pub verify :
    World → Request → Trace → (Result Failure (List Warning) × List Warning) × Trace
verify w req h =
    let (read, h₁) = look w.probe req.staging.path fail_verification output_unreadable h in
    elim read [
      | err e ↦ ((err e, []), h₁)
      | ok out ↦
          let (info, h₂) = look w.stat req.staging.path fail_verification output_unstat h₁ in
          elim info [ err e ↦ ((err e, []), h₂) | ok i ↦ (verify_output req out i.size, h₂) ]
    ]

-- What the steps between the checks and the settling agree on.
abbrev pub steps : ℕ → World → Request → Action (Option String × FileInfo)
steps fuel w req = do
  full ← full_hash w req
  origin ← origin_state w req.source_path
  staging ← stage_on_destination w req
  replace fuel w req staging
  return (full, origin)

unfoldable pub promote : ℕ → World → Request → Trace → Outcome
unfolding verify full_hash origin_state stage_on_destination replace settle
promote fuel w req h =
    let ((verdict, ws), h₁) = verify w req h in
    elim verdict [
      | err e ↦ not_renamed ws e h₁
      | ok warnings ↦
          let (taken, h₂) = steps fuel w req h₁ in
          elim taken [
            | err e ↦ not_renamed warnings e h₂
            | ok done ↦ settle w req done.0 done.1 warnings h₂
          ]
    ]
