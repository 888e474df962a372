-- ===== src/Promote/Replace/Laws/Steps.antt =====
-- What the steps of `Promote` do to the trace: one rename, all else is quiet.
use codarr.Prelude.{
  ℕ, String, Bool, true, not, Option, none, some, ok, refl, inl, inr, if◌then◌else◌, ltb, ◌==◌,
}
use mathlib.Core.Path.{subst}
use codarr.Domain.Transform.{OutputIdentity}
use codarr.Promote.Types.{
  fail_promote, fail_preflight, hash_failed, source_unstat, gained_links, copy_failed,
  staging_unstat, space_unread, no_space, promoted_unstat, promoted_unread, Request,
}
use codarr.Promote.Effects.{
  copy, chown, chmod, chtimes, did, dir, Trace, World, Action, FileInfo, ◌>>=◌, ◌>>◌, look, call,
  try, return, fail,
}
use codarr.Promote.Effects.Laws.{
  renaming, Grown, IsQuiet, Result-cases, Grown-same, Grown-then, Grown-event, bind-IsQuiet,
  look-IsQuiet, call-IsQuiet, then-IsQuiet, if-IsQuiet, return-IsQuiet, fail-IsQuiet,
}
use codarr.Promote.Replace.{
  permissions, full_hash, origin_state, check_room_for_copy, stage_on_destination, replace, steps,
  restore, record_identity,
}
use codarr.Promote.Replace.Laws.{taken, IsReplacing, bind-IsReplacing, replace-IsReplacing}

full_hash-IsQuiet : (w : World) (req : Request) → IsQuiet (full_hash w req)
unfolding full_hash
full_hash-IsQuiet w req =
    if-IsQuiet (not req.full_hash_enabled) (return none)
      (look w.full req.staging.path fail_promote hash_failed >>= λ sum. return (some sum))
      (return-IsQuiet {A = Option String} none)
      (bind-IsQuiet (look w.full req.staging.path fail_promote hash_failed)
        (λ sum. return (some sum)) (look-IsQuiet w.full req.staging.path fail_promote hash_failed)
        (λ sum. return-IsQuiet (some sum)))

origin_state-IsQuiet : (w : World) (path : String) → IsQuiet (origin_state w path)
unfolding origin_state
origin_state-IsQuiet w path =
    bind-IsQuiet (look w.stat path fail_promote source_unstat)
      (λ info. if info.nlink == 1 then return info else fail fail_promote gained_links)
      (look-IsQuiet w.stat path fail_promote source_unstat)
      (λ info.
        if-IsQuiet (info.nlink == 1) (return info) (fail fail_promote gained_links)
          (return-IsQuiet info) (fail-IsQuiet FileInfo fail_promote gained_links))

check_room_for_copy-IsQuiet : (w : World) (req : Request) → IsQuiet (check_room_for_copy w req)
unfolding check_room_for_copy
check_room_for_copy-IsQuiet w req =
    let stat_ = look w.stat req.staging.path fail_preflight staging_unstat in
    let room = look w.free_bytes (dir req.staging.final_path) fail_preflight space_unread in
    let verdict = λ (info : FileInfo) (space : ℕ).
      if ltb space info.size then fail {A = Bool} fail_preflight no_space else return true in
    bind-IsQuiet stat_ (λ info. room >>= verdict info)
      (look-IsQuiet w.stat req.staging.path fail_preflight staging_unstat)
      (λ info.
        bind-IsQuiet room (verdict info)
          (look-IsQuiet w.free_bytes (dir req.staging.final_path) fail_preflight space_unread)
          (λ space.
            if-IsQuiet (ltb space info.size) (fail fail_preflight no_space) (return true)
              (fail-IsQuiet Bool fail_preflight no_space) (return-IsQuiet true)))

stage_on_destination-IsQuiet : (w : World) (req : Request) → IsQuiet (stage_on_destination w req)
unfolding stage_on_destination renaming
stage_on_destination-IsQuiet w req =
    let moving = call w (copy req.staging.path req.staging.final_path) fail_promote copy_failed in
    let arrived = moving >> return req.staging.final_path in
    if-IsQuiet (not req.staging.cross_device) (return req.staging.path)
      (check_room_for_copy w req >> arrived) (return-IsQuiet req.staging.path)
      (then-IsQuiet (check_room_for_copy w req) arrived (check_room_for_copy-IsQuiet w req) (
        then-IsQuiet moving (return req.staging.final_path)
          (call-IsQuiet w (copy req.staging.path req.staging.final_path) fail_promote copy_failed
            refl refl)
          (return-IsQuiet req.staging.final_path)))

-- A replacement with a value returned after it.
returning-IsReplacing :
    {A B : Type 0} (m : Action A) (b : B) → IsReplacing m → IsReplacing (m >> return b)
unfolding taken
returning-IsReplacing m b q h = elim (Result-cases (m h).0) [
  | inl (a, e) ↦ rw (◌>>=◌, e) (subst (λ r. Grown h (m h).1 (taken r)) e (q h))
  | inr (x, e) ↦ rw (◌>>=◌, e) (subst (λ r. Grown h (m h).1 (taken r)) e (q h))
]

pub steps-IsReplacing : (fuel : ℕ) (w : World) (req : Request) → IsReplacing (steps fuel w req)
steps-IsReplacing fuel w req =
    let last = λ (full : Option String) (origin : FileInfo) (staging : String).
      replace fuel w req staging >> return (full, origin) in
    let staged = λ (full : Option String) (origin : FileInfo).
      stage_on_destination w req >>= last full origin in
    bind-IsReplacing (full_hash w req) (λ full. origin_state w req.source_path >>= staged full)
      (full_hash-IsQuiet w req)
      (λ full.
        bind-IsReplacing (origin_state w req.source_path) (staged full)
          (origin_state-IsQuiet w req.source_path)
          (λ origin.
            bind-IsReplacing (stage_on_destination w req) (last full origin)
              (stage_on_destination-IsQuiet w req)
              (λ staging.
                returning-IsReplacing (replace fuel w req staging) (full, origin)
                  (replace-IsReplacing fuel w req staging))))

pub restore-Grown :
    (w : World) (dest : String) (origin : FileInfo) (h : Trace)
    → Grown h (restore w dest origin h).1 0
unfolding restore renaming
restore-Grown w dest origin h =
    let h₁ = (try w (chown dest origin.uid origin.gid) h).1 in
    let h₂ = (try w (chmod dest (permissions origin.mode)) h₁).1 in
    let h₃ = (try w (chtimes dest origin.mtime) h₂).1 in
    Grown-then h h₁ h₃ 0 (Grown-event (did (chown dest origin.uid origin.gid) _) h refl) (
      Grown-then h₁ h₂ h₃ 0 (Grown-event (did (chmod dest (permissions origin.mode)) _) h₁ refl)
        (Grown-event (did (chtimes dest origin.mtime) _) h₂ refl))

pub record_identity-IsQuiet :
    (w : World) (req : Request) (full : Option String) → IsQuiet (record_identity w req full)
unfolding record_identity
record_identity-IsQuiet w req full =
    let write : FileInfo → String → Action OutputIdentity = λ info sum h. (
      ok (record {
        fingerprint = sum;
        full_hash = full;
        size_bytes = info.size;
        mtime = info.mtime;
        policy_hash = req.plan.policy_hash;
        recorded_at = w.now h;
      }),
      h,
    ) in
    let read = look w.sparse req.source_path fail_promote promoted_unread in
    bind-IsQuiet (look w.stat req.source_path fail_promote promoted_unstat)
      (λ info. read >>= write info)
      (look-IsQuiet w.stat req.source_path fail_promote promoted_unstat)
      (λ info.
        bind-IsQuiet read (write info)
          (look-IsQuiet w.sparse req.source_path fail_promote promoted_unread)
          (λ sum h. Grown-same h))
