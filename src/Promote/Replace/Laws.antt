-- ===== src/Promote/Replace/Laws.antt =====
-- How often and when the replace of promote.go renames.
pub mod Waiting
pub mod Steps
pub mod Reads
pub mod Once
use codarr.Prelude.{
  ℕ, zero, suc, ◌+◌, ◌<◌, String, Bool, true, false, List, [], ◌∷◌, Option, none, some, Result, ok,
  err, ◌≡◌, refl, arith, ap, sym, ◌⊎◌, eq_refl, inl, inr, Bool-cases, eq_iff, str_eq, ◌∙◌,
}
use mathlib.Core.Path.{subst}
use codarr.Domain.Transform.{OutputIdentity}
use codarr.Promote.Types.{
  FailureCode, Cause, Failure, fail_promote, fail_verification, rename_failed, cancelled,
  sync_failed, spent, Request, Warning,
}
use codarr.Promote.Effects.{
  Guard, free, streaming, unanswerable, rename, wait, sync_file, sync_dir, copy, notify, chown,
  chmod, chtimes, did, asked, reported, looked, dir, Trace, World, Action, FileInfo, ◌>>=◌, ◌>>◌,
  look, call, try, return, fail,
}
use codarr.Promote.Effects.Laws.{
  renaming, just_free, guarded, replacements, Grown, IsQuiet, Result-cases, Grown-same, Grown-then,
  Grown-last, Grown-event, bind-IsQuiet, look-IsQuiet, call-IsQuiet, then-IsQuiet, split-IsQuiet,
  return-IsQuiet, fail-IsQuiet,
}
use codarr.Promote.Replace.{
  full_hash, origin_state, check_room_for_copy, stage_on_destination, defer_replace,
  wait_for_stream_end, sync, recheck_and_rename, replace, ask, is_blocked, report, steps, restore,
  record_identity, settle, verify, promote, finish,
}

-- One replacement for a success, none for a failure.
unfoldable pub taken : {A : Type 0} → Result Failure A → ℕ
taken (ok a) = 1
taken (err e) = 0

abbrev pub IsReplacing : {A : Type 0} → Action A → Type 0
IsReplacing {A} m = (h : Trace) → Grown h (m h).1 (taken (m h).0)

pub bind-IsReplacing :
    {A B : Type 0} (m : Action A) (f : A → Action B)
    → IsQuiet m
    → ((a : A) → IsReplacing (f a))
    → IsReplacing (m >>= f)
unfolding taken
bind-IsReplacing m f qm qf h = elim (Result-cases (m h).0) [
  | inl (a, e) ↦ rw (◌>>=◌, e) (Grown-then h (m h).1 (f a (m h).1).1 _ (qm h) (qf a (m h).1))
  | inr (x, e) ↦ rw (◌>>=◌, e) (qm h)
]

ask-IsQuiet : (w : World) (path : String) → IsQuiet (ask w path)
unfolding renaming
ask-IsQuiet w path h = Grown-event _ h refl

defer_replace-IsQuiet : (w : World) → IsQuiet (defer_replace w)
unfolding defer_replace renaming
defer_replace-IsQuiet w =
    then-IsQuiet report (call w wait fail_promote cancelled) (λ h. Grown-event reported h refl)
      (call-IsQuiet w wait fail_promote cancelled refl refl)

wait_for_stream_end-IsQuiet :
    (fuel : ℕ) (w : World) (path : String) → IsQuiet (wait_for_stream_end fuel w path)
unfolding wait_for_stream_end
wait_for_stream_end-IsQuiet zero w path = fail-IsQuiet Bool fail_promote spent
wait_for_stream_end-IsQuiet (suc fuel) w path =
    bind-IsQuiet (ask w path)
      (λ g. elim (is_blocked g) [
        | false ↦ return true
        | true ↦ defer_replace w >> wait_for_stream_end fuel w path
      ])
      (ask-IsQuiet w path)
      (λ g.
        split-IsQuiet (is_blocked g) (return true)
          (defer_replace w >> wait_for_stream_end fuel w path) (return-IsQuiet true)
          (then-IsQuiet (defer_replace w) (wait_for_stream_end fuel w path)
            (defer_replace-IsQuiet w) (wait_for_stream_end-IsQuiet fuel w path)))

sync-IsQuiet : (w : World) (staging dest : String) → IsQuiet (sync w staging dest)
unfolding sync renaming
sync-IsQuiet w staging dest =
    then-IsQuiet (call w (sync_file staging) fail_promote sync_failed)
      (call w (sync_dir dest) fail_promote sync_failed)
      (call-IsQuiet w (sync_file staging) fail_promote sync_failed refl refl)
      (call-IsQuiet w (sync_dir dest) fail_promote sync_failed refl refl)

guard_cases : (g : Guard) → (g ≡ free) ⊎ (is_blocked g ≡ true)
guard_cases free = inl refl
guard_cases (streaming who) = inr refl
guard_cases unanswerable = inr refl

-- The last look and the rename: one guarded replacement when it renames, none when it is blocked or
-- when the rename fails.
moved : Result Failure Bool → ℕ
moved (ok false) = 1
moved (ok true) = 0
moved (err e) = 0

recheck_and_rename-Grown :
    (w : World) (staging dest : String) (h : Trace)
    → Grown h
        (recheck_and_rename w staging dest h).1
        (moved (recheck_and_rename w staging dest h).0)
unfolding recheck_and_rename moved renaming replacements guarded just_free
recheck_and_rename-Grown w staging dest h = elim (guard_cases (w.guard h dest)) [
  | inl e ↦ elim (Bool-cases (w.succeeds (asked dest (w.guard h dest) ∷ h) (rename staging dest))) [
    | inl k ↦ record {
      count = ground (arith, e, k);
      safe = λ g. ground (arith, e, k, g, eq_refl dest);
    }
    | inr k ↦ record {
      count = ground (arith, e, k);
      safe = λ g. ground (arith, e, k, g, eq_refl dest);
    }
  ]
  | inr e ↦ record { count = ground (arith, e); safe = λ g. ground (arith, e, g) }
]

IsReplacing-split :
    (b : Bool) (y : Action Bool)
    → (h h₁ : Trace) → Grown h h₁ (moved (ok b))
    → IsReplacing y
    → Grown h
        (elim b as (λ _. Action Bool) [ false ↦ return true | true ↦ y ] h₁).1
        (taken (elim b as (λ _. Action Bool) [ false ↦ return true | true ↦ y ] h₁).0)
unfolding taken moved
IsReplacing-split false y h h₁ g q = g
IsReplacing-split true y h h₁ g q = Grown-then h h₁ (y h₁).1 _ g (q h₁)

attempt-IsReplacing :
    (w : World) (staging dest : String) (y : Action Bool)
    → IsReplacing y
    → IsReplacing
        (recheck_and_rename w staging dest >>= λ b. elim b [ false ↦ return true | true ↦ y ])
unfolding taken moved
attempt-IsReplacing w staging dest y qy h =
    elim (Result-cases (recheck_and_rename w staging dest h).0) [
      | inl (b, e) ↦
          rw (◌>>=◌, e)
            (IsReplacing-split b y h (recheck_and_rename w staging dest h).1
              (subst (λ r. Grown h (recheck_and_rename w staging dest h).1 (moved r)) e
                (recheck_and_rename-Grown w staging dest h))
              qy)
      | inr (x, e) ↦
          rw (◌>>=◌, e)
            (subst (λ r. Grown h (recheck_and_rename w staging dest h).1 (moved r)) e
              (recheck_and_rename-Grown w staging dest h))
    ]

pub quiet-IsReplacing :
    {A B : Type 0} (m : Action A) (k : Action B) → IsQuiet m → IsReplacing k → IsReplacing (m >> k)
quiet-IsReplacing m k qm qk = bind-IsReplacing m (λ _. k) qm (λ _. qk)

-- The replace renames once when it succeeds and never when it fails, and each rename follows at once
-- on an answer that nobody streams the file.
pub replace-IsReplacing :
    (fuel : ℕ) (w : World) (req : Request) (staging : String)
    → IsReplacing (replace fuel w req staging)
unfolding replace taken
replace-IsReplacing zero w req staging = λ h. Grown-same h
replace-IsReplacing (suc fuel) w req staging =
    let retry = defer_replace w >> replace fuel w req staging in
    let attempt = recheck_and_rename w staging req.source_path >>= λ b. elim b [
      | false ↦ return true
      | true ↦ retry
    ] in
    quiet-IsReplacing (wait_for_stream_end (suc fuel) w req.source_path)
      (sync w staging (dir req.source_path) >> attempt)
      (wait_for_stream_end-IsQuiet (suc fuel) w req.source_path)
      (quiet-IsReplacing (sync w staging (dir req.source_path)) attempt
        (sync-IsQuiet w staging (dir req.source_path))
        (attempt-IsReplacing w staging req.source_path retry (
          quiet-IsReplacing (defer_replace w) (replace fuel w req staging) (defer_replace-IsQuiet w)
            (replace-IsReplacing fuel w req staging))))
