-- ===== src/Promote/Replace/Laws/Waiting.antt =====
-- The loops of promote.go that wait for a stream to end: the fuel that is enough for them.
use codarr.Prelude.{
  ℕ, zero, suc, ◌+◌, ◌<◌, ◌≤◌, String, Bool, true, false, ◌∷◌, Result, ok, err, ◌≡◌, refl, arith,
  inl, inr, Bool-cases, length,
}
use mathlib.Core.Path.{subst}
use codarr.Promote.Types.{Cause, Failure, fail_promote, spent, cancelled, sync_failed, Request}
use codarr.Promote.Effects.{
  free, Call, wait, sync_file, sync_dir, rename, dir, asked, reported, Trace, World, Action, ◌>>=◌,
  ◌>>◌, call, return,
}
use codarr.Promote.Effects.Laws.{Result-cases}
use codarr.Promote.Replace.{
  defer_replace, wait_for_stream_end, sync, recheck_and_rename, replace, ask, is_blocked, report,
}

unfoldable pub is_spent : {A : Type 0} → Result Failure A → Bool
is_spent (ok a) = false
is_spent (err e) = elim e.cause [ spent ↦ true | _ ↦ false ]

-- From `n` calls on, nobody streams the file.
abbrev pub IsFreeAfter : World → ℕ → String → Type 0
IsFreeAfter w n path = (h : Trace) → n ≤ length h → w.guard h path ≡ free

-- An action that does not run out of fuel, and does not forget calls.
record Lasting {A : Type 0} (m : Action A) (h : Trace) : Type 0 where
  lasts : is_spent (m h).0 ≡ false
  grows : length h ≤ length (m h).1

bind-Lasting :
    {A B : Type 0} (m : Action A) (f : A → Action B) (h : Trace)
    → Lasting m h
    → ((a : A) → length h ≤ length (m h).1 → Lasting (f a) (m h).1)
    → Lasting (m >>= f) h
unfolding is_spent
bind-Lasting m f h qm qf = elim (Result-cases (m h).0) [
  | inl (a, e) ↦
      let q = qf a qm.grows in
      record {
        lasts = rw (◌>>=◌, e) (q.lasts);
        grows = rw (◌>>=◌, e) (ground (arith, qm.grows, q.grows));
      }
  | inr (x, e) ↦ record {
    lasts = rw (◌>>=◌, e) (subst (λ r. is_spent r ≡ false) e qm.lasts);
    grows = rw (◌>>=◌, e) qm.grows;
  }
]

then-Lasting :
    {A B : Type 0} (m : Action A) (k : Action B) (h : Trace)
    → Lasting m h
    → (length h ≤ length (m h).1 → Lasting k (m h).1)
    → Lasting (m >> k) h
then-Lasting m k h qm qk = bind-Lasting m (λ _. k) h qm (λ _. qk)

call-Lasting :
    (w : World) (c : Call) (cause : Cause) (h : Trace)
    → is_spent {A = Bool} (err (record { code = fail_promote; cause = cause })) ≡ false
    → Lasting (call w c fail_promote cause) h
unfolding is_spent
call-Lasting w c cause h q = elim (Bool-cases (w.succeeds h c)) [
  | inl e ↦ record { lasts = rw (call, e) refl; grows = rw (call, e) (omega arith) }
  | inr e ↦ record { lasts = rw (call, e) q; grows = rw (call, e) (omega arith) }
]

defer_replace-Lasting : (w : World) (h : Trace) → Lasting (defer_replace w) h
unfolding defer_replace is_spent
defer_replace-Lasting w h =
    then-Lasting report (call w wait fail_promote cancelled) h
      (record { lasts = refl; grows = omega arith })
      (λ _. call-Lasting w wait cancelled (reported ∷ h) refl)

sync-Lasting : (w : World) (staging dest : String) (h : Trace) → Lasting (sync w staging dest) h
unfolding sync is_spent
sync-Lasting w staging dest h =
    then-Lasting (call w (sync_file staging) fail_promote sync_failed)
      (call w (sync_dir dest) fail_promote sync_failed) h
      (call-Lasting w (sync_file staging) sync_failed h refl)
      (λ _. call-Lasting w (sync_dir dest) sync_failed _ refl)

not_free :
    (w : World) (n : ℕ) (path : String) (h : Trace)
    → IsFreeAfter w n path
    → is_blocked (w.guard h path) ≡ true
    → length h < n
not_free w n path h q b = ground (arith, q h, b)

gate-Lasting :
    (w : World) (path : String) (y : Action Bool) (h : Trace)
    → (is_blocked (w.guard h path) ≡ true → Lasting y (asked path (w.guard h path) ∷ h))
    → Lasting (ask w path >>= λ g. elim (is_blocked g) [ false ↦ return true | true ↦ y ]) h
unfolding is_spent
gate-Lasting w path y h q = elim (Bool-cases (is_blocked (w.guard h path))) [
  | inl e ↦
      let r = q e in
      record { lasts = ground (arith, e, r.lasts); grows = ground (arith, e, r.grows) }
  | inr e ↦ record { lasts = ground (arith, e); grows = ground (arith, e) }
]

wait_for_stream_end-Lasting :
    (fuel : ℕ) (w : World) (n : ℕ) (path : String) (h : Trace)
    → IsFreeAfter w n path
    → n ≤ length h + fuel
    → Lasting (wait_for_stream_end (suc fuel) w path) h
unfolding wait_for_stream_end
wait_for_stream_end-Lasting zero w n path h q enough =
    gate-Lasting w path (defer_replace w >> wait_for_stream_end zero w path) h
      (λ b. absurd (omega (arith, enough, not_free w n path h q b)))
wait_for_stream_end-Lasting (suc fuel) w n path h q enough =
    let h₁ = asked path (w.guard h path) ∷ h in
    gate-Lasting w path (defer_replace w >> wait_for_stream_end (suc fuel) w path) h (λ b.
      then-Lasting (defer_replace w) (wait_for_stream_end (suc fuel) w path) h₁
        (defer_replace-Lasting w h₁)
        (λ g.
          wait_for_stream_end-Lasting fuel w n path (defer_replace w h₁).1 q
            (ground (arith, enough, g))))

-- The last look, with what follows it when it blocks.
attempt-Lasting :
    (w : World) (staging dest : String) (y : Action Bool) (h : Trace)
    → (is_blocked (w.guard h dest) ≡ true → Lasting y (asked dest (w.guard h dest) ∷ h))
    → Lasting
        (recheck_and_rename w staging dest >>= λ b. elim b [ false ↦ return true | true ↦ y ])
        h
unfolding recheck_and_rename is_spent
attempt-Lasting w staging dest y h q = elim (Bool-cases (is_blocked (w.guard h dest))) [
  | inl e ↦
      let r = q e in
      record { lasts = ground (arith, e, r.lasts); grows = ground (arith, e, r.grows) }
  | inr e ↦ elim (Bool-cases (w.succeeds (asked dest (w.guard h dest) ∷ h) (rename staging dest))) [
    | inl k ↦ record { lasts = ground (arith, e, k); grows = ground (arith, e, k) }
    | inr k ↦ record { lasts = ground (arith, e, k); grows = ground (arith, e, k) }
  ]
]

-- One round, given what follows a last look that blocks.
round-Lasting :
    (fuel : ℕ) (w : World) (n : ℕ) (req : Request) (staging : String) (h : Trace)
    → IsFreeAfter w n req.source_path
    → n ≤ length h + fuel
    → ((h' : Trace) → length h < n → length h < length h' → Lasting (replace fuel w req staging) h')
    → Lasting (replace (suc fuel) w req staging) h
unfolding replace
round-Lasting fuel w n req staging h q enough again =
    let path = req.source_path in
    let waiting = wait_for_stream_end (suc fuel) w path in
    let flush = sync w staging (dir path) in
    let retry = defer_replace w >> replace fuel w req staging in
    let attempt =
      recheck_and_rename w staging path >>= λ b. elim b [ false ↦ return true | true ↦ retry ] in
    let h₁ = (flush (waiting h).1).1 in
    let h₂ = asked path (w.guard h₁ path) ∷ h₁ in
    then-Lasting waiting (flush >> attempt) h (wait_for_stream_end-Lasting fuel w n path h q enough)
      (λ g.
        then-Lasting flush attempt (waiting h).1 (sync-Lasting w staging (dir path) (waiting h).1)
          (λ g₁. attempt-Lasting w staging path retry h₁ (λ b.
            then-Lasting (defer_replace w) (replace fuel w req staging) h₂
              (defer_replace-Lasting w h₂)
              (λ g₂.
                again (defer_replace w h₂).1 (omega (arith, g, g₁, not_free w n path h₁ q b))
                  (ground (arith, g, g₁, g₂))))))

replace-Lasting :
    (fuel : ℕ) (w : World) (n : ℕ) (req : Request) (staging : String) (h : Trace)
    → IsFreeAfter w n req.source_path
    → n ≤ length h + fuel
    → Lasting (replace (suc fuel) w req staging) h
replace-Lasting zero w n req staging h q enough =
    round-Lasting zero w n req staging h q enough (λ h' l _. absurd (omega (arith, enough, l)))
replace-Lasting (suc fuel) w n req staging h q enough =
    round-Lasting (suc fuel) w n req staging h q enough
      (λ h' l g. replace-Lasting fuel w n req staging h' q (omega (arith, enough, l, g)))

-- Waiting ends: when nobody streams the source once `n` calls have been made, a fuel of one more
-- than the calls that are left until then keeps the replace from running out, whatever else the
-- disk and Plex answer.
pub replace-ends :
    (fuel : ℕ) (w : World) (n : ℕ) (req : Request) (staging : String) (h : Trace)
    → IsFreeAfter w n req.source_path
    → n ≤ length h + fuel
    → is_spent (replace (suc fuel) w req staging h).0 ≡ false
replace-ends fuel w n req staging h q enough =
    (replace-Lasting fuel w n req staging h q enough).lasts
