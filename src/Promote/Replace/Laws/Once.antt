-- ===== src/Promote/Replace/Laws/Once.antt =====
-- What `Promote` reports of the replacement.
use codarr.Prelude.{
  ℕ, ◌+◌, String, Bool, true, List, ◌++◌, Option, none, some, Result, ok, err, ◌≡◌, refl, arith, ap,
  ◌∙◌, ◌∷◌, inl, inr, if◌then◌else◌,
}
use mathlib.Core.Path.{subst}
use codarr.Domain.Transform.{OutputIdentity}
use codarr.Promote.Types.{
  Cause, Failure, fail_verification, output_unstat, output_unreadable, Request, Warning, Promoted,
}
use codarr.Promote.Effects.{notify, did, looked, Trace, World, FileInfo, look}
use codarr.Promote.Effects.Laws.{
  renaming, guarded, replacements, Grown, Result-cases, Grown-same, Grown-then, Grown-last,
  Grown-event, look-IsQuiet,
}
use codarr.Promote.Replace.{steps, restore, record_identity, settle, verify, promote, finish}
use codarr.Promote.Replace.Laws.Steps.{steps-IsReplacing, restore-Grown, record_identity-IsQuiet}
use codarr.Promote.Replace.Laws.Reads.{IsIdentified, record_identity-ok}
use codarr.Promote.Replace.Laws.{taken}

verify-Grown : (w : World) (req : Request) (h : Trace) → Grown h (verify w req h).1 0
unfolding verify renaming
verify-Grown w req h =
    let read = look w.probe req.staging.path fail_verification output_unreadable in
    let stat_ = look w.stat req.staging.path fail_verification output_unstat in
    let one = look-IsQuiet w.probe req.staging.path fail_verification output_unreadable h in
    let two = look-IsQuiet w.stat req.staging.path fail_verification output_unstat (read h).1 in
    elim (Result-cases (read h).0) [
      | inr (x, e) ↦ rw (verify, e) one
      | inl (out, e) ↦ elim (Result-cases (stat_ (read h).1).0) [
        | inr (x, k) ↦ rw (verify, e, k) (Grown-then h (read h).1 (stat_ (read h).1).1 0 one two)
        | inl (info, k) ↦ rw (verify, e, k) (Grown-then h (read h).1 (stat_ (read h).1).1 0 one two)
      ]
    ]

finish-Grown :
    (w : World) (req : Request) (ws : List Warning) (c : Option Cause)
    → (r : Result Failure OutputIdentity × Trace) → Grown r.1 (finish w req ws c r).1 0
unfolding finish renaming
finish-Grown w req ws (some c) (ok identity, h) = Grown-same h
finish-Grown w req ws (some c) (err e, h) = Grown-same h
finish-Grown w req ws none (err e, h) = Grown-same h
finish-Grown w req ws none (ok identity, h) = Grown-event (did (notify req.source_path) _) h refl

finish-renamed :
    (w : World) (req : Request) (ws : List Warning) (c : Option Cause)
    → (r : Result Failure OutputIdentity × Trace) → (finish w req ws c r).0.0.renamed ≡ true
unfolding finish
finish-renamed w req ws (some c) (ok identity, h) = refl
finish-renamed w req ws (some c) (err e, h) = refl
finish-renamed w req ws none (err e, h) = refl
finish-renamed w req ws none (ok identity, h) = refl

settle-Grown :
    (w : World) (req : Request) (full : Option String) (origin : FileInfo) (ws : List Warning)
    (h : Trace)
    → Grown h (settle w req full origin ws h).1 0
unfolding settle
settle-Grown w req full origin ws h =
    let restored = restore w req.source_path origin h in
    let recorded = record_identity w req full restored.1 in
    Grown-then h restored.1 _ 0 (restore-Grown w req.source_path origin h) (
      Grown-then restored.1 recorded.1 _ 0 (record_identity-IsQuiet w req full restored.1)
        (finish-Grown w req (ws ++ restored.0.0) restored.0.1 recorded))

settle-renamed :
    (w : World) (req : Request) (full : Option String) (origin : FileInfo) (ws : List Warning)
    (h : Trace)
    → (settle w req full origin ws h).0.0.renamed ≡ true
unfolding settle
settle-renamed w req full origin ws h =
    let restored = restore w req.source_path origin h in
    finish-renamed w req (ws ++ restored.0.0) restored.0.1 (record_identity w req full restored.1)

promote-Grown :
    (fuel : ℕ) (w : World) (req : Request) (h : Trace)
    → Grown h (promote fuel w req h).1 (if (promote fuel w req h).0.0.renamed then 1 else 0)
unfolding promote taken
promote-Grown fuel w req h =
    let h₁ = (verify w req h).1 in
    let h₂ = (steps fuel w req h₁).1 in
    elim (Result-cases (verify w req h).0.0) [
      | inr (x, e) ↦ rw (promote, e) (verify-Grown w req h)
      | inl (ws, e) ↦ elim (Result-cases (steps fuel w req h₁).0) [
        | inr (x, k) ↦
            rw (promote, e, k)
              (Grown-then h h₁ h₂ 0 (verify-Grown w req h)
                (subst (λ r. Grown h₁ h₂ (taken r)) k (steps-IsReplacing fuel w req h₁)))
        | inl (done, k) ↦
            rw (promote, e, k, settle-renamed w req done.0 done.1 ws h₂)
              (Grown-then h h₁ _ 1 (verify-Grown w req h) (
                Grown-last h₁ h₂ _ 1
                  (subst (λ r. Grown h₁ h₂ (taken r)) k (steps-IsReplacing fuel w req h₁))
                  (settle-Grown w req done.0 done.1 ws h₂)))
      ]
    ]

-- From a trace in which each rename follows at once on an answer that nobody streams its
-- destination, a promotion replaces the source at most once, exactly when its result says so,
-- whatever fails and wherever; and the trace that it leaves is of that kind again.
pub promote-replaces :
    (fuel : ℕ) (w : World) (req : Request) (h : Trace)
    → guarded h ≡ true
    → (replacements (promote fuel w req h).1
        ≡ (if (promote fuel w req h).0.0.renamed then 1 else 0) + replacements h)
      × (guarded (promote fuel w req h).1 ≡ true)
promote-replaces fuel w req h g =
    let grown = promote-Grown fuel w req h in (grown.count, grown.safe g)

finish-none :
    (w : World) (req : Request) (ws : List Warning) (c : Option Cause)
    (r : Result Failure OutputIdentity) (h : Trace)
    → (finish w req ws c (r, h)).0.1 ≡ none
    → (i : OutputIdentity) × (r ≡ ok i)
      × ((finish w req ws c (r, h)).0.0.identity ≡ some i)
      × ((b : Bool) × ((finish w req ws c (r, h)).1 ≡ did (notify req.source_path) b ∷ h))
unfolding finish
finish-none w req ws (some c) (ok identity) h q = absurd (cc q)
finish-none w req ws (some c) (err e) h q = absurd (cc q)
finish-none w req ws none (err e) h q = absurd (cc q)
finish-none w req ws none (ok identity) h q = (identity, refl, refl, (_, refl))

-- The end of a promotion without an error: the state after the replacement, and the notification.
IsFinished : World → Request → Promoted → Trace → Type 0
IsFinished w req p h =
    (i : OutputIdentity) × (p.identity ≡ some i)
    × ((g : Trace) × (b : Bool) × (h
          ≡ did (notify req.source_path) b ∷ looked req.source_path ∷ looked req.source_path ∷ g)
        × IsIdentified w req g i)

settle-none :
    (w : World) (req : Request) (full : Option String) (origin : FileInfo) (ws : List Warning)
    (h : Trace)
    → (settle w req full origin ws h).0.1 ≡ none
    → IsFinished w req (settle w req full origin ws h).0.0 (settle w req full origin ws h).1
unfolding settle IsFinished
settle-none w req full origin ws h q =
    let restored = restore w req.source_path origin h in
    let (r, h') = record_identity w req full restored.1 in
    let (i, same, kept, (b, told)) = finish-none w req (ws ++ restored.0.0) restored.0.1 r h' q in
    let (found, looks) = record_identity-ok w req full restored.1 i same in
    (i, kept, (restored.1, b, told ∙ ap (◌∷◌ (did (notify req.source_path) b)) looks, found))

promote-IsFinished :
    (fuel : ℕ) (w : World) (req : Request) (h : Trace)
    → (promote fuel w req h).0.1 ≡ none
    → ((promote fuel w req h).0.0.renamed ≡ true)
      × IsFinished w req (promote fuel w req h).0.0 (promote fuel w req h).1
unfolding promote
promote-IsFinished fuel w req h q =
    let h₁ = (verify w req h).1 in
    let h₂ = (steps fuel w req h₁).1 in
    elim (Result-cases (verify w req h).0.0) [
      | inr (x, e) ↦ absurd (ground (arith, rw (promote, e) at q))
      | inl (ws, e) ↦ elim (Result-cases (steps fuel w req h₁).0) [
        | inr (x, k) ↦ absurd (ground (arith, rw (promote, e, k) at q))
        | inl (done, k) ↦
            let settled = rw (promote, e, k) at q in
            (
              rw (promote, e, k) (settle-renamed w req done.0 done.1 ws h₂),
              rw (promote, e, k) (settle-none w req done.0 done.1 ws h₂ settled),
            )
      ]
    ]

-- A promotion that reports no error has replaced the source, and its result carries the fingerprint,
-- the size and the modification time that the file at the source's path had when it was read after
-- exactly one replacement, with the plan's policy; only the notification followed.
pub promote-none :
    (fuel : ℕ) (w : World) (req : Request) (h : Trace)
    → (promote fuel w req h).0.1 ≡ none
    → ((promote fuel w req h).0.0.renamed ≡ true)
      × ((i : OutputIdentity) × ((promote fuel w req h).0.0.identity ≡ some i)
          × ((g : Trace) × (b : Bool) × ((promote fuel w req h).1
                ≡ did (notify req.source_path) b
                  ∷ looked req.source_path
                  ∷ looked req.source_path
                  ∷ g)
              × IsIdentified w req g i
              × (replacements g ≡ 1 + replacements h)))
unfolding IsFinished replacements renaming
promote-none fuel w req h q =
    let (renamed, (i, kept, (g, b, trace, found))) = promote-IsFinished fuel w req h q in
    let count = (promote-Grown fuel w req h).count in
    (renamed, (i, kept, (g, b, trace, found, omega (arith, rw (renamed, trace) at count))))
