-- ===== src/Promote/Replace/Laws/Reads.antt =====
-- What verification and the record of the identity read.
use codarr.Prelude.{
  String, List, Option, some, ok, ◌≡◌, arith, ap, ◌∙◌, ◌∷◌, Option-cases, inl, inr,
}
use codarr.Domain.Transform.{OutputIdentity}
use codarr.Promote.Types.{Request, Warning, Output}
use codarr.Promote.Effects.{looked, Trace, World, FileInfo}
use codarr.Promote.Verify.{verify_output}
use codarr.Promote.Replace.{record_identity, verify}

-- The state of the source's path that was read after the trace `g`.
pub IsIdentified : World → Request → Trace → OutputIdentity → Type 0
IsIdentified w req g i =
    (info : FileInfo) × (w.stat g req.source_path ≡ some info)
    × (w.sparse (looked req.source_path ∷ g) req.source_path ≡ some i.fingerprint)
    × (i.size_bytes ≡ info.size)
    × (i.mtime ≡ info.mtime)
    × (i.policy_hash ≡ req.plan.policy_hash)

pub record_identity-ok :
    (w : World) (req : Request) (full : Option String) (g : Trace) (i : OutputIdentity)
    → (record_identity w req full g).0 ≡ ok i
    → IsIdentified w req g i
      × ((record_identity w req full g).1 ≡ looked req.source_path ∷ looked req.source_path ∷ g)
unfolding record_identity IsIdentified
record_identity-ok w req full g i q = elim (Option-cases (w.stat g req.source_path)) [
  | inl e ↦ absurd (ground (arith, e, q))
  | inr (info, e) ↦ elim (Option-cases (w.sparse (looked req.source_path ∷ g) req.source_path)) [
    | inl k ↦ absurd (ground (arith, e, k, q))
    | inr (sum, k) ↦
        let same : sum ≡ i.fingerprint = ground (arith, e, k, q) in
        (
          (
            info,
            e,
            k ∙ ap some same,
            ground (arith, e, k, q),
            ground (arith, e, k, q),
            ground (arith, e, k, q),
          ),
          ground (arith, e, k),
        )
  ]
]

-- The answers that verification had: the probe and the size of the staged output.
pub verify-ok :
    (w : World) (req : Request) (h : Trace) (ws : List Warning)
    → (verify w req h).0.0 ≡ ok ws
    → (out : Output) × (info : FileInfo) × (w.probe h req.staging.path ≡ some out)
      × (w.stat (looked req.staging.path ∷ h) req.staging.path ≡ some info)
      × ((verify_output req out info.size).0 ≡ ok ws)
unfolding verify
verify-ok w req h ws q = elim (Option-cases (w.probe h req.staging.path)) [
  | inl e ↦ absurd (ground (arith, e, q))
  | inr (out, e) ↦ elim (Option-cases (w.stat (looked req.staging.path ∷ h) req.staging.path)) [
    | inl k ↦ absurd (ground (arith, e, k, q))
    | inr (info, k) ↦ (out, info, e, k, ground (arith, e, k, q))
  ]
]
