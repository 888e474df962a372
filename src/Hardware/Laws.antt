-- ===== src/Hardware/Laws.antt =====
-- The encoder chain of internal/hardware only ever goes down.
use codarr.Prelude.{ℕ, ◌<◌, Bool, true, some, ◌≡◌, refl, ◌⊎◌, inl, inr, Bool-cases, arith}
use codarr.Domain.Plan.{Encoder, no_encoder, qsv, vaapi, software}
use codarr.Hardware.{
  Capabilities, Selection, select, next, encodes, profile_for, backend_qsv, backend_vaapi,
  backend_of, Backend,
}

-- How many encoders can still be stepped to.
abbrev pub steps_left : Encoder → ℕ
steps_left no_encoder = 0
steps_left software = 0
steps_left vaapi = 1
steps_left qsv = 2

-- An encoder is trusted when its own encode probe passed, or when it is the software one.
abbrev pub IsTrusted : Capabilities → Bool → Encoder → Type 0
IsTrusted c hdr enc =
    (enc ≡ software)
    ⊎ ((b : Backend) × (backend_of enc ≡ some b) × (encodes c b (profile_for hdr) ≡ true))

-- The encoder after a failed one is lower in the chain.
pub next-steps_left :
    (c : Capabilities) (enc : Encoder) (hdr : Bool) {s : Selection}
    → next c enc hdr ≡ some s
    → steps_left s.encoder < steps_left enc
unfolding next
next-steps_left c qsv hdr e = ground (arith, e)
next-steps_left c vaapi hdr e = ground (arith, e)
next-steps_left c software hdr e = ground (arith, e)
next-steps_left c no_encoder hdr e = ground (arith, e)

-- The encoder that is chosen is trusted.
pub select-IsTrusted : (c : Capabilities) (hdr : Bool) → IsTrusted c hdr (select c hdr).encoder
unfolding select backend_of
select-IsTrusted c hdr = elim (Bool-cases (encodes c backend_qsv (profile_for hdr))) [
  | inl e ↦ inr (backend_qsv, rw e refl, e)
  | inr e ↦ elim (Bool-cases (encodes c backend_vaapi (profile_for hdr))) [
    | inl f ↦ inr (backend_vaapi, rw (e, f) refl, f)
    | inr f ↦ inl (rw (e, f) refl)
  ]
]

-- So is the one after a failure.
pub next-IsTrusted :
    (c : Capabilities) (enc : Encoder) (hdr : Bool) {s : Selection}
    → next c enc hdr ≡ some s
    → IsTrusted c hdr s.encoder
unfolding next backend_of
next-IsTrusted c qsv hdr {s} e = elim (Bool-cases (encodes c backend_vaapi (profile_for hdr))) [
  | inl f ↦ inr (backend_vaapi, ground (arith, e, f), f)
  | inr f ↦ inl (ground (arith, e, f))
]
next-IsTrusted c vaapi hdr e = inl (ground (arith, e))
next-IsTrusted c software hdr e = ground (arith, e)
next-IsTrusted c no_encoder hdr e = ground (arith, e)
