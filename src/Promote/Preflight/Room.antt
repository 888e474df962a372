-- ===== src/Promote/Preflight/Room.antt =====
-- Where the output is staged, and the room that was found there.
use codarr.Prelude.{
  ℕ, ◌≤◌, ◌<◌, ◌+◌, ◌*◌, ◌≢◌, ◌⊎◌, eq_iff, String, true, false, ◌∷◌, some, ok, ◌≡◌, sym, ap, arith,
  itoa, ltb, ◌<>◌, str_eq, leb, leb→le, inl, inr, Option-cases, Bool-cases,
}
use codarr.Promote.Types.{PreflightRequest, Staging}
use codarr.Promote.Effects.{World, Trace, looked, join_path}
use codarr.Promote.Preflight.{choose_staging, needed_space, staging_prefix, ext}

-- Staging on the destination, or in the configured temporary directory when the destination had less.
unfoldable pub IsRoomy :
    World → String → PreflightRequest → String → Trace → Staging → String → ℕ → Type 0
IsRoomy w temp_dir req dest h s name room =
    ((s.path ≡ join_path dest name) × (s.used_temp_dir ≡ false) × (w.free_bytes h dest ≡ some room))
    ⊎ ((s.path ≡ join_path temp_dir name)
        × (s.used_temp_dir ≡ true)
        × (temp_dir ≢ "")
        × (w.free_bytes (looked dest ∷ h) temp_dir ≡ some room)
        × ((less : ℕ) × (w.free_bytes h dest ≡ some less) × (less < room)))

rounded_down : (size room : ℕ) → needed_space size ≤ room → size * 12 < (room + 1) * 10
rounded_down size room le = omega (arith, le)

-- The chosen staging path lies in the destination directory or, when that had less room, in the
-- configured temporary one, under the name that the output gets beside the source; and the directory
-- that it lies in was found to have 1.2 times the size of the source free, rounded down.
pub choose_staging-room :
    (w : World) (temp_dir : String) (req : PreflightRequest) (dest : String) (h : Trace)
    (s : Staging)
    → (choose_staging w temp_dir req dest h).0 ≡ ok s
    → (name : String) × (room : ℕ) × (s.final_path ≡ join_path dest name)
      × IsRoomy w temp_dir req dest h s name room
      × (req.source.size_bytes * 12 < (room + 1) * 10)
unfolding choose_staging IsRoomy
choose_staging-room w temp_dir req dest h s q =
    let need = needed_space req.source.size_bytes in
    let name = staging_prefix <> itoa req.job_id <> ext req.output_ext in
    let on_dest = join_path dest name in
    let beside : Staging = record {
      path = on_dest;
      final_path = on_dest;
      used_temp_dir = false;
      cross_device = false;
    } in
    let apart : Staging = record {
      path = join_path temp_dir name;
      final_path = on_dest;
      used_temp_dir = true;
      cross_device = false;
    } in
    let enough =
      λ (space : ℕ) (fits : need ≤ space). rounded_down req.source.size_bytes space fits in
    elim (Option-cases (w.free_bytes h dest)) [
      | inl e ↦ absurd (ground (arith, e, q))
      | inr (room, e) ↦ elim (Bool-cases (leb (needed_space req.source.size_bytes) room)) [
        | inl l ↦
            let same : beside ≡ s = ground (arith, e, l, q) in
            (
              name,
              room,
              sym (ap (λ (x : Staging). x.final_path) same),
              inl (
                sym (ap (λ (x : Staging). x.path) same),
                sym (ap (λ (x : Staging). x.used_temp_dir) same),
                e,
              ),
              enough room (leb→le need room l),
            )
        | inr l ↦ elim (Bool-cases (str_eq temp_dir "")) [
          | inl t ↦ absurd (ground (arith, e, l, t, q))
          | inr t ↦ elim (Option-cases (w.free_bytes (looked dest ∷ h) temp_dir)) [
            | inl k ↦ absurd (ground (arith, e, l, t, k, q))
            | inr (space, k) ↦ elim (Bool-cases (ltb space need)) [
              | inl m ↦ absurd (ground (arith, e, l, t, k, m, q))
              | inr m ↦
                  let same : apart ≡ s = ground (arith, e, l, t, k, m, q) in
                  (
                    name,
                    space,
                    sym (ap (λ (x : Staging). x.final_path) same),
                    inr (
                      sym (ap (λ (x : Staging). x.path) same),
                      sym (ap (λ (x : Staging). x.used_temp_dir) same),
                      λ z. absurd (cc (t, (eq_iff temp_dir "").1 z)),
                      k,
                      (room, e, ground (arith, l, m)),
                    ),
                    enough space (ground (arith, m)),
                  )
            ]
          ]
        ]
      ]
    ]
