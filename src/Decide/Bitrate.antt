-- ===== src/Decide/Bitrate.antt =====
-- internal/decide/bitrate.go: the chain that resolves a video bitrate. The float arithmetic of its
-- third rung is done exactly on fractions.
use codarr.Prelude.{
  ℕ, ◌+◌, ◌-◌, ◌*◌, ◌/◌, ◌≤◌, ◌||◌, List, [], ◌∷◌, Option, none, some, Rat, leb, ltb, ◌==◌, ◌≡◌,
  refl, arith, if◌then◌else◌,
}
use codarr.Probe
use codarr.Probe.{
  Stream, primary_video, bit_rate_bps, bps_tag_bps, duration_of, size_bytes, format_bit_rate_bps,
  streams_of_type, type_audio,
}

pub data BitrateSource : Type 0 where
  from_stream from_bps_tag from_computed from_format unresolved : BitrateSource

-- The bitrate that an audio stream states, by either rung.
abbrev stated : Stream → ℕ
stated s = elim (bit_rate_bps s) [
  | some bps ↦ bps
  | none ↦ elim (bps_tag_bps s) [ some bps ↦ bps | none ↦ 0 ]
]

unfoldable pub audio_bitrate : List Stream → ℕ
audio_bitrate [] = 0
audio_bitrate (s ∷ ss) = stated s + audio_bitrate ss

-- `total * 0.98 - audio`, with `total = size * 8 / duration`.
unfoldable pub computed_of : Rat → ℕ → ℕ → Option ℕ
computed_of duration size audio =
    let whole = size * 8 * duration.den * 98 in
    let off = audio * (duration.num * 100) in
    if duration.num == 0 || size == 0
    then none
    else if leb whole off
    then none
    else some ((whole - off) / (duration.num * 100))

unfoldable pub computed_video_bitrate : Probe.Result → Option ℕ
unfolding computed_of audio_bitrate
computed_video_bitrate probe =
    computed_of (duration_of probe) (size_bytes probe.format)
      (audio_bitrate (streams_of_type probe type_audio))

unfoldable pub resolve_video_bitrate : Option Probe.Result → ℕ × BitrateSource
resolve_video_bitrate none = (0, unresolved)
resolve_video_bitrate (some probe) = elim (primary_video probe) [
  | none ↦ (0, unresolved)
  | some video ↦ elim (bit_rate_bps video) [
    | some bps ↦ (bps, from_stream)
    | none ↦ elim (bps_tag_bps video) [
      | some bps ↦ (bps, from_bps_tag)
      | none ↦ elim (computed_video_bitrate probe) [
        | some bps ↦ (bps, from_computed)
        | none ↦
            if ltb 0 (format_bit_rate_bps probe.format)
            then (format_bit_rate_bps probe.format, from_format)
            else (0, unresolved)
      ]
    ]
  ]
]

div_mul_le : (a b : ℕ) → a / b * b ≤ a
div_mul_le a b = grind arith

room_left :
    (whole off d audio : ℕ)
    → off ≡ audio * d
    → off ≤ whole
    → ((whole - off) / d + audio) * d ≤ whole
room_left whole off d audio h k = omega (arith, div_mul_le (whole - off) d)

-- The computed video bitrate and the stated audio bitrates together never pass 98% of the file's
-- overall bitrate: (v + audio) * duration ≤ 0.98 * 8 * size.
pub computed_of-le :
    (duration : Rat) (size audio v : ℕ)
    → computed_of duration size audio ≡ some v
    → (v + audio) * (duration.num * 100) ≤ size * 8 * duration.den * 98
unfolding computed_of
computed_of-le duration size audio v h =
    let whole = size * 8 * duration.den * 98 in
    let d = duration.num * 100 in ground (arith, room_left whole (audio * d) d audio refl)
