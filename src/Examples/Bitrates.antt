-- ===== src/Examples/Bitrates.antt =====
-- The target of a 1080p film, sampled four times.
use codarr.Prelude.{◌≤◌, ◌<◌, ◌*◌, ◌/◌, [], ◌∷◌, false, max, ◌≡◌, refl}
use codarr.Ffmpeg.Bitrate.{
  BitrateInput, clamp, floor, ceiling, resolution_of, median, fallback_bitrate, target_from_samples,
}
use codarr.Ffmpeg.Bitrate.Laws.{clamp_bounds}

abbrev film : BitrateInput
film = record {
  width = 1920;
  height = 800;
  fps = record { num = 24; den = 1 };
  hdr = false;
  source_bitrate = 9000000;
}

median_even : median (7 ∷ 1 ∷ 5 ∷ 3 ∷ []) ≡ 4
unfolding median
median_even = refl

fallback_film : fallback_bitrate film ≡ 2396160
unfolding fallback_bitrate
fallback_film = refl

sampled_film : target_from_samples (4000000 ∷ 6000000 ∷ 5000000 ∷ []) film ≡ 6250000
unfolding target_from_samples
sampled_film = refl

clamp_bounds_example :
    (floor (resolution_of film.width) ≤ clamp 30000000 film)
    × (clamp 30000000 film ≤ ceiling (resolution_of film.width))
    × (0 < film.source_bitrate
        → clamp 30000000 film
          ≤ max (film.source_bitrate * 85 / 100) (floor (resolution_of film.width)))
clamp_bounds_example = clamp_bounds 30000000 film
