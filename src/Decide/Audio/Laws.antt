-- ===== src/Decide/Audio/Laws.antt =====
-- What audio.go and the audio targets of policy.go promise.
use codarr.Prelude.{
  ℕ, ◌≤◌, true, false, ◌≡◌, refl, ◌⊎◌, contains, arith, Bool-cases, inl, inr, some, none, leb, min,
  max,
}
use codarr.Domain.Plan.{Container, mp4, copy, encode}
use codarr.Probe.{Stream}
use codarr.Decide.Policy.{audio_copy_list, audio_encode_target}
use codarr.Decide.Audio.{plan_audio}

copy_lists-contain :
    (n : ℕ)
    → (contains (audio_copy_list n) "aac" ≡ true) × (contains (audio_copy_list n) "ac3" ≡ true)
unfolding audio_copy_list
copy_lists-contain n = elim (Bool-cases (leb n 2)) [
  | inl e ↦ rw (e, audio_copy_list) (refl, refl)
  | inr e ↦ rw (e, audio_copy_list) (refl, refl)
]

target_codecs :
    (c : Container) (n : ℕ)
    → ((audio_encode_target c n).codec ≡ "aac") ⊎ ((audio_encode_target c n).codec ≡ "ac3")
unfolding audio_encode_target
target_codecs c n = ground arith

-- Every encode target is itself on the copy list for its channel count, so an encoded stream is
-- copied when the output is planned again.
pub audio_encode_target-IsCopied :
    (c : Container) (n : ℕ)
    → let t = audio_encode_target c n in contains (audio_copy_list t.channels) t.codec ≡ true
audio_encode_target-IsCopied c n =
    let t = audio_encode_target c n in
    elim (target_codecs c n) [
      | inl e ↦ rw e (copy_lists-contain t.channels).0
      | inr e ↦ rw e (copy_lists-contain t.channels).1
    ]

-- The channel count of an encode is that of the source up to 5.1 and 6 above it, and 1 where the
-- source states none: nothing is ever upmixed, and nothing below 7 channels is downmixed.
pub audio_encode_target-channels :
    (c : Container) (n : ℕ) → (audio_encode_target c n).channels ≡ max 1 (min n 6)
unfolding audio_encode_target
audio_encode_target-channels c n = ground arith

-- An MP4 output never carries AC3 from an encode, and no target is above 640 kb/s.
pub audio_encode_target_bounds :
    (c : Container) (n : ℕ)
    → ((audio_encode_target mp4 n).codec ≡ "aac") × ((audio_encode_target c n).bitrate ≤ 640000)
unfolding audio_encode_target
audio_encode_target_bounds c n = ground arith

-- An audio stream is copied or encoded, never dropped: copied, with no target, exactly when its codec
-- is on the copy list for its channel count, and otherwise encoded to the target of its container.
pub plan_audio_cases :
    (s : Stream) (c : Container)
    → ((contains (audio_copy_list s.channels) s.codec_name ≡ true)
        × ((plan_audio s c).decision ≡ copy)
        × ((plan_audio s c).target ≡ none))
      ⊎ ((contains (audio_copy_list s.channels) s.codec_name ≡ false)
          × ((plan_audio s c).decision ≡ encode)
          × ((plan_audio s c).target ≡ some (audio_encode_target c s.channels)))
unfolding plan_audio
plan_audio_cases s c = ground arith
