-- ===== src/Decide/Audio.antt =====
-- internal/decide/audio.go: one audio stream against the copy list.
pub mod Laws
use codarr.Prelude.{
  ℕ, String, Bool, List, [], ◌∷◌, Option, none, some, str_eq, contains, leb, ltb, ◌==◌, itoa, cut,
  ◌<>◌, if◌then◌else◌,
}
use codarr.Domain.Plan.{Decision, Container, copy, encode}
use codarr.Probe.{Stream}
use codarr.Decide.Policy.{AudioTarget, audio_copy_list, audio_encode_target}
use codarr.Decide.Video.{codec_name_of}

-- The Go zero value of the target of a copied stream is never read: `none`.
pub record AudioVerdict : Type 0 where
  pub decision : Decision
  pub reason : String
  pub target : Option AudioTarget

pub channel_bucket : ℕ → String
channel_bucket channels = if leb channels 2 then "1-2" else "3+"

unfoldable pub channel_notation : ℕ → String
unfolding itoa
channel_notation channels =
    if channels == 1
    then "1.0"
    else if channels == 2
    then "2.0"
    else if channels == 3
    then "2.1"
    else if channels == 4
    then "4.0"
    else if channels == 5
    then "4.1"
    else if channels == 6
    then "5.1"
    else if channels == 7
    then "6.1"
    else if channels == 8
    then "7.1"
    else itoa channels <> "ch"

unfoldable pub layout_name : Stream → String
unfolding channel_notation
layout_name s =
    if str_eq s.channel_layout ""
    then channel_notation s.channels
    else elim (cut b'(' s.channel_layout) [ none ↦ s.channel_layout | some (name, rest) ↦ name ]

unfoldable pub plan_audio : Stream → Container → AudioVerdict
plan_audio s container =
    let target = audio_encode_target container s.channels in
    let reason =
      codec_name_of s <> " not in copy list for " <> channel_bucket s.channels <> " channels" in
    if contains (audio_copy_list s.channels) s.codec_name
    then record {
      decision = copy;
      reason = codec_name_of s <> ", " <> layout_name s;
      target = none;
    }
    else record {
      decision = encode;
      reason =
          if ltb target.channels s.channels
          then reason
            <> ", downmixed "
            <> channel_notation s.channels
            <> " to "
            <> channel_notation target.channels
          else reason;
      target = some target;
    }
