-- ===== src/Decide/Policy.antt =====
-- internal/decide/policy.go: the constants of the policy, and the lookups over them. Levels and
-- frame rates are fractions. The digest behind the policy hash is not modelled.
use codarr.Prelude.{
  ℕ, ◌*◌, String, Bool, true, not, ◌&&◌, List, [], ◌∷◌, Option, none, some, Rat, str_eq, contains,
  leb, ltb, ◌==◌, lower_codes, codes, codes_eq, if◌then◌else◌,
}
use codarr.Domain.Plan.{Container, matroska, mp4, is_mp4, container_name}
use codarr.Probe.Chroma.{Chroma, chroma_420}

abbrev pub video_copy_codecs : List String
video_copy_codecs = "h264" ∷ "hevc" ∷ []

abbrev pub h264_copy_profiles : List String
h264_copy_profiles = "Constrained Baseline" ∷ "Baseline" ∷ "Main" ∷ "High" ∷ []

abbrev pub hevc_copy_profiles : List String
hevc_copy_profiles = "Main" ∷ "Main 10" ∷ []

abbrev pub copy_chroma : Chroma
copy_chroma = chroma_420

abbrev pub h264_max_level : Rat
h264_max_level = record { num = 42; den = 10 }

abbrev pub level_rewrite_target : Rat
level_rewrite_target = record { num = 42; den = 10 }

abbrev pub level_rewrite_max_width : ℕ
level_rewrite_max_width = 1920

abbrev pub level_rewrite_max_height : ℕ
level_rewrite_max_height = 1088

abbrev pub level_rewrite_max_fps : ℕ
level_rewrite_max_fps = 60

abbrev pub level_rewrite_max_refs : ℕ
level_rewrite_max_refs = 4

abbrev pub video_encode_codec : String
video_encode_codec = "hevc"

abbrev pub video_encode_profile_sdr : String
video_encode_profile_sdr = "main"

abbrev pub video_encode_profile_hdr : String
video_encode_profile_hdr = "main10"

abbrev pub legacy_scan_codecs : List String
legacy_scan_codecs = "mpeg2video" ∷ "vc1" ∷ []

abbrev pub audio_copy_up_to_2_channels : List String
audio_copy_up_to_2_channels = "aac" ∷ "ac3" ∷ "eac3" ∷ "mp3" ∷ []

abbrev pub audio_copy_3_plus_channels : List String
audio_copy_3_plus_channels = "aac" ∷ "ac3" ∷ "eac3" ∷ []

abbrev pub audio_mono_bitrate : ℕ
audio_mono_bitrate = 96000

abbrev pub audio_stereo_bitrate : ℕ
audio_stereo_bitrate = 160000

abbrev pub audio_surround_bitrate : ℕ
audio_surround_bitrate = 640000

abbrev pub audio_mp4_bitrate_per_channel : ℕ
audio_mp4_bitrate_per_channel = 64000

abbrev pub audio_downmix_above_channels : ℕ
audio_downmix_above_channels = 6

abbrev pub audio_downmix_target_channels : ℕ
audio_downmix_target_channels = 6

abbrev pub subtitle_text_codecs : List String
subtitle_text_codecs = "subrip" ∷ "ass" ∷ "ssa" ∷ "webvtt" ∷ "mov_text" ∷ []

abbrev pub subtitle_image_codecs : List String
subtitle_image_codecs = "hdmv_pgs_subtitle" ∷ "dvd_subtitle" ∷ "dvb_subtitle" ∷ []

abbrev pub subtitle_broadcast_codecs : List String
subtitle_broadcast_codecs = "dvb_teletext" ∷ "eia_608" ∷ []

abbrev pub subtitle_target_mkv : String
subtitle_target_mkv = "subrip"

abbrev pub subtitle_target_mp4 : String
subtitle_target_mp4 = "mov_text"

abbrev hardware_decode_codecs : List String
hardware_decode_codecs = "h264" ∷ "hevc" ∷ "mpeg2video" ∷ "vc1" ∷ "vp9" ∷ []

unfoldable pub hardware_decodable : String → Bool
hardware_decodable codec = contains hardware_decode_codecs codec

-- `filepath.Ext`, lower case: from the last dot of the last path element on, empty without one.
ext_from : List ℕ → Option (List ℕ)
ext_from [] = none
ext_from (c ∷ s) = elim (ext_from s) [
  | some e ↦ some e
  | none ↦ if c == b'.' && no_slash s then some (c ∷ s) else none
]
  where
    no_slash : List ℕ → Bool
    no_slash [] = true
    no_slash (d ∷ ds) = not (d == b'/') && no_slash ds

unfoldable pub lower_ext : String → List ℕ
unfolding ext_from
lower_ext path = elim (ext_from (lower_codes path)) [ some e ↦ e | none ↦ [] ]

unfoldable pub container_for : String → Container
unfolding lower_ext
container_for path =
    let ext = lower_ext path in
    if codes_eq ext (codes ".mkv")
    then matroska
    else if codes_eq ext (codes ".mp4")
    then mp4
    else if codes_eq ext (codes ".m4v")
    then mp4
    else matroska

unfoldable pub is_legacy_container : String → Bool
is_legacy_container source =
    not (str_eq source (container_name matroska)) && not (str_eq source (container_name mp4))

unfoldable pub subtitle_target_for_container : Container → String
subtitle_target_for_container c = if is_mp4 c then subtitle_target_mp4 else subtitle_target_mkv

unfoldable pub subtitle_encoder : String → String
subtitle_encoder codec = if str_eq codec subtitle_target_mkv then "srt" else codec

unfoldable pub video_encode_profile : Bool → String
video_encode_profile hdr = if hdr then video_encode_profile_hdr else video_encode_profile_sdr

pub record AudioTarget : Type 0 where
  pub codec : String
  pub bitrate : ℕ
  pub channels : ℕ

unfoldable pub audio_encode_target : Container → ℕ → AudioTarget
audio_encode_target container channels =
    let out =
      if ltb audio_downmix_above_channels channels
      then audio_downmix_target_channels
      else channels in
    if leb channels 1
    then record { codec = "aac"; bitrate = audio_mono_bitrate; channels = 1 }
    else if channels == 2
    then record { codec = "aac"; bitrate = audio_stereo_bitrate; channels = 2 }
    else if is_mp4 container
    then record { codec = "aac"; bitrate = audio_mp4_bitrate_per_channel * out; channels = out }
    else record { codec = "ac3"; bitrate = audio_surround_bitrate; channels = out }

unfoldable pub audio_copy_list : ℕ → List String
audio_copy_list channels =
    if leb channels 2 then audio_copy_up_to_2_channels else audio_copy_3_plus_channels
