-- ===== src/Domain/Plan.antt =====
-- internal/pkg/domain/plan.go and decision.go: what happens to each stream of one file.
use codarr.Prelude.{ℕ, String, Bool, true, false, not, ◌&&◌, List, Option, find_first, ◌≡◌, arith}
use codarr.Domain.Kind
use codarr.Domain.Kind.{Kind}

pub data Decision : Type 0 where
  copy encode convert drop : Decision

pub data StreamType : Type 0 where
  video audio subtitle : StreamType

pub data Container : Type 0 where
  matroska mp4 : Container

pub data Scan : Type 0 where
  progressive interlaced : Scan

-- `no_encoder` is the empty text: no encoder was chosen.
pub data Encoder : Type 0 where
  no_encoder qsv vaapi software : Encoder

pub data DecodePath : Type 0 where
  on_hardware in_software : DecodePath

abbrev pub eq_decision : Decision → Decision → Bool
eq_decision copy copy = true
eq_decision encode encode = true
eq_decision convert convert = true
eq_decision drop drop = true
eq_decision _ _ = false

abbrev pub eq_type : StreamType → StreamType → Bool
eq_type video video = true
eq_type audio audio = true
eq_type subtitle subtitle = true
eq_type _ _ = false

pub eq_type→≡ : (t u : StreamType) → eq_type t u ≡ true → t ≡ u
eq_type→≡ t u h = ground arith

abbrev pub is_mp4 : Container → Bool
is_mp4 mp4 = true
is_mp4 matroska = false

abbrev pub is_interlaced : Scan → Bool
is_interlaced interlaced = true
is_interlaced progressive = false

-- The texts behind the constants.
abbrev pub container_name : Container → String
container_name matroska = "matroska"
container_name mp4 = "mp4"

abbrev pub decision_name : Decision → String
decision_name copy = "copy"
decision_name encode = "encode"
decision_name convert = "convert"
decision_name drop = "drop"

abbrev pub encoder_name : Encoder → String
encoder_name no_encoder = ""
encoder_name qsv = "hevc_qsv"
encoder_name vaapi = "hevc_vaapi"
encoder_name software = "libx265"

abbrev pub decode_name : DecodePath → String
decode_name on_hardware = "hardware"
decode_name in_software = "software"

abbrev pub is_software : Encoder → Bool
is_software software = true
is_software _ = false

-- `output_index` is `none` for a dropped stream.
pub record StreamPlan : Type 0 where
  pub type : StreamType
  pub source_index : ℕ
  pub output_index : Option ℕ
  pub decision : Decision
  pub reason : String
  pub language : String
  pub title : String
  pub target_codec : String
  pub target_bitrate : ℕ
  pub target_channels : ℕ
  pub default : Bool
  pub forced : Bool
  pub comment : Bool
  pub visual_impaired : Bool

pub record Plan : Type 0 where
  pub kind : Kind
  pub source_container : String
  pub output_container : Container
  pub streams : List StreamPlan
  pub level_rewrite : Bool
  pub deinterlace : Bool
  pub hdr : Bool
  pub hdr_transfer : String
  pub dolby_vision : Bool
  pub dolby_vision_profile : ℕ
  pub target_video_bitrate : ℕ
  pub reasons : List String
  pub policy_hash : String

unfoldable pub needs_write : Plan → Bool
unfolding Kind.is_skip
needs_write p = not (Kind.is_skip p.kind)

unfoldable pub encodes_video : Plan → Bool
unfolding Kind.has
encodes_video p = Kind.has p.kind Kind.label_video

abbrev pub is_kept_video : StreamPlan → Bool
is_kept_video s = eq_type s.type video && not (eq_decision s.decision drop)

unfoldable pub video_stream : Plan → Option StreamPlan
video_stream p = find_first is_kept_video p.streams
