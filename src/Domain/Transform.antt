-- ===== src/Domain/Transform.antt =====
-- internal/pkg/domain/transform.go: the record of what a job changes in a file, before and after.
use codarr.Prelude.{ℕ, String, Bool, List, Option, Rat}
use codarr.Domain.Plan.{Decision, Scan}

pub record VideoState : Type 0 where
  pub codec : String
  pub profile : String
  pub level : String
  pub width : ℕ
  pub height : ℕ
  pub fps : Rat
  pub bitrate_kbps : Option ℕ
  pub pix_fmt : String
  pub hdr : Bool
  pub scan : Scan

-- The identity that is recorded at promotion.
pub record OutputIdentity : Type 0 where
  pub fingerprint : String
  pub full_hash : Option String
  pub size_bytes : ℕ
  pub mtime : ℕ
  pub policy_hash : String
  pub recorded_at : ℕ

pub record BeforeAfterString : Type 0 where
  pub before : String
  pub after : String

pub record BeforeAfterInt : Type 0 where
  pub before : ℕ
  pub after : ℕ

pub record SizeTransform : Type 0 where
  pub before_bytes : ℕ
  pub after_bytes : ℕ

pub record DurationTransform : Type 0 where
  pub estimated : ℕ
  pub actual : Option ℕ

-- The action of a file without a video stream is empty in the code.
pub record VideoTransform : Type 0 where
  pub action : Option Decision
  pub reason : String
  pub before : Option VideoState
  pub after : Option VideoState

pub record AudioState : Type 0 where
  pub codec : String
  pub profile : String
  pub channels : ℕ
  pub layout : String
  pub bitrate_kbps : Option ℕ

pub record AudioTransform : Type 0 where
  pub source_index : ℕ
  pub output_index : Option ℕ
  pub language : String
  pub title : Option String
  pub action : Decision
  pub reason : String
  pub before : AudioState
  pub after : Option AudioState

pub record SubtitleState : Type 0 where
  pub codec : String
  pub forced : Bool

pub record SubtitleTransform : Type 0 where
  pub source_index : ℕ
  pub output_index : Option ℕ
  pub language : String
  pub action : Decision
  pub reason : String
  pub before : SubtitleState
  pub after : Option SubtitleState

pub record TransformRecord : Type 0 where
  pub container : BeforeAfterString
  pub video : VideoTransform
  pub audio : List AudioTransform
  pub subtitles : List SubtitleTransform
  pub attachments : BeforeAfterInt
  pub chapters : BeforeAfterInt
  pub size : SizeTransform
  pub duration : DurationTransform
  pub output_identity : Option OutputIdentity
