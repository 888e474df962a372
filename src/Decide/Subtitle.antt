-- ===== src/Decide/Subtitle.antt =====
-- internal/decide/subtitle.go: one subtitle stream against the format lists.
pub mod Laws
use codarr.Prelude.{
  ℕ, String, Bool, not, List, [], ◌∷◌, Option, none, some, str_eq, contains, ◌==◌, ◌<>◌,
  if◌then◌else◌,
}
use codarr.Domain.Plan.{Decision, Container, copy, convert, drop}
use codarr.Probe.{Stream}
use codarr.Decide.Policy.{
  subtitle_text_codecs, subtitle_image_codecs, subtitle_broadcast_codecs,
  subtitle_target_for_container, subtitle_encoder,
}
use codarr.Decide.Video.{codec_name_of}

pub record SubtitleVerdict : Type 0 where
  pub decision : Decision
  pub reason : String
  pub target : String

pub drop_reason : String → Stream → String
drop_reason reason s = if s.disposition.forced == 1 then reason <> ", forced" else reason

unfoldable pub plan_subtitle : Stream → Container → SubtitleVerdict
plan_subtitle s container =
    let target = subtitle_target_for_container container in
    if contains subtitle_image_codecs s.codec_name
    then record { decision = drop; reason = drop_reason "image-based" s; target = "" }
    else if contains subtitle_broadcast_codecs s.codec_name
    then record { decision = drop; reason = drop_reason "broadcast caption format" s; target = "" }
    else if not (contains subtitle_text_codecs s.codec_name)
    then record {
      decision = drop;
      reason = drop_reason ("unsupported subtitle format " <> codec_name_of s) s;
      target = "";
    }
    else if str_eq s.codec_name target
    then record { decision = copy; reason = ""; target = "" }
    else record {
      decision = convert;
      reason = s.codec_name <> " to " <> subtitle_encoder target;
      target = subtitle_encoder target;
    }
