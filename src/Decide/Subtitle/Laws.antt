-- ===== src/Decide/Subtitle/Laws.antt =====
-- What subtitle.go promises of a subtitle stream, forced or not.
use codarr.Prelude.{String, true, false, ◌≡◌, refl, contains, contains_disjoint, arith, not}
use codarr.Domain.Plan.{Container, matroska, mp4, copy, drop, eq_decision}
use codarr.Probe.{Stream}
use codarr.Decide.Policy.{
  subtitle_text_codecs, subtitle_image_codecs, subtitle_broadcast_codecs,
  subtitle_target_for_container,
}
use codarr.Decide.Subtitle.{plan_subtitle}

image_not_text :
    (c : String) → contains subtitle_image_codecs c ≡ true → contains subtitle_text_codecs c ≡ false
image_not_text c = contains_disjoint subtitle_image_codecs subtitle_text_codecs c refl

broadcast_not_text :
    (c : String)
    → contains subtitle_broadcast_codecs c ≡ true
    → contains subtitle_text_codecs c ≡ false
broadcast_not_text c = contains_disjoint subtitle_broadcast_codecs subtitle_text_codecs c refl

-- A subtitle stream is dropped exactly when its codec is not one of the text formats, whatever its
-- dispositions and the container: no text subtitle is lost, and no image or broadcast one is kept.
pub plan_subtitle-drop_iff :
    (s : Stream) (c : Container)
    → eq_decision (plan_subtitle s c).decision drop
      ≡ not (contains subtitle_text_codecs s.codec_name)
unfolding plan_subtitle
plan_subtitle-drop_iff s c =
    ground (arith, image_not_text s.codec_name, broadcast_not_text s.codec_name)

target_is_text :
    (c : Container) → contains subtitle_text_codecs (subtitle_target_for_container c) ≡ true
unfolding subtitle_target_for_container
target_is_text matroska = refl
target_is_text mp4 = refl

-- A subtitle stream that carries the target format of its container is copied: what a conversion
-- wrote is left alone when the output is planned again.
pub plan_subtitle-target :
    (s : Stream) (c : Container)
    → s.codec_name ≡ subtitle_target_for_container c
    → (plan_subtitle s c).decision ≡ copy
unfolding plan_subtitle subtitle_target_for_container
plan_subtitle-target s matroska h = rw (h, plan_subtitle)
plan_subtitle-target s mp4 h = rw (h, plan_subtitle)
