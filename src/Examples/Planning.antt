-- ===== src/Examples/Planning.antt =====
-- Plans of a settled film, of one at H.264 level 5.1, and of its sound and subtitles.
use codarr.Prelude.{
  String, true, false, not, ◌&&◌, List, [], ◌∷◌, ◌++◌, Option, none, some, Result, ok, err, ◌≡◌,
  ◌≢◌, ◌↔◌, ◌⊎◌, refl, pos, contains, arith, get_elem?, length, keep, equal_fold, parse_decimal,
  str_eq, ◌==◌,
}
use codarr.Domain.Kind
use codarr.Domain.Kind.Laws.{labels_of-kind_of}
use codarr.Domain.Media.{codarr_output}
use codarr.Domain.Plan.{
  StreamPlan, Plan, needs_write, encodes_video, video_stream, copy, encode, drop, matroska, mp4,
  progressive, interlaced, eq_decision, is_interlaced, video, audio,
}
use codarr.Probe
use codarr.Probe.{
  Stream, Disposition, SideData, Format, primary_video, chroma, dolby_vision_profile,
  streams_of_type, type_audio, level_value, frame_rate,
}
use codarr.Probe.Chroma.{is_420}
use codarr.Decide.Policy.{audio_encode_target, audio_copy_list, subtitle_text_codecs}
use codarr.Decide.Video.{copy_failures, plan_video, level_rewrite_applies}
use codarr.Decide.Video.Laws.{IsCopyable, copy_failures-nil_iff, allowed_profiles}
use codarr.Decide.Video.Verdicts.{
  FitsLevel42, level_rewrite-FitsLevel42, plan_video-copy, plan_video-interlaced,
}
use codarr.Decide.Audio.Laws.{audio_encode_target-IsCopied}
use codarr.Decide.Subtitle.{plan_subtitle}
use codarr.Decide.Subtitle.Laws.{plan_subtitle-drop_iff}
use codarr.Decide.Engine.{
  Options, Analysis, PlanError, no_audio_streams, plan, assign_output_indices, base_plan,
}
use codarr.Decide.Engine.Indices.{assign_output_indices-at, kept, numbered}
use codarr.Decide.Engine.Settled.{IsSettled, needs_write_iff, plan_refused_iff, plan_found}
use codarr.Decide.Force.{force_video_encode, force_first}
use codarr.Decide.Force.Protected.{plan-protected}
use codarr.Decide.Force.Laws.{Change, force_video_encode-Change, force_video_encode-none_iff}
use codarr.Decide.Skip.{
  check_skip, check_skip_iff, tag_of, tag_present, tag_policy, is_found, value_of,
}

abbrev pub plain : Disposition
plain = record { default = 1; forced = 0; comment = 0; visual_impaired = 0; attached_pic = 0 }

abbrev pub picture : Stream
picture = record {
  index = 0;
  codec_name = "h264";
  codec_type = "video";
  profile = "High";
  level = pos 41;
  width = 1920;
  height = 1080;
  pix_fmt = "yuv420p";
  r_frame_rate = "24/1";
  avg_frame_rate = "24/1";
  duration = "";
  channels = 0;
  channel_layout = "";
  bit_rate = "";
  field_order = "progressive";
  color_transfer = "";
  refs = 4;
  disposition = plain;
  tags = [];
  side_data_list = [];
}

abbrev pub steep : Stream
steep = record picture { level = pos 51 }

abbrev vision : Stream
vision = record picture {
  codec_name = "hevc";
  pix_fmt = "yuv444p";
  side_data_list = record { type = "DOVI configuration record"; dv_profile = some 5 } ∷ [];
}

abbrev pub sound : Stream
sound = record picture { index = 1; codec_name = "aac"; codec_type = "audio"; channels = 2 }

abbrev pub text : Stream
text = record picture { index = 2; codec_name = "subrip"; codec_type = "subtitle" }

abbrev pub film : Probe.Result
film = record {
  format = record {
    filename = "/films/a.mkv";
    format_name = "matroska,webm";
    duration = "100";
    size = "1000";
    bit_rate = "";
    tags = ("CODARR", "1") ∷ ("CODARR_POLICY", "abcd1234") ∷ [];
  };
  streams = picture ∷ sound ∷ text ∷ [];
  chapters = [];
}

abbrev silent : Probe.Result
silent = record film { streams = steep ∷ [] }

abbrev here : Options
here = record { path = "/films/a.mkv"; idet_scan = none }

abbrev analysed : Result PlanError Analysis → Plan
analysed (ok a) = a.plan
analysed (err e) = record {
  kind = Kind.kind_skip;
  source_container = "";
  output_container = mp4;
  streams = [];
  level_rewrite = false;
  deinterlace = false;
  hdr = false;
  dolby_vision = false;
  dolby_vision_profile = 0;
  hdr_transfer = "";
  target_video_bitrate = 0;
  reasons = [];
  policy_hash = "";
}

abbrev found_in : Result PlanError Analysis → Analysis
found_in (ok a) = a
found_in (err e) = record { plan = analysed (err e); needs_idet_sample = false }

copy_failures-nil_iff_example :
    (copy_failures picture progressive ≡ []) ↔ IsCopyable picture progressive
copy_failures-nil_iff_example = copy_failures-nil_iff picture progressive

-- A film with sound has a plan.
film_found : plan "abcd1234" (some film) here ≡ ok (found_in (plan "abcd1234" (some film) here))
unfolding primary_video streams_of_type
film_found = ground (arith, plan_found "abcd1234" film here picture refl)

needs_write_iff_example :
    (needs_write (found_in (plan "abcd1234" (some film) here)).plan ≡ false)
    ↔ IsSettled film here picture
unfolding primary_video
needs_write_iff_example =
    needs_write_iff "abcd1234" film here picture refl (found_in (plan "abcd1234" (some film) here))
      film_found

plan_refused_iff_example :
    (plan "abcd1234" (some silent) here ≡ err no_audio_streams)
    ↔ ((streams_of_type silent type_audio ≡ []) × ¬ IsSettled silent here steep)
unfolding primary_video
plan_refused_iff_example = plan_refused_iff "abcd1234" silent here steep refl

level_rewrite-FitsLevel42_example :
    ((plan_video steep progressive false).decision ≡ copy)
    × (str_eq steep.codec_name "h264" ≡ true)
    × (contains (allowed_profiles steep.codec_name) steep.profile ≡ true)
    × (is_420 (chroma steep) ≡ true)
    × (is_interlaced progressive ≡ false)
    × FitsLevel42 steep
unfolding plan_video copy_failures level_value dolby_vision_profile chroma level_rewrite_applies
    frame_rate parse_decimal
level_rewrite-FitsLevel42_example = level_rewrite-FitsLevel42 steep progressive false refl

plan_video-copy_example :
    IsCopyable picture progressive
    ⊎ ((dolby_vision_profile picture ≡ some 5)
        ⊎ ((plan_video picture progressive false).level_rewrite ≡ true))
unfolding plan_video copy_failures level_value chroma
plan_video-copy_example = plan_video-copy picture progressive false refl

plan_video-interlaced_example :
    ((plan_video picture interlaced true).decision ≡ encode)
    × ((plan_video picture interlaced true).deinterlace ≡ true)
unfolding dolby_vision_profile
plan_video-interlaced_example = plan_video-interlaced picture true (λ e. cc e)

abbrev pub lane : List StreamPlan
lane = base_plan video 0 picture ∷ base_plan audio 0 sound ∷ []

assign_output_indices-at_example :
    get_elem? (assign_output_indices (lane ++ base_plan audio 1 sound ∷ [])) (length lane)
    ≡ some (numbered (kept audio lane) (base_plan audio 1 sound))
assign_output_indices-at_example = assign_output_indices-at lane (base_plan audio 1 sound) []

abbrev forced_plan : Option Plan → Plan
forced_plan none = analysed (err no_audio_streams)
forced_plan (some p) = p

abbrev film_plan : Plan
film_plan = record (analysed (err no_audio_streams)) { streams = lane }

force_video_encode-Change_example :
    Change "too big" film_plan.streams
      (forced_plan (force_video_encode film_plan "too big")).streams
    × (encodes_video (forced_plan (force_video_encode film_plan "too big")) ≡ true)
    × ((forced_plan (force_video_encode film_plan "too big")).level_rewrite ≡ false)
    × ((film_plan.dolby_vision && film_plan.dolby_vision_profile == 5) ≡ false)
unfolding force_video_encode force_first
force_video_encode-Change_example =
    force_video_encode-Change film_plan (forced_plan (force_video_encode film_plan "too big"))
      "too big" refl

force_video_encode-none_iff_example : (force_video_encode film_plan "too big" ≡ none) ↔ (
    ((film_plan.dolby_vision && film_plan.dolby_vision_profile == 5) ≡ true)
    ⊎ (video_stream film_plan ≡ none))
force_video_encode-none_iff_example = force_video_encode-none_iff film_plan "too big"

check_skip_iff_example : ((check_skip "abcd1234" (some film) "fp" "fp").skip ≡ true) ↔ (
    (is_found (tag_of (some film) tag_present) ≡ true)
    × (value_of (tag_of (some film) tag_policy) ≡ "abcd1234")
    × (◌≢◌ {A = String} "fp" "")
    × (◌≡◌ {A = String} "fp" "fp")
    × ((check_skip "abcd1234" (some film) "fp" "fp").provenance ≡ codarr_output))
check_skip_iff_example = check_skip_iff "abcd1234" (some film) "fp" "fp"

audio_encode_target-IsCopied_example :
    contains
      (audio_copy_list (audio_encode_target matroska 8).channels)
      (audio_encode_target matroska 8).codec
    ≡ true
audio_encode_target-IsCopied_example = audio_encode_target-IsCopied matroska 8

plan_subtitle-drop_iff_example :
    eq_decision (plan_subtitle text mp4).decision drop
    ≡ not (contains subtitle_text_codecs text.codec_name)
plan_subtitle-drop_iff_example = plan_subtitle-drop_iff text mp4

labels_of-kind_of_example :
    Kind.labels_of (Kind.kind_of ("remux" ∷ "video" ∷ "remux" ∷ "poster" ∷ []))
    ≡ keep (λ l. contains ("remux" ∷ "video" ∷ "remux" ∷ "poster" ∷ []) l) Kind.labels
labels_of-kind_of_example = labels_of-kind_of ("remux" ∷ "video" ∷ "remux" ∷ "poster" ∷ [])

abbrev vision_film : Probe.Result
vision_film = record film { streams = vision ∷ sound ∷ [] }

vision_found :
    plan "abcd1234" (some vision_film) here
    ≡ ok (found_in (plan "abcd1234" (some vision_film) here))
unfolding primary_video streams_of_type
vision_found = ground (arith, plan_found "abcd1234" vision_film here vision refl)

plan-protected_example :
    (encodes_video (found_in (plan "abcd1234" (some vision_film) here)).plan ≡ false)
    × ((reason : String)
        → force_video_encode (found_in (plan "abcd1234" (some vision_film) here)).plan reason
          ≡ none)
unfolding primary_video dolby_vision_profile equal_fold
plan-protected_example =
    plan-protected "abcd1234" vision_film here vision refl
      (found_in (plan "abcd1234" (some vision_film) here)) vision_found refl
