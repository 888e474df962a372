-- ===== src/Examples/Promotion.antt =====
-- One promotion: a film is encoded in place, and Plex streams it for the first few calls.
use codarr.Prelude.{
  ℕ, ◌<◌, ◌*◌, ◌+◌, String, Bool, true, false, [], ◌∷◌, none, some, ◌≡◌, refl, arith, length, ltb,
  str_eq, itoa, if◌then◌else◌,
}
use codarr.Domain.Kind
use codarr.Domain.Plan.{StreamPlan, Plan, video, audio, copy, encode, matroska, encodes_video}
use codarr.Promote.Types.{Request, SourceState, Staging, Output, OutputStream, PreflightRequest}
use codarr.Domain.Transform.{OutputIdentity}
use codarr.Promote.Effects.{
  looked, did, notify, Trace, join_path, World, FileInfo, free, streaming, dir,
}
use codarr.Promote.Effects.Laws.{guarded, replacements}
use codarr.Promote.Verify.{
  verify_output, verify_duration, verify_stream_shape, verify_audio, verify_video_copy,
  verify_dolby_vision, verify_size,
}
use codarr.Promote.Preflight.{preflight, choose_staging}
use codarr.Promote.Preflight.Laws.{preflight-ok, IsUnchanged, IsOneDevice}
use codarr.Promote.Preflight.Room.{IsRoomy, choose_staging-room}
use codarr.Promote.Effects.{is_abs}
use codarr.Promote.Replace.{promote, replace}
use codarr.Promote.Replace.Laws.Once.{promote-replaces, promote-none}
use codarr.Promote.Replace.Laws.Reads.{IsIdentified}
use codarr.Promote.Replace.Laws.Waiting.{replace-ends, is_spent, IsFreeAfter}

abbrev stream_plan_at : ℕ → StreamPlan
stream_plan_at i = record {
  type = video;
  source_index = i;
  output_index = some i;
  decision = encode;
  reason = "interlaced";
  language = "";
  title = "";
  target_codec = "h264";
  target_bitrate = 0;
  target_channels = 0;
  default = true;
  forced = false;
  comment = false;
  visual_impaired = false;
}

abbrev sound_plan : StreamPlan
sound_plan = record (stream_plan_at 0) { type = audio; decision = copy; language = "eng" }

abbrev film_plan : Plan
unfolding Kind.kind_of
film_plan = record {
  kind = Kind.kind_of (Kind.label_video ∷ []);
  source_container = "matroska";
  output_container = matroska;
  streams = stream_plan_at 0 ∷ sound_plan ∷ [];
  level_rewrite = false;
  deinterlace = true;
  hdr = false;
  dolby_vision = false;
  dolby_vision_profile = 0;
  hdr_transfer = "";
  target_video_bitrate = 0;
  reasons = [];
  policy_hash = "abcd1234";
}

abbrev film_source : SourceState
film_source = record {
  size_bytes = 1000;
  mtime = 7;
  fingerprint = "old";
  duration_seconds = record { num = 100; den = 1 };
  video = none;
  legacy_container = false;
}

abbrev film_request : Request
unfolding film_plan
film_request = record {
  source_path = "/films/a.mkv";
  staging = record {
    path = "/films/.codarr-staging-4.mkv";
    final_path = "/films/.codarr-staging-4.mkv";
    used_temp_dir = false;
    cross_device = false;
  };
  plan = film_plan;
  source = film_source;
  full_hash_enabled = true;
  final_out_time_seconds = record { num = 100; den = 1 };
}

abbrev picture_out : OutputStream
picture_out = record {
  type = video;
  codec = "h264";
  profile = "High";
  level = "41";
  width = 1920;
  height = 1080;
  language = "";
  dolby_vision = false;
}

abbrev film_output : Output
film_output = record {
  duration_seconds = record { num = 201; den = 2 };
  streams = picture_out ∷ record picture_out { type = audio; codec = "aac"; language = "ENG" } ∷ [];
}

abbrev film_info : FileInfo
film_info = record {
  size = 1000;
  mode = 420;
  mtime = 7;
  uid = 1;
  gid = 1;
  nlink = 1;
  device = 5;
  is_dir = false;
}

-- Plex streams the film until six calls have been made.
abbrev evening : World
evening = record {
  probe = λ h p. some film_output;
  stat = λ h p. some film_info;
  free_bytes = λ h p. some 5000;
  sparse = λ h p. some "old";
  full = λ h p. some "full";
  guard = λ h p. if ltb (length h) 6 then streaming "tv" else free;
  succeeds = λ h c. true;
  now = λ h. 9;
}

evening-IsFreeAfter : (path : String) → IsFreeAfter evening 6 path
evening-IsFreeAfter path h l = ground (arith, l)

promote-replaces_example :
    (replacements (promote 7 evening film_request []).1
      ≡ (if (promote 7 evening film_request []).0.0.renamed then 1 else 0) + replacements [])
    × (guarded (promote 7 evening film_request []).1 ≡ true)
unfolding guarded
promote-replaces_example = promote-replaces 7 evening film_request [] refl

promote-none_example :
    ((promote 7 evening film_request []).0.0.renamed ≡ true)
    × ((i : OutputIdentity) × ((promote 7 evening film_request []).0.0.identity ≡ some i)
        × ((g : Trace) × (b : Bool) × ((promote 7 evening film_request []).1
              ≡ did (notify "/films/a.mkv") b ∷ looked "/films/a.mkv" ∷ looked "/films/a.mkv" ∷ g)
            × IsIdentified evening film_request g i
            × (replacements g ≡ 1 + replacements [])))
unfolding promote film_request verify_output verify_duration verify_stream_shape verify_audio
    verify_video_copy verify_dolby_vision verify_size encodes_video
promote-none_example = promote-none 7 evening film_request [] refl

replace-ends_example :
    is_spent (replace 7 evening film_request "/films/.codarr-staging-4.mkv" []).0 ≡ false
replace-ends_example =
    replace-ends 6 evening 6 film_request "/films/.codarr-staging-4.mkv" []
      (evening-IsFreeAfter "/films/a.mkv") (omega arith)

abbrev film_job : PreflightRequest
film_job = record {
  job_id = 4;
  source_path = "/films/a.mkv";
  source = film_source;
  output_ext = "mkv";
}

-- Only the temporary directory has room, on another device.
abbrev crowded : World
crowded = record evening {
  free_bytes = λ h p. if str_eq p "/tmp" then some 5000 else some 10;
  stat = λ h p. some (record film_info { device = if str_eq p "/tmp" then 6 else 5 });
}

abbrev staged : Staging
staged = record {
  path = "/tmp/.codarr-staging-4.mkv";
  final_path = "/films/.codarr-staging-4.mkv";
  used_temp_dir = true;
  cross_device = true;
}

preflight-ok_example :
    (is_abs film_job.source_path ≡ true)
    × ((g : Trace) × ((preflight crowded "/tmp" film_job []).1
          ≡ looked (dir film_job.source_path) ∷ looked (dir staged.path) ∷ g)
        × IsOneDevice crowded "/tmp" film_job staged g)
    × ((info : FileInfo) × (crowded.stat [] film_job.source_path ≡ some info)
        × IsUnchanged film_job info)
unfolding preflight itoa
preflight-ok_example = preflight-ok crowded "/tmp" film_job [] staged refl

choose_staging-room_example :
    (name : String) × (room : ℕ) × (staged.final_path ≡ join_path "/films" name)
    × IsRoomy crowded "/tmp" film_job "/films" [] (record staged { cross_device = false }) name room
    × (1000 * 12 < (room + 1) * 10)
unfolding choose_staging itoa
choose_staging-room_example =
    choose_staging-room crowded "/tmp" film_job "/films" [] (record staged { cross_device = false })
      refl
