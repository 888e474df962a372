-- ===== src/Examples/Service.antt =====
-- One job of the service: in a world where every call succeeds, and in one where the settings cannot be
-- read.
use codarr.Prelude.{
  ◌+◌, ◌≤◌, true, false, [], ◌∷◌, none, some, ok, err, ◌≡◌, ◌≢◌, refl, sym, ap, ◌∙◌,
}
use codarr.Domain.Kind
use codarr.Domain.Plan.{Plan, matroska, video, audio}
use codarr.Probe
use codarr.Decide.Engine.{base_plan}
use codarr.Hardware.{Capabilities}
use codarr.Jobs.Types.{running, Store, media_analyzed}
use codarr.Jobs.Rows.{has_active}
use codarr.Examples.Planning.{steep, sound, film}
use codarr.Service.Types.{Settings, MediaFile, Work, Task, origin_manual}
use codarr.Service.Fault.{other}
use codarr.Service.Fault.Laws.{IsCoded}
use codarr.Service.Effects.{World, Replaced}
use codarr.Service.Effects.Laws.{Fails}
use codarr.Service.Effects.Sound.{AnswersWith}
use codarr.Service.Load.{new_task, stored_probe, plan_for}
use codarr.Service.Encode.{encode}
use codarr.Service.Encode.Runs.{runs, encode-ends}
use codarr.Service.Encode.Laws.{IsReal}
use codarr.Service.Finalise.Balance.{records, renames}
use codarr.Service.Run.{execute}
use codarr.Service.Run.Laws.{execute-Balanced, execute-Told, Told}
use codarr.Service.Enqueue.{enqueue}
use codarr.Service.Enqueue.Laws.{IsWork, enqueue-IsWork, enqueue-queues}

abbrev pub steep_film : Probe.Result
steep_film = record film { streams = record steep { field_order = "tt" } ∷ sound ∷ [] }

abbrev pub film_plan : Plan
film_plan = record {
  kind = Kind.label_audio;
  source_container = "matroska";
  output_container = matroska;
  streams = base_plan video 0 steep ∷ base_plan audio 0 sound ∷ [];
  level_rewrite = false;
  deinterlace = false;
  hdr = false;
  hdr_transfer = "";
  dolby_vision = false;
  dolby_vision_profile = 0;
  target_video_bitrate = 0;
  reasons = [];
  policy_hash = "abcd1234";
}

abbrev film_file : MediaFile
film_file = record {
  id = 7;
  path = "/films/a.mkv";
  ignored = false;
  analyzed = true;
  status = media_analyzed;
  size_bytes = 1000;
  mtime = 5;
  fingerprint = "old";
  probe_json = "{}";
  plan = some film_plan;
  plan_kind = film_plan.kind;
  plan_reasons = [];
}

abbrev film_job : Work
film_job = record {
  id = 1;
  media_file_id = 7;
  kind = Kind.label_audio;
  origin = origin_manual;
  state = running;
  staging_path = "";
  used_temp_dir = false;
  final_out_time_us = 0;
  started_at = some 3;
}

abbrev defaults : Settings
defaults = record {
  temp_dir = "/tmp";
  queue_paused = false;
  prioritise_quick_jobs = true;
  full_hash_enabled = false;
}

abbrev bare : Capabilities
bare = record { device = ""; ffmpeg_version = "7"; entries = [] }

abbrev renamed : Replaced
renamed = record {
  identity = none;
  output_size = 900;
  renamed = true;
  blocked_by = "alice" ∷ [];
  failure = none;
}

-- Every call succeeds; Plex streams the film at first.
abbrev calm : World
calm = record {
  version = "1";
  policy_hash = "abcd1234";
  parse = λ s. ok steep_film;
  settings = λ h. ok defaults;
  media = λ h id. ok film_file;
  preflight = λ h req. ok (record {
    path = "/films/.codarr-1.mkv";
    final_path = "/films/.codarr-1.mkv";
    used_temp_dir = false;
    cross_device = false;
  });
  promote = λ h req. renamed;
  estimate = λ h t. 60;
  sample = λ h path d. ok 3000000;
  run = λ h argv. (record { final_out_time_us = 100; stderr_tail = "" }, none);
  probe = λ h path. ok steep_film;
  capabilities = λ h. ok bare;
  answer = λ h c. none;
  ctx_done = λ h. false;
  cancel_requested = λ h. false;
  now = λ h. 10;
}

abbrev broken : World
broken = record calm { settings = λ h. err (other "database is locked") }

execute-Balanced_example :
    records (execute calm film_job []).1 + renames []
    ≡ renames (execute calm film_job []).1 + records []
execute-Balanced_example = execute-Balanced calm film_job [] (λ h req q. refl)

broken-AnswersWith : AnswersWith IsCoded broken
unfolding IsCoded
broken-AnswersWith = record {
  parse = λ s. tt;
  settings = λ h. tt;
  media = λ h id. tt;
  preflight = λ h req. tt;
  sample = λ h p d. tt;
  probe = λ h p. tt;
  capabilities = λ h. tt;
  answer = λ h c e q. absurd (cc q);
  run = λ h argv e q. absurd (cc q);
  promote = λ h req e q. absurd (cc q);
}

execute-Told_example : Told (execute broken film_job []).1
execute-Told_example = execute-Told broken film_job [] broken-AnswersWith tt

abbrev film_task : Task
film_task = new_task film_job film_file defaults steep_film (film_plan, false)

encode-ends_example :
    (runs (encode 5 calm [] film_task []).1 ≤ 5 + runs [])
    × Fails IsReal (encode 5 calm [] film_task []).0
encode-ends_example = encode-ends calm [] film_task []

abbrev empty : Store
empty = record { jobs = []; media = []; next_id = 1 }

film-IsWork : IsWork film_file empty
unfolding Kind.is_skip has_active
film-IsWork = record {
  wanted = refl;
  planned = refl;
  analyzed = refl;
  present = refl;
  writes = refl;
  idle = refl;
}

enqueue-queues_example :
    has_active 7 (enqueue calm defaults 4 film_file origin_manual empty).1.jobs ≡ true
unfolding plan_for stored_probe
enqueue-queues_example =
    enqueue-queues calm defaults 4 film_file origin_manual empty {p = film_plan}
      {probe = steep_film} film-IsWork refl refl

film_changed : (enqueue calm defaults 4 film_file origin_manual empty).1 ≢ empty
unfolding has_active plan_for stored_probe
film_changed e =
    let queued : has_active 7 (enqueue calm defaults 4 film_file origin_manual empty).1.jobs
        ≡ true =
      enqueue-queues calm defaults 4 film_file origin_manual empty {p = film_plan}
        {probe = steep_film} film-IsWork refl refl in
    absurd (cc (sym queued ∙ ap (λ (s : Store). has_active 7 s.jobs) e))

enqueue-IsWork_example : IsWork film_file empty
enqueue-IsWork_example = enqueue-IsWork calm defaults 4 film_file origin_manual empty film_changed
