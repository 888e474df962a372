-- ===== src/Examples/Commands.antt =====
-- A command for a film with two sound tracks, and the last lines that ffmpeg wrote.
use codarr.Prelude.{String, List, false, [], ◌∷◌, ◌++◌, ◌≡◌, ◌≢◌, refl, All}
use codarr.Domain.Plan.{StreamPlan, audio, video, software, in_software}
use codarr.Decide.Engine.{base_plan, assign_output_indices}
use codarr.Examples.Planning.{sound, lane}
use codarr.Examples.Service.{film_plan}
use codarr.Ffmpeg.Argv.{Request, output_streams, stream_args}
use codarr.Ffmpeg.Argv.Options.{Pairs, IsOption, output_streams-IsOption}
use codarr.Ffmpeg.Stderr.{lines, write, new_ring, unterminated}
use codarr.Ffmpeg.Stderr.Keep.{keep_last}
use codarr.Ffmpeg.Stderr.Laws.{split_from, lines-write}

abbrev film_lane : List StreamPlan
film_lane = lane ++ base_plan audio 1 sound ∷ []

abbrev film_request : Request
film_request = record {
  plan = record film_plan { streams = assign_output_indices film_lane };
  source = record { path = "/m/film.mkv"; video_codec = "h264"; legacy_container = false };
  output = "/m/film.mkv.part";
  tags = record { version = "1"; policy = "abcd1234" };
  encoder = software;
  device = "";
  force_software_decode = false;
}

output_streams-IsOption_example :
    All
      (λ o. o.plan.type ≢ video → Pairs (IsOption o.plan) (stream_args film_request in_software o))
      (output_streams (assign_output_indices film_lane))
output_streams-IsOption_example = output_streams-IsOption film_request in_software film_lane

abbrev noise : String
noise = "one\r\ntwo\nthree\nfour"

ring_keeps_two : lines (write noise (new_ring 2)) ≡ "two" ∷ "three" ∷ "four" ∷ []
unfolding lines write new_ring
ring_keeps_two = refl

lines-write_example :
    lines (write noise (new_ring 2))
    ≡ keep_last 2 (split_from "" noise).0 ++ unterminated (split_from "" noise).1
lines-write_example = lines-write 2 noise
