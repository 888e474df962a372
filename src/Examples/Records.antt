-- ===== src/Examples/Records.antt =====
-- The record of a job on a film, as planned and as measured.
use codarr.Prelude.{some, ◌≡◌, refl}
use codarr.Domain.Transform.{TransformRecord}
use codarr.Examples.Planning.{film}
use codarr.Examples.Service.{film_plan, steep_film}
use codarr.Decide.Transform.{new_transform}
use codarr.Decide.Transform.Merge.{merge_measured}
use codarr.Decide.Transform.Laws.{source_half, merge_measured-source_half}

abbrev film_record : TransformRecord
film_record = new_transform steep_film film_plan 60

-- The output has one sound track, which is measured in place of the prediction.
measured_seconds : (merge_measured film_record (some film) 75).duration.actual ≡ some 75
unfolding merge_measured
measured_seconds = refl

merge_measured-source_half_example :
    source_half (merge_measured film_record (some film) 75) ≡ source_half film_record
merge_measured-source_half_example = merge_measured-source_half film_record (some film) 75
