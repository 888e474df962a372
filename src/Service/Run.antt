-- ===== src/Service/Run.antt =====
-- internal/job/execute.go and worker.go: one job from its claim to its end, and how it ends.
pub mod Laws
use codarr.Prelude.{
  ℕ, String, Bool, true, false, not, List, [], ◌∷◌, Option, none, some, Result, ok, err, str_eq,
  itoa, ◌<>◌, if◌then◌else◌,
}
use codarr.Jobs.Types.{FailureCode, fail_verification, Failed}
use codarr.Service.Types.{Work, Task}
use codarr.Service.Fault.{Fault, wrapped, classify, is_caused_by, row_missing}
use codarr.Service.Effects.{
  World, Trace, Event, staged, started, Action, ◌>>=◌, ◌>>◌, return, throw, write, attempt, remove,
  cancel_row, fail_row, set_analyzed, did,
}
use codarr.Service.Load.{load}
use codarr.Service.Prepare.{prepare}
use codarr.Service.Encode.{encode}
use codarr.Service.Finalise.{finalise}

-- The fuel that the encode loop needs at most.
abbrev pub max_runs : ℕ
max_runs = 5

unfoldable pub pipeline : World → Work → Action Bool
unfolding load prepare encode finalise
pipeline w job = do t ← load w job; t' ← prepare w t; t'' ← encode max_runs w [] t'; finalise w t''

-- `removeStaging`
unfoldable pub remove_staging : World → String → Action Bool
remove_staging w path = if str_eq path "" then return true else attempt w (remove path)

-- `CancelJob`, of which a row that has ended already is no error.
unfoldable pub cancel_running : World → ℕ → Action Bool
unfolding is_caused_by
cancel_running w id h = elim (w.answer h (cancel_row id)) [
  | none ↦ (ok true, did (cancel_row id) true ∷ h)
  | some e ↦ (
    if is_caused_by row_missing e then ok false else err (wrapped ("cancelling job " <> itoa id) e),
    did (cancel_row id) false ∷ h,
  )
]

unfoldable pub finish_cancelled : World → Work → String → Action Bool
unfolding remove_staging cancel_running
finish_cancelled w job staging = do
  remove_staging w staging
  cancel_running w job.id
  attempt w (set_analyzed job.media_file_id)

abbrev is_verification : FailureCode → Bool
is_verification fail_verification = true
is_verification _ = false

unfoldable pub finish_failed : World → Work → Failed → String → Action Bool
unfolding remove_staging
finish_failed w job f staging = do
  if is_verification f.code then return true else remove_staging w staging
  write w (fail_row job.id f) (wrapped ("failing job " <> itoa job.id))

-- The staging path of the job in flight: the last one set since it started.
unfoldable pub staging_of : Trace → String
staging_of [] = ""
staging_of (e ∷ h) = elim e [ staged path ↦ path | started id ↦ "" | _ ↦ staging_of h ]

-- The ways a job can end: its own end, a cancel, a shutdown, which leaves the row as it is, or a
-- failure.
unfoldable pub ended : World → Work → Result Fault Bool → Action Bool
unfolding finish_cancelled finish_failed staging_of classify
ended w job (ok a) h = (ok true, h)
ended w job (err e) h =
    if w.cancel_requested h
    then finish_cancelled w job (staging_of h) h
    else if w.ctx_done h
    then (ok true, h)
    else finish_failed w job (classify e) (staging_of h) h

abbrev mark_running : ℕ → Action Bool
mark_running id h = (ok true, started id ∷ h)

unfoldable pub with_running : World → Work → (Work → Action Bool) → Action Bool
unfolding ended
with_running w job run h = let (r, h') = (mark_running job.id >> run job) h in ended w job r h'

unfoldable pub execute : World → Work → Action Bool
unfolding with_running pipeline
execute w job = with_running w job (pipeline w)
