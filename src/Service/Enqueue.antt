-- ===== src/Service/Enqueue.antt =====
-- internal/job/enqueue.go: what one request to queue a file does. The estimate and the transform record
-- are left out, and so are queries that fail.
pub mod Laws
use codarr.Prelude.{
  ℕ, String, Bool, true, false, not, ◌&&◌, ◌||◌, List, [], ◌∷◌, Option, none, some, Result, ok, err,
  pos, itoa, join, is_empty, ◌<>◌, if◌then◌else◌,
}
use codarr.Domain.Kind
use codarr.Domain.Plan.{Plan}
use codarr.Jobs.Types.{JobState, MediaStatus, media_missing, Job, Store}
use codarr.Jobs.Rows.{is_entry}
use codarr.Jobs.Queue.{enqueue_job}
use codarr.Service.Types.{JobOrigin, Settings, MediaFile}
use codarr.Service.Fault.{Fault}
use codarr.Service.Effects.{World}
use codarr.Service.Load.{plan_for, stored_probe}
use codarr.Service.Finalise.{state_name}

pub record EnqueueResult : Type 0 where
  pub media_file_id : ℕ
  pub enqueued : Bool
  pub job_id : Option ℕ
  pub plan_kind : Kind.Kind
  pub planned : Bool
  pub reason : String

abbrev pub is_missing : MediaStatus → Bool
is_missing media_missing = true
is_missing _ = false

abbrev pub is_planned : Option Plan → Bool
is_planned none = false
is_planned (some p) = true

unfoldable pub skip_reason : MediaFile → String
skip_reason m =
    if is_empty m.plan_reasons
    then "the file already matches the policy"
    else "the file already matches the policy: " <> join "; " m.plan_reasons

-- The reason that a file is not work; `none` when it is.
unfoldable pub blocked_from_queue : MediaFile → Option String
unfolding skip_reason
blocked_from_queue m =
    if m.ignored
    then some "the file is on the ignore list"
    else if not (is_planned m.plan) || not m.analyzed
    then some "the file has not been analysed yet"
    else if is_missing m.status
    then some "the file is missing from disk"
    else if Kind.is_skip m.plan_kind
    then some (skip_reason m)
    else none

-- `ActiveJobForMedia`: the active job of a file with the greatest id.
unfoldable pub active_job_for_media : ℕ → List Job → Option Job
active_job_for_media id [] = none
active_job_for_media id (j ∷ js) =
    let rest = active_job_for_media id js in
    elim rest [ some k ↦ some k | none ↦ if is_entry id j then some j else none ]

abbrev pub Answer : Type 0
Answer = Result Fault EnqueueResult × Store

abbrev answered : EnqueueResult → String → EnqueueResult
answered res reason = record res { reason = reason }

abbrev queued_as : EnqueueResult → Plan → Job → EnqueueResult
queued_as res p j = record res {
  enqueued = true;
  job_id = some j.id;
  reason = "queued as " <> p.kind;
}

inserted : EnqueueResult → Plan → Option Job × Store → Answer
inserted res p (none, s) = (ok (answered res "this file already has an active job"), s)
inserted res p (some j, s) = (ok (queued_as res p j), s)

-- `insert`; the stored probe is read for the estimate, and an unreadable one is an error.
unfoldable pub insert : World → Settings → ℕ → MediaFile → Plan → EnqueueResult → Store → Answer
unfolding stored_probe enqueue_job inserted
insert w settings now m p res s = elim (stored_probe w m) [
  | err e ↦ (err e, s)
  | ok probe ↦
      inserted res p
        (enqueue_job m.id (pos (Kind.priority_for p.kind settings.prioritise_quick_jobs)) 0 now s)
]

abbrev fresh : MediaFile → EnqueueResult
fresh m = record {
  media_file_id = m.id;
  enqueued = false;
  job_id = none;
  plan_kind = m.plan_kind;
  planned = is_planned m.plan;
  reason = "";
}

unwanted : String
unwanted =
    "the current policy plans this file's video as a copy, so the space sweep has nothing to re-encode"

unfoldable pub enqueue_planned :
    World → Settings → ℕ → MediaFile → Plan → EnqueueResult → Store → Answer
unfolding active_job_for_media insert state_name
enqueue_planned w settings now m p res s = elim (active_job_for_media m.id s.jobs) [
  | some j ↦ (
    ok (record res {
      job_id = some j.id;
      reason = "job " <> itoa j.id <> " is already " <> state_name j.state <> " for this file";
    }),
    s,
  )
  | none ↦ insert w settings now m p res s
]

abbrev pub bind_plan : Option Plan → (Plan → Option Plan) → Option Plan
bind_plan none f = none
bind_plan (some p) f = f p

-- `enqueue`
unfoldable pub enqueue : World → Settings → ℕ → MediaFile → JobOrigin → Store → Answer
unfolding blocked_from_queue plan_for enqueue_planned unwanted
enqueue w settings now m origin s = elim (blocked_from_queue m) [
  | some reason ↦ (ok (answered (fresh m) reason), s)
  | none ↦ elim (bind_plan m.plan (plan_for origin)) [
    | none ↦ (ok (answered (fresh m) unwanted), s)
    | some p ↦ enqueue_planned w settings now m p (record (fresh m) { plan_kind = p.kind }) s
  ]
]
