-- ===== src/Service/Finalise.antt =====
-- internal/job/execute.go, from the finished encode on: verifying, promoting and recording what was
-- promoted. The estimate's statistics and the notifications are left out.
pub mod Laws
pub mod Balance
use codarr.Prelude.{
  ℕ, ◌-◌, String, Bool, true, false, not, ◌&&◌, List, [], ◌∷◌, Option, none, some, Result, ok, err,
  str_eq, is_empty, itoa, ◌<>◌, if◌then◌else◌,
}
use codarr.Domain.Transform.{OutputIdentity, TransformRecord}
use codarr.Decide.Transform.Merge.{merge_measured}
use codarr.Probe
use codarr.Promote.Types.{Request}
use codarr.Jobs.Types.{
  JobState, queued, running, verifying, awaiting_stream_end, promoting, done, cancelled, failed,
  fail_internal, fail_probe,
}
use codarr.Service.Types.{Work, Task}
use codarr.Service.Fault.{Fault, wrapf, wrapped}
use codarr.Service.Effects.{
  World, Trace, Action, ◌>>=◌, ◌>>◌, return, throw, ask, write, attempt, set_state, set_blocked_by,
  record_promotion, Replaced, replaced, Promotion,
}

unfoldable pub state_name : JobState → String
state_name queued = "queued"
state_name running = "running"
state_name verifying = "verifying"
state_name awaiting_stream_end = "awaiting_stream_end"
state_name promoting = "promoting"
state_name done = "done"
state_name cancelled = "cancelled"
state_name failed = "failed"

unfoldable pub move_to : World → Task → JobState → Action Bool
unfolding state_name
move_to w t s = write w (set_state t.job.id s) (λ e.
    wrapf fail_internal e ("moving job " <> itoa t.job.id <> " to " <> state_name s <> " failed"))

abbrev pub promote_request : Task → Request
promote_request t = record {
  source_path = t.media.path;
  staging = t.staging;
  plan = t.plan;
  source = t.source;
  full_hash_enabled = t.settings.full_hash_enabled;
  final_out_time_seconds = record { num = t.final_out_us; den = 1000000 };
}

-- `block`: neither write stops the promotion.
unfoldable pub block : World → Task → List String → Action Bool
block w t [] = return true
block w t (reason ∷ reasons) =
    let rest = block w t reasons in
    attempt w (set_state t.job.id awaiting_stream_end)
    >> attempt w (set_blocked_by t.job.id reason)
    >> rest

-- `Promote`, with the calls of `OnBlocked` that it makes on its way, which have no error.
unfoldable pub promote : World → Task → Action Replaced
unfolding block
promote w t h =
    let res = w.promote h (promote_request t) in
    let (_, h') = block w t res.blocked_by h in
    (ok res, replaced (promote_request t) res.renamed ∷ h')

-- `elapsed`, in seconds.
unfoldable pub elapsed : ℕ → Option ℕ → ℕ
elapsed now none = 0
elapsed now (some started) = now - started

abbrev fingerprint_of : Option OutputIdentity → String
fingerprint_of none = ""
fingerprint_of (some i) = i.fingerprint

abbrev hash_of : Option OutputIdentity → String
hash_of none = ""
hash_of (some i) = elim i.full_hash [ none ↦ "" | some s ↦ s ]

abbrev mtime_of : Option OutputIdentity → ℕ
mtime_of none = 0
mtime_of (some i) = i.mtime

abbrev policy_of : Option OutputIdentity → String
policy_of none = ""
policy_of (some i) = i.policy_hash

-- The record with the measured output, and with the identity where there is one.
unfoldable pub settled_transform : Task → Replaced → ℕ → TransformRecord
unfolding merge_measured
settled_transform t res actual =
    let rec = merge_measured t.transform t.output actual in
    if str_eq (fingerprint_of res.identity) ""
    then rec
    else record rec { output_identity = res.identity }

abbrev pub promotion_of : Task → Replaced → ℕ → Promotion
promotion_of t res actual = record {
  job_id = t.job.id;
  media_file_id = t.media.id;
  fingerprint = fingerprint_of res.identity;
  full_hash = hash_of res.identity;
  output_size = res.output_size;
  output_mtime = mtime_of res.identity;
  policy_hash =
      if str_eq (policy_of res.identity) "" then t.plan.policy_hash else policy_of res.identity;
  transform = settled_transform t res actual;
  actual_seconds = actual;
}

-- `recordPromotion`, with the time that the job took.
unfoldable pub record_result : World → Task → Replaced → Action Bool
unfolding elapsed
record_result w t res h =
    write w (record_promotion (promotion_of t res (elapsed (w.now h) t.job.started_at)))
      (λ e. wrapf fail_internal e ("recording the promotion of job " <> itoa t.job.id <> " failed"))
      h

abbrev pub clear_blocked : World → Task → Replaced → Action Bool
clear_blocked w t res =
    if is_empty res.blocked_by then return true else attempt w (set_blocked_by t.job.id "")

unfoldable pub settle : World → Task → Replaced → Action Bool
unfolding record_result
settle w t res = record_result w t res >> clear_blocked w t res

-- What follows a promotion: its error counts as the job's, but a rename is recorded first.
unfoldable pub conclude : World → Task → Replaced → Option Fault → Action Bool
unfolding settle
conclude w t res none = settle w t res
conclude w t res (some e) =
    let stop = throw (wrapped ("promoting " <> t.media.path) e) in
    if not res.renamed then stop else settle w t res >> stop

abbrev pub measured : Task → Probe.Result → Task
measured t out = record t { output = some out }

unfoldable pub finalise : World → Task → Action Bool
unfolding move_to promote conclude
finalise w t = do
  move_to w t verifying
  out ←
      ask "output" (λ h. w.probe h t.staging.path)
        (λ e.
          wrapf fail_probe e ("the finished output " <> t.staging.path <> " could not be probed"))
  move_to w t promoting
  let t' = measured t out in promote w t' >>= λ res. conclude w t' res res.failure
