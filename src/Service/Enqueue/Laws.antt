-- ===== src/Service/Enqueue/Laws.antt =====
-- When a request to queue a file changes the queue.
use codarr.Prelude.{
  ℕ, true, false, List, [], ◌∷◌, none, some, ok, ◌≡◌, ◌≢◌, refl, arith, or_false, any-append,
  Bool-cases, Option-cases, inl, inr,
}
use codarr.Domain.Kind
use codarr.Probe
use codarr.Domain.Plan.{Plan}
use codarr.Jobs.Types.{Job, Store, is_active_state}
use codarr.Jobs.Rows.{has_active, is_entry}
use codarr.Jobs.Queue.{enqueue_job}
use codarr.Service.Types.{JobOrigin, Settings, MediaFile}
use codarr.Service.Effects.{World}
use codarr.Service.Load.{plan_for, stored_probe}
use codarr.Service.Enqueue.{
  is_missing, is_planned, blocked_from_queue, active_job_for_media, insert, inserted,
  enqueue_planned, enqueue, bind_plan,
}

-- A file that is work, with no active job.
pub record IsWork (m : MediaFile) (s : Store) : Type 0 where
  pub wanted : m.ignored ≡ false
  pub planned : is_planned m.plan ≡ true
  pub analyzed : m.analyzed ≡ true
  pub present : is_missing m.status ≡ false
  pub writes : Kind.is_skip m.plan_kind ≡ false
  pub idle : has_active m.id s.jobs ≡ false

unblocked :
    (m : MediaFile) (s : Store)
    → blocked_from_queue m ≡ none
    → has_active m.id s.jobs ≡ false
    → IsWork m s
unfolding blocked_from_queue
unblocked m s e h = ground (arith, e, h)

no_active : (id : ℕ) (js : List Job) → active_job_for_media id js ≡ none → has_active id js ≡ false
unfolding active_job_for_media has_active
no_active id [] e = refl
no_active id (j ∷ js) e = elim (Option-cases (active_job_for_media id js)) [
  | inr (k, q) ↦ absurd (cc (rw (active_job_for_media, q) at e))
  | inl q ↦ elim (Bool-cases (is_entry id j)) [
    | inl b ↦ absurd (cc (rw (active_job_for_media, q, b) at e))
    | inr b ↦ rw b (no_active id js q)
  ]
]

-- A request that changes the queue was for a file that is work and had no active job.
pub enqueue-IsWork :
    (w : World) (settings : Settings) (now : ℕ) (m : MediaFile) (origin : JobOrigin) (s : Store)
    → (enqueue w settings now m origin s).1 ≢ s
    → IsWork m s
unfolding enqueue enqueue_planned
enqueue-IsWork w settings now m origin s changed = elim (Option-cases (blocked_from_queue m)) [
  | inr (reason, b) ↦ absurd (changed (rw (enqueue, b) refl))
  | inl b ↦ elim (Option-cases (bind_plan m.plan (plan_for origin))) [
    | inl n ↦ absurd (changed (rw (enqueue, b, n) refl))
    | inr (p, n) ↦ elim (Option-cases (active_job_for_media m.id s.jobs)) [
      | inr (j, k) ↦ absurd (changed (rw (enqueue, b, n, enqueue_planned, k) refl))
      | inl k ↦ unblocked m s b (no_active m.id s.jobs k)
    ]
  ]
]

active-none :
    (id : ℕ) (js : List Job) → has_active id js ≡ false → active_job_for_media id js ≡ none
unfolding active_job_for_media has_active
active-none id [] e = refl
active-none id (j ∷ js) e =
    let (here, later) = or_false (is_entry id j) (has_active id js) e in
    rw (active_job_for_media, active-none id js later, here) refl

work_unblocked : (m : MediaFile) (s : Store) → IsWork m s → blocked_from_queue m ≡ none
unfolding blocked_from_queue
work_unblocked m s k = ground (arith, k)

-- A request for such a file, whose plan serves its origin and whose stored probe reads, queues it.
pub enqueue-queues :
    (w : World) (settings : Settings) (now : ℕ) (m : MediaFile) (origin : JobOrigin) (s : Store)
    {p : Plan} {probe : Probe.Result}
    → IsWork m s
    → bind_plan m.plan (plan_for origin) ≡ some p
    → stored_probe w m ≡ ok probe
    → has_active m.id (enqueue w settings now m origin s).1.jobs ≡ true
unfolding enqueue enqueue_planned insert inserted enqueue_job has_active is_active_state
enqueue-queues w settings now m origin s {p} k e q =
    let free = work_unblocked m s k in
    let idle = active-none m.id s.jobs k.idle in
    rw (enqueue, free, e, enqueue_planned, idle, insert, q, enqueue_job, k.idle)
      (rw (any-append (is_entry m.id) s.jobs) (ground arith))
