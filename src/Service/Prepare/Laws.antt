-- ===== src/Service/Prepare/Laws.antt =====
-- Loading and preparing a job makes no promotion, ends no row, and ends with coded errors.
use codarr.Prelude.{
  ℕ, String, not, List, Option, none, some, Result, ok, err, Rat, str_eq, ◌≡◌, refl, Bool-cases,
  Option-cases, inl, inr,
}
use codarr.Domain.Plan.{Scan, needs_write, encodes_video}
use codarr.Probe
use codarr.Probe.{duration_of}
use codarr.Promote.Effects.Laws.{Result-cases}
use codarr.Decide.Engine.{PlanError, no_probe, no_video_stream, no_audio_streams, plan}
use codarr.Ffmpeg.Idet.{idet_args}
use codarr.Jobs.Types.{fail_internal, fail_probe}
use codarr.Service.Types.{Work, Task, MediaFile, RunResult}
use codarr.Service.Fault.{Fault, cancelled}
use codarr.Service.Fault.Laws.{told_after, told_before}
use codarr.Service.Effects.{World, Trace, Action, staged, ran, ◌>>=◌}
use codarr.Service.Effects.Laws.{Fails}
use codarr.Service.Effects.Sound.{
  IsTracked, AnswersWith, Sound, is_plain, is_plain_call, bind-Sound, then-Sound, if-Sound,
  throw-Sound, lift-Sound, caught-Sound, ask-Sound, write-Sound, attempt-Sound,
}
use codarr.Service.Load.{load, replan, replanned, stored_probe, plan_for, plan_error}
use codarr.Service.Prepare.{
  preflight, sample_probe, targeted, resolve_bitrate, run_ffmpeg, scanned, resolve_scan,
  select_encoder, write_transform, prepare, unless_stopped, set_staging, estimated,
}

module _ (R : Trace → Trace → Type 0) (P : Fault → Type 0) (k : IsTracked R P) (w : World)
    (a : AnswersWith P w) where
  stored_probe-Fails : (m : MediaFile) → Fails P (stored_probe w m)
  unfolding stored_probe
  stored_probe-Fails m = elim (Bool-cases (str_eq m.probe_json "")) [
    | inl e ↦ rw (Fails, e) (k.made fail_probe _ "" refl (told_after m.path _ refl))
    | inr e ↦ elim (Result-cases (w.parse m.probe_json)) [
      | inl (p, q) ↦ rw (Fails, e, q) tt
      | inr (x, q) ↦
          rw (Fails, e, q)
            (k.coded fail_probe _ "" x refl (rw (Fails, q) at (a.parse m.probe_json)))
    ]
  ]

  plan_error-P : (e : PlanError) → P (plan_error e)
  unfolding plan_error
  plan_error-P no_probe = k.foreign _
  plan_error-P no_video_stream = k.foreign _
  plan_error-P no_audio_streams = k.foreign _

  replanned-Fails :
      (job : Work) (m : MediaFile) (probe : Probe.Result) (target : ℕ) (scan : Option Scan)
      → Fails P (replanned w job m probe target scan)
  unfolding replanned
  replanned-Fails job m probe target scan =
      elim (Result-cases
        (plan w.policy_hash (some probe) (record { path = m.path; idet_scan = scan }))) [
          | inr (x, q) ↦
              rw (Fails, q) (k.coded fail_internal _ "" (plan_error x) refl (plan_error-P x))
          | inl (an, q) ↦ elim (Option-cases (plan_for job.origin an.plan)) [
            | inl n ↦
                rw (Fails, q, n)
                  (k.made fail_internal _ "" refl (told_after m.path _ (told_before _ _ refl)))
            | inr (p, n) ↦ elim (Bool-cases (needs_write p)) [
              | inl b ↦ rw (Fails, q, n, b) tt
              | inr b ↦
                  rw (Fails, q, n, b)
                    (k.made fail_internal _ "" refl (told_after m.path _ (told_before _ _ refl)))
            ]
          ]
        ]

  pub load-Sound : (job : Work) → Sound R P (load w job)
  unfolding load
  load-Sound job =
      bind-Sound R P k _ _
        (ask-Sound R P k _ _ _ a.settings (λ e p. k.coded fail_internal _ "" e refl p))
        (λ settings.
          bind-Sound R P k _ _
            (ask-Sound R P k _ _ _ (λ h. a.media h job.media_file_id)
              (λ e p. k.coded fail_internal _ "" e refl p))
            (λ m. bind-Sound R P k _ _ (lift-Sound R P k _ (stored_probe-Fails m)) (λ probe.
              bind-Sound R P k _ _ (lift-Sound R P k _ (replanned-Fails job m probe 0 none))
                (λ p h. (k.same h, tt)))))

  replan-Sound : (scan : Option Scan) (t : Task) → Sound R P (replan w scan t)
  unfolding replan
  replan-Sound scan t =
      bind-Sound R P k _ _
        (lift-Sound R P k _
          (replanned-Fails t.job t.media t.probe t.plan.target_video_bitrate scan))
        (λ p h. (k.same h, tt))

  set_staging-Sound : (path : String) → Sound R P (set_staging path)
  unfolding is_plain
  set_staging-Sound path h = (k.plain (staged path) h refl, tt)

  preflight-Sound : (t : Task) → Sound R P (preflight w t)
  unfolding preflight
  preflight-Sound t =
      bind-Sound R P k _ _ (ask-Sound R P k _ _ _ (λ h. a.preflight h _) (λ e p. k.passed _ e p))
        (λ staging. then-Sound R P k _ _ (set_staging-Sound staging.path) (λ h. (k.same h, tt)))

  abbrev pub IsAnswer : RunResult × Option Fault → Type 0
  IsAnswer (res, none) = Unit
  IsAnswer (res, some e) = P e

  answered : (out : RunResult × Option Fault) → ((e : Fault) → out.1 ≡ some e → P e) → IsAnswer out
  answered (res, none) p = tt
  answered (res, some e) p = p e refl

  pub ran-Sound :
      {B : Type 0} (argv : List String) (f : RunResult × Option Fault → Action B)
      → ((out : RunResult × Option Fault) → IsAnswer out → Sound R P (f out))
      → Sound R P (run_ffmpeg w argv >>= f)
  unfolding run_ffmpeg ◌>>=◌ is_plain
  ran-Sound argv f pf h =
      let (t, e) = pf (w.run h argv) (answered (w.run h argv) (a.run h argv)) _ in
      (k.join h _ _ (k.plain (ran argv _) h refl) t, e)

  pub unless_stopped-Sound :
      {A : Type 0} (e f : Fault) (m : Action A)
      → P f
      → Sound R P m
      → Sound R P (unless_stopped w e f m)
  unfolding unless_stopped
  unless_stopped-Sound e f m p pm h = elim (Bool-cases (cancelled (w.ctx_done h) e)) [
    | inl q ↦ rw (unless_stopped, q) (k.same h, p)
    | inr q ↦ rw (unless_stopped, q) (pm h)
  ]

  sample_probe-Sound : (d n path : String) (s : Rat) → Sound R P (sample_probe w d n path s)
  unfolding sample_probe is_plain_call
  sample_probe-Sound d n path s =
      if-Sound R P k (str_eq d "") _ _ (throw-Sound R P k ℕ _ (k.made fail_probe _ "" refl refl)) (
        then-Sound R P k _ _
          (write-Sound R P k w _ _ a refl (λ e p. k.coded fail_probe _ "" e refl p))
          (caught-Sound R P k _ _
            (ask-Sound R P k _ _ _ (λ h. a.sample h path s)
              (λ e p. k.coded fail_probe _ "" e refl p))
            (λ base p.
              then-Sound R P k _ _ (attempt-Sound R P k w _ refl) (lift-Sound R P k base p))))

  targeted-Sound : (t : Task) (r : Result Fault ℕ) → Fails P r → Sound R P (targeted w t r)
  unfolding targeted
  targeted-Sound t (ok base) p = λ h. (k.same h, tt)
  targeted-Sound t (err e) p = unless_stopped-Sound e e _ p (λ h. (k.same h, tt))

  resolve_bitrate-Sound : (t : Task) → Sound R P (resolve_bitrate w t)
  unfolding resolve_bitrate
  resolve_bitrate-Sound t =
      if-Sound R P k (not (encodes_video t.plan)) _ _ (λ h. (k.same h, tt))
        (caught-Sound R P k _ _ (sample_probe-Sound _ _ _ _) (targeted-Sound t))

  scanned-Sound :
      (t : Task) (out : RunResult × Option Fault) → IsAnswer out → Sound R P (scanned w t out)
  unfolding scanned
  scanned-Sound t (res, none) p = replan-Sound _ t
  scanned-Sound t (res, some e) p =
      unless_stopped-Sound e _ _ (k.passed _ e p) (λ h. (k.same h, tt))

  resolve_scan-Sound : (t : Task) → Sound R P (resolve_scan w t)
  unfolding resolve_scan
  resolve_scan-Sound t =
      if-Sound R P k (not t.needs_idet) _ _ (λ h. (k.same h, tt))
        (ran-Sound (idet_args t.media.path) _ (scanned-Sound t))

  select_encoder-Sound : (t : Task) → Sound R P (select_encoder w t)
  unfolding select_encoder
  select_encoder-Sound t =
      bind-Sound R P k _ _
        (ask-Sound R P k _ _ _ a.capabilities (λ e p. k.coded fail_internal _ "" e refl p))
        (λ caps h. (k.same h, tt))

  write_transform-Sound : (t : Task) → Sound R P (write_transform w t)
  unfolding write_transform is_plain_call
  write_transform-Sound t =
      then-Sound R P k _ _
        (write-Sound R P k w _ _ a refl (λ e p. k.coded fail_internal _ "" e refl p))
        (λ h. (k.same h, tt))

  pub prepare-Sound : (t : Task) → Sound R P (prepare w t)
  unfolding prepare
  prepare-Sound t = bind-Sound R P k _ _ (preflight-Sound t) (λ t₁.
      bind-Sound R P k _ _ (resolve_bitrate-Sound t₁) (λ t₂.
        bind-Sound R P k _ _ (resolve_scan-Sound t₂) (λ t₃.
          bind-Sound R P k _ _ (select_encoder-Sound t₃) (λ t₄.
            bind-Sound R P k (estimated w t₄) _ (λ h. (k.same h, tt)) write_transform-Sound))))
