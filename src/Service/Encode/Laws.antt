-- ===== src/Service/Encode/Laws.antt =====
-- The encode loop ends after at most five runs of ffmpeg.
use codarr.Prelude.{
  ℕ, zero, suc, ◌≤◌, ◌<◌, String, Bool, false, List, [], ◌∷◌, ◌++◌, Option, none, some, Result, ok,
  err, ◌≡◌, ◌≢◌, ◌⊎◌, inl, inr, refl, ap, ◌∙◌, some-inj, ok-inj, arith, Bool-cases, Option-cases,
  if◌then◌else◌,
}
use mathlib.Core.Path.{subst}
use codarr.Domain.Plan.{
  Encoder, no_encoder, qsv, vaapi, software, DecodePath, on_hardware, encodes_video,
}
use codarr.Ffmpeg.Argv
use codarr.Ffmpeg.Argv.{Command}
use codarr.Ffmpeg.Argv.Laws.{build-on_hardware}
use codarr.Hardware.{retry_in_software, next}
use codarr.Hardware.Laws.{next-steps_left, steps_left}
use codarr.Promote.Effects.Laws.{Result-cases}
use codarr.Service.Types.{Task, RunResult}
use codarr.Service.Fault.{Fault, spent, cancelled}
use codarr.Service.Effects.{World, Action, ◌>>=◌, return}
use codarr.Service.Effects.Laws.{
  Raises, Fails, Ensures, bind-Ensures, write-Raises, return-Raises, then-Raises, ensured-Raises,
  lift-Raises,
}
use codarr.Service.Prepare.{run_ffmpeg, unless_stopped}
use codarr.Service.Encode.{
  record_execution, run_recorded, attempt, encode, encode_round, after_attempt, step_back,
  step_encoder, build, request_of, retried, stepped, finished, encode_exhausted, describe_attempt,
  again_or,
}

-- How many runs are left with an encoder, and with its software decode.
runs_with : Encoder → Bool → ℕ
runs_with qsv retried = if retried then 4 else 5
runs_with vaapi retried = if retried then 2 else 3
runs_with software retried = 1
runs_with no_encoder retried = 1

unfoldable pub runs_left : Task → ℕ
unfolding runs_with
runs_left t = runs_with t.selection.encoder t.decode_retried

pub runs_left-le : (t : Task) → runs_left t ≤ 5
unfolding runs_left
runs_left-le t = ground arith

runs_left-pos : (t : Task) → 1 ≤ runs_left t
unfolding runs_left
runs_left-pos t = ground arith

runs_with-lt :
    (e f : Encoder) (b : Bool) → steps_left f < steps_left e → runs_with f false < runs_with e b
unfolding runs_with
runs_with-lt e f b h = ground arith

retry-runs_left :
    (t : Task) (reason : String)
    → (t.selection.encoder ≡ qsv) ⊎ (t.selection.encoder ≡ vaapi)
    → t.decode_retried ≡ false
    → runs_left (retried t reason) < runs_left t
unfolding runs_left
retry-runs_left t reason (inl e) r = rw (e, r) (omega arith)
retry-runs_left t reason (inr e) r = rw (e, r) (omega arith)

retry-why :
    (d : DecodePath) (already : Bool) {reason : String}
    → retry_in_software d already ≡ some reason
    → (d ≡ on_hardware) × (already ≡ false)
unfolding retry_in_software
retry-why d already e = ground (arith, e)

build-request :
    (w : World) (t : Task) {cmd : Command}
    → build w t ≡ ok cmd
    → Argv.build (request_of w t) ≡ ok cmd
unfolding build
build-request w t e = elim (Result-cases (Argv.build (request_of w t))) [
  | inl (c, q) ↦ q ∙ ap ok (ok-inj {E = Fault} (rw (build, q) at e))
  | inr (x, q) ↦ absurd (cc (rw (build, q) at e))
]

step_encoder-runs_left :
    (t : Task) {t' : Task} → step_encoder t ≡ some t' → runs_left t' < runs_left t
unfolding runs_left
step_encoder-runs_left t {t'} e = elim (Bool-cases (encodes_video t.plan)) [
  | inr v ↦ absurd (cc (rw (step_encoder, v) at e))
  | inl v ↦ elim (Option-cases (next t.caps t.selection.encoder t.plan.hdr)) [
    | inl n ↦ absurd (cc (rw (step_encoder, v, n) at e))
    | inr (s, n) ↦
        let same : some (stepped t s) ≡ some t' = rw (step_encoder, v, n) at e in
        subst (λ u. runs_left u < runs_left t) (some-inj same)
          (runs_with-lt t.selection.encoder s.encoder t.decode_retried
            (next-steps_left t.caps t.selection.encoder t.plan.hdr n))
  ]
]

-- Each step back leaves fewer runs.
step_back-runs_left :
    (w : World) (t : Task) {cmd : Command} {t' : Task}
    → build w t ≡ ok cmd
    → step_back t cmd ≡ some t'
    → runs_left t' < runs_left t
unfolding step_back request_of
step_back-runs_left w t {cmd} {t'} b e =
    elim (Option-cases (retry_in_software cmd.decode_path t.decode_retried)) [
      | inl n ↦ step_encoder-runs_left t (rw (step_back, n) at e)
      | inr (reason, n) ↦
          let same : some (retried t reason) ≡ some t' = rw (step_back, n) at e in
          let (hard, fresh) = retry-why cmd.decode_path t.decode_retried n in
          subst (λ u. runs_left u < runs_left t) (some-inj same)
            (retry-runs_left t reason
              (build-on_hardware (request_of w t) (build-request w t b) hard) fresh)
    ]

-- The errors that end the loop are none of the model's own.
abbrev pub IsReal : Fault → Type 0
IsReal e = e ≢ spent

abbrev pub IsRealRun : RunResult × Option Fault → Type 0
IsRealRun (res, none) = Unit
IsRealRun (res, some e) = IsReal e

record_execution-IsReal :
    (w : World) (cmd : Command) (t : Task) → Raises IsReal (record_execution w cmd t)
unfolding record_execution
record_execution-IsReal w cmd t = write-Raises IsReal w _ _ (λ h e q r. cc r)

run_recorded-IsReal :
    (w : World) (t : Task) (cmd : Command) (r : Result Fault Bool)
    → Fails IsReal r
    → Ensures IsRealRun IsReal (run_recorded w t cmd r)
unfolding run_recorded run_ffmpeg ◌>>=◌
run_recorded-IsReal w t cmd (err e) p h = p
run_recorded-IsReal w t cmd (ok done) p h = elim (Option-cases (w.run h cmd.args).1) [
  | inl n ↦ rw (◌>>=◌, n) tt
  | inr (e, n) ↦ rw (◌>>=◌, n) (λ q. cc q)
]

attempt-IsReal : (w : World) (t : Task) (cmd : Command) → Ensures IsRealRun IsReal (attempt w t cmd)
unfolding attempt
attempt-IsReal w t cmd =
    bind-Ensures IsReal (Fails IsReal) IsRealRun _ _ (λ h. record_execution-IsReal w cmd t h)
      (λ r p. run_recorded-IsReal w t cmd r p)

unless_stopped-Raises :
    {A : Type 0} (w : World) (e f : Fault) (k : Action A)
    → IsReal f
    → Raises IsReal k
    → Raises IsReal (unless_stopped w e f k)
unfolding unless_stopped
unless_stopped-Raises w e f k p pk h = elim (Bool-cases (cancelled (w.ctx_done h) e)) [
  | inl q ↦ rw (q) p
  | inr q ↦ rw (q) (pk h)
]

again_or-IsReal :
    (again : List String → Task → Action Task) (e : Fault) (tried : List String) (o : Option Task)
    → IsReal e
    → ((t : Task) → o ≡ some t → Raises IsReal (again tried t))
    → Raises IsReal (again_or again e tried o)
again_or-IsReal again e tried none p go = λ h. p
again_or-IsReal again e tried (some t) p go = go t refl

after_attempt-IsReal :
    (w : World) (again : List String → Task → Action Task) (tried : List String) (t : Task)
    (cmd : Command) (out : RunResult × Option Fault)
    → IsRealRun out
    → ((tried' : List String) (t' : Task)
        → step_back t cmd ≡ some t'
        → Raises IsReal (again tried' t'))
    → Raises IsReal (after_attempt w again tried t cmd out)
unfolding after_attempt encode_exhausted
after_attempt-IsReal w again tried t cmd (res, none) p next =
    then-Raises IsReal (record_execution w cmd (finished t res)) (return (finished t res))
      (record_execution-IsReal w cmd (finished t res)) (return-Raises IsReal (finished t res))
after_attempt-IsReal w again tried t cmd (res, some e) p next = unless_stopped-Raises w e e _ p (
    again_or-IsReal again _ (tried ++ describe_attempt t cmd ∷ []) (step_back t cmd) (λ q. cc q)
      (λ t' q. next _ t' q))

build-IsReal : (w : World) (t : Task) → Fails IsReal (build w t)
unfolding build
build-IsReal w t = elim (Result-cases (Argv.build (request_of w t))) [
  | inl (c, q) ↦ rw (Fails, q) tt
  | inr (x, q) ↦ rw (Fails, q) (λ r. cc r)
]

round-IsReal :
    (w : World) (again : List String → Task → Action Task) (tried : List String) (t : Task)
    → ((tried' : List String) (t' : Task)
        → runs_left t' < runs_left t
        → Raises IsReal (again tried' t'))
    → Raises IsReal (encode_round w again tried t)
unfolding encode_round
round-IsReal w again tried t next = lift-Raises IsReal (build w t) _ (build-IsReal w t) (λ cmd q.
    ensured-Raises IsReal IsRealRun (attempt w t cmd) _ (attempt-IsReal w t cmd) (λ out p.
      after_attempt-IsReal w again tried t cmd out p
        (λ tried' t' s. next tried' t' (step_back-runs_left w t q s))))

-- With as much fuel as there are runs left, the loop ends with a result or with an error of the
-- program.
pub encode-IsReal :
    (fuel : ℕ) (w : World) (tried : List String) (t : Task)
    → runs_left t ≤ fuel
    → Raises IsReal (encode fuel w tried t)
unfolding encode
encode-IsReal zero w tried t le = absurd (ground (arith, le, runs_left-pos t))
encode-IsReal (suc fuel) w tried t le =
    round-IsReal w (λ tried' t'. encode fuel w tried' t') tried t
      (λ tried' t' lt. encode-IsReal fuel w tried' t' (omega (arith, lt, le)))
