-- ===== src/Service/Encode/Runs.antt =====
-- How often the encode loop runs ffmpeg.
use codarr.Prelude.{
  ℕ, zero, suc, ◌+◌, ◌≤◌, String, Bool, true, false, List, [], ◌∷◌, Option, none, some, Result, ok,
  err, arith, Bool-cases, inl, inr, if◌then◌else◌,
}
use codarr.Promote.Effects.Laws.{Result-cases}
use codarr.Ffmpeg.Argv.{Command}
use codarr.Service.Types.{Task, RunResult}
use codarr.Service.Fault.{Fault, cancelled}
use codarr.Service.Effects.{World, Trace, Event, ran, Action, ◌>>=◌, ◌>>◌, return, lift, write}
use codarr.Service.Effects.Laws.{Fails}
use codarr.Service.Prepare.{unless_stopped, run_ffmpeg}
use codarr.Service.Encode.{
  encode, encode_round, after_attempt, record_execution, run_recorded, attempt, build, step_back,
  finished, again_or,
}
use codarr.Service.Encode.Laws.{IsReal, encode-IsReal, runs_left-le}

is_run : Event → Bool
is_run e = elim e [ ran argv b ↦ true | _ ↦ false ]

unfoldable pub runs : Trace → ℕ
unfolding is_run
runs [] = 0
runs (e ∷ h) = (if is_run e then 1 else 0) + runs h

Costs : {A : Type 0} → ℕ → Action A → Type 0
Costs n m = (h : Trace) → runs (m h).1 ≤ n + runs h

bind-Costs :
    {A B : Type 0} (a b n : ℕ) (m : Action A) (f : A → Action B)
    → a + b ≤ n
    → Costs a m
    → ((x : A) → Costs b (f x))
    → Costs n (m >>= f)
unfolding Costs ◌>>=◌
bind-Costs a b n m f le cm cf h = elim (Result-cases (m h).0) [
  | inl (x, r) ↦ rw (◌>>=◌, r) (omega (arith, le, cm h, cf x (m h).1))
  | inr (e, r) ↦ rw (◌>>=◌, r) (omega (arith, le, cm h))
]

record_execution-Costs : (w : World) (c : Command) (t : Task) → Costs 0 (record_execution w c t)
unfolding Costs record_execution write runs is_run
record_execution-Costs w c t h = omega arith

run_recorded-Costs :
    (w : World) (t : Task) (c : Command) (r : Result Fault Bool) → Costs 1 (run_recorded w t c r)
unfolding Costs run_recorded run_ffmpeg ◌>>=◌ runs is_run
run_recorded-Costs w t c (ok b) h = omega arith
run_recorded-Costs w t c (err e) h = omega arith

attempt-Costs : (w : World) (t : Task) (c : Command) → Costs 1 (attempt w t c)
unfolding Costs attempt ◌>>=◌
attempt-Costs w t c h =
    let (r, h') = record_execution w c t h in
    omega (arith, record_execution-Costs w c t h, run_recorded-Costs w t c r h')

again_or-Costs :
    (n : ℕ) (again : List String → Task → Action Task) (e : Fault) (tried : List String)
    (o : Option Task)
    → ((tried' : List String) (t' : Task) → Costs n (again tried' t'))
    → Costs n (again_or again e tried o)
unfolding Costs
again_or-Costs n again e tried none costs h = omega arith
again_or-Costs n again e tried (some t) costs h = costs tried t h

after_attempt-Costs :
    (w : World) (n : ℕ) (again : List String → Task → Action Task) (tried : List String) (t : Task)
    (c : Command) (out : RunResult × Option Fault)
    → ((tried' : List String) (t' : Task) → Costs n (again tried' t'))
    → Costs n (after_attempt w again tried t c out)
unfolding Costs after_attempt ◌>>◌ unless_stopped
after_attempt-Costs w n again tried t c (res, none) costs h = omega (
  arith,
  bind-Costs 0 0 n (record_execution w c (finished t res)) (λ x. return (finished t res))
      (omega arith) (record_execution-Costs w c (finished t res)) (λ x h'. omega arith) h,
)
after_attempt-Costs w n again tried t c (res, some e) costs h =
    elim (Bool-cases (cancelled (w.ctx_done h) e)) [
      | inl q ↦ rw q (omega arith)
      | inr q ↦ rw q (again_or-Costs n again _ _ (step_back t c) costs h)
    ]

encode-Costs :
    (fuel : ℕ) (w : World) (tried : List String) (t : Task) → Costs fuel (encode fuel w tried t)
unfolding Costs encode encode_round
encode-Costs zero w tried t = λ h. omega arith
encode-Costs (suc fuel) w tried t =
    bind-Costs 0 (suc fuel) (suc fuel) (lift (build w t)) _ (omega arith) (λ h. omega arith)
      (λ c.
        bind-Costs 1 fuel (suc fuel) (attempt w t c) _ (omega arith) (attempt-Costs w t c) (λ out.
          after_attempt-Costs w fuel (λ tried' t'. encode fuel w tried' t') tried t c out
            (encode-Costs fuel w)))

-- The encode loop ends, on any task and in any world, after at most five runs of ffmpeg, and never
-- because the model's fuel of five rounds has run out.
pub encode-ends :
    (w : World) (tried : List String) (t : Task) (h : Trace)
    → (runs (encode 5 w tried t h).1 ≤ 5 + runs h) × Fails IsReal (encode 5 w tried t h).0
unfolding Costs
encode-ends w tried t h = (encode-Costs 5 w tried t h, encode-IsReal 5 w tried t (runs_left-le t) h)
