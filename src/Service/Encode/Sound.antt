-- ===== src/Service/Encode/Sound.antt =====
-- The encode loop makes no promotion, ends no row, and ends with coded errors.
use codarr.Prelude.{
  ℕ, zero, suc, String, Bool, List, Option, none, some, Result, ok, err, refl, inl, inr,
  Option-cases,
}
use codarr.Promote.Effects.Laws.{Result-cases}
use codarr.Ffmpeg.Argv
use codarr.Ffmpeg.Argv.{Command}
use codarr.Jobs.Types.{fail_internal, fail_ffmpeg}
use codarr.Service.Types.{Task, RunResult}
use codarr.Service.Fault.{Fault}
use codarr.Service.Fault.Laws.{told_before}
use codarr.Service.Effects.{World, Trace, Action, ◌>>=◌, ran}
use codarr.Service.Effects.Laws.{Fails}
use codarr.Service.Effects.Sound.{
  IsTracked, AnswersWith, Sound, Yields, is_plain, is_plain_call, bind-Sound, lift-Sound,
  yield-Sound, then-Sound, throw-Sound, write-Sound,
}
use codarr.Service.Prepare.Laws.{IsAnswer, unless_stopped-Sound}
use codarr.Service.Prepare.{run_ffmpeg}
use codarr.Service.Encode.{
  encode, encode_round, after_attempt, record_execution, run_recorded, attempt, build, build_error,
  request_of, step_back, encode_exhausted, finished, again_or,
}

module _ (R : Trace → Trace → Type 0) (P : Fault → Type 0) (k : IsTracked R P) (w : World)
    (a : AnswersWith P w) where
  build-Fails : (t : Task) → Fails P (build w t)
  unfolding build build_error
  build-Fails t = elim (Result-cases (Argv.build (request_of w t))) [
    | inl (c, q) ↦ rw (Fails, q) tt
    | inr (x, q) ↦ rw (Fails, q) (k.coded fail_internal _ "" _ refl (k.foreign _))
  ]

  record_execution-Sound : (c : Command) (t : Task) → Sound R P (record_execution w c t)
  unfolding record_execution is_plain_call
  record_execution-Sound c t =
      write-Sound R P k w _ _ a refl (λ e p. k.coded fail_internal _ "" e refl p)

  Answer : RunResult × Option Fault → Type 0
  Answer = IsAnswer R P k w a

  run_recorded-Yields :
      (t : Task) (c : Command) (r : Result Fault Bool)
      → Fails P r
      → Yields Answer R P (run_recorded w t c r)
  unfolding run_recorded run_ffmpeg is_plain ◌>>=◌ Answer
  run_recorded-Yields t c (err e) p = λ h. (k.same h, p)
  run_recorded-Yields t c (ok b) p = λ h. elim (Option-cases (w.run h c.args).1) [
    | inl n ↦ (k.plain (ran c.args _) h refl, rw n tt)
    | inr (e, n) ↦ (k.plain (ran c.args _) h refl, rw n (k.passed _ e (a.run h c.args e n)))
  ]

  attempt-Yields : (t : Task) (c : Command) → Yields Answer R P (attempt w t c)
  unfolding attempt ◌>>=◌
  attempt-Yields t c h =
      let (trace, fault) = record_execution-Sound c t h in
      let (trace', out) = run_recorded-Yields t c (record_execution w c t h).0 fault _ in
      (k.join h _ _ trace trace', out)

  again_or-Sound :
      (again : List String → Task → Action Task) (e : Fault) (tried : List String) (o : Option Task)
      → P e
      → ((tried' : List String) (t : Task) → Sound R P (again tried' t))
      → Sound R P (again_or again e tried o)
  again_or-Sound again e tried none p next = throw-Sound R P k Task e p
  again_or-Sound again e tried (some t) p next = next tried t

  after_attempt-Sound :
      (again : List String → Task → Action Task) (tried : List String) (t : Task) (c : Command)
      (out : RunResult × Option Fault)
      → Answer out
      → ((tried' : List String) (t' : Task) → Sound R P (again tried' t'))
      → Sound R P (after_attempt w again tried t c out)
  unfolding after_attempt encode_exhausted Answer
  after_attempt-Sound again tried t c (res, none) p next =
      then-Sound R P k _ _ (record_execution-Sound c (finished t res)) (λ h. (k.same h, tt))
  after_attempt-Sound again tried t c (res, some e) p next =
      unless_stopped-Sound R P k w a e e _ p (
        again_or-Sound again _ _ (step_back t c)
          (k.made fail_ffmpeg _ _ refl (told_before _ _ refl)) next)

  -- The loop's body, given what it does next.
  round-Sound :
      (again : List String → Task → Action Task) (tried : List String) (t : Task)
      → ((tried' : List String) (t' : Task) → Sound R P (again tried' t'))
      → Sound R P (encode_round w again tried t)
  unfolding encode_round
  round-Sound again tried t next = bind-Sound R P k _ _ (lift-Sound R P k _ (build-Fails t)) (λ c.
      yield-Sound R P k Answer _ _ (attempt-Yields t c)
        (λ out p. after_attempt-Sound again tried t c out p next))

  pub encode-Sound : (fuel : ℕ) (tried : List String) (t : Task) → Sound R P (encode fuel w tried t)
  unfolding encode
  encode-Sound zero tried t = throw-Sound R P k Task _ k.out_of_fuel
  encode-Sound (suc fuel) tried t =
      round-Sound (λ tried' t'. encode fuel w tried' t') tried t (encode-Sound fuel)
