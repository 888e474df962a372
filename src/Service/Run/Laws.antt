-- ===== src/Service/Run/Laws.antt =====
-- What a job that ran leaves behind: a record for each rename, and a code with a message for each
-- failure.
use codarr.Prelude.{
  ℕ, ◌+◌, String, Bool, true, false, [], ◌∷◌, Result, ok, err, str_eq, ◌≡◌, refl, arith, Bool-cases,
  Option-cases, inl, inr, All,
}
use codarr.Jobs.Types.{Failed}
use codarr.Service.Types.{Work, Task}
use codarr.Service.Fault.{Fault, classify, is_caused_by, row_missing}
use codarr.Service.Fault.Laws.{IsTold, IsCoded, classify-IsTold}
use codarr.Service.Effects.{
  World, Trace, Event, did, started, fail_row, record_promotion, cancel_row, set_analyzed, looked,
  ran, staged, set_state, set_blocked_by, store_transform, store_execution, remove, make_dir,
  remove_dir, replaced, ◌>>=◌,
}
use codarr.Service.Effects.Laws.{Fails}
use codarr.Service.Effects.Sound.{
  IsTracked, AnswersWith, Sound, is_plain, is_plain_call, bind-Sound, then-Sound, if-Sound,
  any_write-Sound, attempt-Sound,
}
use codarr.Service.Prepare.Laws.{load-Sound, prepare-Sound}
use codarr.Service.Encode.Sound.{encode-Sound}
use codarr.Service.Finalise.{promote, conclude}
use codarr.Service.Finalise.Laws.{finalise-Sound, closing-Sound}
use codarr.Service.Finalise.Balance.{
  is_rename, is_record, count, closing-Balanced, Balanced, Balanced-IsTracked, Anything, IsHonest,
  records, renames, Anything-AnswersWith,
}
use codarr.Service.Run.{
  pipeline, max_runs, remove_staging, cancel_running, finish_cancelled, finish_failed, staging_of,
  ended, with_running, execute, is_verification, mark_running,
}

module _ (R : Trace → Trace → Type 0) (P : Fault → Type 0) (k : IsTracked R P) (w : World)
    (a : AnswersWith P w) where
  pipeline-Sound :
      ((t : Task) → Sound R P (promote w t >>= λ res. conclude w t res res.failure))
      → (job : Work) → Sound R P (pipeline w job)
  unfolding pipeline
  pipeline-Sound closing job = bind-Sound R P k _ _ (load-Sound R P k w a job) (λ t.
      bind-Sound R P k _ _ (prepare-Sound R P k w a t) (λ t'.
        bind-Sound R P k _ _ (encode-Sound R P k w a max_runs [] t')
          (λ t''. finalise-Sound R P k w a t'' closing)))

  remove_staging-Sound : (path : String) → Sound R P (remove_staging w path)
  unfolding remove_staging is_plain_call
  remove_staging-Sound path =
      if-Sound R P k (str_eq path "") _ _ (λ h. (k.same h, tt)) (attempt-Sound R P k w _ refl)

  cancel_running-Sound : (id : ℕ) → Sound R P (cancel_running w id)
  unfolding cancel_running is_plain is_plain_call
  cancel_running-Sound id h = elim (Option-cases (w.answer h (cancel_row id))) [
    | inl n ↦ rw (cancel_running, n) (k.plain (did (cancel_row id) true) h refl, tt)
    | inr (e, n) ↦ elim (Bool-cases (is_caused_by row_missing e)) [
      | inl b ↦ rw (cancel_running, n, b) (k.plain (did (cancel_row id) false) h refl, tt)
      | inr b ↦
          rw (cancel_running, n, b)
            (k.plain (did (cancel_row id) false) h refl, k.passed _ e (a.answer h _ e n))
    ]
  ]

  finish_cancelled-Sound : (job : Work) (path : String) → Sound R P (finish_cancelled w job path)
  unfolding finish_cancelled is_plain_call
  finish_cancelled-Sound job path =
      then-Sound R P k _ _ (remove_staging-Sound path)
        (then-Sound R P k _ _ (cancel_running-Sound job.id) (attempt-Sound R P k w _ refl))

  finish_failed-Sound :
      (job : Work) (f : Failed) (path : String)
      → ((b : Bool) (h : Trace) → R h (did (fail_row job.id f) b ∷ h))
      → Sound R P (finish_failed w job f path)
  unfolding finish_failed
  finish_failed-Sound job f path failing =
      then-Sound R P k _ _
        (if-Sound R P k (is_verification f.code) _ _ (λ h. (k.same h, tt))
          (remove_staging-Sound path))
        (any_write-Sound R P k w _ _ a failing (λ e p. k.passed _ e p))

  ended-Sound :
      (job : Work) (r : Result Fault Bool)
      → Fails P r
      → ((e : Fault)
          → P e
          → (b : Bool) (h : Trace) → R h (did (fail_row job.id (classify e)) b ∷ h))
      → Sound R P (ended w job r)
  unfolding ended
  ended-Sound job (ok b) p failing = λ h. (k.same h, tt)
  ended-Sound job (err e) p failing = λ h. elim (Bool-cases (w.cancel_requested h)) [
    | inl c ↦ rw c (finish_cancelled-Sound job (staging_of h) h)
    | inr c ↦ elim (Bool-cases (w.ctx_done h)) [
      | inl d ↦ rw (c, d) (k.same h, tt)
      | inr d ↦ rw (c, d) (finish_failed-Sound job (classify e) (staging_of h) (failing e p) h)
    ]
  ]

  pub execute-Sound :
      (job : Work)
      → ((t : Task) → Sound R P (promote w t >>= λ res. conclude w t res res.failure))
      → ((e : Fault)
          → P e
          → (b : Bool) (h : Trace) → R h (did (fail_row job.id (classify e)) b ∷ h))
      → Sound R P (execute w job)
  unfolding execute with_running is_plain
  execute-Sound job closing failing h =
      let started' : Sound R P (mark_running job.id) =
        λ h'. (k.plain (started job.id) h' refl, tt) in
      let run = then-Sound R P k (mark_running job.id) _ started' (pipeline-Sound closing job) h in
      let (trace, fault) = ended-Sound job _ run.1 failing _ in (k.join h _ _ run.0 trace, fault)

failing-Balanced :
    (id : ℕ) (f : Failed) (b : Bool) (h : Trace) → Balanced h (did (fail_row id f) b ∷ h)
unfolding records renames is_rename is_record count
failing-Balanced id f b h = omega arith

-- A job that ran, however it ended, tried to record a promotion exactly as often as the promoter
-- renamed a file, given that a promotion without an error has renamed.
pub execute-Balanced :
    (w : World) (job : Work) (h : Trace)
    → IsHonest w
    → records (execute w job h).1 + renames h ≡ renames (execute w job h).1 + records h
execute-Balanced w job h honest =
    let a = Anything-AnswersWith w in
    (execute-Sound Balanced Anything Balanced-IsTracked w a job (λ t. closing-Balanced w t a honest)
      (λ e p. failing-Balanced job.id (classify e)) h).0

-- A failure that is written to a row has a code and a message.
abbrev IsToldEvent : Event → Type 0
IsToldEvent e = elim e [ did c b ↦ elim c [ fail_row id f ↦ IsTold f | _ ↦ Unit ] | _ ↦ Unit ]

abbrev pub Told : Trace → Type 0
Told h = All IsToldEvent h

abbrev StaysTold : Trace → Trace → Type 0
StaysTold h h' = Told h → Told h'

plain-IsToldEvent : (e : Event) → is_plain e ≡ true → IsToldEvent e
unfolding is_plain is_plain_call
plain-IsToldEvent (looked s) q = tt
plain-IsToldEvent (ran argv b) q = tt
plain-IsToldEvent (replaced req b) q = tt
plain-IsToldEvent (staged s) q = tt
plain-IsToldEvent (started id) q = tt
plain-IsToldEvent (did (set_state id s) b) q = tt
plain-IsToldEvent (did (set_blocked_by id s) b) q = tt
plain-IsToldEvent (did (store_transform id rec) b) q = tt
plain-IsToldEvent (did (store_execution x) b) q = tt
plain-IsToldEvent (did (record_promotion p) b) q = tt
plain-IsToldEvent (did (fail_row id f) b) q = absurd (cc q)
plain-IsToldEvent (did (cancel_row id) b) q = tt
plain-IsToldEvent (did (set_analyzed id) b) q = tt
plain-IsToldEvent (did (remove s) b) q = tt
plain-IsToldEvent (did (make_dir s) b) q = tt
plain-IsToldEvent (did (remove_dir s) b) q = tt

StaysTold-IsTracked : IsTracked StaysTold IsCoded
unfolding IsCoded
StaysTold-IsTracked = record {
  same = λ h p. p;
  join = λ x y z p q r. q (p r);
  plain = λ e h q p. (plain-IsToldEvent e q, p);
  made = λ c m tail p q. (p, q);
  coded = λ c m tail e p q. (p, q);
  passed = λ m e p. p;
  foreign = λ m. tt;
  out_of_fuel = tt;
}

-- Every failure that a job writes to its row has a code and a message, given that the failures
-- written before have them, and that the errors which its dependencies answer with carry them where
-- they are the service's own or the promoter's.
pub execute-Told :
    (w : World) (job : Work) (h : Trace) → AnswersWith IsCoded w → Told h → Told (execute w job h).1
execute-Told w job h a told =
    (execute-Sound StaysTold IsCoded StaysTold-IsTracked w a job
        (λ t.
          closing-Sound StaysTold IsCoded StaysTold-IsTracked w a (λ p b h' r. (tt, r)) t
            (λ req b h' r. (tt, r)))
        (λ e p b h' r. (classify-IsTold e p, r)) h).0
      told
