-- ===== src/Jobs/Sweep/Laws.antt =====
-- What the sweep after a restart decides.
use codarr.Prelude.{
  ℕ, ◌≤◌, String, true, List, [], ◌∷◌, Option, none, some, ok, ◌≡◌, ◌≢◌, ◌↔◌, refl, ap, ◌∙◌, sym,
  arith, All, keep, Bool, eq_iff, Bool-cases, inl, inr, ◌⊎◌, str_eq,
}
use mathlib.Core.Path.{subst}
use codarr.Probe
use codarr.Jobs.Types.{is_in_flight_state, Job, Store, SweepResult}
use codarr.Jobs.Rows.{find_job}
use codarr.Jobs.Queue.{sweep_one}
use codarr.Jobs.Queue.Active.{count, has_id, IsIndexed}
use codarr.Jobs.Queue.Requeue.{IsCapped, IsElsewhere, sweep_one-IsCapped}
use codarr.Jobs.Queue.Next.{and_then-ok}
use codarr.Jobs.Sweep.{
  sweep_all, sweep_interrupted_jobs, verdict_source_intact, verdict_promoted,
  tagged_with_current_policy, promotion_verdict,
}

-- Each of these rows stands in the store as it is here.
abbrev Stored : List Job → Store → Type 0
Stored js s = All (λ (j : Job). find_job j.id s.jobs ≡ some j) js

-- No id twice.
abbrev IsDistinct : List Job → Type 0
IsDistinct js = (i : ℕ) → count (has_id i) js ≤ 1

Stored-elsewhere :
    (id : ℕ) (js : List Job) (s t : Store)
    → count (has_id id) js ≡ 0
    → IsElsewhere id s t
    → Stored js s
    → Stored js t
unfolding count
Stored-elsewhere id [] s t n others k = tt
Stored-elsewhere id (j ∷ js) s t n others k = (
  others j.id (λ e. absurd (ground (arith, n, e))) ∙ k.0,
  Stored-elsewhere id js s t (ground (arith, n)) others k.1,
)

IsDistinct-later :
    (j : Job) (js : List Job) → IsDistinct (j ∷ js) → (count (has_id j.id) js ≡ 0) × IsDistinct js
unfolding count
IsDistinct-later j js d =
    ((let once = d j.id in ground (arith, once)), λ i. (let once = d i in omega (arith, once)))

-- After a sweep of these rows, against a store `s₀` in which they stood as they do now.
sweep_all-IsCapped :
    (now : ℕ) (s₀ : Store) (js : List Job) (s s' : Store) (rs : List SweepResult)
    → IsDistinct js
    → Stored js s₀
    → Stored js s
    → sweep_all now js s ≡ ok (rs, s')
    → All (IsCapped s₀ s') rs
      × ((i : ℕ) → count (has_id i) js ≡ 0 → find_job i s'.jobs ≡ find_job i s.jobs)
unfolding sweep_all IsCapped count
sweep_all-IsCapped now s₀ [] s s' rs d k₀ k h = (
  subst (λ x. All (IsCapped s₀ s') x) {x = []} (cc h) tt,
  λ i n. ap (λ (x : Store). find_job i x.jobs) {x = s'} {y = s} (cc h),
)
sweep_all-IsCapped now s₀ (j ∷ js) s s' rs d k₀ k h =
    let ((r, t), u, v) = and_then-ok (sweep_one now j s) _ (rs, s') h in
    let ((rest, t'), u', v') = and_then-ok (sweep_all now js t) _ (rs, s') v in
    let same : r ∷ rest ≡ rs = cc v' in
    let last : t' ≡ s' = cc v' in
    let (apart, distinct) = IsDistinct-later j js d in
    let (named, capped, others) = sweep_one-IsCapped now j s t r k.0 u in
    let (later, frame) =
      sweep_all-IsCapped now s₀ js t t' rest distinct k₀.1
        (Stored-elsewhere j.id js s t apart others k.1) u' in
    let head : IsCapped s₀ t' r = λ a.
      let (i, row, before, after, waits, more, told, few) = capped a in
      let kept : find_job r.job_id t'.jobs ≡ find_job r.job_id t.jobs =
        subst (λ d. find_job d t'.jobs ≡ find_job d t.jobs) (sym named) (frame j.id apart) in
      (i, row, cc (named, before, k.0, k₀.0), kept ∙ after, waits, more, told, few) in
    (
      subst (λ x. All (IsCapped s₀ s') x) same
          (subst (λ z. All (IsCapped s₀ z) (r ∷ rest)) last (head, later)),
      λ i n.
          ap (λ (x : Store). find_job i x.jobs) (sym last)
          ∙ frame i (ground (arith, n))
          ∙ others i (λ e. absurd (ground (arith, n, e))),
    )

Stored-behind :
    (i : Job) (js ks : List Job)
    → count (has_id i.id) ks ≡ 0
    → All (λ (j : Job). find_job j.id js ≡ some j) ks
    → All (λ (j : Job). find_job j.id (i ∷ js) ≡ some j) ks
unfolding count
Stored-behind i js [] n k = tt
Stored-behind i js (j ∷ ks) n k =
    (ground (arith, n, k.0), Stored-behind i js ks (ground (arith, n)) k.1)

Stored-All : (js : List Job) → IsDistinct js → All (λ (j : Job). find_job j.id js ≡ some j) js
Stored-All [] d = tt
Stored-All (j ∷ js) d =
    let (apart, distinct) = IsDistinct-later j js d in
    (ground arith, Stored-behind j js js apart (Stored-All js distinct))

All-keep : (P : Job → Type 0) (p : Job → Bool) (js : List Job) → All P js → All P (keep p js)
All-keep P p [] k = tt
All-keep P p (j ∷ js) k = elim (Bool-cases (p j)) [
  | inl e ↦ rw e (k.0, All-keep P p js k.1)
  | inr e ↦ rw e (All-keep P p js k.1)
]

count-keep : (q p : Job → Bool) (js : List Job) → count q (keep p js) ≤ count q js
unfolding count
count-keep q p [] = omega arith
count-keep q p (j ∷ js) = elim (Bool-cases (p j)) [
  | inl e ↦ rw e (omega (arith, count-keep q p js))
  | inr e ↦ rw e (omega (arith, count-keep q p js))
]

-- In a sweep that succeeds, of a store that keeps its indexes, the row of each job that is reported
-- as queued again by itself is queued, with one attempt more than it had, as reported, and not more
-- than the cap.
pub sweep_interrupted_jobs-IsCapped :
    (now : ℕ) (s s' : Store) (rs : List SweepResult)
    → IsIndexed s
    → sweep_interrupted_jobs now s ≡ ok (rs, s')
    → All (IsCapped s s') rs
unfolding sweep_interrupted_jobs
sweep_interrupted_jobs-IsCapped now s s' rs indexed h =
    let in_flight = λ (j : Job). is_in_flight_state j.state in
    let here =
      All-keep (λ (j : Job). find_job j.id s.jobs ≡ some j) in_flight s.jobs
        (Stored-All s.jobs indexed.one_row) in
    (sweep_all-IsCapped now s (keep in_flight s.jobs) s s' rs
      (λ i. omega (arith, count-keep (has_id i) in_flight s.jobs, indexed.one_row i)) here here h).0

-- An interrupted promotion is taken for not having happened exactly when the file still has the
-- known fingerprint that was recorded for the source.
pub promotion_verdict_iff :
    (policy_hash recorded : String) (current : Option String) (probe : Option Probe.Result)
    → (promotion_verdict policy_hash recorded current probe ≡ verdict_source_intact)
      ↔ ((recorded ≢ "") × (current ≡ some recorded))
unfolding promotion_verdict
promotion_verdict_iff policy_hash recorded none none = ground (arith, eq_iff recorded "")
promotion_verdict_iff policy_hash recorded none (some p) = ground (arith, eq_iff recorded "")
promotion_verdict_iff policy_hash recorded (some c) none =
    ground (arith, eq_iff recorded "", eq_iff c recorded)
promotion_verdict_iff policy_hash recorded (some c) (some p) =
    ground (arith, eq_iff recorded "", eq_iff c recorded)

-- An interrupted promotion is taken for complete only when the file carries the tags of the policy in
-- force, and either no fingerprint was recorded for the source or the file was read and has another
-- one.
pub promotion_verdict-promoted :
    (policy_hash recorded : String) (current : Option String) (probe : Option Probe.Result)
    → promotion_verdict policy_hash recorded current probe ≡ verdict_promoted
    → ((p : Probe.Result) × (probe ≡ some p) × (tagged_with_current_policy policy_hash p ≡ true))
      × ((recorded ≡ "") ⊎ ((c : String) × (current ≡ some c) × (c ≢ recorded)))
unfolding promotion_verdict
promotion_verdict-promoted policy_hash recorded none none h = absurd (ground (arith, h))
promotion_verdict-promoted policy_hash recorded (some c) none h = absurd (ground (arith, h))
promotion_verdict-promoted policy_hash recorded none (some p) h =
    ((p, refl, ground (arith, h)), inl (ground (arith, h, eq_iff recorded "")))
promotion_verdict-promoted policy_hash recorded (some c) (some p) h = (
  (p, refl, ground (arith, h)),
  elim (Bool-cases (str_eq recorded "")) [
    | inl e ↦ inl ((eq_iff recorded "").0 e)
    | inr e ↦ inr (c, refl, λ q. absurd (ground (arith, h, e, (eq_iff c recorded).1 q)))
  ],
)
