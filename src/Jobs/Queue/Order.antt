-- ===== src/Jobs/Queue/Order.antt =====
-- Which job is claimed, and when a job is created.
use codarr.Prelude.{
  ℕ, true, false, List, [], ◌∷◌, ◌++◌, none, Option, some, ok, ◌≡◌, ◌≤◌, ◌<◌, ◌≤ℤ◌, ◌<ℤ◌, ◌⊎◌, refl,
  ap, sym, arith, Bool-cases, Option-cases, inl, inr, All, ℤ,
}
use mathlib.Core.Path.{subst}
use codarr.Jobs.Types.{
  Job, Store, media_processing, is_active_state, is_queued_state, JobState, queued, running,
  verifying, awaiting_stream_end, promoting, done, cancelled, failed,
}
use codarr.Jobs.Rows.{
  find_job, mark_media, mark, has_active, is_entry, new_row, update_row, claim_row,
}
use codarr.Jobs.Queue.{runs_before, is_queued, first_of, next_queued, enqueue_job, claim_next_job}
use codarr.Jobs.Queue.Next.{and_then-ok}
use codarr.Jobs.Queue.Requeue.{update_row-found}

-- No queued job runs before this one.
abbrev pub IsLeast : Job → List Job → Type 0
IsLeast k js = All (λ (j : Job). is_queued j ≡ true → runs_before j k ≡ false) js

runs_before-asym : (j k : Job) → runs_before j k ≡ true → runs_before k j ≡ false
unfolding runs_before
runs_before-asym j k h = ground (arith, h)

runs_before-not :
    (i j k : Job) → runs_before i k ≡ false → runs_before k j ≡ false → runs_before i j ≡ false
unfolding runs_before
runs_before-not i j k a b = ground (arith, a, b)

IsLeast-not : (j k : Job) (js : List Job) → IsLeast k js → runs_before k j ≡ false → IsLeast j js
IsLeast-not j k [] a h = tt
IsLeast-not j k (i ∷ is) a h = (λ y. runs_before-not i j k (a.0 y) h, IsLeast-not j k is a.1 h)

none-IsLeast : (j : Job) (js : List Job) → next_queued js ≡ none → IsLeast j js
unfolding next_queued
none-IsLeast j [] e = tt
none-IsLeast j (i ∷ is) e = elim (Bool-cases (is_queued i)) [
  | inl y ↦ absurd (cc (rw (y) at e))
  | inr n ↦ (λ y. absurd (cc (n, y)), none-IsLeast j is (rw (n) at e))
]

runs_before_irrefl : (j : Job) → runs_before j j ≡ false
unfolding runs_before
runs_before_irrefl j = ground arith

next_queued-IsLeast : (js : List Job) (k : Job) → next_queued js ≡ some k → IsLeast k js
unfolding next_queued first_of
next_queued-IsLeast [] k h = absurd (cc h)
next_queued-IsLeast (j ∷ js) k h = elim (Bool-cases (is_queued j)) [
  | inr n ↦ (λ y. absurd (cc (n, y)), next_queued-IsLeast js k (rw (n) at h))
  | inl y ↦ elim (Option-cases (next_queued js)) [
    | inl e ↦
        let same : j ≡ k = cc (rw (y, e) at h) in
        subst (λ x. IsLeast x (j ∷ js)) same ((λ _. runs_before_irrefl j), none-IsLeast j js e)
    | inr (i, e) ↦
        let least = next_queued-IsLeast js i e in
        elim (Bool-cases (runs_before i j)) [
          | inl t ↦
              let same : i ≡ k = cc (rw (y, e, t) at h) in
              subst (λ x. IsLeast x (j ∷ js)) same ((λ _. runs_before-asym i j t), least)
          | inr t ↦
              let same : j ≡ k = cc (rw (y, e, t) at h) in
              subst (λ x. IsLeast x (j ∷ js)) same
                ((λ _. runs_before_irrefl j), IsLeast-not j i js least t)
        ]
  ]
]

-- A row of the table.
abbrev pub IsRow : Job → List Job → Type 0
IsRow j js = (front : List Job) × (back : List Job) × (js ≡ front ++ j ∷ back)

IsRow-later : (i j : Job) (js : List Job) → IsRow j js → IsRow j (i ∷ js)
IsRow-later i j js (front, back, e) = (i ∷ front, back, ap (◌∷◌ i) e)

next_queued-queued :
    (js : List Job) (k : Job) → next_queued js ≡ some k → IsRow k js × (is_queued k ≡ true)
unfolding next_queued first_of
next_queued-queued [] k h = absurd (cc h)
next_queued-queued (j ∷ js) k h = elim (Bool-cases (is_queued j)) [
  | inr n ↦
      let (row, waits) = next_queued-queued js k (rw (n) at h) in (IsRow-later j k js row, waits)
  | inl y ↦ elim (Option-cases (next_queued js)) [
    | inl e ↦
        let same : j ≡ k = cc (rw (y, e) at h) in
        subst (λ x. IsRow x (j ∷ js) × (is_queued x ≡ true)) same (([], js, refl), y)
    | inr (i, e) ↦
        let (row, waits) = next_queued-queued js i e in
        elim (Bool-cases (runs_before i j)) [
          | inl t ↦
              let same : i ≡ k = cc (rw (y, e, t) at h) in
              subst (λ x. IsRow x (j ∷ js) × (is_queued x ≡ true)) same
                (IsRow-later j i js row, waits)
          | inr t ↦
              let same : j ≡ k = cc (rw (y, e, t) at h) in
              subst (λ x. IsRow x (j ∷ js) × (is_queued x ≡ true)) same (([], js, refl), y)
        ]
  ]
]

next_queued-none :
    (js : List Job) → next_queued js ≡ none → All (λ (j : Job). is_queued j ≡ false) js
unfolding next_queued
next_queued-none [] h = tt
next_queued-none (j ∷ js) h = elim (Bool-cases (is_queued j)) [
  | inl y ↦ absurd (cc (rw (y) at h))
  | inr n ↦ (n, next_queued-none js (rw (n) at h))
]

-- A job `j` that is claimed before another: of less priority number, or else queued earlier, or else
-- with an id that is not greater.
pub IsAhead : Job → Job → Type 0
IsAhead j k =
    (j.priority <ℤ k.priority)
    ⊎ ((j.priority ≤ℤ k.priority)
        × ((j.queued_at < k.queued_at) ⊎ ((j.queued_at ≤ k.queued_at) × (j.id ≤ k.id))))

ahead : (j k : Job) → runs_before k j ≡ false → IsAhead j k
unfolding runs_before IsAhead
ahead j k h = ground (arith, h)

-- What a claim answers and leaves: nothing and the same rows when no job is queued, or else the row of
-- a queued job that is ahead of every queued job, which is stored as running.
pub IsClaim : ℕ → List Job → List Job → Option Job → Type 0
IsClaim now js js' none = All (λ (j : Job). is_queued j ≡ false) js × (js' ≡ js)
IsClaim now js js' (some k) =
    (j : Job) × IsRow j js
    × (j.state ≡ queued)
    × (k ≡ claim_row now j)
    × All (λ (i : Job). i.state ≡ queued → IsAhead j i) js
    × ((i : Job) × (find_job k.id js' ≡ some i) × (i.state ≡ running))

queued_state : (s : JobState) → is_queued_state s ≡ true → s ≡ queued
queued_state queued e = refl
queued_state running e = absurd (cc e)
queued_state verifying e = absurd (cc e)
queued_state awaiting_stream_end e = absurd (cc e)
queued_state promoting e = absurd (cc e)
queued_state done e = absurd (cc e)
queued_state cancelled e = absurd (cc e)
queued_state failed e = absurd (cc e)

least_runs_first :
    (j : Job) (js : List Job) → IsLeast j js → All (λ (i : Job). i.state ≡ queued → IsAhead j i) js
least_runs_first j [] k = tt
least_runs_first j (i ∷ is) k =
    (λ q. ahead j i (k.0 (ap is_queued_state q)), least_runs_first j is k.1)

-- A claim that succeeds answers nothing only when no job is queued, and then changes no row; otherwise
-- it answers the row of a queued job, set to running, which has no greater priority number than any
-- other queued job, and among those of the same number was queued first, with the least id at the same
-- time; and the row that is stored under its id is running.
pub claim_next_job-IsClaim :
    (now : ℕ) (s s' : Store) (o : Option Job)
    → claim_next_job now s ≡ ok (o, s')
    → IsClaim now s.jobs s'.jobs o
unfolding claim_next_job IsClaim
claim_next_job-IsClaim now s s' o h = elim (Option-cases (next_queued s.jobs)) [
  | inl e ↦
      let same : none ≡ o = cc (rw (claim_next_job, e) at h) in
      let kept : s ≡ s' = cc (rw (claim_next_job, e) at h) in
      subst (IsClaim now s.jobs s'.jobs) same
        (next_queued-none s.jobs e, ap (λ (x : Store). x.jobs) (sym kept))
  | inr (j, e) ↦
      let (t, u, v) =
        and_then-ok (update_row j.id (claim_row now) s) _ (o, s') (rw (claim_next_job, e) at h) in
      let same : some (claim_row now j) ≡ o = cc v in
      let marked : mark_media j.media_file_id (mark media_processing) t ≡ s' = cc v in
      let ((i, _, found), _) = update_row-found j.id (claim_row now) (λ i. refl) s t u in
      let (row, waits) = next_queued-queued s.jobs j e in
      subst (IsClaim now s.jobs s'.jobs) same (
        j,
        row,
        queued_state j.state waits,
        refl,
        least_runs_first j s.jobs (next_queued-IsLeast s.jobs j e),
        (
          claim_row now i,
          subst (λ (x : Store). find_job j.id x.jobs ≡ some (claim_row now i)) marked found,
          refl,
        ),
      )
]

has_active-last :
    (m : ℕ) (js : List Job) (j : Job) → is_entry m j ≡ true → has_active m (js ++ j ∷ []) ≡ true
unfolding has_active
has_active-last m [] j h = ground (arith, h)
has_active-last m (i ∷ is) j h = ground (arith, has_active-last m is j h)

enqueue_job-refused :
    (m attempt now : ℕ) (p : ℤ) (s : Store)
    → has_active m s.jobs ≡ true
    → enqueue_job m p attempt now s ≡ (none, s)
unfolding enqueue_job
enqueue_job-refused m attempt now p s e = rw (enqueue_job, e) refl

enqueue_job-active :
    (m attempt now : ℕ) (p : ℤ) (s : Store)
    → has_active m (enqueue_job m p attempt now s).1.jobs ≡ true
unfolding enqueue_job is_active_state
enqueue_job-active m attempt now p s = elim (Bool-cases (has_active m s.jobs)) [
  | inl e ↦ rw (enqueue_job, e) e
  | inr e ↦
      rw (enqueue_job, e)
        (has_active-last m s.jobs (new_row s.next_id m p attempt now) (ground arith))
]

-- Enqueueing is idempotent: a second request for a file creates no job and changes nothing.
pub enqueue_job-twice :
    (m attempt attempt' now now' : ℕ) (p p' : ℤ) (s : Store)
    → let s' = (enqueue_job m p attempt now s).1 in enqueue_job m p' attempt' now' s' ≡ (none, s')
enqueue_job-twice m attempt attempt' now now' p p' s =
    enqueue_job-refused m attempt' now' p' (enqueue_job m p attempt now s).1
      (enqueue_job-active m attempt now p s)
