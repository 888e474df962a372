-- ===== src/Jobs/Queue/Front.antt =====
-- What is in front of the queue is claimed next.
use codarr.Prelude.{
  ℕ, true, false, List, [], ◌∷◌, Option, none, some, ok, ◌≡◌, refl, sym, ◌⊎◌, arith, ◌==◌,
  Bool-cases, Option-cases, inl, inr, All, ℤ, pos, ltb_ℤ, min_ℤ, ◌-ℤ◌, -ℤ_parts,
}
use codarr.Jobs.Types.{Job, Store}
use codarr.Jobs.Rows.{find_job, set_job, update_row}
use codarr.Jobs.Queue.{
  runs_before, is_queued, first_of, next_queued, least, min_queued, front_priority,
}
use codarr.Jobs.Queue.Active.{update_row-ok, find_job-id}

-- The row of this id, first in the queue with priority `p`, and the rows behind it.
abbrev pub IsFirst : ℕ → ℤ → Job → Type 0
IsFirst id p j = (j.id ≡ id) × (j.priority ≡ p) × (is_queued j ≡ true)

abbrev IsAfter : ℤ → Job → Type 0
IsAfter p j = is_queued j ≡ true → ltb_ℤ p j.priority ≡ true

abbrev IsRanked : ℕ → ℤ → Job → Type 0
IsRanked id p j = IsFirst id p j ⊎ IsAfter p j

abbrev HasFirst : ℕ → ℤ → List Job → Type 0
HasFirst id p [] = ⊥
HasFirst id p (j ∷ js) = IsFirst id p j ⊎ HasFirst id p js

first_of-cases :
    (j : Job) (rest : Option Job) → (first_of j rest ≡ j) ⊎ (rest ≡ some (first_of j rest))
unfolding first_of
first_of-cases j none = inl refl
first_of-cases j (some k) = elim (Bool-cases (runs_before k j)) [
  | inl e ↦ inr (rw (e) refl)
  | inr e ↦ inl (rw (e) refl)
]

next_queued-from :
    (P : Job → Type 0) (js : List Job) (k : Job)
    → All P js
    → next_queued js ≡ some k
    → P k × (is_queued k ≡ true)
unfolding next_queued
next_queued-from P [] k a h = absurd (cc h)
next_queued-from P (j ∷ js) k a h = elim (Bool-cases (is_queued j)) [
  | inr e ↦ next_queued-from P js k a.1 (rw e at h)
  | inl e ↦
      let same : first_of j (next_queued js) ≡ k = ground (arith, rw e at h) in
      elim (first_of-cases j (next_queued js)) [
        | inl f ↦ rw (sym same, f) (a.0, e)
        | inr f ↦ next_queued-from P js k a.1 (rw (f, same) refl)
      ]
]

runs_before-less : (j k : Job) → ltb_ℤ j.priority k.priority ≡ true → runs_before j k ≡ true
unfolding runs_before
runs_before-less j k h = ground (arith, h)

runs_before-greater : (j k : Job) → ltb_ℤ j.priority k.priority ≡ true → runs_before k j ≡ false
unfolding runs_before
runs_before-greater j k h = ground (arith, h)

-- Of a row and the first of the rest, at least one first in the queue.
first_of-IsFirst :
    (id : ℕ) (p : ℤ) (j k : Job)
    → IsRanked id p j
    → IsRanked id p k
    → is_queued j ≡ true
    → is_queued k ≡ true
    → IsFirst id p j ⊎ IsFirst id p k
    → IsFirst id p (first_of j (some k))
unfolding first_of
first_of-IsFirst id p j k (inl a) (inl b) y z h = elim (Bool-cases (runs_before k j)) [
  | inl t ↦ rw (t) b
  | inr t ↦ rw (t) a
]
first_of-IsFirst id p j k (inr a) (inr b) y z h = elim h [
  | inl f ↦ absurd (ground (arith, a y, f.1))
  | inr f ↦ absurd (ground (arith, b z, f.1))
]
first_of-IsFirst id p j k (inl a) (inr b) y z h =
    let less : ltb_ℤ j.priority k.priority ≡ true = rw (a.1) (b z) in
    rw (runs_before-greater j k less) a
first_of-IsFirst id p j k (inr a) (inl b) y z h =
    let less : ltb_ℤ k.priority j.priority ≡ true = rw (b.1) (a y) in
    rw (runs_before-less k j less) b

next_queued-IsFirst :
    (id : ℕ) (p : ℤ) (js : List Job)
    → All (IsRanked id p) js
    → HasFirst id p js
    → (k : Job) × (next_queued js ≡ some k) × IsFirst id p k
unfolding next_queued
next_queued-IsFirst id p [] q h = absurd h
next_queued-IsFirst id p (j ∷ js) q (inl f) = elim (Option-cases (next_queued js)) [
  | inl n ↦ (j, rw (f.2, n) refl, f)
  | inr (k, e) ↦
      let (r, z) = next_queued-from (IsRanked id p) js k q.1 e in
      (first_of j (some k), rw (f.2, e) refl, first_of-IsFirst id p j k q.0 r f.2 z (inl f))
]
next_queued-IsFirst id p (j ∷ js) q (inr t) =
    let (k, e, g) = next_queued-IsFirst id p js q.1 t in
    elim (Bool-cases (is_queued j)) [
      | inr n ↦ (k, rw (n) e, g)
      | inl y ↦
          let (r, z) = next_queued-from (IsRanked id p) js k q.1 e in
          (first_of j (some k), rw (y, e) refl, first_of-IsFirst id p j k q.0 r y z (inr g))
    ]

-- Everything queued is behind a priority that is below the least.
least-less :
    (p q : ℤ) (rest : Option ℤ)
    → ltb_ℤ p (least q rest) ≡ true
    → (ltb_ℤ p q ≡ true) × ((m : ℤ) → rest ≡ some m → ltb_ℤ p m ≡ true)
unfolding least
least-less p q none h = (h, λ m e. absurd (cc e))
least-less p q (some r) h =
    (ground (arith, h), λ m e. (let same : r ≡ m = cc e in rw (sym same) (ground (arith, h))))

min_queued-behind :
    (p : ℤ) (js : List Job)
    → ((m : ℤ) → min_queued js ≡ some m → ltb_ℤ p m ≡ true)
    → All (IsAfter p) js
unfolding min_queued
min_queued-behind p [] h = tt
min_queued-behind p (j ∷ js) h = elim (Bool-cases (is_queued j)) [
  | inr n ↦ ((λ y. absurd (ground (arith, n, y))), min_queued-behind p js (λ m e. h m (rw (n) e)))
  | inl y ↦
      let both = least-less p j.priority (min_queued js) (h _ (rw (y) refl)) in
      ((λ _. both.0), min_queued-behind p js both.1)
]

front_priority-less :
    (own m : ℤ) (js : List Job) → min_queued js ≡ some m → ltb_ℤ (front_priority own js) m ≡ true
unfolding front_priority least
front_priority-less own m js h =
    let front : front_priority own js ≡ min_ℤ m own -ℤ pos 1 = rw (front_priority, h) refl in
    rw (front) (ground (arith, -ℤ_parts (min_ℤ m own) (pos 1)))

All-IsRanked : (id : ℕ) (p : ℤ) (js : List Job) → All (IsAfter p) js → All (IsRanked id p) js
All-IsRanked id p [] a = tt
All-IsRanked id p (j ∷ js) a = (inr a.0, All-IsRanked id p js a.1)

-- Updating the row puts it at the front.
set_job-front :
    (id : ℕ) (p : ℤ) (f : Job → Job) (js : List Job) (j : Job)
    → find_job id js ≡ some j
    → IsFirst id p (f j)
    → All (IsAfter p) js
    → All (IsRanked id p) (set_job id f js) × HasFirst id p (set_job id f js)
unfolding set_job
set_job-front id p f [] j h first a = absurd (cc h)
set_job-front id p f (k ∷ js) j h first a = elim (Bool-cases (k.id == id)) [
  | inl e ↦
      let same : j ≡ k = ground (arith, e, h) in
      let first' : IsFirst id p (f k) = rw (sym same) first in
      rw (e) ((inl first', All-IsRanked id p js a.1), inl first')
  | inr e ↦
      let rest = set_job-front id p f js j (ground (arith, e, h)) first a.1 in
      rw (e) ((inr a.0, rest.0), inr rest.1)
]

front-less : (own : ℤ) (js : List Job) → All (IsAfter (front_priority own js)) js
front-less own js =
    min_queued-behind (front_priority own js) js (λ m e. front_priority-less own m js e)

-- The claim after an update that sends a row to the front.
pub update_row-next :
    (id : ℕ) (own : ℤ) (f : Job → Job) (s s' : Store)
    → ((j : Job) → j.id ≡ id → IsFirst id (front_priority own s.jobs) (f j))
    → update_row id f s ≡ ok s'
    → (k : Job) × (next_queued s'.jobs ≡ some k) × IsFirst id (front_priority own s.jobs) k
update_row-next id own f s s' first h =
    let (j, e, same, k) = update_row-ok id f s s' h in
    let front = front_priority own s.jobs in
    let (ranked, has) =
      set_job-front id front f s.jobs j e (first j (find_job-id id s.jobs j e))
        (front-less own s.jobs) in
    rw (same) (next_queued-IsFirst id front (set_job id f s.jobs) ranked has)
