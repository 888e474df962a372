-- ===== src/Jobs/Queue/Active.antt =====
-- At most one active job for each file: what the updates of a row keep.
use codarr.Prelude.{
  ℕ, ◌+◌, ◌≤◌, Bool, false, ◌&&◌, List, [], ◌∷◌, ◌++◌, some, ok, ◌≡◌, refl, arith, ◌==◌,
  if◌then◌else◌, Bool-cases, Option-cases, inl, inr,
}
use codarr.Jobs.Types.{Job, Store, is_active_state}
use codarr.Jobs.Rows.{find_job, set_job, is_entry, has_active, other_active, with_jobs, update_row}

abbrev pub bit : Bool → ℕ
bit b = if b then 1 else 0

unfoldable pub count : (Job → Bool) → List Job → ℕ
count p [] = 0
count p (j ∷ js) = bit (p j) + count p js

abbrev pub has_id : ℕ → Job → Bool
has_id id j = j.id == id

-- The rows agree with the unique index and the primary key.
pub record IsIndexed (s : Store) : Type 0 where
  pub one_active : (m : ℕ) → count (is_entry m) s.jobs ≤ 1
  pub one_row : (i : ℕ) → count (has_id i) s.jobs ≤ 1
  pub fresh : (i : ℕ) → s.next_id ≤ i → count (has_id i) s.jobs ≡ 0

-- An update of a row that changes neither its id nor its file.
abbrev pub IsInPlace : (Job → Job) → Type 0
IsInPlace f = (j : Job) → ((f j).id ≡ j.id) × ((f j).media_file_id ≡ j.media_file_id)

count-set_job :
    (p : Job → Bool) (id : ℕ) (f : Job → Job) (js : List Job) (j : Job)
    → find_job id js ≡ some j
    → count p (set_job id f js) + bit (p j) ≡ count p js + bit (p (f j))
unfolding count set_job
count-set_job p id f [] j h = absurd (cc h)
count-set_job p id f (k ∷ js) j h = elim (Bool-cases (k.id == id)) [
  | inl e ↦ let same : k ≡ j = ground (arith, e, h) in ground (arith, e, same)
  | inr e ↦ let rest = count-set_job p id f js j (ground (arith, e, h)) in ground (arith, e, rest)
]

count-others :
    (id m : ℕ) (js : List Job)
    → count (has_id id) js ≡ 0
    → other_active id m js ≡ false
    → count (is_entry m) js ≡ 0
unfolding count other_active
count-others id m [] h k = refl
count-others id m (j ∷ js) h k =
    ground (arith, h, k, count-others id m js (ground (arith, h)) (ground (arith, k)))

count-found :
    (id m : ℕ) (js : List Job) (j : Job)
    → find_job id js ≡ some j
    → count (has_id id) js ≤ 1
    → other_active id m js ≡ false
    → count (is_entry m) js ≤ bit (is_entry m j)
unfolding count other_active
count-found id m [] j h u k = absurd (cc h)
count-found id m (i ∷ js) j h u k = elim (Bool-cases (i.id == id)) [
  | inl e ↦
      let same : i ≡ j = ground (arith, e, h) in
      let none_left = count-others id m js (ground (arith, u, e)) (ground (arith, k, e)) in
      ground (arith, e, same, none_left)
  | inr e ↦
      let rest =
        count-found id m js j (ground (arith, e, h)) (ground (arith, u, e))
          (ground (arith, k, e)) in
      ground (arith, e, rest, k)
]

pub find_job-id : (id : ℕ) (js : List Job) (j : Job) → find_job id js ≡ some j → j.id ≡ id
find_job-id id [] j h = absurd (cc h)
find_job-id id (k ∷ js) j h = ground (arith, h, find_job-id id js j)

-- An update that succeeds is the update of the row, which the index lets through.
pub update_row-ok :
    (id : ℕ) (f : Job → Job) (s s' : Store)
    → update_row id f s ≡ ok s'
    → (j : Job) × (find_job id s.jobs ≡ some j)
      × (s' ≡ with_jobs s (set_job id f s.jobs))
      × ((is_active_state (f j).state && other_active id j.media_file_id s.jobs) ≡ false)
unfolding update_row
update_row-ok id f s s' h = elim (Option-cases (find_job id s.jobs)) [
  | inl e ↦ absurd (ground (arith, e, h))
  | inr (j, e) ↦
      elim (Bool-cases (is_active_state (f j).state && other_active id j.media_file_id s.jobs)) [
        | inl k ↦ absurd (ground (arith, e, k, h))
        | inr k ↦ (j, e, ground (arith, e, k, h), k)
      ]
]

set_job-one_active :
    (id m : ℕ) (f : Job → Job) (js : List Job) (j : Job)
    → IsInPlace f
    → find_job id js ≡ some j
    → count (has_id id) js ≤ 1
    → count (is_entry m) js ≤ 1
    → (is_active_state (f j).state && other_active id j.media_file_id js) ≡ false
    → count (is_entry m) (set_job id f js) ≤ 1
set_job-one_active id m f js j keeps e u a k =
    let changed = count-set_job (is_entry m) id f js j e in
    elim (Bool-cases (is_entry m (f j))) [
      | inr out ↦ ground (arith, changed, out, a)
      | inl entry ↦
          let same_file = (keeps j).1 in
          let file : j.media_file_id ≡ m = ground (arith, entry, same_file) in
          let alone : other_active id m js ≡ false = ground (arith, entry, k, file) in
          ground (arith, changed, entry, count-found id m js j e u alone)
    ]

pub update_row-IsIndexed :
    (id : ℕ) (f : Job → Job) (s s' : Store)
    → IsInPlace f
    → IsIndexed s
    → update_row id f s ≡ ok s'
    → IsIndexed s'
update_row-IsIndexed id f s s' keeps w h =
    let (j, e, same, k) = update_row-ok id f s s' h in
    let same_id = (keeps j).0 in
    rw (same) (record {
      one_active =
          λ m. set_job-one_active id m f s.jobs j keeps e (w.one_row id) (w.one_active m) k;
      one_row = λ i. ground (arith, count-set_job (has_id i) id f s.jobs j e, same_id, w.one_row i);
      fresh = λ i l. ground (arith, count-set_job (has_id i) id f s.jobs j e, same_id, w.fresh i l);
    })

pub count-++ : (p : Job → Bool) (js ks : List Job) → count p (js ++ ks) ≡ count p js + count p ks
unfolding count
count-++ p [] ks = omega arith
count-++ p (j ∷ js) ks = ground (arith, count-++ p js ks)

pub has_active-count : (m : ℕ) (js : List Job) → has_active m js ≡ false → count (is_entry m) js ≡ 0
unfolding count has_active
has_active-count m [] h = refl
has_active-count m (j ∷ js) h = ground (arith, h, has_active-count m js)
