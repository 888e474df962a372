-- ===== src/Jobs/Rows.antt =====
-- The statements of internal/pkg/store/jobs.go on single rows, and the partial unique index
-- idx_jobs_one_active_per_file of data/migrations/001_schema.sql, which refuses a second active row.
use codarr.Prelude.{
  ℕ, Bool, not, ◌&&◌, List, [], ◌∷◌, Option, none, some, Result, ok, err, any, find_first, ◌==◌,
  if◌then◌else◌, ℤ,
}
use codarr.Jobs.Types.{
  JobState, queued, running, MediaStatus, is_active_state, Failed, Job, Media, Store, StoreError,
  not_found, conflict,
}

abbrev pub find_job : ℕ → List Job → Option Job
find_job id js = find_first (λ (j : Job). j.id == id) js

-- `UPDATE jobs SET ... WHERE id = ?`, where the id is the primary key.
unfoldable pub set_job : ℕ → (Job → Job) → List Job → List Job
set_job id f [] = []
set_job id f (j ∷ js) = let rest = set_job id f js in if j.id == id then f j ∷ js else j ∷ rest

unfoldable pub set_media : ℕ → (Media → Media) → List Media → List Media
set_media id f [] = []
set_media id f (m ∷ ms) = let rest = set_media id f ms in if m.id == id then f m ∷ ms else m ∷ rest

-- The row has an entry in idx_jobs_one_active_per_file for this file.
abbrev pub is_entry : ℕ → Job → Bool
is_entry media_file_id j = is_active_state j.state && j.media_file_id == media_file_id

unfoldable pub has_active : ℕ → List Job → Bool
has_active media_file_id js = any (is_entry media_file_id) js

-- Another row of the same file is in the index.
unfoldable pub other_active : ℕ → ℕ → List Job → Bool
other_active id media_file_id js = any (λ j. not (j.id == id) && is_entry media_file_id j) js

abbrev pub with_jobs : Store → List Job → Store
with_jobs s js = record { jobs = js; media = s.media; next_id = s.next_id }

-- An update of one row that sets its state: the row must exist, and the index holds after it.
unfoldable pub update_row : ℕ → (Job → Job) → Store → Result StoreError Store
unfolding set_job other_active
update_row id f s = elim (find_job id s.jobs) [
  | none ↦ err not_found
  | some j ↦
      if is_active_state (f j).state && other_active id j.media_file_id s.jobs
      then err conflict
      else ok (with_jobs s (set_job id f s.jobs))
]

abbrev pub mark : MediaStatus → Media → Media
mark status m = record { id = m.id; status = status; last_error = m.last_error }

abbrev pub mark_media : ℕ → (Media → Media) → Store → Store
mark_media id f s = record { jobs = s.jobs; media = set_media id f s.media; next_id = s.next_id }

abbrev pub and_then :
    {A B : Type 0} → Result StoreError A → (A → Result StoreError B) → Result StoreError B
and_then (ok a) f = f a
and_then (err e) f = err e

-- The inserted row: always queued.
abbrev pub new_row : ℕ → ℕ → ℤ → ℕ → ℕ → Job
new_row id media_file_id priority attempt queued_at = record {
  id = id;
  media_file_id = media_file_id;
  priority = priority;
  state = queued;
  attempt = attempt;
  staging_path = "";
  blocked_by = "";
  failure = none;
  queued_at = queued_at;
  started_at = none;
  finished_at = none;
}

abbrev pub claim_row : ℕ → Job → Job
claim_row now j = record {
  id = j.id;
  media_file_id = j.media_file_id;
  priority = j.priority;
  state = running;
  attempt = j.attempt;
  staging_path = j.staging_path;
  blocked_by = j.blocked_by;
  failure = j.failure;
  queued_at = j.queued_at;
  started_at = some now;
  finished_at = j.finished_at;
}

abbrev pub state_row : JobState → Job → Job
state_row state j = record {
  id = j.id;
  media_file_id = j.media_file_id;
  priority = j.priority;
  state = state;
  attempt = j.attempt;
  staging_path = j.staging_path;
  blocked_by = j.blocked_by;
  failure = j.failure;
  queued_at = j.queued_at;
  started_at = j.started_at;
  finished_at = j.finished_at;
}

abbrev pub finish_row : JobState → ℕ → Option Failed → Job → Job
finish_row state now failure j = record {
  id = j.id;
  media_file_id = j.media_file_id;
  priority = j.priority;
  state = state;
  attempt = j.attempt;
  staging_path = j.staging_path;
  blocked_by = j.blocked_by;
  failure = failure;
  queued_at = j.queued_at;
  started_at = j.started_at;
  finished_at = some now;
}

abbrev pub requeue_row : ℤ → ℕ → ℕ → Option Failed → Option ℕ → Job → Job
requeue_row front attempt queued_at failure finished_at j = record {
  id = j.id;
  media_file_id = j.media_file_id;
  priority = front;
  state = queued;
  attempt = attempt;
  staging_path = "";
  blocked_by = "";
  failure = failure;
  queued_at = queued_at;
  started_at = none;
  finished_at = finished_at;
}
