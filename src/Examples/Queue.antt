-- ===== src/Examples/Queue.antt =====
-- A queue of three jobs, the first interrupted.
use codarr.Prelude.{arith, [], ◌∷◌, some, Result, ok, err, ◌≡◌, refl, pos}
use codarr.Jobs.Types.{
  Job, Store, StoreError, SweepResult, failed, queued, sweep_requeued, verifying, is_active_state,
}
use codarr.Jobs.Rows.{new_row, state_row, claim_row}
use codarr.Jobs.Queue.{next_queued, requeue_or_fail, restart_job, enqueue_job, claim_next_job}
use codarr.Jobs.Queue.Next.{requeue_or_fail-next, restart_job-next}
use codarr.Jobs.Queue.Order.{IsClaim, claim_next_job-IsClaim}
use codarr.Jobs.Queue.Requeue.{IsCapped}
use codarr.Jobs.Queue.Steps.{starts, steps, enqueues, IsReachable-IsIndexed}
use codarr.Jobs.Queue.Active.{IsIndexed, count}
use codarr.Prelude.{◌≢◌, ◌↔◌, ◌⊎◌, All, String, List, Option, true}
use codarr.Jobs.Queue.{sweep_one}
use codarr.Probe
use codarr.Probe.{lookup_tag}
use codarr.Jobs.Sweep.{
  sweep_interrupted_jobs, promotion_verdict, tagged_with_current_policy, verdict_source_intact,
}
use codarr.Jobs.Sweep.Laws.{
  sweep_interrupted_jobs-IsCapped, promotion_verdict_iff, promotion_verdict-promoted,
}

abbrev interrupted : Job
interrupted = state_row verifying (new_row 1 10 (pos 100) 1 50)

abbrev broken : Job
broken = state_row failed (new_row 3 30 (pos 110) 2 40)

abbrev shop : Store
shop = record {
  jobs = interrupted ∷ new_row 2 20 (pos 90) 0 60 ∷ broken ∷ [];
  media = [];
  next_id = 4;
}

abbrev empty : Store
empty = record { jobs = []; media = []; next_id = 1 }

abbrev stored : Result StoreError (SweepResult × Store) → Store
stored (ok p) = p.1
stored (err e) = shop

abbrev result_of : Result StoreError (SweepResult × Store) → SweepResult
result_of (ok p) = p.0
result_of (err e) = record {
  job_id = 0;
  media_file_id = 0;
  found_state = queued;
  action = sweep_requeued;
  attempt = 0;
  staging_path = "";
}

abbrev kept : Result StoreError Store → Store
kept (ok s) = s
kept (err e) = shop

requeue_or_fail-next_example :
    (k : Job) × (next_queued (stored (requeue_or_fail 70 interrupted shop)).jobs ≡ some k)
    × (k.id ≡ interrupted.id)
unfolding requeue_or_fail is_active_state
requeue_or_fail-next_example =
    requeue_or_fail-next 70 interrupted shop (stored (requeue_or_fail 70 interrupted shop))
      (result_of (requeue_or_fail 70 interrupted shop)) refl refl

restart_job-next_example :
    (k : Job) × (next_queued (kept (restart_job 3 70 shop)).jobs ≡ some k) × (k.id ≡ 3)
unfolding restart_job is_active_state
restart_job-next_example = restart_job-next 3 70 shop (kept (restart_job 3 70 shop)) refl

abbrev claimed : Option Job
claimed = some (claim_row 70 (new_row 2 20 (pos 90) 0 60))

abbrev after_claim : Result StoreError (Option Job × Store) → Store
after_claim (ok p) = p.1
after_claim (err e) = shop

claim_next_job-IsClaim_example :
    IsClaim 70 shop.jobs (after_claim (claim_next_job 70 shop)).jobs claimed
unfolding claim_next_job next_queued is_active_state
claim_next_job-IsClaim_example =
    claim_next_job-IsClaim 70 shop (after_claim (claim_next_job 70 shop)) claimed refl

IsReachable-IsIndexed_example : IsIndexed (enqueue_job 20 (pos 90) 0 70 empty).1
IsReachable-IsIndexed_example = IsReachable-IsIndexed (enqueue_job 20 (pos 90) 0 70 empty).1 (
    steps empty (enqueue_job 20 (pos 90) 0 70 empty).1 (starts empty refl)
      (enqueues 20 (pos 90) 0 70 empty))

abbrev swept_by : Result StoreError (List SweepResult × Store) → List SweepResult × Store
swept_by (ok p) = p
swept_by (err e) = ([], shop)

shop-IsIndexed : IsIndexed shop
unfolding count is_active_state
shop-IsIndexed = record {
  one_active = λ m. ground arith;
  one_row = λ i. ground arith;
  fresh = λ i l. ground (arith, l);
}

sweep_interrupted_jobs-IsCapped_example :
    All
      (IsCapped shop (swept_by (sweep_interrupted_jobs 70 shop)).1)
      (swept_by (sweep_interrupted_jobs 70 shop)).0
unfolding sweep_interrupted_jobs sweep_one is_active_state
sweep_interrupted_jobs-IsCapped_example =
    sweep_interrupted_jobs-IsCapped 70 shop (swept_by (sweep_interrupted_jobs 70 shop)).1
      (swept_by (sweep_interrupted_jobs 70 shop)).0 shop-IsIndexed refl

abbrev promoted_film : Probe.Result
promoted_film = record {
  format = record {
    filename = "/films/a.mkv";
    format_name = "matroska";
    duration = "100";
    size = "1000";
    bit_rate = "";
    tags = ("CODARR", "1") ∷ ("CODARR_POLICY", "abcd1234") ∷ [];
  };
  streams = [];
  chapters = [];
}

promotion_verdict_iff_example :
    (promotion_verdict "abcd1234" "old" (some "new") (some promoted_film) ≡ verdict_source_intact)
    ↔ ((◌≢◌ {A = String} "old" "") × (◌≡◌ {A = Option String} (some "new") (some "old")))
promotion_verdict_iff_example =
    promotion_verdict_iff "abcd1234" "old" (some "new") (some promoted_film)

promotion_verdict-promoted_example :
    ((p : Probe.Result) × (some promoted_film ≡ some p)
      × (tagged_with_current_policy "abcd1234" p ≡ true))
    × ((◌≡◌ {A = String} "old" "")
        ⊎ ((c : String) × (◌≡◌ {A = Option String} (some "new") (some c)) × (c ≢ "old")))
unfolding promotion_verdict lookup_tag
promotion_verdict-promoted_example =
    promotion_verdict-promoted "abcd1234" "old" (some "new") (some promoted_film) refl
