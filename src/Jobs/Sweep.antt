-- ===== src/Jobs/Sweep.antt =====
-- The sweep after a restart: SweepInterruptedJobs of internal/pkg/store/jobs.go, and from
-- internal/job/recover.go the verdict on a job that was interrupted while promoting. What the disk
-- and ffprobe answer is an argument; `none` is an error.
pub mod Laws
use codarr.Prelude.{
  ℕ, String, Bool, true, false, not, ◌&&◌, List, [], ◌∷◌, Option, none, some, Result, ok, err,
  str_eq, keep, if◌then◌else◌,
}
use codarr.Probe
use codarr.Probe.{lookup_tag}
use codarr.Decide.Skip.{tag_present, tag_policy}
use codarr.Jobs.Types.{Job, Store, StoreError, SweepResult, is_in_flight_state}
use codarr.Jobs.Rows.{and_then}
use codarr.Jobs.Queue.{sweep_one}

-- One after the other; an error rolls all of them back.
unfoldable pub sweep_all : ℕ → List Job → Store → Result StoreError (List SweepResult × Store)
sweep_all now [] s = ok ([], s)
sweep_all now (j ∷ js) s =
    and_then (sweep_one now j s) (λ p. and_then (sweep_all now js p.1) (λ q. ok (p.0 ∷ q.0, q.1)))

-- The rows are in the order of their ids.
unfoldable pub sweep_interrupted_jobs : ℕ → Store → Result StoreError (List SweepResult × Store)
unfolding sweep_all is_in_flight_state
sweep_interrupted_jobs now s =
    sweep_all now (keep (λ (j : Job). is_in_flight_state j.state) s.jobs) s

pub data Verdict : Type 0 where
  verdict_unknown verdict_source_intact verdict_promoted : Verdict

abbrev is_tag : Option String → Bool
is_tag none = false
is_tag (some v) = true

abbrev is_value : Option String → String → Bool
is_value none want = false
is_value (some v) want = str_eq v want

unfoldable pub tagged_with_current_policy : String → Probe.Result → Bool
tagged_with_current_policy policy_hash probe =
    is_tag (lookup_tag probe.format.tags tag_present)
    && is_value (lookup_tag probe.format.tags tag_policy) policy_hash

abbrev tag_verdict : String → Option Probe.Result → Verdict
tag_verdict policy_hash none = verdict_unknown
tag_verdict policy_hash (some probe) =
    if tagged_with_current_policy policy_hash probe then verdict_promoted else verdict_unknown

-- `recorded` is the fingerprint of the media row, `current` that of the file.
unfoldable pub promotion_verdict : String → String → Option String → Option Probe.Result → Verdict
unfolding tagged_with_current_policy
promotion_verdict policy_hash recorded current probe =
    if str_eq recorded "" then tag_verdict policy_hash probe else elim current [
      | none ↦ verdict_unknown
      | some c ↦ if str_eq c recorded then verdict_source_intact else tag_verdict policy_hash probe
    ]
