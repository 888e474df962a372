-- ===== src/Service/Effects.antt =====
-- The calls that internal/job makes on its dependencies (`Deps` of deps.go). As for promotion, every
-- answer is a field of `World` and may depend on all that was called before; the trace holds the
-- events, the newest first. Logs and metrics are left out.
pub mod Laws
pub mod Sound
use codarr.Prelude.{
  ℕ, String, Bool, true, false, List, [], ◌∷◌, Option, none, some, Result, ok, err, Rat,
  if◌then◌else◌,
}
use codarr.Domain.Kind
use codarr.Domain.Plan.{Plan, Encoder, DecodePath, Scan}
use codarr.Domain.Transform.{OutputIdentity, TransformRecord}
use codarr.Probe
use codarr.Promote.Types.{Staging, PreflightRequest, Request}
use codarr.Hardware.{Capabilities}
use codarr.Jobs.Types.{JobState, Failed}
use codarr.Service.Types.{Settings, MediaFile, Work, Task, RunResult}
use codarr.Service.Fault.{Fault}

-- store.ExecutionUpdate
pub record Execution : Type 0 where
  pub job_id : ℕ
  pub staging_path : String
  pub used_temp_dir : Bool
  pub argv : List String
  pub encoder : Encoder
  pub decode_path : DecodePath
  pub fell_back : Bool
  pub fallback_reason : String
  pub source_size : ℕ
  pub estimated_seconds : ℕ
  pub final_out_time_us : ℕ

-- store.PromotionUpdate
pub record Promotion : Type 0 where
  pub job_id : ℕ
  pub media_file_id : ℕ
  pub fingerprint : String
  pub full_hash : String
  pub output_size : ℕ
  pub output_mtime : ℕ
  pub policy_hash : String
  pub transform : TransformRecord
  pub actual_seconds : ℕ

pub data Call : Type 0 where
  set_state : ℕ → JobState → Call
  set_blocked_by : ℕ → String → Call
  store_transform : ℕ → TransformRecord → Call
  store_execution : Execution → Call
  record_promotion : Promotion → Call
  fail_row : ℕ → Failed → Call
  cancel_row : ℕ → Call
  set_analyzed : ℕ → Call
  remove : String → Call
  make_dir remove_dir : String → Call

-- What `Promote` answers: its result, the reasons it was blocked by, and its error.
pub record Replaced : Type 0 where
  pub identity : Option OutputIdentity
  pub output_size : ℕ
  pub renamed : Bool
  pub blocked_by : List String
  pub failure : Option Fault

pub data Event : Type 0 where
  looked : String → Event
  did : Call → Bool → Event
  ran : List String → Bool → Event
  replaced : Request → Bool → Event
  staged : String → Event
  started : ℕ → Event

abbrev pub Trace : Type 0
Trace = List Event

pub record World : Type 0 where
  pub version : String
  pub policy_hash : String
  pub parse : String → Result Fault Probe.Result
  pub settings : Trace → Result Fault Settings
  pub media : Trace → ℕ → Result Fault MediaFile
  pub preflight : Trace → PreflightRequest → Result Fault Staging
  pub promote : Trace → Request → Replaced
  pub estimate : Trace → Task → ℕ
  pub sample : Trace → String → Rat → Result Fault ℕ
  pub run : Trace → List String → RunResult × Option Fault
  pub probe : Trace → String → Result Fault Probe.Result
  pub capabilities : Trace → Result Fault Capabilities
  pub answer : Trace → Call → Option Fault
  pub ctx_done : Trace → Bool
  pub cancel_requested : Trace → Bool
  pub now : Trace → ℕ

abbrev pub Action : Type 0 → Type 0
Action A = Trace → Result Fault A × Trace

infixl 5 ◌>>=◌ ◌>>◌
unfoldable pub ◌>>=◌ : {A B : Type 0} → Action A → (A → Action B) → Action B
◌>>=◌ m f h = let (r, h') = m h in elim r [ ok a ↦ f a h' | err e ↦ (err e, h') ]

unfoldable pub ◌>>◌ : {A B : Type 0} → Action A → Action B → Action B
unfolding ◌>>=◌
m >> k = m >>= λ _. k

abbrev pub return : {A : Type 0} → A → Action A
return a h = (ok a, h)

abbrev pub throw : {A : Type 0} → Fault → Action A
throw e h = (err e, h)

abbrev pub lift : {A : Type 0} → Result Fault A → Action A
lift r h = (r, h)

-- `m`, with its result as a value: an error is not passed on.
abbrev pub catch : {A : Type 0} → Action A → Action (Result Fault A)
catch m h = (ok (m h).0, (m h).1)

abbrev wrap : {A : Type 0} → (Fault → Fault) → Result Fault A → Result Fault A
wrap f (ok a) = ok a
wrap f (err e) = err (f e)

-- One question to a dependency, its error wrapped.
unfoldable pub ask : {A : Type 0} → String → (Trace → Result Fault A) → (Fault → Fault) → Action A
ask name read f h = (wrap f (read h), looked name ∷ h)

abbrev succeeded : Option Fault → Bool
succeeded none = true
succeeded (some e) = false

abbrev result_of : Option Fault → (Fault → Fault) → Result Fault Bool
result_of none f = ok true
result_of (some e) f = err (f e)

-- One write, its error wrapped.
unfoldable pub write : World → Call → (Fault → Fault) → Action Bool
write w c f h = (result_of (w.answer h c) f, did c (succeeded (w.answer h c)) ∷ h)

-- One write whose error is only logged.
unfoldable pub attempt : World → Call → Action Bool
attempt w c h = (ok (succeeded (w.answer h c)), did c (succeeded (w.answer h c)) ∷ h)
