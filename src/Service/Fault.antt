-- ===== src/Service/Fault.antt =====
-- internal/job/errors.go: the errors that a job can end with, as far as the code asks what they
-- wrap, and the code and message that a failed job carries.
pub mod Laws
use codarr.Prelude.{String, Bool, true, false, ◌||◌, Option, none, some, ◌<>◌, if◌then◌else◌}
use codarr.Promote.Types
use codarr.Jobs.Types.{
  FailureCode, fail_preflight, fail_probe, fail_ffmpeg, fail_verification, fail_promote,
  fail_internal, Failed,
}

pub data Sentinel : Type 0 where
  job_cancelled context_canceled ffmpeg_failed ffmpeg_start probe_failed unreadable : Sentinel
  row_missing : Sentinel

-- `own` is an `*Error`, with and without an error that it wraps; `promoting` is a `*promote.Error`
-- with its text, without the error that it wraps; `joined` wraps two errors before a text; `spent` is no error of the program: the model's fuel ran out.
pub data Fault : Type 0 where
  own : FailureCode → String → String → Fault
  own_wrap : FailureCode → String → String → Fault → Fault
  promoting : Types.FailureCode → String → Fault
  wrapped : String → Fault → Fault
  joined : String → Fault → Fault → Fault
  sentinel : Sentinel → Fault
  other : String → Fault
  spent : Fault

abbrev sentinel_text : Sentinel → String
sentinel_text job_cancelled = "job: cancelled"
sentinel_text context_canceled = "context canceled"
sentinel_text ffmpeg_failed = "ffmpeg: non-zero exit"
sentinel_text ffmpeg_start = "ffmpeg: could not start"
sentinel_text probe_failed = "ffprobe: failed"
sentinel_text unreadable = "ffprobe: unreadable"
sentinel_text row_missing = "store: not found"

-- `Error()`
unfoldable pub text : Fault → String
text (own c m tail) = m
text (own_wrap c m tail e) = m <> ": " <> text e
text (promoting c m) = m
text (wrapped m e) = m <> ": " <> text e
text (joined m e f) = text e <> ": " <> text f <> ": " <> m
text (sentinel s) = sentinel_text s
text (other m) = m
text spent = "the model is out of fuel"

abbrev pub failf : FailureCode → String → Fault
failf c m = own c m ""

abbrev pub wrapf : FailureCode → Fault → String → Fault
wrapf c e m = own_wrap c m "" e

abbrev first : Option Failed → Option Failed → Option Failed
first none o = o
first (some f) o = some f

-- The first `*Error` of the chain: `errors.As`.
unfoldable pub own_of : Fault → Option Failed
unfolding text
own_of (own c m tail) = some (record { code = c; message = m; stderr_tail = tail })
own_of (own_wrap c m tail e) =
    some (record { code = c; message = m <> ": " <> text e; stderr_tail = tail })
own_of (wrapped m e) = own_of e
own_of (joined m e f) = first (own_of e) (own_of f)
own_of (promoting c m) = none
own_of (sentinel s) = none
own_of (other m) = none
own_of spent = none

abbrev pub job_code : Types.FailureCode → FailureCode
job_code Types.fail_preflight = fail_preflight
job_code Types.fail_verification = fail_verification
job_code Types.fail_promote = fail_promote

unfoldable pub promoting_of : Fault → Option Failed
promoting_of (own_wrap c m tail e) = promoting_of e
promoting_of (promoting c m) = some (record { code = job_code c; message = m; stderr_tail = "" })
promoting_of (wrapped m e) = promoting_of e
promoting_of (joined m e f) = first (promoting_of e) (promoting_of f)
promoting_of (own c m tail) = none
promoting_of (sentinel s) = none
promoting_of (other m) = none
promoting_of spent = none

abbrev pub eq_sentinel : Sentinel → Sentinel → Bool
eq_sentinel job_cancelled job_cancelled = true
eq_sentinel context_canceled context_canceled = true
eq_sentinel ffmpeg_failed ffmpeg_failed = true
eq_sentinel ffmpeg_start ffmpeg_start = true
eq_sentinel probe_failed probe_failed = true
eq_sentinel unreadable unreadable = true
eq_sentinel row_missing row_missing = true
eq_sentinel _ _ = false

-- `errors.Is`
unfoldable pub is_caused_by : Sentinel → Fault → Bool
is_caused_by s (own_wrap c m tail e) = is_caused_by s e
is_caused_by s (wrapped m e) = is_caused_by s e
is_caused_by s (joined m e f) = is_caused_by s e || is_caused_by s f
is_caused_by s (sentinel t) = eq_sentinel t s
is_caused_by s (own c m tail) = false
is_caused_by s (promoting c m) = false
is_caused_by s (other m) = false
is_caused_by s spent = false

abbrev wrap_failed : FailureCode → String → Fault → Failed
wrap_failed c m e = record { code = c; message = m <> ": " <> text e; stderr_tail = "" }

unfoldable by_sentinel : Fault → Failed
unfolding is_caused_by text
by_sentinel e =
    if is_caused_by ffmpeg_failed e || is_caused_by ffmpeg_start e
    then wrap_failed fail_ffmpeg "ffmpeg did not complete" e
    else if is_caused_by probe_failed e || is_caused_by unreadable e
    then wrap_failed fail_probe "ffprobe did not return a usable result" e
    else wrap_failed fail_internal "the job stopped on an unexpected error" e

-- The code, the text and the stderr tail that `finishFailed` stores.
unfoldable pub classify : Fault → Failed
unfolding own_of promoting_of by_sentinel
classify e = elim (own_of e) [
  | some f ↦ f
  | none ↦ elim (promoting_of e) [ some f ↦ f | none ↦ by_sentinel e ]
]

-- `done` is `ctx.Err() != nil`.
unfoldable pub cancelled : Bool → Fault → Bool
unfolding is_caused_by
cancelled done e = is_caused_by job_cancelled e || (is_caused_by context_canceled e || done)
