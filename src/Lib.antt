-- ===== src/Lib.antt =====
-- Codarr keeps a media library in formats that every player direct-plays. It probes a file,
-- decides stream by stream what to do, encodes it with ffmpeg into a staging file, verifies that
-- file, and renames it over the source.
--
-- The parts and the files that model them:
--
-- Prelude: shared names; Tests, Lists, Int, Text, Contains and Outcome hold Boolean tests, lists
-- over the native numbers, signed integers, the text functions of the Go standard library which
-- the program uses (on ASCII), lookups in lists of texts, and results.
-- Domain: internal/pkg/domain. Its children follow kind.go (KindOf is kind_of, Labels of a kind is
-- labels_of), plan.go with the types of decision.go, decision.go itself in Path for OutputExt, the
-- provenance of media.go, and the records of transform.go.
-- Probe: internal/ffprobe/result.go and, in Probe/Chroma, chroma.go. Methods are functions with
-- the snake_case name. Floats are fractions Rat, with exact comparison; a map is an association
-- list.
-- Decide: internal/decide. Policy is policy.go, Transform is transform.go with MergeMeasured in
-- Transform/Merge, Video, Audio, Subtitle, Reason, Engine and Skip the files of that name, Force
-- is ForceVideoEncode of video.go, Bitrate is bitrate.go. Engine.plan is the entry point; the
-- policy hash, a SHA-256 of the tables, is its parameter. Laws, Verdicts, Indices, Streams,
-- Settled and Force/Protected hold the proofs.
-- Promote: internal/promote. Types holds requests and results, Verify the checks of verify.go,
-- Effects the calls on the disk, Plex and the notifier, Preflight is preflight.go, Replace is
-- promote.go. An action maps the trace of calls so far to a result and a longer trace; the answer
-- to each call is a field of World, which may depend on the whole trace, so anything may change
-- between two calls. An error keeps its code and cause, not its message. Logging and metrics are
-- left out.
-- Jobs: internal/pkg/store/jobs.go with the state machine of internal/pkg/domain/job.go. Rows
-- holds single-row statements and the unique index of data/migrations/001_schema.sql, Queue the
-- transactions, Promotion the one of internal/pkg/store/media.go that ends a promoted job,
-- Queue/Steps the transition relation; Sweep is the sweep after a restart and the verdict on an
-- interrupted promotion of internal/job/recover.go. An error rolls a transaction back, so it
-- leaves the store as it was; the time is an argument.
-- Pathmap: internal/pkg/pathmap. Pathmap itself is pathmap.go, Pathmap/Attribute is attribute.go.
-- Hardware: internal/hardware/hardware.go, the methods of Capabilities as functions of them, those
-- that give advice in Hardware/Remediation.
-- Ffmpeg: internal/ffmpeg. Bitrate is bitrate.go, Argv is argv.go with the constants of policy.go,
-- Idet is idet.go, Stderr the StderrRing of progress.go. Argv.build gives the arguments of a
-- command as a list of texts.
-- Service: internal/job. Fault holds the errors and errors.go, Types the records, Effects the
-- calls on the store, the disk, ffmpeg, ffprobe and the promoter, with a trace and a World as in
-- Promote. The files after it follow execute.go in the order of a job: Load, Prepare, Encode,
-- Finalise, and Run for execute itself with the ends of worker.go; Enqueue is enqueue.go over the
-- store of Jobs. A task is passed on, changed, where the code mutates it. Effects/Sound has the
-- rule that the laws of a whole job use: what holds of every step holds of the job.
-- Examples: the models at concrete inputs.
--
-- How they interact: Decide reads a Probe result and gives a Domain plan; Promote takes the plan
-- and the staged output and replaces the source; Jobs orders the work and decides what an
-- interruption does to it. Service ties them together: it queues what Decide plans, and for one
-- job it plans again, asks the promoter for a staging path, selects an encoder by Hardware, builds
-- and runs commands by Ffmpeg until one succeeds, and has the promoter replace the source. In
-- Service the promoter is a field of World with the types of Promote, since its trace has other
-- events.
--
-- Fuel: the two loops of promote.go that wait for a stream to end run on fuel. A fuel above the
-- number of calls after which nobody streams the source is enough; running out is the cause spent,
-- which is no error of the program. The encode loop of execute.go has a fuel of five rounds, which
-- is enough: three encoders at most, of which two may decode on hardware and be tried again. All
-- other recursion is structural.
--
-- Numbers: sizes, times and counts are natural numbers, without the overflow of int64; priorities
-- are integers. The 1.2 margin of the preflight and the 98% of the bitrate chain are exact
-- fractions where the code uses float64.
--
-- Not modelled: running ffprobe and ffmpeg, the clients of Plex and the *arrs, the HTTP interface
-- and front end, ingest, the worker's loop with pause and cancel, runs over many files, estimates,
-- progress, the actions on the files that follow the verdict on an interrupted promotion, the
-- orphan sweep, the probing of devices, listing and statistics of jobs.
pub mod Pathmap
pub mod Prelude
pub mod Domain
pub mod Probe
pub mod Decide
pub mod Promote
pub mod Jobs
pub mod Ffmpeg
pub mod Hardware
pub mod Service
pub mod Examples
