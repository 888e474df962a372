-- ===== src/Jobs.antt =====
-- internal/pkg/store/jobs.go: the queue of jobs, one row for each job.
pub mod Types
pub mod Rows
pub mod Promotion
pub mod Queue
pub mod Sweep
