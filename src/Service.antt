-- ===== src/Service.antt =====
-- internal/job: the service that queues files, runs their jobs and recovers them after a restart.
pub mod Fault
pub mod Types
pub mod Effects
pub mod Load
pub mod Enqueue
pub mod Prepare
pub mod Encode
pub mod Finalise
pub mod Run
