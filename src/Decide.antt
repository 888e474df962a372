-- ===== src/Decide.antt =====
-- internal/decide: the decision engine, which turns a probe into a plan against a hard-coded policy.
pub mod Policy
pub mod Video
pub mod Audio
pub mod Subtitle
pub mod Reason
pub mod Engine
pub mod Force
pub mod Skip
pub mod Bitrate
pub mod Transform
