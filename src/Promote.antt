-- ===== src/Promote.antt =====
-- internal/promote: the irreversible half of the program, which verifies a staged output and renames
-- it over the source.
pub mod Types
pub mod Verify
pub mod Effects
pub mod Preflight
pub mod Replace
