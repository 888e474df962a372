-- ===== src/Examples.antt =====
-- Runs of the models at concrete inputs.
mod Promotion
mod Queue
mod Planning
mod Bitrates
mod Service
mod Commands
mod Roots
mod Records
