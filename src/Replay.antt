-- ===== src/Replay.antt =====
-- app/jobs/dlq_auto_replay.py: dead events of the outbox and failed exports are tried again.
mod Rows
mod Loops
pub mod Tallies
pub mod Starved
mod Scenarios
pub use Rows.*
unfoldable pub use Loops.*
