-- ===== src/Jobs.antt =====
-- The durable job queue of the lifecycle runtime (agents/lifecycle/jobs.py).
pub mod Rows
pub mod Validation
pub mod Codec
pub mod Queue
pub mod Execution
pub mod Alarm
pub mod Ownership
pub mod Pushing
pub mod Intents
pub mod Waking
mod Examples
