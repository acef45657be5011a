-- ===== src/Sessions.antt =====
-- The compaction of sessions (agents/_session_compaction.py).
pub mod Overlays
pub mod Planning
pub mod Compaction
pub mod Input
pub mod Protected
pub mod History
mod Examples
