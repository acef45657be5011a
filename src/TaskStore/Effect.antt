-- ===== src/TaskStore/Effect.antt =====
-- Each statement of the task store is a sequence of UPDATEs that take rows by `RunStep` and
-- `StepStep`, of INSERTs of new keys, and of DELETEs of whole tasks. What these keep, the store keeps.
mod Runs
mod Steps
mod Removal
pub mod Relation
pub mod Apply
