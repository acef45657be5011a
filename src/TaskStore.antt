-- ===== src/TaskStore.antt =====
-- The durable task store (agents/_task_store.py): its rows, its statements, and their laws.
pub mod Rows
pub mod Runs
pub mod Steps
pub mod Parking
pub mod Queries
pub mod Removal
pub mod Trace
pub mod RunInvariant
pub mod Effect
pub mod Invariant
pub mod Finality
pub mod View
pub mod Claims
pub mod Fencing
pub mod Exclusive
pub mod Cancelling
pub mod Parked
pub mod Listing
pub mod Deleting
pub mod Schema
mod Examples
