-- ===== src/Tasks.antt =====
-- The durable tasks facade (agents/tasks.py) over the task store: the steps of a task, the attempts
-- of a run, and what callers ask of runs. A coroutine is cut at its awaits into definitions that run
-- without one; what happens in between is any sequence of operations of the store.
pub mod Policy
pub mod Step
pub mod Sleeping
pub mod Attempt
pub mod Callers
pub mod Delays
pub mod Replay
pub mod Lost
pub mod Superseded
pub mod Finishing
pub mod Actions
pub mod Writing
pub mod Joining
mod Examples
