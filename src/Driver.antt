-- ===== src/Driver.antt =====
-- The driver of the job queue (agents/lifecycle/_job_driver.py): it claims the rows that are due, runs
-- them, applies their outcomes, and strikes those that exceed the memory limit. Its coroutines are cut
-- at their awaits.
pub mod State
pub mod Events
pub mod Open
pub mod Versions
pub mod Drive
pub mod Starts
pub mod Claims
pub mod Attempts
pub mod Retries
pub mod Memory
pub mod Strikes
mod Examples
