-- ===== src/Relay.antt =====
-- Sub-agent relays (agents/core/subagent_relay.py): a virtual connection records what is done to it
-- as a log of operations, which the parent decodes and applies to the real connection.
pub mod State
pub mod Connection
pub mod Log
pub mod Trace
pub mod Applying
pub mod Buffered
pub mod Calls
pub mod RoundTrip
pub mod Accepted
pub mod Session
mod Examples
