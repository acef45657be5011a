-- ===== src/Chat/Folding.antt =====
-- The fold of a model's stream of chunks into the parts of a message (agents/chat/folding.py).
pub mod Parts
pub mod Tools
pub mod Chunks
pub mod Accumulator
pub mod Late
pub mod Searching
pub mod Calls
pub mod Ids
pub mod Final
pub mod KeptTools
pub mod KeptParts
pub mod Kept
mod Examples
