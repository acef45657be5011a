-- ===== src/Chat.antt =====
-- The chat layer (agents/chat).
pub mod Continuation
pub mod TurnQueue
pub mod Folding
