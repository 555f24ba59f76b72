-- ===== src/State.antt =====
-- crates/agent-core/src/state/mod.rs and conversation/state.rs: the conversations in memory.
pub mod RequestIds
pub mod Conversation
pub mod Tokens
pub mod Agent
pub mod Steps
pub mod Invariant
pub mod Busy
pub mod Exclusive
pub mod Effects
pub mod Finish
