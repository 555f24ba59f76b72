-- ===== src/Rollout.antt =====
-- crates/agent-core/src/rollout: the log of a conversation, what of it is persisted, and how a
-- history is rebuilt from it.
pub mod Policy
pub mod Replay
pub mod Open
pub mod Total
pub mod Persisted
pub mod Turns
