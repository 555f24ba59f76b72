-- ===== src/Compaction.antt =====
-- crates/agent-core/src/context/compaction: which part of a history is summarised, and what
-- replaces it.
pub mod Estimate
pub mod Plan
pub mod Summary
pub mod Replacement
