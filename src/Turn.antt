-- ===== src/Turn.antt =====
-- crates/agent-core/src/turn: what a turn keeps track of while it runs.
pub mod Window
pub mod Pages
pub mod TokenUsage
pub mod AutoCompact
pub mod Restored
pub mod LoopGuard
