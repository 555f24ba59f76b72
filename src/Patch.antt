-- ===== src/Patch.antt =====
-- crates/agent-tools/src/impls/fs/apply_patch.rs: the tool that edits files by patches.
pub mod Data
pub mod Seek
pub mod Replace
pub mod Hunks
pub mod Closest
pub mod Compute
pub mod Paths
pub mod Validate
pub mod Parse
pub mod Plan
pub mod Write
