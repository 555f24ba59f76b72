-- ===== src/Witnesses.antt =====
-- Concrete conversations, logs and states, and the theorems applied to them.
mod Examples
pub mod Conversations
pub mod Compactions
pub mod Rollouts
pub mod States
pub mod Turns
mod Patches
mod Edits
mod Truncations
pub mod Requests
