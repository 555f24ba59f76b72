-- ===== src/Data.antt =====
-- The data that the components exchange: the conversation items of crates/agent-core, tool calls
-- and their results, runtime items and events.
pub mod Input
pub mod Tool
pub mod Response
pub mod Event
