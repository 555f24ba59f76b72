-- ===== src/Conversation.antt =====
-- crates/agent-core/src/conversation and context/markers.rs: the history of a conversation.
pub mod History
pub mod Outputs
pub mod Markers
