-- ===== src/Data/Response.antt =====
-- The items of a conversation, and those that a transcript shows
-- (crates/agent-core/src/conversation/history.rs and items.rs).
use cloud_agent.Base.{ℕ, Option, List}
use cloud_agent.Base.Text.{Text}
use cloud_agent.Data.Input.{InputItem}
use cloud_agent.Data.Tool.{
  ToolCall, StructuredToolResult, CommandExecutionStatus, WriteFileStatus, ℤ,
}

pub data ResponseItem : Type 0 where
  system : (content : Text) → ResponseItem
  user : (content : List InputItem) → ResponseItem
  assistant : (content reasoning : Option Text) (tool_calls : List ToolCall) → ResponseItem
  tool :
      (tool_call_id name content : Text) (structured : Option StructuredToolResult) → ResponseItem

pub record ConversationHistory : Type 0 where
  pub id : Text
  pub turn_count : ℕ  -- u64
  pub messages : List ResponseItem

pub data TranscriptItem : Type 0 where
  system_message : (id text : Text) → TranscriptItem
  user_message : (id : Text) (content : List InputItem) → TranscriptItem
  agent_message : (id text : Text) → TranscriptItem
  command_execution :
      (id tool_name command current_directory : Text) (status : CommandExecutionStatus)
      (exit_code : Option ℤ) (output : Option Text) (duration_ms : Option ℕ) (summary : Text)
      → TranscriptItem
  file_change :
      (id tool_name path : Text) (status : WriteFileStatus) (files_changed : ℕ) (summary : Text)
      → TranscriptItem
  tool_result :
      (id tool_name content summary : Text) (structured : Option StructuredToolResult)
      → TranscriptItem
  reasoning : (id title text : Text) → TranscriptItem
