-- ===== src/Data/Tool.antt =====
-- crates/agent-core/src/tool/mod.rs: tool calls, tool specifications and structured results.
use cloud_agent.Base.{ℕ, Bool, Option, List}
use cloud_agent.Base.Text.{Text}

-- A `serde_json::Value` stands here by its compact rendering, all that the modelled code reads.
abbrev pub Json : Type 0
Json = Text

-- `i32`, an exit code: `negsuc n` is -(n + 1).
pub data ℤ : Type 0 where
  pos : ℕ → ℤ
  negsuc : ℕ → ℤ

pub data ToolSource : Type 0 where
  built_in hosted mcp dynamic : ToolSource

pub record ToolIdentity : Type 0 where
  pub source : ToolSource
  pub namespace : Option Text
  pub wire_name : Text

pub data ToolExecutionPolicy : Type 0 where
  sequential parallel_safe : ToolExecutionPolicy

pub data TurnItemKind : Type 0 where
  user_message assistant_message command_execution file_change : TurnItemKind
  tool_call tool_result reasoning system_note : TurnItemKind

pub data TurnItemDeltaKind : Type 0 where
  text command_execution_output tool_output : TurnItemDeltaKind
  reasoning_text reasoning_summary json_patch : TurnItemDeltaKind

pub record ToolSpec : Type 0 where
  pub name : Text
  pub identity : ToolIdentity
  pub description : Text
  pub parameters : Json
  pub mutating : Bool
  pub execution_policy : ToolExecutionPolicy
  pub requires_approval : Bool
  pub item_kind : TurnItemKind
  pub delta_kind : TurnItemDeltaKind
  pub approval_reason : Option Text

pub record ToolCall : Type 0 where
  pub id : Text
  pub name : Text
  pub identity : ToolIdentity
  pub arguments : Json

pub record SearchWorkspaceHit : Type 0 where
  pub path : Text
  pub line : Option ℕ
  pub preview : Text
  pub score : Option ℕ
  pub file_score : Option ℕ
  pub file_match_count : Option ℕ
  pub rank : Option ℕ
  pub indices : Option (List ℕ)
  pub match_kind : Option Text

pub record ToolSearchHit : Type 0 where
  pub tool_name : Text
  pub source : ToolSource
  pub description : Text
  pub mutating : Bool
  pub rank : ℕ
  pub match_reason : Text

pub data ReadFileStatus : Type 0 where
  ok binary too_large unsupported_encoding failed : ReadFileStatus

pub record ReadFileEntry : Type 0 where
  pub path : Text
  pub start_line : Option ℕ
  pub end_line : Option ℕ
  pub next_start_line : Option ℕ
  pub returned_line_count : ℕ
  pub total_line_count : Option ℕ
  pub returned_char_count : ℕ
  pub truncated : Bool
  pub char_count : ℕ
  pub status : ReadFileStatus
  pub version_token : Option Text

pub record DirectoryEntry : Type 0 where
  pub name : Text
  pub path : Text
  pub is_file : Bool
  pub is_dir : Bool
  pub is_symlink : Bool

pub record McpCallResult : Type 0 where
  pub content : Json
  pub structured_content : Option Json
  pub is_error : Bool

pub data SearchWorkspaceOperation : Type 0 where
  search refine close : SearchWorkspaceOperation

pub data SearchWorkspaceMode : Type 0 where
  files text : SearchWorkspaceMode

pub data SearchWorkspaceStatus : Type 0 where
  active closed not_found : SearchWorkspaceStatus

pub data CommandExecutionStatus : Type 0 where
  in_progress completed failed declined : CommandExecutionStatus

pub data WriteFileStatus : Type 0 where
  in_progress completed declined failed : WriteFileStatus

-- crates/agent-core/src/model/mod.rs
pub data WebSearchAction : Type 0 where
  search : Option Text → Option (List Text) → WebSearchAction
  open_page : Option Text → WebSearchAction
  find_in_page : Option Text → Option Text → WebSearchAction
  unknown : Option Text → Option Json → WebSearchAction

-- The constructors' arguments are the fields of the source's variants, in their order.
pub data StructuredToolResult : Type 0 where
  tool_error : (tool_name message : Text) → StructuredToolResult
  web_search :
      (query : Text) (action : Option WebSearchAction) (result_count source_count : Option ℕ)
      → StructuredToolResult
  command_execution :
      (command current_directory : Text) (session_id : Option Text)
      (status : CommandExecutionStatus) (exit_code : Option ℤ) (success : Option Bool)
      (output : Option Text) (duration_ms original_token_count max_output_tokens : Option ℕ)
      → StructuredToolResult
  search_workspace :
      (session_id : Text) (operation : SearchWorkspaceOperation) (mode : SearchWorkspaceMode)
      (status : SearchWorkspaceStatus) (query : Text) (path_scope : Option Text)
      (case_sensitive : Bool) (context_lines max_results offset file_count match_count : ℕ)
      (truncated : Bool) (next_offset : Option ℕ) (hits : List SearchWorkspaceHit)
      → StructuredToolResult
  tool_search :
      (query : Text) (max_results match_count : ℕ) (hits : List ToolSearchHit)
      → StructuredToolResult
  read_directory :
      (path : Text) (entry_count : ℕ) (truncated : Bool) (entries : List DirectoryEntry)
      → StructuredToolResult
  read_file_bytes :
      (path : Text) (offset bytes_read total_bytes : ℕ) (truncated : Bool) (next_offset : Option ℕ)
      (data_base64 : Text)
      → StructuredToolResult
  read_file :
      (path : Text) (start_line max_lines : Option ℕ) (total_chars : ℕ) (read : ReadFileEntry)
      → StructuredToolResult
  watch : (watch_id path : Text) (recursive is_active : Bool) → StructuredToolResult
  unwatch :
      (watch_id : Text) (removed : Bool) (changed_path_count : ℕ) (changed_paths : List Text)
      → StructuredToolResult
  get_metadata :
      (path : Text) (exists is_file is_dir is_symlink : Bool) (size : ℕ) (readonly : Bool)
      (created_at_ms modified_at_ms : Option ℕ)
      → StructuredToolResult
  create_directory : (path : Text) (recursive created : Bool) → StructuredToolResult
  write_file_bytes :
      (path : Text) (bytes_written : ℕ) (status : WriteFileStatus) (version_token : Option Text)
      → StructuredToolResult
  copy_path :
      (source_path destination_path : Text) (recursive : Bool) (status : WriteFileStatus)
      → StructuredToolResult
  remove_path :
      (path : Text) (recursive force removed : Bool) (status : WriteFileStatus)
      → StructuredToolResult
  edit_file :
      (changed_paths : List Text) (files_changed : ℕ) (status : WriteFileStatus)
      (version_token : Option Text)
      → StructuredToolResult
  mcp_tool_call : (server tool : Text) (result : McpCallResult) → StructuredToolResult

pub record ToolResult : Type 0 where
  pub tool_call_id : Text
  pub name : Text
  pub content : Text
  pub is_error : Bool
  pub structured : Option StructuredToolResult
