-- ===== src/Data/Event.antt =====
-- crates/agent-core/src/turn/events.rs, runtime_item.rs, turn/compaction/model.rs and
-- rollout/mod.rs: the events of a turn and the items of a rollout log.
use cloud_agent.Base.{ℕ, Bool, true, false, Option, List}
use cloud_agent.Base.Text.{Text}
use cloud_agent.Data.Input.{InputItem}
use cloud_agent.Data.Tool.{StructuredToolResult, ToolIdentity, TurnItemKind, TurnItemDeltaKind}
use cloud_agent.Data.Response.{ResponseItem, TranscriptItem}

pub record CommandApprovalRequest : Type 0 where
  pub turn_id : Text
  pub tool_call_id : Text
  pub tool_name : Text
  pub reason : Text
  pub command_preview : Text

pub record FileChangeApprovalRequest : Type 0 where
  pub turn_id : Text
  pub tool_call_id : Text
  pub tool_name : Text
  pub reason : Text
  pub change_preview : Text

pub data ServerRequest : Type 0 where
  command_approval : CommandApprovalRequest → ServerRequest
  file_change_approval : FileChangeApprovalRequest → ServerRequest

pub data ServerRequestDecisionKind : Type 0 where
  accept accept_for_session decline cancel : ServerRequestDecisionKind

pub record ServerRequestDecision : Type 0 where
  pub decision : ServerRequestDecisionKind
  pub reason : Option Text

unfoldable is_approved : ServerRequestDecision → Bool
is_approved d = elim d.decision [
  | accept ↦ true
  | accept_for_session ↦ true
  | decline ↦ false
  | cancel ↦ false
]

pub data TurnState : Type 0 where
  idle running waiting_for_server_request completed failed cancelled : TurnState

pub data ModelRetryStage : Type 0 where
  request streaming : ModelRetryStage

pub data CompactionTrigger : Type 0 where
  manual auto : CompactionTrigger

pub data CompactionReason : Type 0 where
  user_requested context_limit : CompactionReason

pub data CompactionPhase : Type 0 where
  standalone_turn pre_turn mid_turn : CompactionPhase

-- crates/agent-core/src/model/mod.rs; the fields are u64.
pub record ModelUsage : Type 0 where
  pub input_tokens : ℕ
  pub cached_input_tokens : ℕ
  pub output_tokens : ℕ
  pub reasoning_output_tokens : ℕ
  pub total_tokens : ℕ

-- crates/agent-core/src/context/compaction/summary.rs
pub record CompactionSummary : Type 0 where
  pub current_task : List Text
  pub progress : List Text
  pub key_decisions : List Text
  pub important_context : List Text
  pub tool_code_facts : List Text
  pub next_steps : List Text

pub data RuntimeItemStatus : Type 0 where
  in_progress completed : RuntimeItemStatus

pub record RuntimeItemMetrics : Type 0 where
  pub input_tokens : Option ℕ
  pub output_tokens : Option ℕ
  pub total_tokens : Option ℕ
  pub elapsed_ms : Option ℕ
  pub bytes_read : Option ℕ
  pub bytes_written : Option ℕ
  pub file_count : Option ℕ
  pub source_count : Option ℕ
  pub result_count : Option ℕ

pub record RuntimeItemProgress : Type 0 where
  pub message : Option Text
  pub completed : Option ℕ
  pub total : Option ℕ
  pub unit : Option Text

pub record RuntimeItem : Type 0 where
  pub id : Text
  pub call_id : Option Text
  pub kind : TurnItemKind
  pub title : Option Text
  pub status : RuntimeItemStatus
  pub summary : Option Text
  pub tool_identity : Option ToolIdentity
  pub structured : Option StructuredToolResult
  pub progress : Option RuntimeItemProgress
  pub metrics : Option RuntimeItemMetrics

pub data EventMsg : Type 0 where
  turn_started : (turn_id conversation_id : Text) (user_input : List InputItem) → EventMsg
  model_request_started : (turn_id : Text) (message_count tool_count : ℕ) → EventMsg
  model_response_received :
      (turn_id : Text) (model_name : Option Text) (has_content : Bool) (tool_call_count : ℕ)
      → EventMsg
  model_retrying : (turn_id : Text) (stage : ModelRetryStage) (attempt next_delay_ms : ℕ) → EventMsg
  token_usage_updated :
      (turn_id : Text) (last_usage total_usage : ModelUsage) (model_context_window : Option ℕ)
      (request_estimated_tokens : ℕ)
      → EventMsg
  context_compacted :
      (turn_id : Text) (trigger : CompactionTrigger) (reason : CompactionReason)
      (phase : CompactionPhase) (pre_context_tokens_estimate post_context_tokens_estimate : ℕ)
      (pre_message_count post_message_count preserved_user_count : ℕ)
      → EventMsg
  context_compaction_started :
      (turn_id : Text) (trigger : CompactionTrigger) (reason : CompactionReason)
      (phase : CompactionPhase) (estimated_tokens : ℕ)
      → EventMsg
  item_started : (turn_id : Text) (item : RuntimeItem) → EventMsg
  item_delta :
      (turn_id item_id : Text) (call_id : Option Text) (kind : TurnItemDeltaKind)
      (segment_index : Option ℕ) (delta : Text)
      → EventMsg
  item_progress :
      (turn_id item_id : Text) (call_id : Option Text) (progress : RuntimeItemProgress) → EventMsg
  item_metrics_updated :
      (turn_id item_id : Text) (call_id : Option Text) (metrics : RuntimeItemMetrics) → EventMsg
  item_completed :
      (turn_id : Text) (runtime_item : RuntimeItem) (transcript_item : TranscriptItem) → EventMsg
  server_request_requested : (turn_id : Text) (request : ServerRequest) → EventMsg
  server_request_resolved :
      (turn_id : Text) (request : ServerRequest) (decision : ServerRequestDecision) → EventMsg
  turn_completed : (turn_id : Text) → EventMsg
  turn_failed : (turn_id error : Text) → EventMsg
  turn_cancelled : (turn_id reason : Text) → EventMsg

pub data RolloutItem : Type 0 where
  event_msg : (event : EventMsg) → RolloutItem
  response_item : (item : ResponseItem) → RolloutItem
  compacted :
      (summary : CompactionSummary) (rendered_summary : Text) (trigger : CompactionTrigger)
      (reason : CompactionReason) (phase : CompactionPhase)
      (replacement_history : List ResponseItem)
      → RolloutItem
