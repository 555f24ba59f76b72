-- ===== src/State/Conversation.antt =====
-- crates/agent-core/src/conversation/state.rs: one conversation, its turn and its requests.
use cloud_agent.Base.{Bool, Option, none, some, List, [], ◌∷◌, ◌++◌, not, keep, if◌then◌else◌}
use cloud_agent.Base.Text.{Text, text_eq}
use cloud_agent.Data.Response.{ConversationHistory}
use cloud_agent.Data.Event.{
  EventMsg, TurnState, running, ServerRequest, command_approval, file_change_approval,
}
use cloud_agent.State.RequestIds.{RequestId, id_eq}

pub record ActiveConversationTurn : Type 0 where
  pub turn_id : Text
  pub turn_state : TurnState

pub record PendingConversationRequest : Type 0 where
  pub request_id : RequestId
  pub request : ServerRequest

-- The `ContextManager` holds a history and nothing else.
pub record ConversationState : Type 0 where
  pub context : ConversationHistory
  pub active_turn : Option ActiveConversationTurn
  pub event_log : List EventMsg
  pub pending_requests : List PendingConversationRequest

unfoldable pub idle_state : ConversationHistory → ConversationState
idle_state history = record {
  context = history;
  active_turn = none;
  event_log = [];
  pending_requests = [];
}

unfoldable pub set_active_turn : Text → ConversationState → ConversationState
set_active_turn turn_id c = record c {
  active_turn = some (record { turn_id = turn_id; turn_state = running });
}

unfoldable pub request_turn_id : ServerRequest → Text
request_turn_id (command_approval r) = r.turn_id
request_turn_id (file_change_approval r) = r.turn_id

abbrev pub is_of_turn : Text → PendingConversationRequest → Bool
is_of_turn turn_id pending = text_eq (request_turn_id pending.request) turn_id

unfoldable pub retained :
    Option ActiveConversationTurn
    → List PendingConversationRequest
    → List PendingConversationRequest
retained none pending = pending
retained (some active) pending = keep (λ p. not (is_of_turn active.turn_id p)) pending

unfoldable pub clear_active_turn : ConversationState → ConversationState
clear_active_turn c = record c {
  pending_requests = retained c.active_turn c.pending_requests;
  active_turn = none;
}

unfoldable pub moved_to :
    Text → TurnState → Option ActiveConversationTurn → Option ActiveConversationTurn
moved_to turn_id turn_state none = none
moved_to turn_id turn_state (some active) =
    some
      (if text_eq active.turn_id turn_id then record active { turn_state = turn_state } else active)

unfoldable pub update_turn_state : Text → TurnState → ConversationState → ConversationState
update_turn_state turn_id turn_state c = record c {
  active_turn = moved_to turn_id turn_state c.active_turn;
}

unfoldable pub append_event : EventMsg → ConversationState → ConversationState
append_event event c = record c { event_log = c.event_log ++ event ∷ [] }

unfoldable pub set_pending_request :
    RequestId → ServerRequest → ConversationState → ConversationState
set_pending_request request_id request c = record c {
  pending_requests =
      c.pending_requests ++ record { request_id = request_id; request = request } ∷ [];
}

unfoldable pub resolve_pending_request : RequestId → ConversationState → ConversationState
resolve_pending_request request_id c = record c {
  pending_requests = keep (λ p. not (id_eq p.request_id request_id)) c.pending_requests;
}
