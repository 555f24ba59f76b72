-- ===== src/State/Steps.antt =====
-- The calls on the agent's state as steps.
use cloud_agent.Base.Text.{Text}
use cloud_agent.Base.Maps.{text_key}
use cloud_agent.Data.Response.{ConversationHistory}
use cloud_agent.Data.Event.{EventMsg, TurnState, ServerRequest}
use cloud_agent.State.RequestIds.{RequestId}
use cloud_agent.State.Tokens.{CancellationTokens}
use cloud_agent.State.Agent.{
  AgentState, fresh_agent, save_history, remove_conversation, start_turn, finish_turn,
  update_turn_state, interrupt_conversation, append_conversation_event, set_pending_request,
  resolve_pending_request,
}

module _ (c : CancellationTokens) where
  open c use {Store}

  -- One call on the agent's state, whatever it returns.
  pub data Step : AgentState c → AgentState c → Type 0 where
    saves : (h : ConversationHistory) (a : AgentState c) → Step a (save_history c h a)
    removes : (id : Text) (a : AgentState c) → Step a (remove_conversation c id a)
    starts : (id turn_id : Text) (a : AgentState c) → Step a (start_turn c id turn_id a).1
    finishes : (id : Text) (a : AgentState c) → Step a (finish_turn c id a)
    updates :
        (id turn_id : Text) (s : TurnState) (a : AgentState c)
        → Step a (update_turn_state c id turn_id s a)
    interrupts : (id : Text) (a : AgentState c) → Step a (interrupt_conversation c id a).1
    appends :
        (id : Text) (event : EventMsg) (a : AgentState c)
        → Step a (append_conversation_event c id event a)
    requests :
        (id : Text) (request_id : RequestId) (request : ServerRequest) (a : AgentState c)
        → Step a (set_pending_request c id request_id request a)
    resolves :
        (id : Text) (request_id : RequestId) (a : AgentState c)
        → Step a (resolve_pending_request c id request_id a)

  pub data Reachable : AgentState c → Type 0 where
    created :
        (system_prompt : Text) (tokens : Store) → Reachable (fresh_agent c system_prompt tokens)
    stepped : (a b : AgentState c) → Reachable a → Step a b → Reachable b
