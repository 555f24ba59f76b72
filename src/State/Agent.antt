-- ===== src/State/Agent.antt =====
-- crates/agent-core/src/state/mod.rs: the conversations of the agent behind one lock. Every method
-- takes the lock for its whole body, so the methods run one after the other.
use cloud_agent.Base.{Bool, true, false, Option, none, some, List, [], is_some, if◌then◌else◌}
use cloud_agent.Base.Text.{Text}
use cloud_agent.Base.Maps.{text_key, lookup, insert, remove}
use cloud_agent.Data.Response.{ConversationHistory}
use cloud_agent.Data.Event.{EventMsg, TurnState, running, cancelled, ServerRequest}
use cloud_agent.Conversation.History
use cloud_agent.State.RequestIds.{RequestId}
use cloud_agent.State.Conversation
use cloud_agent.State.Conversation.{ActiveConversationTurn, ConversationState}
use cloud_agent.State.Tokens.{CancellationTokens}

module _ (c : CancellationTokens) where
  open c use {Token, Store, new, cancel}

  pub record ActiveTurnHandle : Type 0 where
    pub turn_id : Text
    pub turn_state : TurnState
    pub cancellation_token : Token

  pub record AgentConversationEntry : Type 0 where
    pub conversation : ConversationState
    pub cancellation_token : Option Token

  -- `poisoned` is a lock whose holder panicked; `tokens` is the state of the cancellation tokens.
  pub record AgentState : Type 0 where
    pub system_prompt : Text
    pub poisoned : Bool
    pub conversations : List (Text × AgentConversationEntry)
    pub tokens : Store

  abbrev pub fresh_agent : Text → Store → AgentState
  fresh_agent system_prompt tokens = record {
    system_prompt = system_prompt;
    poisoned = false;
    conversations = [];
    tokens = tokens;
  }

  unfoldable pub new_entry : ConversationHistory → AgentConversationEntry
  new_entry history = record {
    conversation = Conversation.idle_state history;
    cancellation_token = none;
  }

  -- `conversations.lock().ok()?.get(id)`.
  unfoldable pub entry_of : Text → AgentState → Option AgentConversationEntry
  entry_of id a = if a.poisoned then none else lookup id a.conversations

  abbrev pub put : Text → AgentConversationEntry → AgentState → AgentState
  put id entry a = record a { conversations = insert id entry a.conversations }

  -- `entry(id).or_insert_with(..)`.
  unfoldable pub entry_or_new : Text → AgentState → AgentConversationEntry
  entry_or_new id a = elim (lookup id a.conversations) [
    | some entry ↦ entry
    | none ↦ new_entry (History.new id a.system_prompt)
  ]

  -- A method that changes an entry that is there, and does nothing else.
  abbrev pub modify :
      Text → (AgentConversationEntry → AgentConversationEntry) → AgentState → AgentState
  modify id f a = elim (entry_of id a) [ some entry ↦ put id (f entry) a | none ↦ a ]

  -- A method that changes an entry, a new one if there is none.
  abbrev pub modify_or_new :
      Text → (AgentConversationEntry → AgentConversationEntry) → AgentState → AgentState
  modify_or_new id f a = if a.poisoned then a else put id (f (entry_or_new id a)) a

  abbrev pub on_conversation :
      (ConversationState → ConversationState) → AgentConversationEntry → AgentConversationEntry
  on_conversation f entry = record entry { conversation = f entry.conversation }

  unfoldable pub conversation : Text → AgentState → Option ConversationState
  conversation id a = elim (entry_of id a) [ some entry ↦ some entry.conversation | none ↦ none ]

  pub history : Text → AgentState → Option ConversationHistory
  history id a = elim (entry_of id a) [ some entry ↦ some entry.conversation.context | none ↦ none ]

  abbrev pub saved : ConversationHistory → Option AgentConversationEntry → AgentConversationEntry
  saved h (some entry) = on_conversation (λ s. record s { context = h }) entry
  saved h none = new_entry h

  unfoldable pub save_history : ConversationHistory → AgentState → AgentState
  save_history h a = if a.poisoned then a else put h.id (saved h (lookup h.id a.conversations)) a

  unfoldable pub remove_conversation : Text → AgentState → AgentState
  remove_conversation id a =
      if a.poisoned then a else record a { conversations = remove id a.conversations }

  abbrev pub handle_of : Option ActiveConversationTurn → Option Token → Option ActiveTurnHandle
  handle_of (some active) (some token) = some (record {
    turn_id = active.turn_id;
    turn_state = active.turn_state;
    cancellation_token = token;
  })
  handle_of active token = none

  unfoldable pub active_turn : Text → AgentState → Option ActiveTurnHandle
  active_turn id a = elim (entry_of id a) [
    | some entry ↦ handle_of entry.conversation.active_turn entry.cancellation_token
    | none ↦ none
  ]

  abbrev pub running_handle : Text → Token → ActiveTurnHandle
  running_handle turn_id token = record {
    turn_id = turn_id;
    turn_state = running;
    cancellation_token = token;
  }

  abbrev pub started : Text → Token → AgentConversationEntry → AgentConversationEntry
  started turn_id token entry = record {
    conversation = Conversation.set_active_turn turn_id entry.conversation;
    cancellation_token = some token;
  }

  -- On a poisoned lock the turn is started without being recorded.
  unfoldable pub start_turn : Text → Text → AgentState → Option ActiveTurnHandle × AgentState
  start_turn id turn_id a =
      let (token, tokens) = new a.tokens in
      let a' = record a { tokens = tokens } in
      let entry = entry_or_new id a in
      if a.poisoned
      then (some (running_handle turn_id token), a')
      else if is_some entry.conversation.active_turn
      then (none, put id entry a')
      else (some (running_handle turn_id token), put id (started turn_id token entry) a')

  abbrev pub finished : AgentConversationEntry → AgentConversationEntry
  finished entry = record {
    conversation = Conversation.clear_active_turn entry.conversation;
    cancellation_token = none;
  }

  unfoldable pub finish_turn : Text → AgentState → AgentState
  finish_turn id a = modify id finished a

  unfoldable pub update_turn_state : Text → Text → TurnState → AgentState → AgentState
  update_turn_state id turn_id turn_state a =
      modify id (on_conversation (Conversation.update_turn_state turn_id turn_state)) a

  abbrev pub as_cancelled : Option ActiveConversationTurn → Option ActiveConversationTurn
  as_cancelled none = none
  as_cancelled (some active) = some (record active { turn_state = cancelled })

  abbrev pub cancel_turn : AgentConversationEntry → AgentConversationEntry
  cancel_turn = on_conversation (λ s. record s { active_turn = as_cancelled s.active_turn })

  abbrev pub interrupted :
      Text → AgentState → AgentConversationEntry → Option Token → Bool × AgentState
  interrupted id a entry none = (false, a)
  interrupted id a entry (some token) =
      (true, put id (cancel_turn entry) (record a { tokens = cancel token a.tokens }))

  unfoldable pub interrupt_conversation : Text → AgentState → Bool × AgentState
  interrupt_conversation id a = elim (entry_of id a) [
    | some entry ↦ interrupted id a entry entry.cancellation_token
    | none ↦ (false, a)
  ]

  unfoldable pub append_conversation_event : Text → EventMsg → AgentState → AgentState
  append_conversation_event id event a =
      modify_or_new id (on_conversation (Conversation.append_event event)) a

  unfoldable pub set_pending_request : Text → RequestId → ServerRequest → AgentState → AgentState
  set_pending_request id request_id request a =
      modify_or_new id (on_conversation (Conversation.set_pending_request request_id request)) a

  unfoldable pub resolve_pending_request : Text → RequestId → AgentState → AgentState
  resolve_pending_request id request_id a =
      modify id (on_conversation (Conversation.resolve_pending_request request_id)) a
