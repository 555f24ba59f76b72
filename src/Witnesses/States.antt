-- ===== src/Witnesses/States.antt =====
-- The theorems on the agent's conversations, applied.
use cloud_agent.Base.{
  ℕ, ◌+◌, ◌==◌, ◌≡◌, refl, Bool, true, false, none, some, [], arith, is_some, if◌then◌else◌,
}
use cloud_agent.Base.Text.{codes, text_eq}
use cloud_agent.Base.Maps.{text_key, lookup, insert}
use cloud_agent.Data.Event.{ServerRequest, command_approval, running, cancelled}
use cloud_agent.Conversation.History
use cloud_agent.State.RequestIds.{integer}
use cloud_agent.Data.Tool.{pos}
use cloud_agent.State.Conversation.{request_turn_id, set_active_turn, idle_state}
use cloud_agent.State.Tokens.{CancellationTokens}
use cloud_agent.State.Agent.{
  AgentState, AgentConversationEntry, ActiveTurnHandle, fresh_agent, entry_of, entry_or_new,
  new_entry, conversation, active_turn, start_turn, finish_turn, interrupt_conversation,
  set_pending_request, save_history,
}
use cloud_agent.State.Steps.{Reachable, created, stepped, starts, saves}
use cloud_agent.State.Invariant.{IsEntry, Reachable-IsEntry}
use cloud_agent.State.Busy.{IsBusy}
use cloud_agent.State.Exclusive.{done, followed, start_turn_exclusive}
use cloud_agent.State.Effects.{interrupt_conversation-active}
use cloud_agent.State.Finish.{finish_turn-start_turn}
use cloud_agent.Witnesses.Examples.{history}

-- Tokens numbered in the order of their creation.
abbrev numbered : CancellationTokens
numbered = record {
  Token = ℕ;
  Store = ℕ × (ℕ → Bool);
  new = λ (s : ℕ × (ℕ → Bool)). (s.0, (s.0 + 1, λ t. if t == s.0 then false else s.1 t));
  cancel = λ (t : ℕ) (s : ℕ × (ℕ → Bool)). (s.0, λ u. if u == t then true else s.1 u);
  is_cancelled = λ (t : ℕ) (s : ℕ × (ℕ → Bool)). s.1 t;
  new_is_live = λ s. ground arith;
  cancel_cancels = λ t s. ground arith;
  cancel_apart = λ t u s h. ground (arith, h);
}

abbrev empty : AgentState numbered
empty = fresh_agent numbered (codes "s") (0, λ t. false)

abbrev busy : AgentState numbered
busy = (start_turn numbered (codes "a") (codes "t1") empty).1

empty-Reachable : Reachable numbered empty
empty-Reachable = created (codes "s") (0, λ t. false)

busy-Reachable : Reachable numbered busy
busy-Reachable = stepped empty busy empty-Reachable (starts (codes "a") (codes "t1") empty)

abbrev entry : AgentConversationEntry numbered
entry = record {
  conversation = record {
    context = History.new (codes "a") (codes "s");
    active_turn = some (record { turn_id = codes "t1"; turn_state = running });
    event_log = [];
    pending_requests = [];
  };
  cancellation_token = some 0;
}

abbrev handle : ActiveTurnHandle numbered
handle = record { turn_id = codes "t1"; turn_state = running; cancellation_token = 0 }

entry_there : lookup (codes "a") busy.conversations ≡ some entry
unfolding start_turn entry_or_new lookup new_entry idle_state insert text_eq set_active_turn
entry_there = refl

Reachable-IsEntry_example : IsEntry numbered (codes "a") entry
Reachable-IsEntry_example =
    Reachable-IsEntry numbered busy (codes "a") entry busy-Reachable entry_there

start_accepted : is_some (start_turn numbered (codes "a") (codes "t1") empty).0 ≡ true
unfolding start_turn entry_or_new lookup new_entry idle_state
start_accepted = refl

abbrev saved_agent : AgentState numbered
saved_agent = save_history numbered history busy

start_turn_exclusive_example :
    IsBusy numbered (codes "a") (codes "t1") saved_agent
    × ((start_turn numbered (codes "a") (codes "t2") saved_agent).0 ≡ none)
start_turn_exclusive_example =
    start_turn_exclusive numbered (codes "a") (codes "t1") (codes "t2") empty saved_agent refl
      start_accepted
      (followed busy saved_agent saved_agent (saves history busy) refl (done saved_agent))

active : active_turn numbered (codes "a") busy ≡ some handle
unfolding active_turn entry_of start_turn entry_or_new lookup new_entry idle_state insert text_eq
    set_active_turn
active = refl

interrupt_conversation-active_example :
    ((interrupt_conversation numbered (codes "a") busy).0 ≡ true)
    × (numbered.is_cancelled 0 (interrupt_conversation numbered (codes "a") busy).1.tokens ≡ true)
    × (active_turn numbered (codes "a") (interrupt_conversation numbered (codes "a") busy).1
        ≡ some (record handle { turn_state = cancelled }))
interrupt_conversation-active_example =
    interrupt_conversation-active numbered (codes "a") busy handle active

abbrev approval : ServerRequest
approval = command_approval (record {
  turn_id = codes "t1";
  tool_call_id = codes "c1";
  tool_name = codes "exec";
  reason = codes "r";
  command_preview = codes "ls";
})

abbrev kept : AgentState numbered
kept = save_history numbered history empty

idle_there : conversation numbered (codes "a") kept ≡ some (idle_state history)
unfolding conversation entry_of save_history lookup insert text_eq idle_state new_entry
idle_there = refl

finish_turn-start_turn_example :
    conversation numbered (codes "a") (
      finish_turn numbered (codes "a") (
        set_pending_request numbered
          (codes "a")
          (integer (pos 1))
          approval
          (start_turn numbered (codes "a") (codes "t1") kept).1))
    ≡ some (idle_state history)
unfolding idle_state request_turn_id
finish_turn-start_turn_example =
    finish_turn-start_turn numbered (codes "a") (codes "t1") (integer (pos 1)) approval kept
      (idle_state history) idle_there refl refl refl
