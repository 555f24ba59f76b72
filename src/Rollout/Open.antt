-- ===== src/Rollout/Open.antt =====
-- The id and the length of a history while a log is replayed (rollout/reconstruction.rs).
use cloud_agent.Base.{
  ℕ, ◌<◌, ◌≡◌, Bool, true, false, Option, none, some, List, [], ◌∷◌, ◌++◌, arith, length,
  length-append, if◌then◌else◌, last?, keep, wrapping_add, ◌||◌, ◌&&◌, not,
}
use cloud_agent.Base.Text.{Text}
use cloud_agent.Data.Response.{ResponseItem, ConversationHistory, system, user, assistant, tool}
use cloud_agent.Data.Event.{
  RolloutItem, event_msg, response_item, compacted, EventMsg, TurnState, turn_completed,
  turn_failed, turn_cancelled, completed, failed, cancelled,
}
use cloud_agent.Conversation.Markers.{
  append_turn_aborted_marker_if_needed, is_some_and, is_turn_aborted_marker,
  turn_aborted_marker_item, counts_as_real_user_turn,
}
use cloud_agent.Conversation.Outputs.{and_then}
use cloud_agent.Rollout.Replay.{
  is_cancelled, is_failed, Pending, Replaying, flush_pending_model_history_turn, set_first,
  set_system, add_output, end_turn, replay_response, replay_event, replay_item, replay_items,
}

-- A history that holds a message, under the id given.
pub record IsOpen (id : Text) (h : ConversationHistory) : Type 0 where
  pub same_id : h.id ≡ id
  pub some_message : 0 < length h.messages

append-IsOpen :
    (id : Text) (h : ConversationHistory) (n : ℕ) (xs : List ResponseItem)
    → IsOpen id h
    → IsOpen id (record h { turn_count = n; messages = h.messages ++ xs })
append-IsOpen id h n xs o = record {
  same_id = o.same_id;
  some_message = omega (arith, length-append h.messages xs, o.some_message);
}

either-IsOpen :
    (id : Text) (b : Bool) (h k : ConversationHistory)
    → IsOpen id h
    → IsOpen id k
    → IsOpen id (if b then h else k)
either-IsOpen id true h k p q = p
either-IsOpen id false h k p q = q

append_marker-IsOpen :
    (id : Text) (h : ConversationHistory)
    → IsOpen id h
    → IsOpen id (append_turn_aborted_marker_if_needed h)
unfolding append_turn_aborted_marker_if_needed
append_marker-IsOpen id h o =
    either-IsOpen id (is_some_and (last? h.messages) is_turn_aborted_marker) h _ o
      (append-IsOpen id h h.turn_count (turn_aborted_marker_item ∷ []) o)

pub flush-IsOpen :
    (id : Text) (h : ConversationHistory) (pending : Pending)
    → IsOpen id h
    → IsOpen id (flush_pending_model_history_turn h pending)
unfolding flush_pending_model_history_turn
flush-IsOpen id h none o = o
flush-IsOpen id h (some turn) o =
    let appended =
      append-IsOpen id h
        (wrapping_add h.turn_count (length (keep counts_as_real_user_turn turn.items))) turn.items
        o in
    either-IsOpen id
      ((is_cancelled turn.terminal_state || is_failed turn.terminal_state)
        && not turn.has_model_output)
      h _ o
      (either-IsOpen id (is_cancelled turn.terminal_state) _ _ (append_marker-IsOpen id _ appended)
        appended)

-- A state of the replay whose history is open.
abbrev pub Goes : Text → Option Replaying → Type 0
Goes id none = ⊥
Goes id (some r) = IsOpen id r.0

set_system-Goes :
    (id content : Text) (h : ConversationHistory) → IsOpen id h → Goes id (set_system content h)
unfolding set_system set_first
set_system-Goes id content h o = go h.messages o.some_message
  where
    go :
        (ms : List ResponseItem)
        → 0 < length ms
        → Goes id (
            and_then
              (set_first (system content) ms)
              (λ messages. some (record h { messages = messages }, none)))
    go [] l = absurd (omega arith)
    go (m ∷ ms) l = record { same_id = o.same_id; some_message = omega arith }

add_output-IsOpen :
    (id : Text) (item : ResponseItem) (h : ConversationHistory) (pending : Pending)
    → IsOpen id h
    → IsOpen id (add_output item (h, pending)).0
unfolding add_output
add_output-IsOpen id item h none o = append-IsOpen id h h.turn_count (item ∷ []) o
add_output-IsOpen id item h (some turn) o = o

end_turn-IsOpen :
    (id : Text) (state : TurnState) (h : ConversationHistory) (pending : Pending)
    → IsOpen id h
    → IsOpen id (end_turn state (h, pending)).0
unfolding end_turn
end_turn-IsOpen id state h none o =
    either-IsOpen id (is_cancelled (some state)) _ _ (append_marker-IsOpen id h o) o
end_turn-IsOpen id state h (some turn) o =
    flush-IsOpen id h (some (record turn { terminal_state = some state })) o

replay_event-IsOpen :
    (id : Text) (event : EventMsg) (h : ConversationHistory) (pending : Pending)
    → IsOpen id h
    → IsOpen id (replay_event event (h, pending)).0
unfolding replay_event
replay_event-IsOpen id (turn_completed turn_id) h pending o =
    end_turn-IsOpen id completed h pending o
replay_event-IsOpen id (turn_failed turn_id error) h pending o =
    end_turn-IsOpen id failed h pending o
replay_event-IsOpen id (turn_cancelled turn_id reason) h pending o =
    end_turn-IsOpen id cancelled h pending o
replay_event-IsOpen id event h pending o = o

replay_item-Goes :
    (id : Text) (item : RolloutItem) (h : ConversationHistory) (pending : Pending)
    → IsOpen id h
    → Goes id (replay_item item (h, pending))
unfolding replay_item replay_response
replay_item-Goes id (response_item (system content)) h pending o =
    set_system-Goes id content _ (flush-IsOpen id h pending o)
replay_item-Goes id (response_item (user content)) h pending o = flush-IsOpen id h pending o
replay_item-Goes id (response_item (assistant content reasoning calls)) h pending o =
    add_output-IsOpen id (assistant content reasoning calls) h pending o
replay_item-Goes id (response_item (tool call_id name content structured)) h pending o =
    add_output-IsOpen id (tool call_id name content structured) h pending o
replay_item-Goes id (event_msg event) h pending o = replay_event-IsOpen id event h pending o
replay_item-Goes id (compacted summary text trigger reason phase replacement) h pending o = o

pub replay_items-Goes :
    (id : Text) (items : List RolloutItem) (r : Replaying)
    → IsOpen id r.0
    → Goes id (replay_items items r)
unfolding replay_items
replay_items-Goes id [] r o = o
replay_items-Goes id (item ∷ items) r o =
    go (replay_item item r) (replay_item-Goes id item r.0 r.1 o) (replay_items-Goes id items)
  where
    go :
        (q : Option Replaying)
        → Goes id q
        → ((r : Replaying) → IsOpen id r.0 → Goes id (replay_items items r))
        → Goes id (and_then q (replay_items items))
    go none g ih = g
    go (some q) g ih = ih q g
