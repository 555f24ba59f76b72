-- ===== src/Rollout/Turns.antt =====
-- The replay of rollout/reconstruction.rs on the log of one turn.
use cloud_agent.Base.{
  ◌≡◌, refl, ◌∙◌, sym, ap, Bool, true, false, ◌||◌, none, some, List, [], ◌∷◌, ◌++◌, map, All,
  Bool-cases, inl, inr, if◌then◌else◌, wrapping_add, length, keep,
}
use mathlib.Core.List.{append_assoc, append-nil}
use mathlib.Core.Bool.{or-true, or-false}
use cloud_agent.Data.Input.{InputItem}
use cloud_agent.Data.Response.{ResponseItem, ConversationHistory, system, user, assistant, tool}
use cloud_agent.Data.Event.{
  EventMsg, turn_completed, turn_failed, turn_cancelled, RolloutItem, event_msg, response_item,
}
use cloud_agent.Conversation.Markers.{
  append_turn_aborted_marker_if_needed, counts_as_real_user_turn,
}
use cloud_agent.Rollout.Replay.{
  PendingModelHistoryTurn, Pending, flush_pending_model_history_turn, add_output, end_turn,
  replay_response, replay_event, replay_item, replay_items,
}

abbrev is_model_output : ResponseItem → Bool
is_model_output (assistant content reasoning tool_calls) = true
is_model_output (tool tool_call_id name content structured) = true
is_model_output item = false

abbrev IsOutputs : List ResponseItem → Type 0
IsOutputs items = All (λ item. is_model_output item ≡ true) items

abbrev produced : List ResponseItem → Bool
produced [] = false
produced (item ∷ items) = true

abbrev added : PendingModelHistoryTurn → ResponseItem → PendingModelHistoryTurn
added turn item = record turn { items = turn.items ++ item ∷ []; has_model_output = true }

abbrev added_all : PendingModelHistoryTurn → List ResponseItem → PendingModelHistoryTurn
added_all turn outputs = record turn {
  items = turn.items ++ outputs;
  has_model_output = turn.has_model_output || produced outputs;
}

nothing_added : (turn : PendingModelHistoryTurn) → added_all turn [] ≡ turn
nothing_added turn = rw (append-nil turn.items, or-false turn.has_model_output)

added_more :
    (turn : PendingModelHistoryTurn) (item : ResponseItem) (outputs : List ResponseItem)
    → added_all (added turn item) outputs ≡ added_all turn (item ∷ outputs)
added_more turn item outputs =
    rw (append_assoc turn.items (item ∷ []) outputs, or-true turn.has_model_output)

replay_outputs :
    (h : ConversationHistory) (turn : PendingModelHistoryTurn) (outputs : List ResponseItem)
    (rest : List RolloutItem)
    → IsOutputs outputs
    → replay_items (map response_item outputs ++ rest) (h, some turn)
      ≡ replay_items rest (h, some (added_all turn outputs))
unfolding replay_items replay_item replay_response add_output
replay_outputs h turn [] rest o = ap (λ t. replay_items rest (h, some t)) (sym (nothing_added turn))
replay_outputs h turn (assistant content reasoning calls ∷ outputs) rest o =
    replay_outputs h (added turn (assistant content reasoning calls)) outputs rest o.1
    ∙ ap (λ t. replay_items rest (h, some t))
        (added_more turn (assistant content reasoning calls) outputs)
replay_outputs h turn (tool call_id name content structured ∷ outputs) rest o =
    replay_outputs h (added turn (tool call_id name content structured)) outputs rest o.1
    ∙ ap (λ t. replay_items rest (h, some t))
        (added_more turn (tool call_id name content structured) outputs)
replay_outputs h turn (system content ∷ outputs) rest o = absurd (cc)
replay_outputs h turn (user content ∷ outputs) rest o = absurd (cc)

-- The history with a turn's items behind it.
abbrev with_turn : ConversationHistory → List InputItem → List ResponseItem → ConversationHistory
with_turn h content outputs = record h {
  turn_count =
      wrapping_add h.turn_count (length (keep counts_as_real_user_turn (user content ∷ outputs)));
  messages = h.messages ++ user content ∷ outputs;
}

abbrev pub logged : List InputItem → List ResponseItem → EventMsg → List RolloutItem
logged content outputs event =
    response_item (user content) ∷ (map response_item outputs ++ event_msg event ∷ [])

abbrev marked_if_cancelled : EventMsg → ConversationHistory → ConversationHistory
marked_if_cancelled (turn_cancelled turn_id reason) history =
    append_turn_aborted_marker_if_needed history
marked_if_cancelled event history = history

abbrev ends_turn : EventMsg → Bool
ends_turn (turn_completed turn_id) = true
ends_turn (turn_failed turn_id error) = true
ends_turn (turn_cancelled turn_id reason) = true
ends_turn event = false

abbrev is_turn_completed : EventMsg → Bool
is_turn_completed (turn_completed turn_id) = true
is_turn_completed event = false

ended :
    (h : ConversationHistory) (turn : PendingModelHistoryTurn) (event : EventMsg)
    → ends_turn event ≡ true
    → (turn.has_model_output || is_turn_completed event) ≡ true
    → replay_event event (h, some turn) ≡ (
      marked_if_cancelled event (record h {
        turn_count = wrapping_add h.turn_count (length (keep counts_as_real_user_turn turn.items));
        messages = h.messages ++ turn.items;
      }),
      none,
    )
unfolding replay_event end_turn flush_pending_model_history_turn
ended h turn (turn_completed turn_id) e k = refl
ended h turn (turn_failed turn_id error) e k = rw (sym (or-false turn.has_model_output) ∙ k)
ended h turn (turn_cancelled turn_id reason) e k = rw (sym (or-false turn.has_model_output) ∙ k)
ended h turn event e k = absurd (cc)

abbrev pub after_turn :
    List InputItem → List ResponseItem → EventMsg → ConversationHistory → ConversationHistory
after_turn content outputs event h =
    if produced outputs || is_turn_completed event
    then marked_if_cancelled event (with_turn h content outputs)
    else h

dropped_turn :
    (h : ConversationHistory) (turn : PendingModelHistoryTurn) (event : EventMsg)
    → ends_turn event ≡ true
    → turn.has_model_output ≡ false
    → is_turn_completed event ≡ false
    → replay_event event (h, some turn) ≡ (h, none)
unfolding replay_event end_turn flush_pending_model_history_turn
dropped_turn h turn (turn_completed turn_id) e o k = absurd (cc)
dropped_turn h turn (turn_failed turn_id error) e o k = rw o
dropped_turn h turn (turn_cancelled turn_id reason) e o k = rw o
dropped_turn h turn event e o k = absurd (cc)

ended_turn :
    (h : ConversationHistory) (content : List InputItem) (outputs : List ResponseItem)
    (event : EventMsg)
    → ends_turn event ≡ true
    → replay_event event (
      h,
      some (record {
        items = user content ∷ outputs;
        has_model_output = produced outputs;
        terminal_state = none;
      }),
    )
      ≡ (after_turn content outputs event h, none)
ended_turn h content [] event e = elim (Bool-cases (is_turn_completed event)) [
  | inl k ↦ rw (k) (ended h _ event e k)
  | inr k ↦ rw (k) (dropped_turn h _ event e refl k)
]
ended_turn h content (item ∷ outputs) event e = ended h _ event e refl

-- Replaying the log of one turn (its user message, its model outputs and the event that ends it)
-- from any state of the replay puts the user message and the outputs behind the history, counts
-- the message as a turn if it is a real user message, and adds the abort marker behind a cancelled
-- turn. A failed or a cancelled turn without any output leaves no trace.
pub replay_items-logged :
    (h : ConversationHistory) (pending : Pending) (content : List InputItem)
    (outputs : List ResponseItem) (event : EventMsg)
    → IsOutputs outputs
    → ends_turn event ≡ true
    → replay_items (logged content outputs event) (h, pending)
      ≡ some (after_turn content outputs event (flush_pending_model_history_turn h pending), none)
unfolding replay_items replay_item replay_response
replay_items-logged h pending content outputs event o e =
    replay_outputs (flush_pending_model_history_turn h pending) _ outputs (event_msg event ∷ []) o
    ∙ ap some (ended_turn (flush_pending_model_history_turn h pending) content outputs event e)
