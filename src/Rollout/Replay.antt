-- ===== src/Rollout/Replay.antt =====
-- crates/agent-core/src/rollout/reconstruction.rs: a history from the items of a rollout.
use cloud_agent.Base.{
  Bool, true, false, ◌&&◌, ◌||◌, not, Option, none, some, List, [], ◌∷◌, ◌++◌, map, length, keep,
  if◌then◌else◌, wrapping_add,
}
use cloud_agent.Base.Text.{Text}
use cloud_agent.Data.Input.{text_input_items}
use cloud_agent.Data.Response.{ResponseItem, ConversationHistory, system, user, assistant, tool}
use cloud_agent.Data.Event.{
  EventMsg, turn_completed, turn_failed, turn_cancelled, TurnState, completed, failed, cancelled,
  RolloutItem, event_msg, response_item, compacted,
}
use cloud_agent.Conversation.History
use cloud_agent.Conversation.Markers.{
  append_turn_aborted_marker_if_needed, counts_as_real_user_turn, is_context_summary_item,
}
use cloud_agent.Conversation.Outputs.{ensure_tool_outputs_present, and_then}

pub record PendingModelHistoryTurn : Type 0 where
  pub items : List ResponseItem
  pub has_model_output : Bool
  pub terminal_state : Option TurnState

abbrev pub Pending : Type 0
Pending = Option PendingModelHistoryTurn

abbrev pub is_cancelled : Option TurnState → Bool
is_cancelled (some cancelled) = true
is_cancelled state = false

abbrev pub is_failed : Option TurnState → Bool
is_failed (some failed) = true
is_failed state = false

-- The turn is taken out of `pending_turn` in every case.
unfoldable pub flush_pending_model_history_turn :
    ConversationHistory → Pending → ConversationHistory
flush_pending_model_history_turn history none = history
flush_pending_model_history_turn history (some turn) =
    let appended = record history {
      turn_count =
          wrapping_add history.turn_count (length (keep counts_as_real_user_turn turn.items));
      messages = history.messages ++ turn.items;
    } in
    if (is_cancelled turn.terminal_state || is_failed turn.terminal_state)
      && not turn.has_model_output
    then history
    else if is_cancelled turn.terminal_state
    then append_turn_aborted_marker_if_needed appended
    else appended

-- `history.messages[0] = item` panics (`none`) on an empty history.
unfoldable pub set_first : ResponseItem → List ResponseItem → Option (List ResponseItem)
set_first item [] = none
set_first item (m ∷ ms) = some (item ∷ ms)

abbrev pub Replaying : Type 0
Replaying = ConversationHistory × Pending

unfoldable pub set_system : Text → ConversationHistory → Option Replaying
set_system content history =
    and_then (set_first (system content) history.messages)
      (λ messages. some (record history { messages = messages }, none))

-- A model output goes to the pending turn, or to the history if there is none.
unfoldable pub add_output : ResponseItem → Replaying → Replaying
add_output item (history, none) =
    (record history { messages = history.messages ++ item ∷ [] }, none)
add_output item (history, some turn) =
    (history, some (record turn { has_model_output = true; items = turn.items ++ item ∷ [] }))

unfoldable pub end_turn : TurnState → Replaying → Replaying
end_turn state (history, none) = (
  if is_cancelled (some state) then append_turn_aborted_marker_if_needed history else history,
  none,
)
end_turn state (history, some turn) = (
  flush_pending_model_history_turn history (some (record turn { terminal_state = some state })),
  none,
)

unfoldable pub replay_response : ResponseItem → Replaying → Option Replaying
replay_response (system content) (history, pending) =
    set_system content (flush_pending_model_history_turn history pending)
replay_response (user content) (history, pending) = some (
  flush_pending_model_history_turn history pending,
  some (record { items = user content ∷ []; has_model_output = false; terminal_state = none }),
)
replay_response (assistant content reasoning tool_calls) r =
    some (add_output (assistant content reasoning tool_calls) r)
replay_response (tool tool_call_id name content structured) r =
    some (add_output (tool tool_call_id name content structured) r)

unfoldable pub replay_event : EventMsg → Replaying → Replaying
replay_event (turn_completed turn_id) r = end_turn completed r
replay_event (turn_failed turn_id error) r = end_turn failed r
replay_event (turn_cancelled turn_id reason) r = end_turn cancelled r
replay_event event r = r

unfoldable pub replay_item : RolloutItem → Replaying → Option Replaying
replay_item (response_item item) r = replay_response item r
replay_item (event_msg event) r = some (replay_event event r)
replay_item (compacted summary text trigger reason phase replacement) r = some r

unfoldable pub replay_items : List RolloutItem → Replaying → Option Replaying
replay_items [] r = some r
replay_items (item ∷ items) r = and_then (replay_item item r) (replay_items items)

unfoldable pub replay_model_history_suffix :
    ConversationHistory → List RolloutItem → Option ConversationHistory
replay_model_history_suffix history items =
    and_then (replay_items items (history, none))
      (λ r. some (flush_pending_model_history_turn r.0 r.1))

unfoldable pub normalize_item : ResponseItem → ResponseItem
normalize_item (system content) =
    if is_context_summary_item (system content)
    then user (text_input_items content)
    else system content
normalize_item item = item

-- The first item is left as it is.
unfoldable pub normalize_compacted_replacement_history : List ResponseItem → List ResponseItem
normalize_compacted_replacement_history [] = []
normalize_compacted_replacement_history (item ∷ items) = item ∷ map normalize_item items

-- The replacement history of an item, if it is a compaction with a nonempty one.
unfoldable pub replacement_of : RolloutItem → Option (List ResponseItem)
replacement_of (compacted summary text trigger reason phase (m ∷ ms)) = some (m ∷ ms)
replacement_of item = none

abbrev pub Checkpoint : Type 0
Checkpoint = Option (List ResponseItem × List RolloutItem)

abbrev pub later_or : Checkpoint → Option (List ResponseItem) → List RolloutItem → Checkpoint
later_or (some found) here items = some found
later_or none (some replacement) items = some (replacement, items)
later_or none none items = none

-- The last such item, with the items behind it.
unfoldable pub find_checkpoint : List RolloutItem → Checkpoint
find_checkpoint [] = none
find_checkpoint (item ∷ items) = later_or (find_checkpoint items) (replacement_of item) items

abbrev pub checkpoint_history : Text → Text → List ResponseItem → ConversationHistory
checkpoint_history id prompt replacement =
    let messages = normalize_compacted_replacement_history replacement in
    record (History.new id prompt) {
      messages = messages;
      turn_count = length (keep counts_as_real_user_turn messages);
    }

abbrev pub restored : Text → Text → Checkpoint → Option (ConversationHistory × List RolloutItem)
restored id prompt none = none
restored id prompt (some (replacement, suffix)) =
    some (checkpoint_history id prompt replacement, suffix)

unfoldable pub latest_compaction_checkpoint :
    Text → Text → List RolloutItem → Option (ConversationHistory × List RolloutItem)
latest_compaction_checkpoint id prompt items = restored id prompt (find_checkpoint items)

abbrev pub start_of :
    Text
    → Text
    → List RolloutItem
    → Option (ConversationHistory × List RolloutItem)
    → ConversationHistory × List RolloutItem
start_of id prompt items none = (History.new id prompt, items)
start_of id prompt items (some checkpoint) = checkpoint

abbrev pub ensure_outputs : ConversationHistory → Option ConversationHistory
ensure_outputs history =
    and_then (ensure_tool_outputs_present history.messages)
      (λ messages. some (record history { messages = messages }))

-- `none` is a panic.
unfoldable pub conversation_history_from_rollout_items :
    Text → Text → List RolloutItem → Option ConversationHistory
conversation_history_from_rollout_items id prompt items =
    let start = start_of id prompt items (latest_compaction_checkpoint id prompt items) in
    and_then (replay_model_history_suffix start.0 start.1) ensure_outputs
