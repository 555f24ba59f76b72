-- ===== src/Rollout/Policy.antt =====
-- crates/agent-core/src/rollout/policy.rs: which items of a rollout are written to the log.
use cloud_agent.Base.{Bool, true, false, Option, none, some, List, [], ◌∷◌, if◌then◌else◌}
use cloud_agent.Data.Response.{ResponseItem, system, user, assistant, tool}
use cloud_agent.Data.Event.{
  EventMsg, turn_started, model_request_started, model_response_received, model_retrying,
  token_usage_updated, context_compacted, context_compaction_started, item_started, item_delta,
  item_progress, item_metrics_updated, item_completed, server_request_requested,
  server_request_resolved, turn_completed, turn_failed, turn_cancelled, RolloutItem, event_msg,
  response_item, compacted,
}

pub data RolloutPersistenceMode : Type 0 where
  limited : RolloutPersistenceMode

unfoldable pub should_persist_response_item : ResponseItem → Bool
should_persist_response_item (system content) = true
should_persist_response_item (user content) = true
should_persist_response_item (assistant content reasoning tool_calls) = true
should_persist_response_item (tool tool_call_id name content structured) = true

unfoldable pub should_persist_event_msg_limited : EventMsg → Bool
should_persist_event_msg_limited (turn_started turn_id conversation_id user_input) = true
should_persist_event_msg_limited (token_usage_updated turn_id last total window estimated) = true
should_persist_event_msg_limited
      (context_compacted turn_id trigger reason phase pre post pre_count post_count users) =
    true
should_persist_event_msg_limited (server_request_requested turn_id request) = true
should_persist_event_msg_limited (server_request_resolved turn_id request decision) = true
should_persist_event_msg_limited (turn_completed turn_id) = true
should_persist_event_msg_limited (turn_failed turn_id error) = true
should_persist_event_msg_limited (turn_cancelled turn_id reason) = true
should_persist_event_msg_limited (model_request_started turn_id messages tools) = false
should_persist_event_msg_limited (model_response_received turn_id model content calls) = false
should_persist_event_msg_limited (model_retrying turn_id stage attempt delay) = false
should_persist_event_msg_limited
      (context_compaction_started turn_id trigger reason phase estimated) =
    false
should_persist_event_msg_limited (item_started turn_id item) = false
should_persist_event_msg_limited (item_progress turn_id item_id call_id progress) = false
should_persist_event_msg_limited (item_metrics_updated turn_id item_id call_id metrics) = false
should_persist_event_msg_limited (item_delta turn_id item_id call_id kind segment delta) = false
should_persist_event_msg_limited (item_completed turn_id runtime transcript) = false

unfoldable pub should_persist_event_msg : EventMsg → RolloutPersistenceMode → Bool
should_persist_event_msg event limited = should_persist_event_msg_limited event

unfoldable pub persisted_rollout_item : RolloutItem → RolloutPersistenceMode → Option RolloutItem
persisted_rollout_item (event_msg event) mode =
    if should_persist_event_msg event mode then some (event_msg event) else none
persisted_rollout_item (response_item item) mode =
    if should_persist_response_item item then some (response_item item) else none
persisted_rollout_item (compacted summary text trigger reason phase replacement) mode =
    some (compacted summary text trigger reason phase replacement)

abbrev cons_some {ℓ} : {A : Type ℓ} → Option A → List A → List A
cons_some none xs = xs
cons_some (some x) xs = x ∷ xs

unfoldable pub persisted_rollout_items :
    List RolloutItem → RolloutPersistenceMode → List RolloutItem
persisted_rollout_items [] mode = []
persisted_rollout_items (item ∷ items) mode =
    cons_some (persisted_rollout_item item mode) (persisted_rollout_items items mode)
