-- ===== src/Turn/TokenUsage.antt =====
-- crates/agent-core/src/turn/token_usage.rs, the addition of usages in model/mod.rs, and
-- `update_token_usage_from_response` of turn/execution/response.rs: the tokens that a conversation has used.
use cloud_agent.Base.{
  ℕ, ◌-◌, Bool, true, false, Option, none, some, List, [], ◌∷◌, ◌++◌, is_some, leb, saturating_add,
  if◌then◌else◌,
}
use cloud_agent.Base.Text.{Text}
use cloud_agent.Data.Event.{
  ModelUsage, EventMsg, token_usage_updated, context_compacted, RolloutItem, event_msg,
}
use cloud_agent.Turn.Window.{
  AutoCompactWindow, AutoCompactWindowSnapshot, default_snapshot, new_window, snapshot,
  set_estimated_prefill, start_next, ensure_server_observed_prefill_from_usage,
}
use cloud_agent.Turn.AutoCompact.{AutoCompactTokenLimitScope, total, body_after_prefix}

abbrev no_usage : ModelUsage
no_usage = record {
  input_tokens = 0;
  cached_input_tokens = 0;
  output_tokens = 0;
  reasoning_output_tokens = 0;
  total_tokens = 0;
}

unfoldable pub add_assign : ModelUsage → ModelUsage → ModelUsage
add_assign u v = record {
  input_tokens = saturating_add u.input_tokens v.input_tokens;
  cached_input_tokens = saturating_add u.cached_input_tokens v.cached_input_tokens;
  output_tokens = saturating_add u.output_tokens v.output_tokens;
  reasoning_output_tokens = saturating_add u.reasoning_output_tokens v.reasoning_output_tokens;
  total_tokens = saturating_add u.total_tokens v.total_tokens;
}

pub record TokenUsageState : Type 0 where
  pub total_usage : ModelUsage
  pub last_usage : Option ModelUsage
  pub model_context_window : Option ℕ

abbrev pub no_usage_state : TokenUsageState
no_usage_state = record { total_usage = no_usage; last_usage = none; model_context_window = none }

abbrev restore : ModelUsage → Option ModelUsage → Option ℕ → TokenUsageState
restore total_usage last window = record {
  total_usage = total_usage;
  last_usage = last;
  model_context_window = window;
}

unfoldable pub append_server_usage : ModelUsage → Option ℕ → TokenUsageState → TokenUsageState
append_server_usage usage window s = record {
  total_usage = add_assign s.total_usage usage;
  last_usage = some usage;
  model_context_window = if is_some window then window else s.model_context_window;
}

unfoldable active_context_tokens_from_last_usage : TokenUsageState → Option ℕ
active_context_tokens_from_last_usage s = elim s.last_usage [
  | some usage ↦ some usage.total_tokens
  | none ↦ none
]

pub record RequestTokenBaseline : Type 0 where
  pub server_context_tokens : Option ℕ
  pub request_estimated_tokens : Option ℕ

pub record RestoredTurnTokenState : Type 0 where
  pub usage : TokenUsageState
  pub request_baseline : RequestTokenBaseline
  pub auto_compact_window : AutoCompactWindowSnapshot

-- The state of the loop over the items: what is restored, whether anything was seen, the window.
pub record Restoring : Type 0 where
  pub restored : RestoredTurnTokenState
  pub saw_usage_or_compaction : Bool
  pub window : AutoCompactWindow

abbrev default_restored : RestoredTurnTokenState
default_restored = record {
  usage = no_usage_state;
  request_baseline = record { server_context_tokens = none; request_estimated_tokens = none };
  auto_compact_window = default_snapshot;
}

abbrev pub baseline : ℕ → ℕ → RequestTokenBaseline
baseline server estimated = record {
  server_context_tokens = some server;
  request_estimated_tokens = some estimated;
}

unfoldable pub restore_event : EventMsg → Restoring → Restoring
restore_event (token_usage_updated turn_id last total_usage context_window estimated) r = record r {
  saw_usage_or_compaction = true;
  restored = record r.restored {
    usage = restore total_usage (some last) context_window;
    request_baseline = baseline last.total_tokens estimated;
  };
}
restore_event (context_compacted turn_id trigger reason phase pre post pre_count post_count users)
      r =
    let window = set_estimated_prefill post (start_next r.window) in
    record {
      saw_usage_or_compaction = true;
      restored = record r.restored {
        request_baseline = baseline post post;
        auto_compact_window = snapshot window;
      };
      window = window;
    }
restore_event event r = r

unfoldable pub restore_item : RolloutItem → Restoring → Restoring
restore_item (event_msg event) r = restore_event event r
restore_item item r = r

unfoldable pub restore_items : List RolloutItem → Restoring → Restoring
restore_items [] r = r
restore_items (item ∷ items) r = restore_items items (restore_item item r)

abbrev pub nothing_restored : Restoring
nothing_restored = record {
  restored = default_restored;
  saw_usage_or_compaction = false;
  window = new_window;
}

abbrev pub then_some : Restoring → Option RestoredTurnTokenState
then_some r = if r.saw_usage_or_compaction then some r.restored else none

unfoldable pub latest_turn_token_state_from_rollout_items :
    List RolloutItem → Option RestoredTurnTokenState
latest_turn_token_state_from_rollout_items items = then_some (restore_items items nothing_restored)

unfoldable pub apply_signed_token_delta : ℕ → ℕ → ℕ → ℕ
apply_signed_token_delta base current previous =
    if leb previous current
    then saturating_add base (current - previous)
    else base - (previous - current)

-- What a response changes: the usage, the baseline, the window, and the events that are emitted.
pub record ResponseUsage : Type 0 where
  pub token_usage_state : TokenUsageState
  pub request_baseline : RequestTokenBaseline
  pub auto_compact_window : AutoCompactWindow
  pub events : List EventMsg

abbrev observe : AutoCompactTokenLimitScope → ModelUsage → AutoCompactWindow → AutoCompactWindow
observe total usage w = w
observe body_after_prefix usage w = ensure_server_observed_prefill_from_usage usage w

unfoldable pub update_token_usage_from_response :
    Text → Option ModelUsage → ℕ → AutoCompactTokenLimitScope → ℕ → ResponseUsage → ResponseUsage
update_token_usage_from_response turn_id none context_window scope estimated r = r
update_token_usage_from_response turn_id (some usage) context_window scope estimated r =
    let state = append_server_usage usage (some context_window) r.token_usage_state in
    record {
      token_usage_state = state;
      request_baseline = baseline usage.total_tokens estimated;
      auto_compact_window = observe scope usage r.auto_compact_window;
      events =
          r.events
          ++ token_usage_updated turn_id usage state.total_usage state.model_context_window
              estimated
            ∷ [];
    }
