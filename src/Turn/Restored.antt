-- ===== src/Turn/Restored.antt =====
-- Token usage (turn/token_usage.rs) summed, logged and restored.
use cloud_agent.Base.{
  ℕ, ◌+◌, ◌≡◌, ◌≤◌, refl, ◌∙◌, ap, false, Option, some, List, [], ◌∷◌, ◌++◌, map, arith, min,
  Bool-cases, inl, inr,
}
use cloud_agent.Base.Text.{Text}
use cloud_agent.Data.Response.{system, user, assistant, tool}
use cloud_agent.Data.Event.{
  ModelUsage, EventMsg, token_usage_updated, context_compacted, RolloutItem, event_msg,
  response_item, compacted,
}
use cloud_agent.Rollout.Policy.{
  limited, should_persist_response_item, should_persist_event_msg_limited, should_persist_event_msg,
  persisted_rollout_item, persisted_rollout_items,
}
use cloud_agent.Turn.AutoCompact.{AutoCompactTokenLimitScope}
use cloud_agent.Turn.TokenUsage.{
  TokenUsageState, append_server_usage, add_assign, RestoredTurnTokenState, Restoring,
  restore_event, restore_item, restore_items, nothing_restored,
  latest_turn_token_state_from_rollout_items, ResponseUsage, update_token_usage_from_response,
  then_some, apply_signed_token_delta,
}

dropped_event :
    (event : EventMsg) (r : Restoring)
    → should_persist_event_msg_limited event ≡ false
    → restore_event event r ≡ r
unfolding should_persist_event_msg_limited restore_event
dropped_event (token_usage_updated turn_id last total_usage window estimated) r h = cc
dropped_event (context_compacted turn_id trigger reason phase pre post pre_count post_count users) r
      h =
    cc
dropped_event event r h = refl

restore_items-persisted :
    (items : List RolloutItem) (r : Restoring)
    → restore_items (persisted_rollout_items items limited) r ≡ restore_items items r
unfolding persisted_rollout_items persisted_rollout_item should_persist_event_msg
    should_persist_response_item restore_items restore_item
restore_items-persisted [] r = refl
restore_items-persisted (event_msg event ∷ items) r =
    elim (Bool-cases (should_persist_event_msg_limited event)) [
      | inl kept ↦ rw (kept) (restore_items-persisted items (restore_event event r))
      | inr dropped ↦ rw (dropped, dropped_event event r dropped) (restore_items-persisted items r)
    ]
restore_items-persisted (response_item (system content) ∷ items) r = restore_items-persisted items r
restore_items-persisted (response_item (user content) ∷ items) r = restore_items-persisted items r
restore_items-persisted (response_item (assistant content reasoning calls) ∷ items) r =
    restore_items-persisted items r
restore_items-persisted (response_item (tool call_id name content structured) ∷ items) r =
    restore_items-persisted items r
restore_items-persisted (compacted summary text trigger reason phase replacement ∷ items) r =
    restore_items-persisted items r

-- The token state restored from the items that the policy persists is that of all items.
pub latest_turn_token_state-persisted :
    (items : List RolloutItem)
    → latest_turn_token_state_from_rollout_items (persisted_rollout_items items limited)
      ≡ latest_turn_token_state_from_rollout_items items
unfolding latest_turn_token_state_from_rollout_items
latest_turn_token_state-persisted items =
    ap then_some (restore_items-persisted items nothing_restored)

restore_items-append :
    (xs ys : List RolloutItem) (r : Restoring)
    → restore_items (xs ++ ys) r ≡ restore_items ys (restore_items xs r)
unfolding restore_items
restore_items-append [] ys r = refl
restore_items-append (x ∷ xs) ys r = restore_items-append xs ys (restore_item x r)

-- Logging the events that a response with a usage emits, behind any log, and restoring gives back
-- the usage state and the baseline that the response left.
pub latest_turn_token_state-response :
    (items : List RolloutItem) (turn_id : Text) (usage : ModelUsage) (context_window : ℕ)
    (scope : AutoCompactTokenLimitScope) (estimated : ℕ) (r : ResponseUsage)
    → r.events ≡ []
    → let after =
        update_token_usage_from_response turn_id (some usage) context_window scope estimated r in
      (restored : RestoredTurnTokenState) × (latest_turn_token_state_from_rollout_items
          (items ++ map event_msg after.events)
        ≡ some restored)
      × (restored.usage ≡ after.token_usage_state)
      × (restored.request_baseline ≡ after.request_baseline)
unfolding latest_turn_token_state_from_rollout_items update_token_usage_from_response restore_event
    restore_item restore_items append_server_usage
latest_turn_token_state-response items turn_id usage context_window scope estimated r h =
    let state = append_server_usage usage (some context_window) r.token_usage_state in
    let event =
      token_usage_updated turn_id usage state.total_usage state.model_context_window estimated in
    let before = restore_items items nothing_restored in
    (
      (restore_event event before).restored,
      ap then_some (
          ap
            (λ events.
              restore_items (items ++ map event_msg (events ++ event ∷ [])) nothing_restored)
            h
          ∙ restore_items-append items (event_msg event ∷ []) nothing_restored),
      refl,
      refl,
    )

abbrev pub append_all : List ModelUsage → Option ℕ → TokenUsageState → TokenUsageState
append_all [] context_window s = s
append_all (usage ∷ usages) context_window s =
    append_all usages context_window (append_server_usage usage context_window s)

abbrev pub sum_tokens : List ModelUsage → ℕ
sum_tokens [] = 0
sum_tokens (usage ∷ usages) = usage.total_tokens + sum_tokens usages

-- The total after any responses is the exact sum of their totals and of the total before them,
-- stopped at the greatest u64.
pub append_server_usage-sum :
    (usages : List ModelUsage) (context_window : Option ℕ) (s : TokenUsageState)
    → s.total_usage.total_tokens ≤ 18446744073709551615
    → (append_all usages context_window s).total_usage.total_tokens
      ≡ min (s.total_usage.total_tokens + sum_tokens usages) 18446744073709551615
unfolding append_server_usage add_assign
append_server_usage-sum [] context_window s h = omega arith
append_server_usage-sum (usage ∷ usages) context_window s h = omega (
  arith,
  append_server_usage-sum usages context_window (append_server_usage usage context_window s)
      (omega arith),
)

-- The estimate after a change is the base moved by the exact signed difference, between 0 and the
-- greatest u64.
pub apply_signed_token_delta_exact :
    (base current previous : ℕ)
    → previous ≤ base + current
    → base + current ≤ previous + 18446744073709551615
    → apply_signed_token_delta base current previous + previous ≡ base + current
unfolding apply_signed_token_delta
apply_signed_token_delta_exact base current previous low high = ground arith
