-- ===== src/Witnesses/Conversations.antt =====
-- The theorems on histories, tool outputs and abort markers, applied.
use mathlib.Core.List.{Sublistᴰ}
use cloud_agent.Base.{◌-◌, ◌≡◌, ◌⊎◌, true, false, some, List, [], ◌∷◌, ◌++◌, arith, last?}
use cloud_agent.Data.Response.{ResponseItem, user}
use cloud_agent.Conversation.History.{
  push_user_message, rollback_last_user_message, rollback-push, rollback_effect,
}
use cloud_agent.Conversation.Outputs.{ensure_tool_outputs_present}
use cloud_agent.Conversation.Outputs.Fill.{fill, ensure_tool_outputs_present-fill}
use cloud_agent.Conversation.Outputs.Laws.{IsAnswered, ensure_tool_outputs_present_total}
use cloud_agent.Witnesses.Examples.{say, history, open_call}

rollback-push_example :
    let (pushed, item) = push_user_message history say in
    rollback_last_user_message pushed item ≡ (history, true)
rollback-push_example = rollback-push history say (omega arith)

rollback_effect_example :
    let (after, done) = rollback_last_user_message history (user say) in
    ((done ≡ false) × (after ≡ history))
    ⊎ ((done ≡ true)
        × (last? history.messages ≡ some (user say))
        × (history.messages ≡ after.messages ++ user say ∷ [])
        × (after.turn_count ≡ history.turn_count - 1))
rollback_effect_example = rollback_effect history (user say)

ensure_tool_outputs_present-fill_example :
    ensure_tool_outputs_present open_call ≡ some (fill open_call open_call)
ensure_tool_outputs_present-fill_example = ensure_tool_outputs_present-fill open_call

ensure_tool_outputs_present_total_example :
    (out : List ResponseItem) × (ensure_tool_outputs_present open_call ≡ some out)
    × IsAnswered out out
    × Sublistᴰ open_call out
    × (ensure_tool_outputs_present out ≡ some out)
ensure_tool_outputs_present_total_example = ensure_tool_outputs_present_total open_call
