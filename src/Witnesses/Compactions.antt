-- ===== src/Witnesses/Compactions.antt =====
-- The theorems on compaction, applied.
use cloud_agent.Base.{
  ℕ, ◌*◌, ◌/◌, ◌≡◌, refl, true, false, some, [], ◌∷◌, arith, drop, keep, last?, Option,
}
use cloud_agent.Base.Text.{codes, text_eq}
use cloud_agent.Data.Input.{text_input_items}
use cloud_agent.Data.Response.{user}
use cloud_agent.Data.Event.{CompactionSummary}
use cloud_agent.Conversation.Markers.{is_context_summary_item, counts_as_real_user_turn}
use cloud_agent.Compaction.Estimate.{estimate_message_tokens}
use cloud_agent.Compaction.Plan.{
  plan_at, plan_start, first_start, adjust_loop, boundary_loop, early_call, find_matching_tool_call,
  match_loop, is_call_of, find_recent_user_boundary, choose_tail_start,
  choose_tail_start_from_token_budget, missing_call, adjust_tail_start_for_tool_invariants,
  ContextCompactionConfig, ContextCompactionPlan, build_compaction_plan,
  plan_manual_history_compaction,
}
use cloud_agent.Compaction.Plan.Boundary.{
  IsBoundary, real_users, find_recent_user_boundary-IsBoundary,
}
use cloud_agent.Compaction.Plan.Budget.{IsFit, choose_tail_start_from_token_budget-IsFit}
use cloud_agent.Compaction.Plan.Adjusted.{IsAdjusted, adjust_tail_start-IsAdjusted}
use cloud_agent.Compaction.Plan.Partition.{
  IsPlanFor, build_compaction_plan-IsPlanFor, build_compaction_plan_total,
}
use cloud_agent.Compaction.Summary.{rendered}
use cloud_agent.Compaction.Summary.Prefix.{rendered_is_summary}
use cloud_agent.Compaction.Replacement.{
  first_or_empty_system, build_compacted_replacement_history,
  build_compacted_replacement_history-users,
}
use cloud_agent.Witnesses.Examples.{say, answer, two_turns}

-- The trigger ratio is in percent here.
abbrev config : ContextCompactionConfig ℕ
config = record {
  model_context_window = 100;
  trigger_ratio = 80;
  compacted_target_tokens = 10;
  preserved_user_turns = 1;
  preserved_tail_tokens = 40;
  summary_source_max_tokens = 100;
}

abbrev plan : ContextCompactionPlan
plan = record { prefix = user say ∷ answer ∷ answer ∷ []; preserved_tail = drop 4 two_turns }

find_recent_user_boundary-IsBoundary_example :
    IsBoundary two_turns 1 (find_recent_user_boundary two_turns 1)
find_recent_user_boundary-IsBoundary_example =
    find_recent_user_boundary-IsBoundary two_turns 1 (omega arith) (omega arith)

choose_tail_start_from_token_budget-IsFit_example :
    IsFit two_turns 40 (choose_tail_start_from_token_budget two_turns 40)
choose_tail_start_from_token_budget-IsFit_example =
    choose_tail_start_from_token_budget-IsFit two_turns 40 (omega arith) (omega arith)

adjust_tail_start-IsAdjusted_example :
    (start : ℕ) × (adjust_tail_start_for_tool_invariants two_turns 6 ≡ some start)
    × IsAdjusted two_turns 6 start
adjust_tail_start-IsAdjusted_example = adjust_tail_start-IsAdjusted two_turns 6 (omega arith)

build_compaction_plan_total_example :
    (found : Option ContextCompactionPlan) × (build_compaction_plan two_turns config ≡ some found)
build_compaction_plan_total_example =
    build_compaction_plan_total two_turns config (omega arith) (omega arith) (omega arith)

planned : build_compaction_plan two_turns config ≡ some (some plan)
unfolding build_compaction_plan plan_at plan_start first_start adjust_tail_start_for_tool_invariants
    adjust_loop choose_tail_start estimate_message_tokens find_recent_user_boundary boundary_loop
    counts_as_real_user_turn missing_call early_call find_matching_tool_call match_loop is_call_of
    text_eq
planned = refl

build_compaction_plan-IsPlanFor_example : IsPlanFor two_turns plan
build_compaction_plan-IsPlanFor_example =
    build_compaction_plan-IsPlanFor two_turns config plan planned

manual : plan_manual_history_compaction two_turns config 2 ≡ some (some plan)
unfolding plan_manual_history_compaction estimate_message_tokens
manual = planned

scaled : ℕ → ℕ → ℕ
scaled w r = w * r / 100

abbrev summary : CompactionSummary
summary = record {
  current_task = codes "t" ∷ [];
  progress = [];
  key_decisions = [];
  important_context = [];
  tool_code_facts = [];
  next_steps = codes "n" ∷ [];
}

rendered_is_summary_example :
    (is_context_summary_item (user (text_input_items (rendered summary))) ≡ true)
    × (counts_as_real_user_turn (user (text_input_items (rendered summary))) ≡ false)
rendered_is_summary_example = rendered_is_summary summary

build_compacted_replacement_history-users_example :
    let r = build_compacted_replacement_history two_turns plan summary in
    (keep counts_as_real_user_turn r.messages ≡ keep counts_as_real_user_turn plan.preserved_tail)
    × (r.preserved_user_count ≡ real_users r.messages)
    × (last? r.messages ≡ some (user (text_input_items (rendered summary))))
unfolding counts_as_real_user_turn is_context_summary_item first_or_empty_system
build_compacted_replacement_history-users_example =
    build_compacted_replacement_history-users two_turns plan summary refl
