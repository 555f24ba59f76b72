-- ===== src/Compaction/Plan.antt =====
-- crates/agent-core/src/context/compaction/plan.rs: where the preserved tail of a history starts.
-- A loop `for index in (1..len).rev()` recurs on the index, from len - 1 down to 1.
mod Search
pub mod Boundary
pub mod Budget
pub mod Closure
pub mod Adjusted
pub mod Partition
use cloud_agent.Base.{
  ℕ, zero, suc, ◌-◌, ◌≤◌, max, Bool, true, false, ◌&&◌, ◌||◌, Option, none, some, List, [], ◌∷◌,
  any, drop, take, get_elem?, length, leb, ltb, ◌==◌, if◌then◌else◌, saturating_add, and_then,
}
use cloud_agent.Base.Text.{Text, text_eq, is_empty}
use cloud_agent.Data.Tool.{ToolCall}
use cloud_agent.Data.Response.{ResponseItem, system, user, assistant, tool}
use cloud_agent.Conversation.Markers.{is_some_and, counts_as_real_user_turn}
use cloud_agent.Compaction.Estimate.{estimate_message_tokens}

unfoldable pub boundary_loop : List ResponseItem → ℕ → ℕ → ℕ → Option ℕ
boundary_loop messages wanted zero seen = none
boundary_loop messages wanted (suc i) seen =
    let real = is_some_and (get_elem? messages (suc i)) counts_as_real_user_turn in
    let seen' = if real then suc seen else seen in
    let rest = boundary_loop messages wanted i seen' in
    if real && seen' == wanted then some (suc i) else rest

unfoldable pub find_recent_user_boundary : List ResponseItem → ℕ → Option ℕ
find_recent_user_boundary messages preserved_user_turns =
    boundary_loop messages preserved_user_turns (length messages - 1) 0

unfoldable one_item : Option ResponseItem → List ResponseItem
one_item none = []
one_item (some item) = item ∷ []

-- The tokens of the slice that holds the message at an index alone.
pub tokens_at : List ResponseItem → ℕ → ℕ
unfolding one_item
tokens_at messages i = estimate_message_tokens (one_item (get_elem? messages i))

pub budget_loop : List ResponseItem → ℕ → ℕ → ℕ → ℕ → ℕ
budget_loop messages limit zero keep_start kept_tokens = keep_start
budget_loop messages limit (suc i) keep_start kept_tokens =
    let kept_tokens' = saturating_add kept_tokens (tokens_at messages (suc i)) in
    let rest = budget_loop messages limit i (suc i) kept_tokens' in
    if ltb limit kept_tokens' && ltb keep_start (length messages) then keep_start else rest

pub choose_tail_start_from_token_budget : List ResponseItem → ℕ → ℕ
choose_tail_start_from_token_budget messages target_limit =
    max (budget_loop messages target_limit (length messages - 1) (length messages) 0) 1

abbrev pub unwrap_or {ℓ} : {A : Type ℓ} → Option A → A → A
unwrap_or none d = d
unwrap_or (some a) d = a

-- `&messages[start..]`, which panics for a start behind the end.
abbrev pub slice_from : List ResponseItem → ℕ → Option (List ResponseItem)
slice_from messages start = if leb start (length messages) then some (drop start messages) else none

-- A start whose tail is in the budget, or the one after it.
abbrev pub start_within : ℕ → ℕ → Option ℕ → Option (List ResponseItem) → Option ℕ
start_within tail_budget start next none = none
start_within tail_budget start next (some tail) =
    if leb (estimate_message_tokens tail) tail_budget then some start else next

-- `while remaining_turns > 0`
pub fallback_loop : List ResponseItem → ℕ → ℕ → ℕ → Option ℕ
fallback_loop messages tail_budget candidate zero =
    some (choose_tail_start_from_token_budget messages tail_budget)
fallback_loop messages tail_budget candidate (suc r) =
    let fallback = unwrap_or (find_recent_user_boundary messages (suc r)) candidate in
    let rest = fallback_loop messages tail_budget candidate r in
    start_within tail_budget fallback rest (slice_from messages fallback)

-- `none` where a slice panics.
unfoldable pub choose_tail_start : List ResponseItem → ℕ → ℕ → Option ℕ
choose_tail_start messages preserved_user_turns tail_budget =
    let candidate = unwrap_or (find_recent_user_boundary messages preserved_user_turns) 1 in
    let rest = fallback_loop messages tail_budget candidate (preserved_user_turns - 1) in
    start_within tail_budget candidate rest (slice_from messages candidate)

unfoldable makes_call : Text → List ToolCall → Bool
makes_call id calls = any (λ call. text_eq call.id id) calls

unfoldable pub is_call_of : Text → ResponseItem → Bool
unfolding makes_call
is_call_of id (assistant content reasoning tool_calls) = makes_call id tool_calls
is_call_of id item = false

unfoldable pub match_loop : List ResponseItem → Text → ℕ → Option ℕ
match_loop messages id zero = none
match_loop messages id (suc i) =
    let rest = match_loop messages id i in
    if is_some_and (get_elem? messages (suc i)) (is_call_of id) then some (suc i) else rest

unfoldable pub find_matching_tool_call : List ResponseItem → Text → Option ℕ
find_matching_tool_call messages tool_call_id =
    match_loop messages tool_call_id (length messages - 1)

-- The index of the call of a tool output, if that index lies before `keep_start`.
unfoldable pub early_call : List ResponseItem → ℕ → ResponseItem → Option ℕ
early_call messages keep_start (tool tool_call_id name content structured) =
    elim (find_matching_tool_call messages tool_call_id) [
      | none ↦ none
      | some index ↦ if ltb index keep_start then some index else none
    ]
early_call messages keep_start item = none

-- The inner loop: the first such index among the items given.
unfoldable pub missing_call : List ResponseItem → ℕ → List ResponseItem → Option ℕ
missing_call messages keep_start [] = none
missing_call messages keep_start (item ∷ items) =
    let rest = missing_call messages keep_start items in
    elim (early_call messages keep_start item) [ none ↦ rest | some index ↦ some index ]

-- The outer loop. Each round but the last lowers `keep_start`, so one round more than that number
-- is enough.
unfoldable pub adjust_loop : ℕ → List ResponseItem → ℕ → Option ℕ
adjust_loop zero messages keep_start = none
adjust_loop (suc rounds) messages keep_start = elim (slice_from messages keep_start) [
  | none ↦ none
  | some tail ↦ elim (missing_call messages keep_start tail) [
    | none ↦ some keep_start
    | some index ↦ adjust_loop rounds messages index
  ]
]

-- `none` where the slice panics.
unfoldable pub adjust_tail_start_for_tool_invariants : List ResponseItem → ℕ → Option ℕ
adjust_tail_start_for_tool_invariants messages keep_start =
    adjust_loop (suc keep_start) messages keep_start

-- `trigger_ratio` is an f32: its type is a parameter.
pub record ContextCompactionConfig (Ratio : Type 0) : Type 0 where
  pub model_context_window : ℕ
  pub trigger_ratio : Ratio
  pub compacted_target_tokens : ℕ
  pub preserved_user_turns : ℕ
  pub preserved_tail_tokens : ℕ
  pub summary_source_max_tokens : ℕ

pub record ContextCompactionPlan : Type 0 where
  pub prefix : List ResponseItem
  pub preserved_tail : List ResponseItem

abbrev pub out_of_range : List ResponseItem → ℕ → Bool
out_of_range messages keep_start = leb keep_start 1 || leb (length messages) keep_start

-- The slices `messages[1..keep_start]` and `messages[keep_start..]`.
unfoldable pub plan_at : List ResponseItem → ℕ → Option ContextCompactionPlan
unfolding is_empty
plan_at messages keep_start =
    let prefix = take (keep_start - 1) (drop 1 messages) in
    if out_of_range messages keep_start
    then none
    else if is_empty prefix
    then none
    else some (record { prefix = prefix; preserved_tail = drop keep_start messages })

module _ {Ratio : Type 0} where
  unfoldable pub first_start : List ResponseItem → ContextCompactionConfig Ratio → Option ℕ
  first_start messages config =
      and_then
        (choose_tail_start messages (max config.preserved_user_turns 1)
          (max config.preserved_tail_tokens 1))
        (adjust_tail_start_for_tool_invariants messages)

  unfoldable pub plan_start : List ResponseItem → ContextCompactionConfig Ratio → Option ℕ
  plan_start messages config =
      let second =
        adjust_tail_start_for_tool_invariants messages
          (choose_tail_start_from_token_budget messages (max config.compacted_target_tokens 1)) in
      and_then (first_start messages config)
        (λ first. if out_of_range messages first then second else some first)

  -- `none` where a slice panics, `some none` where there is no plan.
  unfoldable pub build_compaction_plan :
      List ResponseItem → ContextCompactionConfig Ratio → Option (Option ContextCompactionPlan)
  build_compaction_plan messages config =
      and_then (plan_start messages config) (λ start. some (plan_at messages start))

  -- `scaled w r` is `((w as f32) * r) as usize`.
  pub plan_history_compaction :
      (ℕ → Ratio → ℕ)
      → List ResponseItem
      → ContextCompactionConfig Ratio
      → Option (Option ContextCompactionPlan)
  plan_history_compaction scaled messages config =
      let estimated = estimate_message_tokens messages in
      let available = max (scaled config.model_context_window config.trigger_ratio) 1 in
      if leb (length messages) 6
      then some none
      else if leb estimated available
      then some none
      else build_compaction_plan messages config

  unfoldable pub plan_manual_history_compaction :
      List ResponseItem → ContextCompactionConfig Ratio → ℕ → Option (Option ContextCompactionPlan)
  plan_manual_history_compaction messages config minimum_history_tokens =
      if leb (length messages) 6
      then some none
      else if ltb (estimate_message_tokens messages) (max minimum_history_tokens 1)
      then some none
      else build_compaction_plan messages config
