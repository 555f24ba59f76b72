-- ===== src/Witnesses/Turns.antt =====
-- The theorems on windows, token usage, limits and the loop guard, applied.
use cloud_agent.Base.{
  leb, ℕ, true, ◌*◌, ◌/◌, ◌≡◌, refl, true, Option, none, some, List, [], ◌∷◌, ◌++◌, map, arith, leb,
  max, if◌then◌else◌,
}
use cloud_agent.Base.Text.{Text, codes, text_eq}
use cloud_agent.Data.Tool.{StructuredToolResult}
use cloud_agent.Data.Event.{ModelUsage, RolloutItem, event_msg, turn_completed}
use cloud_agent.Rollout.Policy.{limited, persisted_rollout_items}
use cloud_agent.Turn.Pages.{paginate_turns, all_pages, all_pages-eq}
use cloud_agent.Turn.Window.{
  AutoCompactWindow, new_window, set_estimated_prefill, ensure_server_observed_prefill_from_usage,
  done, followed, estimates, first_usage_fixes_window,
}
use cloud_agent.Turn.AutoCompact.{
  body_after_prefix, AutoCompactPolicyInput, auto_compact_token_status, threshold,
  body_after_prefix, auto_compact_token_status-threshold,
}
use cloud_agent.Turn.TokenUsage.{
  no_usage_state, baseline, RestoredTurnTokenState, latest_turn_token_state_from_rollout_items,
  ResponseUsage, update_token_usage_from_response,
}
use cloud_agent.Turn.Restored.{latest_turn_token_state-persisted, latest_turn_token_state-response}
use cloud_agent.Turn.LoopGuard.{
  RoundtripSignature, LoopAbort, LoopGuard, new_guard, record_signature, record_roundtrip,
}
use cloud_agent.Turn.LoopGuard.Repeats.{
  after, streak, record_signature-streak, record_roundtrip_total,
}
use cloud_agent.Witnesses.Examples.{read_call, closed_call}

abbrev usage : ModelUsage
usage = record {
  input_tokens = 90;
  cached_input_tokens = 0;
  output_tokens = 10;
  reasoning_output_tokens = 0;
  total_tokens = 100;
}

abbrev observed : AutoCompactWindow
observed = ensure_server_observed_prefill_from_usage usage new_window

first_usage_fixes_window_example :
    set_estimated_prefill 7 observed
    ≡ record { ordinal = 1; prefill_input_tokens = some 90; server_observed = true }
first_usage_fixes_window_example =
    first_usage_fixes_window new_window (set_estimated_prefill 7 observed) usage refl (
      followed observed (set_estimated_prefill 7 observed) (set_estimated_prefill 7 observed)
        (estimates 7 observed) (done (set_estimated_prefill 7 observed)))

derived : ℕ → ℕ → ℕ
derived w r = max (w * r / 100) 1

abbrev input : AutoCompactPolicyInput ℕ
input = record {
  model_context_window = 100;
  trigger_ratio = 80;
  configured_limit = some 50;
  scope = body_after_prefix;
  active_context_tokens = 90;
  window = record { ordinal = 1; prefill_input_tokens = some 20 };
}

auto_compact_token_status-threshold_example :
    (auto_compact_token_status derived input).token_limit_reached
    ≡ leb (threshold derived body_after_prefix input) 90
unfolding derived
auto_compact_token_status-threshold_example =
    auto_compact_token_status-threshold derived input (omega arith)

-- In the scope behind the prefix, 50 tokens on top of the prefill of 20.
threshold_in_use : threshold derived body_after_prefix input ≡ 70
unfolding derived
threshold_in_use = refl

abbrev log : List RolloutItem
log = event_msg (turn_completed (codes "t1")) ∷ []

latest_turn_token_state-persisted_example :
    latest_turn_token_state_from_rollout_items (persisted_rollout_items log limited)
    ≡ latest_turn_token_state_from_rollout_items log
latest_turn_token_state-persisted_example = latest_turn_token_state-persisted log

abbrev nothing_used : ResponseUsage
nothing_used = record {
  token_usage_state = no_usage_state;
  request_baseline = baseline 0 0;
  auto_compact_window = new_window;
  events = [];
}

latest_turn_token_state-response_example :
    let after =
      update_token_usage_from_response
        (codes "t1")
        (some usage)
        1000
        body_after_prefix
        95
        nothing_used in
    (restored : RestoredTurnTokenState) × (latest_turn_token_state_from_rollout_items
        (log ++ map event_msg after.events)
      ≡ some restored)
    × (restored.usage ≡ after.token_usage_state)
    × (restored.request_baseline ≡ after.request_baseline)
latest_turn_token_state-response_example =
    latest_turn_token_state-response log (codes "t1") usage 1000 body_after_prefix 95 nothing_used
      refl

abbrev same : Option RoundtripSignature
same = some (record { tool_calls = codes "read:{}" ∷ []; tool_results = codes "read:x:" ∷ [] })

record_signature-streak_example : (record_signature same (after (same ∷ same ∷ []))).0 ≡ (
    if leb 3 (streak (same ∷ same ∷ same ∷ []))
    then some (record { repeated_count = streak (same ∷ same ∷ same ∷ []) })
    else none)
record_signature-streak_example = record_signature-streak same (same ∷ same ∷ []) (omega arith)

to_string : StructuredToolResult → Text
to_string result = codes "{}"

record_roundtrip_total_example :
    (r : Option LoopAbort × LoopGuard) × (record_roundtrip to_string
        (read_call ∷ [])
        []
        closed_call
        new_guard
      ≡ some r)
record_roundtrip_total_example =
    record_roundtrip_total to_string (read_call ∷ []) [] closed_call new_guard

-- Turns that are their ids, two on a page.
abbrev five_turns : List Text
five_turns = codes "a" ∷ codes "b" ∷ codes "c" ∷ codes "d" ∷ codes "e" ∷ []

middle_page :
    paginate_turns (λ t. t) five_turns (some (codes "d")) 2
    ≡ (codes "b" ∷ codes "c" ∷ [], (true, some (codes "b")))
unfolding paginate_turns
middle_page = refl

all_pages-eq_example : all_pages (λ t. t) 6 five_turns none 2 ≡ five_turns
unfolding text_eq
all_pages-eq_example = all_pages-eq (λ t. t) five_turns 2 (refl, (refl, (refl, (refl, (refl, tt)))))
