-- ===== src/Turn/AutoCompact.antt =====
-- crates/agent-core/src/turn/compaction/policy.rs: when the context is compacted.
use cloud_agent.Base.{
  ℕ, ◌+◌, ◌-◌, ◌≤◌, ◌≡◌, refl, ltb, if◌then◌else◌, ap, ◌∙◌, Bool, false, ◌||◌, Option, none, some,
  min, leb, arith,
}
use cloud_agent.Turn.Window.{AutoCompactWindowSnapshot}

pub data AutoCompactTokenLimitScope : Type 0 where
  total body_after_prefix : AutoCompactTokenLimitScope

-- `Ratio` stands for the `f32` values.
pub record AutoCompactPolicyInput (Ratio : Type 0) : Type 0 where
  pub model_context_window : ℕ
  pub trigger_ratio : Ratio
  pub configured_limit : Option ℕ
  pub scope : AutoCompactTokenLimitScope
  pub active_context_tokens : ℕ
  pub window : AutoCompactWindowSnapshot

pub record AutoCompactTokenStatus : Type 0 where
  pub active_context_tokens : ℕ
  pub scope_tokens : ℕ
  pub limit_tokens : ℕ
  pub full_context_window_limit : Option ℕ
  pub window_ordinal : Option ℕ
  pub window_prefill_tokens : Option ℕ
  pub full_context_window_limit_reached : Bool
  pub token_limit_reached : Bool

-- `derived` is the floating-point product of the window and the ratio, rounded down, at least 1.
module _ {Ratio : Type 0} (derived : ℕ → Ratio → ℕ) where
  unfoldable pub effective_auto_compact_limit : ℕ → Ratio → Option ℕ → ℕ
  effective_auto_compact_limit window ratio none = derived window ratio
  effective_auto_compact_limit window ratio (some limit) = min limit (derived window ratio)

  abbrev prefill_or : Option ℕ → ℕ → ℕ
  prefill_or none active = active
  prefill_or (some prefill) active = prefill

  abbrev limit_of : AutoCompactPolicyInput Ratio → ℕ
  limit_of input =
      effective_auto_compact_limit input.model_context_window input.trigger_ratio
        input.configured_limit

  abbrev status_in :
      AutoCompactTokenLimitScope → AutoCompactPolicyInput Ratio → AutoCompactTokenStatus
  status_in total input = record {
    active_context_tokens = input.active_context_tokens;
    scope_tokens = input.active_context_tokens;
    limit_tokens = limit_of input;
    full_context_window_limit = none;
    window_ordinal = none;
    window_prefill_tokens = none;
    full_context_window_limit_reached = false;
    token_limit_reached = leb (limit_of input) input.active_context_tokens;
  }
  status_in body_after_prefix input =
      let active = input.active_context_tokens in
      let baseline = prefill_or input.window.prefill_input_tokens active in
      let scope_tokens = active - baseline in
      let full_reached = leb input.model_context_window active in
      record {
        active_context_tokens = active;
        scope_tokens = scope_tokens;
        limit_tokens = limit_of input;
        full_context_window_limit = some input.model_context_window;
        window_ordinal = some input.window.ordinal;
        window_prefill_tokens = input.window.prefill_input_tokens;
        full_context_window_limit_reached = full_reached;
        token_limit_reached = leb (limit_of input) scope_tokens || full_reached;
      }

  unfoldable pub auto_compact_token_status : AutoCompactPolicyInput Ratio → AutoCompactTokenStatus
  auto_compact_token_status input = status_in input.scope input

  -- The smaller one of the configured limit, if there is one, and the derived limit.
  abbrev pub allowed : Option ℕ → ℕ → ℕ
  allowed none derived_limit = derived_limit
  allowed (some limit) derived_limit = if ltb limit derived_limit then limit else derived_limit

  abbrev pub allowed_for : AutoCompactPolicyInput Ratio → ℕ
  allowed_for input =
      allowed input.configured_limit (derived input.model_context_window input.trigger_ratio)

  -- The size of the context from which on it is compacted: in the scope behind the prefix that is
  -- where the growth since the prefill is as large as the limit, or the window is full.
  abbrev pub threshold : AutoCompactTokenLimitScope → AutoCompactPolicyInput Ratio → ℕ
  threshold total input = allowed_for input
  threshold body_after_prefix input = elim input.window.prefill_input_tokens [
    | none ↦ input.model_context_window
    | some prefill ↦ min input.model_context_window (prefill + allowed_for input)
  ]

  limit_of-allowed :
      (window : ℕ) (ratio : Ratio) (configured : Option ℕ)
      → effective_auto_compact_limit window ratio configured
        ≡ allowed configured (derived window ratio)
  unfolding effective_auto_compact_limit
  limit_of-allowed window ratio none = refl
  limit_of-allowed window ratio (some limit) = ground arith

  body_reached :
      (limit window active : ℕ) (prefill : Option ℕ)
      → 1 ≤ limit
      → (leb limit (active - prefill_or prefill active) || leb window active)
        ≡ leb (elim prefill [ none ↦ window | some p ↦ min window (p + limit) ]) active
  body_reached limit window active none h = ground arith
  body_reached limit window active (some prefill) h = ground arith

  reached_in :
      (scope : AutoCompactTokenLimitScope) (input : AutoCompactPolicyInput Ratio)
      → 1 ≤ allowed_for input
      → (status_in scope input).token_limit_reached
        ≡ leb (threshold scope input) input.active_context_tokens
  reached_in total input h =
      ap (λ n. leb n input.active_context_tokens)
        (limit_of-allowed input.model_context_window input.trigger_ratio input.configured_limit)
  reached_in body_after_prefix input h =
      ap
        (λ n.
          leb n (
            input.active_context_tokens
            - prefill_or input.window.prefill_input_tokens input.active_context_tokens)
          || leb input.model_context_window input.active_context_tokens)
        (limit_of-allowed input.model_context_window input.trigger_ratio input.configured_limit)
      ∙ body_reached (allowed_for input) input.model_context_window input.active_context_tokens
          input.window.prefill_input_tokens h

  -- If neither the configured nor the derived limit is 0, the limit is reached exactly from the
  -- threshold on: in the total scope the smaller one of the two limits; in the scope behind the
  -- prefix that limit on top of the prefill, but at most the window, or the window alone where no
  -- prefill is known.
  pub auto_compact_token_status-threshold :
      (input : AutoCompactPolicyInput Ratio)
      → 1 ≤ allowed_for input
      → (auto_compact_token_status input).token_limit_reached
        ≡ leb (threshold input.scope input) input.active_context_tokens
  unfolding auto_compact_token_status
  auto_compact_token_status-threshold input h = reached_in input.scope input h
