-- ===== src/Compaction/Plan/Partition.antt =====
-- The plans of context/compaction/plan.rs as partitions of a history.
use cloud_agent.Base.{
  ℕ, zero, suc, ◌+◌, ◌-◌, ◌≤◌, ◌<◌, ◌≡◌, refl, sym, subst, Bool, true, false, ◌||◌, not, some, List,
  [], ◌∷◌, ◌++◌, arith, drop, take, length, Bool-cases, inl, inr, ap, leb, All, any,
  take-append-drop, length-drop, length-take-le, max, ltb, leb→le, Option, Option-cases,
  some_before,
}
use cloud_agent.Base.Text.{is_empty}
use cloud_agent.Data.Response.{ResponseItem, system, user, assistant, tool}
use cloud_agent.Compaction.Estimate.{estimate_message_tokens}
use cloud_agent.Compaction.Plan.{
  is_call_of, adjust_tail_start_for_tool_invariants, choose_tail_start, ContextCompactionConfig,
  ContextCompactionPlan, out_of_range, plan_at, first_start, plan_start,
  choose_tail_start_from_token_budget, build_compaction_plan, plan_history_compaction,
  plan_manual_history_compaction,
}
use cloud_agent.Compaction.Plan.Search.{any_index, get_elem?-take, get_elem?-drop_one}
use cloud_agent.Compaction.Plan.Budget.{
  choose_tail_start-IsStart, choose_tail_start_from_token_budget-IsFit,
}
use cloud_agent.Compaction.Plan.Closure.{IsClosed, IsClosedFrom}
use cloud_agent.Compaction.Plan.Adjusted.{adjust_tail_start-IsAdjusted, adjust_tail_start_panics}

-- A tool output in the tail whose call stands in the prefix has a call in the tail too.
abbrev StaysWithCall : ContextCompactionPlan → ResponseItem → Type 0
StaysWithCall plan (tool id name content structured) =
    (not (any (is_call_of id) plan.prefix) || any (is_call_of id) plan.preserved_tail) ≡ true
StaysWithCall plan item = Unit

-- What a plan is for a history.
pub record IsPlanFor (messages : List ResponseItem) (plan : ContextCompactionPlan) : Type 0 where
  pub split : messages ≡ take 1 messages ++ (plan.prefix ++ plan.preserved_tail)
  pub some_prefix : 0 < length plan.prefix
  pub some_tail : 0 < length plan.preserved_tail
  pub calls : All (StaysWithCall plan) plan.preserved_tail

IsClosed-StaysWithCall :
    (messages : List ResponseItem) (start : ℕ) (item : ResponseItem)
    → 1 ≤ start
    → start ≤ length messages
    → IsClosed messages start item
    → StaysWithCall
        (record {
          prefix = take (start - 1) (drop 1 messages);
          preserved_tail = drop start messages;
        })
        item
IsClosed-StaysWithCall messages start (tool id name content structured) p q closed =
    implied _ _ (λ called.
      let (i, lt, c) = any_index (is_call_of id) (take (start - 1) (drop 1 messages)) called in
      let below : i < start - 1 = omega (arith, length-take-le (start - 1) (drop 1 messages), lt) in
      closed (suc i) (
        omega arith,
        omega arith,
        rw (get_elem?-take (drop 1 messages) (start - 1) i below, get_elem?-drop_one messages i) at
            c,
      ))
  where
    implied : (b d : Bool) → (b ≡ true → d ≡ true) → (not b || d) ≡ true
    implied true d h = h refl
    implied false d h = refl
IsClosed-StaysWithCall messages start (system content) p q closed = tt
IsClosed-StaysWithCall messages start (user content) p q closed = tt
IsClosed-StaysWithCall messages start (assistant content reasoning tool_calls) p q closed = tt

All-map {ℓ κ μ} :
    {A : Type ℓ} (P : A → Type κ) (Q : A → Type μ) (xs : List A)
    → ((x : A) → P x → Q x)
    → All P xs
    → All Q xs
All-map P Q [] f h = tt
All-map P Q (x ∷ xs) f h = (f x h.0, All-map P Q xs f h.1)

split_at :
    (messages : List ResponseItem) (start : ℕ)
    → messages ≡ take 1 messages ++ (take start (drop 1 messages) ++ drop (suc start) messages)
split_at [] zero = refl
split_at [] (suc start) = refl
split_at (m ∷ ms) start = ap (◌∷◌ m) (sym (take-append-drop start ms))

pred_suc : (n : ℕ) → suc n - 1 ≡ n
pred_suc n = omega arith

is_empty_pos : (xs : List ResponseItem) → is_empty xs ≡ false → 0 < length xs
unfolding is_empty
is_empty_pos [] h = cc
is_empty_pos (x ∷ xs) h = omega arith

-- The plan at a start within the range.
abbrev sliced : List ResponseItem → ℕ → ContextCompactionPlan
sliced messages start = record {
  prefix = take (start - 1) (drop 1 messages);
  preserved_tail = drop start messages;
}

sliced-IsPlanFor :
    (messages : List ResponseItem) (start : ℕ)
    → All (IsClosed messages start) (drop start messages)
    → out_of_range messages start ≡ false
    → is_empty (take (start - 1) (drop 1 messages)) ≡ false
    → IsPlanFor messages (sliced messages start)
sliced-IsPlanFor messages zero closed range full = absurd (ground (arith, range))
sliced-IsPlanFor messages (suc start) closed range full = record {
  split = rw (pred_suc start) (split_at messages start);
  some_prefix = is_empty_pos _ full;
  some_tail = omega (arith, length-drop (suc start) messages, inside);
  calls =
      All-map (IsClosed messages (suc start)) (StaysWithCall (sliced messages (suc start)))
        (drop (suc start) messages)
        (λ item.
          IsClosed-StaysWithCall messages (suc start) item (omega arith) (omega (arith, inside)))
        closed;
}
  where
    inside : suc start < length messages
    inside = ground (arith, range)

plan_at-IsPlanFor :
    (messages : List ResponseItem) (start : ℕ) (plan : ContextCompactionPlan)
    → All (IsClosed messages start) (drop start messages)
    → plan_at messages start ≡ some plan
    → IsPlanFor messages plan
unfolding plan_at
plan_at-IsPlanFor messages start plan closed h = elim (Bool-cases (out_of_range messages start)) [
  | inl out ↦ absurd (ground (arith, out, h))
  | inr range ↦ elim (Bool-cases (is_empty (take (start - 1) (drop 1 messages)))) [
    | inl empty ↦ absurd (ground (arith, range, empty, h))
    | inr full ↦
        let e : sliced messages start ≡ plan = ground (arith, range, full, h) in
        subst (IsPlanFor messages) e (sliced-IsPlanFor messages start closed range full)
  ]
]

adjusted-IsClosed :
    (messages : List ResponseItem) (keep_start start : ℕ)
    → adjust_tail_start_for_tool_invariants messages keep_start ≡ some start
    → (start ≤ length messages) × IsClosedFrom messages start
adjusted-IsClosed messages keep_start start h =
    elim (Bool-cases (leb keep_start (length messages))) [
      | inl inside ↦
          let le = leb→le keep_start (length messages) inside in
          let (found, e, adjusted) = adjust_tail_start-IsAdjusted messages keep_start le in
          let same : found ≡ start = cc (e, h) in
          subst (λ s. (s ≤ length messages) × IsClosedFrom messages s) same
            (omega (arith, le, adjusted.below), adjusted.closed)
      | inr outside ↦
          let panics = adjust_tail_start_panics messages keep_start (ground (arith, outside)) in
          absurd (cc (panics, h))
    ]

adjusted_start :
    (messages : List ResponseItem) (keep_start : ℕ)
    → keep_start ≤ length messages
    → (start : ℕ) × (adjust_tail_start_for_tool_invariants messages keep_start ≡ some start)
adjusted_start messages keep_start le =
    let (start, e, adjusted) = adjust_tail_start-IsAdjusted messages keep_start le in (start, e)

module _ {Ratio : Type 0} (messages : List ResponseItem)
    (config : ContextCompactionConfig Ratio) where
  first_start-IsClosed :
      (start : ℕ) → first_start messages config ≡ some start → IsClosedFrom messages start
  unfolding first_start
  first_start-IsClosed start h =
      let (chosen, _, e) =
        some_before
          (choose_tail_start messages (max config.preserved_user_turns 1)
            (max config.preserved_tail_tokens 1))
          (adjust_tail_start_for_tool_invariants messages) start h in
      (adjusted-IsClosed messages chosen start e).1

  plan_start-IsClosed :
      (start : ℕ) → plan_start messages config ≡ some start → IsClosedFrom messages start
  unfolding plan_start
  plan_start-IsClosed start h =
      let (first, e, g) = some_before (first_start messages config) _ start h in
      elim (Bool-cases (out_of_range messages first)) [
        | inl out ↦ (adjusted-IsClosed messages _ start (rw out at g)).1
        | inr range ↦
            let same : first ≡ start = cc (rw range at g) in
            subst (IsClosedFrom messages) same (first_start-IsClosed first e)
      ]

  -- A compaction plan splits the history into its first message, a nonempty prefix to summarise
  -- and a nonempty tail; a tool output in the tail whose call was in the prefix has one in the tail.
  pub build_compaction_plan-IsPlanFor :
      (plan : ContextCompactionPlan)
      → build_compaction_plan messages config ≡ some (some plan)
      → IsPlanFor messages plan
  unfolding build_compaction_plan
  build_compaction_plan-IsPlanFor plan h =
      let (start, e, g) = some_before (plan_start messages config) _ (some plan) h in
      let planned : plan_at messages start ≡ some plan = cc g in
      plan_at-IsPlanFor messages start plan (plan_start-IsClosed start e) planned

  first_start_total :
      0 < length messages
      → config.preserved_tail_tokens < 18446744073709551615
      → (start : ℕ) × (first_start messages config ≡ some start)
  unfolding first_start
  first_start_total h tail =
      let turns = max config.preserved_user_turns 1 in
      let budget = max config.preserved_tail_tokens 1 in
      let found = choose_tail_start-IsStart messages turns budget h (omega arith) (omega arith) in
      elim (Option-cases (choose_tail_start messages turns budget)) [
        | inl e ↦ absurd (rw e at found)
        | inr (chosen, e) ↦
            let range : (1 ≤ chosen) × (chosen ≤ length messages) = rw e at found in
            let (start, adjusts) = adjusted_start messages chosen range.1 in (start, rw e adjusts)
      ]

  plan_start_total :
      0 < length messages
      → config.preserved_tail_tokens < 18446744073709551615
      → config.compacted_target_tokens < 18446744073709551615
      → (start : ℕ) × (plan_start messages config ≡ some start)
  unfolding plan_start
  plan_start_total h tail target =
      let (first, e) = first_start_total h tail in
      elim (Bool-cases (out_of_range messages first)) [
        | inl out ↦
            let budget = max config.compacted_target_tokens 1 in
            let fit = choose_tail_start_from_token_budget-IsFit messages budget h (omega arith) in
            let (start, adjusts) =
              adjusted_start messages (choose_tail_start_from_token_budget messages budget)
                fit.to_length in
            (start, rw (e, out) adjusts)
        | inr range ↦ (first, rw (e, range))
      ]

  -- Planning the compaction of a history with a message in it never panics, for token budgets
  -- below the greatest usize.
  pub build_compaction_plan_total :
      0 < length messages
      → config.preserved_tail_tokens < 18446744073709551615
      → config.compacted_target_tokens < 18446744073709551615
      → (planned : Option ContextCompactionPlan) × (build_compaction_plan messages config
          ≡ some planned)
  unfolding build_compaction_plan
  build_compaction_plan_total h tail target =
      let (start, e) = plan_start_total h tail target in (plan_at messages start, rw e)

  -- A manual compaction is planned only for more than six messages that reach the minimum
  -- estimate, and then its plan splits the history into its first message, a nonempty prefix and a
  -- nonempty tail that keeps tool outputs with their calls.
  pub plan_manual_history_compaction-IsPlanFor :
      (minimum : ℕ) (plan : ContextCompactionPlan)
      → plan_manual_history_compaction messages config minimum ≡ some (some plan)
      → (6 < length messages)
        × (minimum ≤ estimate_message_tokens messages)
        × IsPlanFor messages plan
  unfolding plan_manual_history_compaction
  plan_manual_history_compaction-IsPlanFor minimum plan h =
      elim (Bool-cases (leb (length messages) 6)) [
        | inl few ↦ absurd (ground (arith, few, h))
        | inr many ↦ elim (Bool-cases (ltb (estimate_message_tokens messages) (max minimum 1))) [
          | inl low ↦ absurd (ground (arith, many, low, h))
          | inr high ↦ (
            ground (arith, many),
            ground (arith, high),
            build_compaction_plan-IsPlanFor plan (rw (many, high) at h),
          )
        ]
      ]

  -- The automatic plan is the manual plan whose minimum lies one above the trigger.
  pub plan_history_compaction-eq :
      (scaled : ℕ → Ratio → ℕ)
      → plan_history_compaction scaled messages config
        ≡ plan_manual_history_compaction messages config
            (max (scaled config.model_context_window config.trigger_ratio) 1 + 1)
  unfolding plan_history_compaction plan_manual_history_compaction
  plan_history_compaction-eq scaled = ground arith
