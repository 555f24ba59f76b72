-- ===== src/Compaction/Plan/Budget.antt =====
-- The tail that a token budget allows.
use cloud_agent.Base.{
  ℕ, zero, suc, ◌+◌, ◌-◌, ◌≤◌, ◌<◌, ◌≡◌, refl, ◌&&◌, ◌⊎◌, Option, none, some, List, [], ◌∷◌, arith,
  drop, length, Bool-cases, inl, inr, min, max, ltb, leb, le→leb, if-holds, saturating_add,
}
use cloud_agent.Data.Response.{ResponseItem}
use cloud_agent.Compaction.Estimate.{estimate_message_tokens}
use cloud_agent.Compaction.Plan.{
  tokens_at, budget_loop, choose_tail_start_from_token_budget, fallback_loop, choose_tail_start,
  unwrap_or, find_recent_user_boundary, slice_from, start_within,
}
use cloud_agent.Compaction.Plan.Search.{drop_all}
use cloud_agent.Compaction.Plan.Boundary.{
  IsBoundary, find_recent_user_boundary-IsBoundary, pred_length,
}

-- The sum of the estimates of the single messages.
pub sum_tokens : List ResponseItem → ℕ
sum_tokens [] = 0
sum_tokens (item ∷ items) = estimate_message_tokens (item ∷ []) + sum_tokens items

sum_tokens-drop :
    (messages : List ResponseItem) (i : ℕ)
    → i < length messages
    → sum_tokens (drop i messages) ≡ tokens_at messages i + sum_tokens (drop (suc i) messages)
unfolding sum_tokens tokens_at
sum_tokens-drop [] i h = absurd (omega arith)
sum_tokens-drop (m ∷ ms) zero h = refl
sum_tokens-drop (m ∷ ms) (suc i) h = sum_tokens-drop ms i (omega arith)

-- A start within the history whose tail keeps to the limit, if it is more than the last message;
-- one message more would not.
pub record IsFit (messages : List ResponseItem) (limit start : ℕ) : Type 0 where
  pub from_one : 1 ≤ start
  pub to_length : start ≤ length messages
  pub within : (sum_tokens (drop start messages) ≤ limit) ⊎ (start + 1 ≡ length messages)
  pub longest : (start ≡ 1) ⊎ (limit < sum_tokens (drop (start - 1) messages))

budget_loop-IsFit :
    (messages : List ResponseItem) (limit i kept : ℕ)
    → limit < 18446744073709551615
    → i < length messages
    → kept ≡ min (sum_tokens (drop (suc i) messages)) 18446744073709551615
    → (sum_tokens (drop (suc i) messages) ≤ limit) ⊎ (suc (suc i) ≡ length messages)
    → IsFit messages limit (budget_loop messages limit i (suc i) kept)
unfolding budget_loop
budget_loop-IsFit messages limit zero kept u lt e fit = record {
  from_one = omega arith;
  to_length = lt;
  within = ground (arith, fit);
  longest = inl refl;
}
budget_loop-IsFit messages limit (suc i) kept u lt e fit =
    let step = sum_tokens-drop messages (suc i) lt in
    elim (Bool-cases (
      ltb limit (saturating_add kept (tokens_at messages (suc i)))
      && ltb (suc (suc i)) (length messages))) [
        | inl stop ↦ rw stop (record {
          from_one = omega arith;
          to_length = lt;
          within = ground (arith, fit);
          longest = inr (ground (arith, stop, step, e));
        })
        | inr go ↦ rw go (
            budget_loop-IsFit messages limit i _ u (omega arith) (ground (arith, step, e))
              (ground (arith, go, step, e)))
      ]

max_one : (n : ℕ) → 1 ≤ n → max n 1 ≡ n
max_one n h = omega arith

-- For a nonempty history and a limit below the greatest usize: the start that the budget yields
-- lies between 1 and the length; the estimates of the messages from it on sum to at most the
-- limit, or it is the last message alone; and it is 1, or one more message would go over.
pub choose_tail_start_from_token_budget-IsFit :
    (messages : List ResponseItem) (limit : ℕ)
    → 0 < length messages
    → limit < 18446744073709551615
    → IsFit messages limit (choose_tail_start_from_token_budget messages limit)
unfolding choose_tail_start_from_token_budget
choose_tail_start_from_token_budget-IsFit [] limit h u = absurd (omega arith)
choose_tail_start_from_token_budget-IsFit (m ∷ ms) limit h u =
    let fit =
      budget_loop-IsFit (m ∷ ms) limit (length ms) 0 u (omega arith)
        (rw (drop_all ms) (unfold sum_tokens in refl))
        (inl (rw (drop_all ms) (unfold sum_tokens in omega arith))) in
    rw (pred_length m ms, max_one _ fit.from_one) fit

unwrap_or_range :
    (messages : List ResponseItem) (wanted default : ℕ) (o : Option ℕ)
    → IsBoundary messages wanted o
    → 1 ≤ default
    → default ≤ length messages
    → (1 ≤ unwrap_or o default) × (unwrap_or o default ≤ length messages)
unwrap_or_range messages wanted default none b p q = (p, q)
unwrap_or_range messages wanted default (some i) b p q = (b.0, omega arith)

-- A start between 1 and the length.
abbrev pub IsStart : List ResponseItem → Option ℕ → Type 0
IsStart messages none = ⊥
IsStart messages (some start) = (1 ≤ start) × (start ≤ length messages)

start_within-IsStart :
    (messages : List ResponseItem) (budget start : ℕ) (next : Option ℕ)
    → 1 ≤ start
    → start ≤ length messages
    → IsStart messages next
    → IsStart messages (start_within budget start next (slice_from messages start))
start_within-IsStart messages budget start next p q h = rw (le→leb start (length messages) q) (
    if-holds (IsStart messages) (leb (estimate_message_tokens (drop start messages)) budget)
      (some start) next (p, q) h)

fallback_loop-IsStart :
    (messages : List ResponseItem) (budget candidate r : ℕ)
    → 0 < length messages
    → 1 ≤ candidate
    → candidate ≤ length messages
    → budget < 18446744073709551615
    → IsStart messages (fallback_loop messages budget candidate r)
unfolding fallback_loop
fallback_loop-IsStart messages budget candidate zero h p q u =
    let fit = choose_tail_start_from_token_budget-IsFit messages budget h u in
    (fit.from_one, fit.to_length)
fallback_loop-IsStart messages budget candidate (suc r) h p q u =
    let found =
      unwrap_or_range messages (suc r) candidate (find_recent_user_boundary messages (suc r))
        (find_recent_user_boundary-IsBoundary messages (suc r) h (omega arith)) p q in
    start_within-IsStart messages budget _ _ found.0 found.1
      (fallback_loop-IsStart messages budget candidate r h p q u)

-- The start that is chosen, by turns or by budget, lies between 1 and the length of the history,
-- for a nonempty history, at least one turn and a budget below the greatest usize.
pub choose_tail_start-IsStart :
    (messages : List ResponseItem) (turns budget : ℕ)
    → 0 < length messages
    → 0 < turns
    → budget < 18446744073709551615
    → IsStart messages (choose_tail_start messages turns budget)
unfolding choose_tail_start
choose_tail_start-IsStart messages turns budget h t u =
    let found =
      unwrap_or_range messages turns 1 (find_recent_user_boundary messages turns)
        (find_recent_user_boundary-IsBoundary messages turns h t) (omega arith) h in
    start_within-IsStart messages budget _ _ found.0 found.1
      (fallback_loop-IsStart messages budget _ (turns - 1) h found.0 found.1 u)
