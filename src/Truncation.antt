-- ===== src/Truncation.antt =====
-- crates/agent-core/src/output_truncation.rs: a text cut to a budget of tokens, of three characters
-- each.
pub mod Budget
use cloud_agent.Base.{
  ℕ, zero, suc, ◌+◌, ◌-◌, ◌*◌, ◌/◌, ◌%◌, max, Bool, true, false, Option, none, some, List, [], ◌∷◌,
  ◌++◌, length, take, leb, ltb, saturating_add, saturating_mul, if◌then◌else◌,
}
use cloud_agent.Base.Text.{Text, codes}
use mathlib.Core.List.{reverse}

pub record TruncatedText : Type 0 where
  pub text : Text
  pub original_token_count : ℕ
  pub truncated : Bool

unfoldable pub approximate_token_count : Text → ℕ
approximate_token_count text = saturating_add (length text) 2 / 3

-- The decimal digits of a number in front of a text, on as many rounds as there may be digits.
unfoldable digits_from : ℕ → ℕ → Text → Text
digits_from zero n shown = shown
digits_from (suc rounds) n shown =
    let digit = 48 + n % 10 in
    let more = digits_from rounds (n / 10) (digit ∷ shown) in
    if ltb n 10 then digit ∷ shown else more

-- `Display` of a usize, which is below 2 ^ 64 and so has at most 20 digits.
unfoldable decimal : ℕ → Text
unfolding digits_from
decimal n = digits_from 20 n []

unfoldable marker : ℕ → Text
unfolding decimal
marker removed = codes "\n[" ++ (decimal removed ++ codes " tokens truncated]\n")

unfoldable pub notice_of : Option Text → Text
notice_of none = []
notice_of (some notice) = notice

-- The tokens left for the head and the tail.
unfoldable content_budget : ℕ → Text → Text → ℕ
unfolding approximate_token_count
content_budget max_tokens marker notice =
    max ((max_tokens - max (approximate_token_count marker) 1) - approximate_token_count notice) 1

unfoldable head_tokens : ℕ → ℕ
head_tokens budget = ((budget * 2) % 18446744073709551616) / 3

-- The head and the tail of a text, with a text between them.
unfoldable head_and_tail : ℕ → Text → Text → Text → Text
unfolding head_tokens
head_and_tail budget text marker notice =
    let head_chars = max (saturating_mul (head_tokens budget) 3) 1 in
    let tail_chars = max (saturating_mul (budget - head_tokens budget) 3) 1 in
    take head_chars text ++ (marker ++ (reverse (take tail_chars (reverse text)) ++ notice))

unfoldable pub truncate_text_to_token_budget : Text → ℕ → Option Text → TruncatedText
unfolding approximate_token_count marker notice_of content_budget head_and_tail
truncate_text_to_token_budget text tokens truncation_notice =
    let max_tokens = max tokens 1 in
    let count = approximate_token_count text in
    let notice = notice_of truncation_notice in
    let shown = marker (count - max_tokens) in
    if leb count max_tokens
    then record { text = text; original_token_count = count; truncated = false }
    else record {
      text = head_and_tail (content_budget max_tokens shown notice) text shown notice;
      original_token_count = count;
      truncated = true;
    }
