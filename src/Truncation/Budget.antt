-- ===== src/Truncation/Budget.antt =====
-- The length of a text that was cut.
use cloud_agent.Base.{
  ℕ, zero, suc, ◌+◌, ◌-◌, ◌*◌, ◌/◌, ◌%◌, ◌≤◌, ◌<◌, max, ◌≡◌, refl, ap, ◌∙◌, Option, [], ◌∷◌, ◌++◌,
  length, take, length-append, length-take-le, arith, false, Bool-cases, if-branches, leb→le, inl,
  inr, leb, ltb, saturating_mul,
}
use cloud_agent.Base.Text.{Text, codes}
use mathlib.Core.List.{reverse, reverse-append}
use cloud_agent.Truncation.{
  TruncatedText, approximate_token_count, digits_from, decimal, marker, notice_of, content_budget,
  head_tokens, head_and_tail, truncate_text_to_token_budget,
}

length-reverse : (s : Text) → length (reverse s) ≡ length s
length-reverse [] = refl
length-reverse (c ∷ s) =
    ap length (reverse-append (c ∷ []) s)
    ∙ length-append (reverse s) (c ∷ [])
    ∙ omega (arith, length-reverse s)

length-digits_from :
    (rounds n : ℕ) (shown : Text) → length (digits_from rounds n shown) ≤ length shown + rounds
unfolding digits_from
length-digits_from zero n shown = omega arith
length-digits_from (suc rounds) n shown =
    let rest = length-digits_from rounds (n / 10) ((48 + n % 10) ∷ shown) in
    elim (Bool-cases (ltb n 10)) [
      | inl e ↦ rw (e) (omega arith)
      | inr e ↦ rw (e) (omega (arith, rest))
    ]

-- The head and the tail have at least one character each, of three to a token.
length-head_and_tail :
    (budget : ℕ) (text marker notice : Text)
    → 1 ≤ budget
    → budget < 9223372036854775808
    → length (head_and_tail budget text marker notice)
      ≤ max (budget * 3) (1 + 3) + (length marker + length notice)
unfolding head_and_tail head_tokens
length-head_and_tail budget text marker notice h bound =
    let head_chars : ℕ = max (saturating_mul (head_tokens budget) 3) 1 in
    let tail_chars : ℕ = max (saturating_mul (budget - head_tokens budget) 3) 1 in
    let head : Text = take head_chars text in
    let tail : Text = take tail_chars (reverse text) in
    let parts : length (head ++ (marker ++ (reverse tail ++ notice)))
        ≡ length head + (length marker + (length tail + length notice)) =
      length-append head (marker ++ (reverse tail ++ notice))
      ∙ ap (length head +◌) (
          length-append marker (reverse tail ++ notice)
          ∙ ap (length marker +◌) (
              length-append (reverse tail) notice ∙ ap (◌+ length notice) (length-reverse tail))) in
    let head_fits : length head ≤ head_chars = length-take-le head_chars text in
    let tail_fits : length tail ≤ tail_chars = length-take-le tail_chars (reverse text) in
    omega (arith, parts, head_fits, tail_fits, h, bound)

length-marker : (removed : ℕ) → length (marker removed) ≤ 41
unfolding marker decimal
length-marker removed =
    let digits = length-digits_from 20 removed [] in
    let parts = length-append (digits_from 20 removed []) (codes " tokens truncated]\n") in
    omega (arith, digits, parts)

not_leb→lt : (a b : ℕ) → leb a b ≡ false → b < a
not_leb→lt a b h = ground arith

-- Texts of so many characters have so many tokens.
tokens_le :
    (tokens : ℕ) (text : Text) → length text ≤ tokens * 3 → approximate_token_count text ≤ tokens
unfolding approximate_token_count
tokens_le tokens text h = omega (arith, h)

cut_fits :
    (max_tokens : ℕ) (text shown notice : Text)
    → 16 + approximate_token_count notice ≤ max_tokens
    → max_tokens < approximate_token_count text
    → length shown ≤ 41
    → length notice < 9223372036854775808
    → approximate_token_count
        (head_and_tail (content_budget max_tokens shown notice) text shown notice)
      ≤ max_tokens
unfolding content_budget approximate_token_count
cut_fits max_tokens text shown notice h long short small =
    let budget : ℕ = content_budget max_tokens shown notice in
    let fits = length-head_and_tail budget text shown notice (omega arith) (omega (arith, long)) in
    omega (arith, fits, h, short, small)

-- The resulting text has no more tokens than the budget, if the budget has sixteen tokens or more
-- beside those of the notice, and the notice has fewer than 2 ^ 63 characters.
pub truncate_text_to_token_budget_fits :
    (text : Text) (max_tokens : ℕ) (notice : Option Text)
    → 16 + approximate_token_count (notice_of notice) ≤ max_tokens
    → length (notice_of notice) < 9223372036854775808
    → approximate_token_count (truncate_text_to_token_budget text max_tokens notice).text
      ≤ max_tokens
unfolding truncate_text_to_token_budget
truncate_text_to_token_budget_fits text max_tokens notice h small =
    let count : ℕ = approximate_token_count text in
    let limit : ℕ = max max_tokens 1 in
    if-branches (λ (cut : TruncatedText). approximate_token_count cut.text ≤ max_tokens)
      (leb count limit) _ _
      (λ e. let within : count ≤ limit = leb→le count limit e in omega (arith, h, within))
      (λ e.
        let long : limit < count = not_leb→lt count limit e in
        let fits =
          cut_fits limit text (marker (count - limit)) (notice_of notice) (omega (arith, h)) long
            (length-marker (count - limit)) small in
        omega (arith, h, fits))
