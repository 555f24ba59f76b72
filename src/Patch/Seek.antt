-- ===== src/Patch/Seek.antt =====
-- The search of apply_patch.rs for lines in a file: `seek_sequence` and its four ways to match.
pub mod Found
pub mod Exact
use cloud_agent.Base.{
  ℕ, zero, suc, ◌+◌, ◌-◌, min, Bool, true, false, ◌&&◌, ◌||◌, Option, none, some, List, [], ◌∷◌,
  map, length, drop, ltb, leb, ◌==◌, if◌then◌else◌, or_else,
}
use cloud_agent.Base.Text.{Text, text_eq, trim, is_empty}
use cloud_agent.Base.Lines.{trim_end}

unfoldable normalized_char : ℕ → ℕ
normalized_char c =
    if (leb 0x2010 c && leb c 0x2015) || c == 0x2212
    then b'-'
    else if leb 0x2018 c && leb c 0x201B
    then 39
    else if leb 0x201C c && leb c 0x201F
    then 34
    else if c == 0xA0 || (leb 0x2002 c && leb c 0x200A) || c == 0x202F || c == 0x205F || c == 0x3000
    then b' '
    else c

unfoldable pub normalize_common_text_differences : Text → Text
unfolding trim normalized_char
normalize_common_text_differences value = map normalized_char (trim value)

-- The lines start with the lines of the pattern, both read by `f`.
unfoldable pub lines_match : (Text → Text) → List Text → List Text → Bool
unfolding text_eq
lines_match f lines [] = true
lines_match f [] (expected ∷ pattern) = false
lines_match f (line ∷ lines) (expected ∷ pattern) =
    text_eq (f line) (f expected) && lines_match f lines pattern

unfoldable pub lines_match_exact : List Text → List Text → ℕ → Bool
unfolding lines_match
lines_match_exact lines pattern index =
    leb (index + length pattern) (length lines)
    && lines_match (λ line. line) (drop index lines) pattern

unfoldable pub lines_match_trim_end : List Text → List Text → ℕ → Bool
unfolding lines_match trim_end
lines_match_trim_end lines pattern index = lines_match trim_end (drop index lines) pattern

unfoldable pub lines_match_trim : List Text → List Text → ℕ → Bool
unfolding lines_match trim
lines_match_trim lines pattern index = lines_match trim (drop index lines) pattern

unfoldable pub lines_match_normalized : List Text → List Text → ℕ → Bool
unfolding lines_match normalize_common_text_differences
lines_match_normalized lines pattern index =
    lines_match normalize_common_text_differences (drop index lines) pattern

abbrev pub Matcher : Type 0
Matcher = List Text → List Text → ℕ → Bool

unfoldable pub matchers : List Matcher
unfolding lines_match_exact lines_match_trim_end lines_match_trim lines_match_normalized
matchers = lines_match_exact ∷ lines_match_trim_end ∷ lines_match_trim ∷ lines_match_normalized ∷ []

-- The inner loop: the first of `count` indices from `index` on that satisfies `p`.
unfoldable pub first_from : (ℕ → Bool) → ℕ → ℕ → Option ℕ
first_from p index zero = none
first_from p index (suc count) =
    let rest = first_from p (suc index) count in if p index then some index else rest

-- The outer loop: the strictest matcher that matches anywhere decides.
unfoldable pub first_match : List Matcher → List Text → List Text → ℕ → ℕ → Option ℕ
unfolding first_from
first_match [] lines pattern index count = none
first_match (matcher ∷ rest) lines pattern index count =
    or_else (first_from (matcher lines pattern) index count)
      (first_match rest lines pattern index count)

unfoldable pub search_start : List Text → List Text → ℕ → Bool → ℕ
search_start lines pattern start is_end_of_file =
    let room = length lines - length pattern in if is_end_of_file then room else min start room

unfoldable pub seek_sequence : List Text → List Text → ℕ → Bool → Option ℕ
unfolding first_match search_start is_empty matchers
seek_sequence lines pattern start is_end_of_file =
    let from = search_start lines pattern start is_end_of_file in
    if is_empty pattern
    then some (min start (length lines))
    else if ltb (length lines) (length pattern)
    then none
    else first_match matchers lines pattern from (suc (length lines - length pattern - from))
