-- ===== src/Edit/Quotes.antt =====
-- The quotation marks of edit_file.rs: curly ones in the file match straight ones in an edit.
use cloud_agent.Base.{
  ℕ, Bool, true, false, ◌&&◌, ◌||◌, Option, none, some, [], ◌∷◌, map, length, take, drop, any, ◌==◌,
  if◌then◌else◌,
}
use cloud_agent.Base.Text.{Text, text_eq, byte_len}
use cloud_agent.Edit.Strings.{find}

abbrev straight : ℕ → ℕ
straight c = if c == 0x2018 || c == 0x2019 then 39 else if c == 0x201C || c == 0x201D then 34 else c

unfoldable pub normalize_quotes : Text → Text
normalize_quotes value = map straight value

-- `find` gives a count of bytes, which the source then takes for a count of characters.
unfoldable pub find_actual_string_with_normalized_quotes : Text → Text → Option Text
unfolding normalize_quotes find byte_len
find_actual_string_with_normalized_quotes file_text search =
    let normalized_file = normalize_quotes file_text in
    elim (find (normalize_quotes search) normalized_file) [
      | none ↦ none
      | some index ↦
          let start = byte_len (take index normalized_file) in
          some (take (length search) (drop start file_text))
    ]

-- `previous` is the character before.
abbrev is_opening_quote_context : Option ℕ → Bool
is_opening_quote_context none = true
is_opening_quote_context (some c) =
    c == 32
    || c == 9
    || c == 10
    || c == 13
    || c == b'('
    || c == b'['
    || c == b'{'
    || c == 0x2014
    || c == 0x2013

unfoldable double_from : Option ℕ → Text → Text
double_from previous [] = []
double_from previous (c ∷ s) =
    let quote = if is_opening_quote_context previous then 0x201C else 0x201D in
    (if c == 34 then quote else c) ∷ double_from (some c) s

unfoldable pub apply_curly_double_quotes : Text → Text
unfolding double_from
apply_curly_double_quotes value = double_from none value

module _ (is_alphabetic : ℕ → Bool) where
  abbrev is_letter : Option ℕ → Bool
  is_letter none = false
  is_letter (some c) = is_alphabetic c

  abbrev next_char : Text → Option ℕ
  next_char [] = none
  next_char (c ∷ s) = some c

  unfoldable single_from : Option ℕ → Text → Text
  single_from previous [] = []
  single_from previous (c ∷ s) =
      let opening = if is_opening_quote_context previous then 0x2018 else 0x2019 in
      let quote = if is_letter previous && is_letter (next_char s) then 0x2019 else opening in
      (if c == 39 then quote else c) ∷ single_from (some c) s

  unfoldable pub apply_curly_single_quotes : Text → Text
  unfolding single_from
  apply_curly_single_quotes value = single_from none value

  unfoldable pub preserve_quote_style : Text → Text → Text → Text
  unfolding text_eq apply_curly_double_quotes apply_curly_single_quotes
  preserve_quote_style original_old actual_old new_string =
      let has_double = any (λ c. c == 0x201C || c == 0x201D) actual_old in
      let has_single = any (λ c. c == 0x2018 || c == 0x2019) actual_old in
      let doubled = if has_double then apply_curly_double_quotes new_string else new_string in
      if text_eq original_old actual_old
      then new_string
      else if has_single
      then apply_curly_single_quotes doubled
      else doubled
