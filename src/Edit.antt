-- ===== src/Edit.antt =====
-- crates/agent-tools/src/impls/fs/edit_file.rs: the exact replacements in one file. The table of
-- `char::is_alphabetic` is a parameter.
pub mod Strings
pub mod Quotes
pub mod Render
pub mod Replaced
pub mod Applicable
use cloud_agent.Base.{
  ℕ, zero, suc, ◌+◌, Bool, true, false, ◌&&◌, ◌||◌, not, Option, none, some, List, [], ◌∷◌, ◌++◌,
  map, keep, length, take, drop, any, ltb, leb, ◌==◌, if◌then◌else◌, Result, ok, err, ◌>>=◌, ◌>>◌,
}
use cloud_agent.Base.Text.{
  Text, codes, text_eq, trim, trim_start, is_empty, starts_with, byte_len, join,
}
use cloud_agent.Base.Lines.{lines, ends_with, contains}
use cloud_agent.Codec.{LineEnding, lf, cr_lf, DecodedTextFile}
use cloud_agent.Edit.Strings.{match_indices, replace_first, replace_every}
use cloud_agent.Edit.Quotes.{find_actual_string_with_normalized_quotes, preserve_quote_style}

pub record EditInstruction : Type 0 where
  pub old_string : Text
  pub new_string : Text
  pub replace_all : Bool

pub record PreparedInstruction : Type 0 where
  pub old_string : Text
  pub new_string : Text
  pub replace_all : Bool

-- One constructor for each message, with what it shows.
pub data EditError : Type 0 where
  no_edits same_strings empty_old_string introduced_earlier not_found no_change : EditError
  line_numbers : Text → EditError
  too_many_matches : ℕ → List ℕ → EditError

abbrev is_digit : ℕ → Bool
is_digit c = leb b'0' c && leb c b'9'

-- `char::is_ascii_whitespace`
abbrev is_ascii_whitespace : ℕ → Bool
is_ascii_whitespace c = c == 9 || c == 10 || c == 12 || c == 13 || c == 32

-- `take_while(..).count()`
unfoldable count_while : (ℕ → Bool) → Text → ℕ
count_while p [] = 0
count_while p (c ∷ s) = let rest = count_while p s in if p c then suc rest else 0

-- A line with a number, two spaces and more before its end.
unfoldable is_numbered : Text → Bool
unfolding count_while trim_start starts_with byte_len
is_numbered line =
    let blanks = count_while is_ascii_whitespace line in
    let trimmed = trim_start line in
    let digits = count_while is_digit trimmed in
    not (digits == 0)
    && (starts_with (drop digits trimmed) (codes "  ") && ltb (blanks + digits + 2) (byte_len line))

unfoldable pub reject_line_number_prefixed_text : Text → Text → Result EditError (Unit {0})
unfolding is_numbered lines trim is_empty
reject_line_number_prefixed_text field_name value =
    if any (λ line. not (is_empty (trim line)) && is_numbered line) (lines value)
    then err (line_numbers field_name)
    else ok tt

-- `replace('\n', "\r\n")`
unfoldable pub with_crlf : Text → Text
with_crlf [] = []
with_crlf (c ∷ s) = let rest = with_crlf s in if c == 10 then 13 ∷ 10 ∷ rest else c ∷ rest

unfoldable pub normalize_old_string_for_file : Text → Text → LineEnding → Text
unfolding contains with_crlf find_actual_string_with_normalized_quotes is_empty
normalize_old_string_for_file old_string file_text line_ending =
    let quoted : Text = elim (find_actual_string_with_normalized_quotes file_text old_string) [
      | none ↦ old_string
      | some actual ↦ actual
    ] in
    let breaks = contains old_string (10 ∷ []) && not (contains old_string (13 ∷ 10 ∷ [])) in
    let crlf = with_crlf old_string in
    let is_crlf : Bool = elim line_ending [ lf ↦ false | cr_lf ↦ true ] in
    if is_empty old_string
    then []
    else if contains file_text old_string
    then old_string
    else if is_crlf && (breaks && contains file_text crlf)
    then crlf
    else quoted

-- `trim_end_matches(['\n', '\r'])`
unfoldable pub drop_breaks : Text → Text
drop_breaks [] = []
drop_breaks (c ∷ s) =
    let rest = drop_breaks s in
    elim rest [ [] ↦ if c == 10 || c == 13 then [] else c ∷ [] | d ∷ t ↦ c ∷ d ∷ t ]

-- A later edit whose old text an earlier edit has brought in.
unfoldable pub was_introduced : List Text → Text → Bool
unfolding drop_breaks contains is_empty
was_introduced applied_new_strings old_string =
    let old = drop_breaks old_string in
    any (λ previous. not (is_empty old) && contains previous old) applied_new_strings

-- The line numbers of the first four matches.
unfoldable pub repeated_match_line_hint : Text → Text → List ℕ
unfolding match_indices
repeated_match_line_hint haystack needle = line_numbers_of (take 4 (match_indices needle haystack))
  where
    line_numbers_of : List ℕ → List ℕ
    line_numbers_of [] = []
    line_numbers_of (offset ∷ offsets) =
        (length (keep (λ c. c == 10) (take offset haystack)) + 1) ∷ line_numbers_of offsets

-- The tests that an edit passes before it is applied.
unfoldable pub check_edit : Text → List Text → Text → Bool → Result EditError (Unit {0})
unfolding is_empty was_introduced match_indices repeated_match_line_hint
check_edit virtual_text applied_new_strings old_string all =
    let match_count = length (match_indices old_string virtual_text) in
    if is_empty old_string
    then if is_empty virtual_text then ok tt else err empty_old_string
    else if was_introduced applied_new_strings old_string
    then err introduced_earlier
    else if match_count == 0
    then err not_found
    else if ltb 1 match_count && not all
    then err (too_many_matches match_count (repeated_match_line_hint virtual_text old_string))
    else ok tt

-- What one prepared edit makes of a text; the loop of `apply_edit` has the same three cases.
unfoldable pub edited : Text → PreparedInstruction → Text
unfolding is_empty replace_every replace_first
edited text edit =
    if is_empty edit.old_string
    then edit.new_string
    else if edit.replace_all
    then replace_every edit.old_string edit.new_string text
    else replace_first edit.old_string edit.new_string text

unfoldable pub apply_instructions : Text → List PreparedInstruction → Text
unfolding edited
apply_instructions text [] = text
apply_instructions text (edit ∷ edits) = apply_instructions (edited text edit) edits

-- The text that `apply_edit` writes.
unfoldable pub updated_text : DecodedTextFile → List PreparedInstruction → Result EditError Text
unfolding apply_instructions text_eq
updated_text decoded edits =
    let updated = apply_instructions decoded.text edits in
    if text_eq updated decoded.text then err no_change else ok updated

-- The tests of `prepare_edit` on its arguments.
unfoldable pub check_args : List EditInstruction → Result EditError (Unit {0})
unfolding reject_line_number_prefixed_text text_eq
check_args [] = ok tt
check_args (edit ∷ edits) = do
  if text_eq edit.old_string edit.new_string then err same_strings else ok tt
  reject_line_number_prefixed_text (codes "old_string") edit.old_string
  reject_line_number_prefixed_text (codes "new_string") edit.new_string
  check_args edits

unfoldable pub check_edits : List EditInstruction → Result EditError (Unit {0})
unfolding check_args is_empty
check_edits edits = if is_empty edits then err no_edits else check_args edits

module _ (is_alphabetic : ℕ → Bool) where
  unfoldable pub normalize_new_string_for_file : Text → Text → Text → LineEnding → Text
  unfolding preserve_quote_style with_crlf
  normalize_new_string_for_file new_string original actual line_ending =
      let normalized = preserve_quote_style is_alphabetic original actual new_string in
      elim line_ending [ lf ↦ normalized | cr_lf ↦ with_crlf normalized ]

  unfoldable pub prepared_for : EditInstruction → Text → LineEnding → PreparedInstruction
  unfolding normalize_old_string_for_file normalize_new_string_for_file
  prepared_for edit virtual_text line_ending =
      let old = normalize_old_string_for_file edit.old_string virtual_text line_ending in
      record {
        old_string = old;
        new_string = normalize_new_string_for_file edit.new_string edit.old_string old line_ending;
        replace_all = edit.replace_all;
      }

  unfoldable pub prepare_from :
      LineEnding
      → Text
      → List Text
      → List EditInstruction
      → Result EditError (List PreparedInstruction)
  unfolding prepared_for check_edit edited text_eq
  prepare_from line_ending virtual_text applied [] = ok []
  prepare_from line_ending virtual_text applied (edit ∷ edits) = do
    let prepared = prepared_for edit virtual_text line_ending
    let next = edited virtual_text prepared
    check_edit virtual_text applied prepared.old_string edit.replace_all
    if text_eq next virtual_text then err no_change else ok tt
    rest ← prepare_from line_ending next (prepared.new_string ∷ applied) edits
    ok (prepared ∷ rest)

  unfoldable pub prepare_instruction_sequence :
      DecodedTextFile → List EditInstruction → Result EditError (List PreparedInstruction)
  unfolding prepare_from
  prepare_instruction_sequence decoded edits =
      prepare_from decoded.line_ending decoded.text [] edits
