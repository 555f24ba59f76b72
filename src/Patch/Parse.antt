-- ===== src/Patch/Parse.antt =====
-- `parse_unified_patch` of apply_patch.rs: the state that it keeps from line to line.
pub mod Print
pub mod Read
pub mod ReadHunk
pub mod ReadSection
pub mod PrintLines
pub mod Printed
use cloud_agent.Base.{
  Bool, true, false, ◌&&◌, ◌||◌, not, Option, none, some, List, [], ◌∷◌, ◌++◌, length, last?, leb,
  is_some, if◌then◌else◌, ◌==◌, Result, ok, err, ◌>>=◌, ◌>>◌,
}
use mathlib.Core.List.{reverse}
use cloud_agent.Base.Text.{Text, codes, text_eq, trim, trim_start, starts_with, is_empty}
use cloud_agent.Base.Lines.{lines, strip_prefix}
use cloud_agent.Patch.Data.{
  Hunk, FilePatch, PatchError, invalid_patch, missing_end, move_before_update, move_outside_update,
  multiple_moves, move_after_hunks, hunk_before_target, unexpected_line,
}
use cloud_agent.Patch.Validate.{dev_null, validate_file_patches}

pub record PatchReader : Type 0 where
  pub file_patches : List FilePatch
  pub current_old_path : Option Text
  pub current_new_path : Option Text
  pub current_move_path : Option Text
  pub hunks : List Hunk
  pub current_hunk : Option Hunk
  pub in_patch_block : Bool

abbrev pub new_reader : PatchReader
new_reader = record {
  file_patches = [];
  current_old_path = none;
  current_new_path = none;
  current_move_path = none;
  hunks = [];
  current_hunk = none;
  in_patch_block = false;
}

abbrev pub push_hunk : Option Hunk → List Hunk → List Hunk
push_hunk none hunks = hunks
push_hunk (some hunk) hunks = hunks ++ hunk ∷ []

-- The file section that the closure pushes, when both of its paths are known.
abbrev pub flushed : Option Text → Option Text → Option Text → List Hunk → Option FilePatch
flushed (some old_path) (some new_path) move_path hunks =
    some (record { old_path = old_path; new_path = new_path; move_path = move_path; hunks = hunks })
flushed old_path new_path move_path hunks = none

unfoldable pub flush_current : PatchReader → PatchReader
flush_current r =
    let hunks = push_hunk r.current_hunk r.hunks in
    let section = flushed r.current_old_path r.current_new_path r.current_move_path hunks in
    record r {
      file_patches = elim section [ none ↦ r.file_patches | some p ↦ r.file_patches ++ p ∷ [] ];
      current_old_path = none;
      current_new_path = none;
      current_move_path = none;
      hunks = elim section [ none ↦ hunks | some p ↦ [] ];
      current_hunk = none;
    }

-- What the prefix of a line asks for.
pub data Directive : Type 0 where
  add_file delete_file update_file move_to : Text → Directive
  hunk_header : Directive
  no_directive : Directive

unfoldable pub directive_of : Text → Directive
unfolding strip_prefix trim starts_with
directive_of directive = elim (strip_prefix (codes "*** Add File: ") directive) [
  | some path ↦ add_file (trim path)
  | none ↦ elim (strip_prefix (codes "*** Delete File: ") directive) [
    | some path ↦ delete_file (trim path)
    | none ↦ elim (strip_prefix (codes "*** Update File: ") directive) [
      | some path ↦ update_file (trim path)
      | none ↦ elim (strip_prefix (codes "*** Move to: ") directive) [
        | some path ↦ move_to (trim path)
        | none ↦ if starts_with directive (codes "@@") then hunk_header else no_directive
      ]
    ]
  ]
]

unfoldable pub start_section : Text → Text → PatchReader → PatchReader
unfolding flush_current
start_section old_path new_path r = record (flush_current r) {
  current_old_path = some old_path;
  current_new_path = some new_path;
}

abbrev pub is_null : Option Text → Bool
unfolding text_eq
is_null none = false
is_null (some path) = text_eq path dev_null

unfoldable pub set_move : Text → PatchReader → Result PatchError PatchReader
unfolding is_null is_empty
set_move path r =
    if not (is_some r.current_old_path)
    then err move_before_update
    else if is_null r.current_old_path || is_null r.current_new_path
    then err move_outside_update
    else if is_some r.current_move_path
    then err multiple_moves
    else if is_some r.current_hunk || not (is_empty r.hunks)
    then err move_after_hunks
    else if not (is_some r.current_new_path)
    then err move_before_update
    else ok (record r { current_move_path = some path; current_new_path = some path })

unfoldable pub parse_change_context : Text → Option Text
unfolding strip_prefix trim is_empty starts_with
parse_change_context header = elim (strip_prefix (codes "@@") (trim header)) [
  | none ↦ none
  | some rest ↦
      let context = trim rest in
      if is_empty context || starts_with context (codes "-") then none else some context
]

abbrev pub new_hunk : Option Text → Hunk
new_hunk change_context = record {
  change_context = change_context;
  is_end_of_file = false;
  lines = [];
}

unfoldable pub start_hunk : Text → PatchReader → Result PatchError PatchReader
unfolding parse_change_context
start_hunk directive r =
    if not (is_some r.current_new_path)
    then err hunk_before_target
    else ok (record r {
      hunks = push_hunk r.current_hunk r.hunks;
      current_hunk = some (new_hunk (parse_change_context directive));
    })

-- A line that is no directive: the first one of a section may open a hunk without a header.
unfoldable pub opened_hunk : Text → PatchReader → Option Hunk
unfolding starts_with
opened_hunk line r =
    let edits =
      starts_with line (codes " ")
      || starts_with line (codes "+")
      || starts_with line (codes "-") in
    if not (is_some r.current_hunk) && (is_some r.current_new_path && edits)
    then some (new_hunk none)
    else r.current_hunk

-- A line within a hunk.
unfoldable pub extend_hunk : Text → Hunk → Hunk
unfolding starts_with text_eq trim
extend_hunk line hunk =
    if starts_with line (92 ∷ [])
    then hunk
    else if text_eq (trim line) (codes "*** End of File")
    then record hunk { is_end_of_file = true }
    else record hunk { lines = hunk.lines ++ line ∷ [] }

unfoldable pub read_plain : Text → PatchReader → Result PatchError PatchReader
unfolding opened_hunk extend_hunk is_empty trim
read_plain line r = elim (opened_hunk line r) [
  | some hunk ↦ ok (record r { current_hunk = some (extend_hunk line hunk) })
  | none ↦
      if is_some r.current_new_path && not (is_empty (trim line))
      then err (unexpected_line line)
      else ok r
]

unfoldable pub follow : Text → Directive → PatchReader → Result PatchError PatchReader
unfolding start_section set_move start_hunk read_plain trim_start
follow line (add_file path) r = ok (start_section dev_null path r)
follow line (delete_file path) r = ok (start_section path dev_null r)
follow line (update_file path) r = ok (start_section path path r)
follow line (move_to path) r = set_move path r
follow line hunk_header r = start_hunk (trim_start line) r
follow line no_directive r = read_plain line r

-- The body of the loop over the lines.
unfoldable pub read_line : Text → PatchReader → Result PatchError PatchReader
unfolding text_eq trim flush_current starts_with follow directive_of trim_start
read_line line r =
    let marker = trim line in
    if text_eq marker (codes "*** Begin Patch")
    then ok (record r { in_patch_block = true })
    else if text_eq marker (codes "*** End Patch")
    then ok (record (flush_current r) { in_patch_block = false })
    else if not r.in_patch_block || starts_with line (codes "diff --git ")
    then ok r
    else follow line (directive_of (trim_start line)) r

unfoldable pub read_lines : List Text → PatchReader → Result PatchError PatchReader
unfolding read_line
read_lines [] r = ok r
read_lines (line ∷ rest) r = read_line line r >>= λ next. read_lines rest next

-- `&patch[start..]` after the first line feed
unfoldable pub after_first_line : Text → Text
after_first_line [] = []
after_first_line (c ∷ s) = let rest = after_first_line s in if c == 10 then s else rest

unfoldable pub before_last_line : Text → Text
unfolding after_first_line
before_last_line s = reverse (after_first_line (reverse s))

abbrev pub trimmed_is : Text → Option Text → Bool
unfolding text_eq trim
trimmed_is marker none = false
trimmed_is marker (some line) = text_eq (trim line) marker

abbrev pub first? : List Text → Option Text
first? [] = none
first? (line ∷ rest) = some line

unfoldable pub strip_heredoc_markers : Text → Text
unfolding lines trimmed_is before_last_line trim
strip_heredoc_markers patch =
    let all = lines patch in
    let first = first? all in
    let opens =
      trimmed_is (codes "<<EOF") first
      || trimmed_is (codes "<<'EOF'") first
      || trimmed_is (codes "<<\"EOF\"") first in
    if opens && (trimmed_is (codes "EOF") (last? all) && leb 4 (length all))
    then trim (before_last_line (after_first_line patch))
    else patch

-- The sections that the lines of a patch describe.
unfoldable pub parse_lines : List Text → Result PatchError (List FilePatch)
unfolding read_lines flush_current validate_file_patches
parse_lines patch_lines = do
  last ← read_lines patch_lines new_reader
  let file_patches = (flush_current last).file_patches
  validate_file_patches file_patches
  ok file_patches

unfoldable pub parse_unified_patch : Text → Result PatchError (List FilePatch)
unfolding strip_heredoc_markers trim lines trimmed_is parse_lines
parse_unified_patch patch =
    let stripped = strip_heredoc_markers (trim patch) in
    let patch_lines = lines stripped in
    if not (trimmed_is (codes "*** Begin Patch") (first? patch_lines))
    then err (invalid_patch stripped)
    else if not (trimmed_is (codes "*** End Patch") (last? patch_lines))
    then err missing_end
    else parse_lines patch_lines
