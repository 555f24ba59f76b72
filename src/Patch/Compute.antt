-- ===== src/Patch/Compute.antt =====
-- `compute_replacements` and `apply_hunks` of apply_patch.rs: where a file's hunks apply.
pub mod Safe
pub mod Exact
use cloud_agent.Base.{
  ℕ, zero, suc, ◌+◌, Bool, true, false, ◌&&◌, not, Option, none, some, List, [], ◌∷◌, ◌++◌, length,
  last?, drop_last, leb, if◌then◌else◌, option_map, Result, ok, err, ◌>>=◌,
}
use cloud_agent.Base.Text.{Text, codes, is_empty, join}
use cloud_agent.Base.Lines.{lines, ends_with}
use cloud_agent.Codec.{LineEnding, as_str}
use cloud_agent.Patch.Data.{Hunk, PatchError, Replacement, context_not_found, lines_not_found}
use cloud_agent.Patch.Seek.{seek_sequence}
use cloud_agent.Patch.Hunks.{hunk_blocks}
use cloud_agent.Patch.Replace.{apply_replacements}
use cloud_agent.Patch.Closest.{closest_current_lines}

-- Where the search for a hunk starts: after its context, if it has one.
unfoldable pub seek_context : List Text → Option Text → ℕ → Result PatchError ℕ
unfolding seek_sequence
seek_context original none line_index = ok line_index
seek_context original (some context) line_index =
    elim (seek_sequence original (context ∷ []) line_index false) [
      | none ↦ err (context_not_found context)
      | some context_index ↦ ok (suc context_index)
    ]

-- `block.last().is_some_and(String::is_empty)`
unfoldable pub ends_blank : List Text → Bool
unfolding is_empty
ends_blank block = elim (last? block) [ none ↦ false | some line ↦ is_empty line ]

abbrev pub without_blank : List Text → List Text
unfolding ends_blank
without_blank block = if ends_blank block then drop_last block else block

-- The old block where it is found; else, if it ends with an empty line, without that line, which
-- the new block then loses too if it has it.
unfoldable pub find_block : List Text → List Text → List Text → ℕ → Bool → Option Replacement
unfolding seek_sequence ends_blank
find_block original old_block new_block line_index eof =
    let pattern = drop_last old_block in
    let shorter : Option Replacement = elim (seek_sequence original pattern line_index eof) [
      | none ↦ none
      | some start ↦ some (start, (length pattern, without_blank new_block))
    ] in
    elim (seek_sequence original old_block line_index eof) [
      | none ↦ if ends_blank old_block then shorter else none
      | some start ↦ some (start, (length old_block, new_block))
    ]

-- The line index after a replacement that was found.
abbrev pub placed : PatchError → Option Replacement → Result PatchError (ℕ × Replacement)
placed missing none = err missing
placed missing (some (start, (old_len, new_segment))) =
    ok (start + old_len, (start, (old_len, new_segment)))

-- A hunk's replacement, and the line index after it.
unfoldable pub place_blocks :
    List Text → List Text → List Text → ℕ → Bool → Result PatchError (ℕ × Replacement)
unfolding find_block closest_current_lines is_empty
place_blocks original old_block new_block line_index eof =
    let missing = lines_not_found old_block (closest_current_lines original old_block) in
    let sought = placed missing (find_block original old_block new_block line_index eof) in
    if is_empty old_block then ok (line_index, (length original, (0, new_block))) else sought

unfoldable pub place_hunk : List Text → ℕ → Hunk → Result PatchError (ℕ × Replacement)
unfolding seek_context hunk_blocks place_blocks
place_hunk original line_index hunk = do
  from ← seek_context original hunk.change_context line_index
  (old_block, new_block) ← hunk_blocks hunk
  place_blocks original old_block new_block from hunk.is_end_of_file

unfoldable pub place_hunks : List Text → ℕ → List Hunk → Result PatchError (List Replacement)
unfolding place_hunk
place_hunks original line_index [] = ok []
place_hunks original line_index (hunk ∷ hunks) = do
  (next, replacement) ← place_hunk original line_index hunk
  rest ← place_hunks original next hunks
  ok (replacement ∷ rest)

-- `sort_by_key` on the start index, which keeps the order of equal keys.
unfoldable pub insert_sorted : Replacement → List Replacement → List Replacement
insert_sorted r [] = r ∷ []
insert_sorted r (s ∷ rest) =
    let further = insert_sorted r rest in if leb (r.0) (s.0) then r ∷ s ∷ rest else s ∷ further

unfoldable pub sort_by_start : List Replacement → List Replacement
unfolding insert_sorted
sort_by_start [] = []
sort_by_start (r ∷ rest) = insert_sorted r (sort_by_start rest)

unfoldable pub compute_replacements : List Text → List Hunk → Result PatchError (List Replacement)
unfolding place_hunks sort_by_start
compute_replacements original hunks = do
  replacements ← place_hunks original 0 hunks
  ok (sort_by_start replacements)

-- The lines of the file after the patch as its text; the last line break stays.
unfoldable pub rejoined : LineEnding → Bool → List Text → Text
unfolding ends_blank join as_str
rejoined line_ending had_trailing_newline next_lines =
    let add_newline = had_trailing_newline && not (ends_blank next_lines) in
    join (as_str line_ending) (if add_newline then next_lines ++ [] ∷ [] else next_lines)

-- `none` where the source would panic.
unfoldable pub apply_hunks : Text → LineEnding → List Hunk → Result PatchError (Option Text)
unfolding compute_replacements apply_replacements lines ends_with rejoined
apply_hunks original line_ending hunks = do
  let original_lines = lines original
  let had_trailing_newline = ends_with 10 original
  replacements ← compute_replacements original_lines hunks
  ok (
      option_map (rejoined line_ending had_trailing_newline)
        (apply_replacements original_lines replacements))
