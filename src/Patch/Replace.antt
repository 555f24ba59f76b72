-- ===== src/Patch/Replace.antt =====
-- `apply_replacements` of apply_patch.rs.
pub mod Spliced
pub mod Safe
use cloud_agent.Base.{
  ℕ, zero, suc, ◌+◌, Option, none, some, List, [], ◌∷◌, length, ltb, if◌then◌else◌,
}
use cloud_agent.Base.Text.{Text}
use cloud_agent.Patch.Data.{Replacement}

-- `Vec::remove`, under the test that the index is in range.
unfoldable pub remove_line_at : ℕ → List Text → List Text
remove_line_at i [] = []
remove_line_at zero (line ∷ lines) = lines
remove_line_at (suc i) (line ∷ lines) = line ∷ remove_line_at i lines

-- `Vec::insert`, which panics past the end.
unfoldable pub insert_line_at : ℕ → Text → List Text → Option (List Text)
insert_line_at zero new_line lines = some (new_line ∷ lines)
insert_line_at (suc i) new_line [] = none
insert_line_at (suc i) new_line (line ∷ lines) = elim (insert_line_at i new_line lines) [
  | none ↦ none
  | some rest ↦ some (line ∷ rest)
]

unfoldable pub remove_lines : ℕ → ℕ → List Text → List Text
unfolding remove_line_at
remove_lines zero start_index lines = lines
remove_lines (suc old_len) start_index lines =
    remove_lines old_len start_index
      (if ltb start_index (length lines) then remove_line_at start_index lines else lines)

-- `at` is `start_index + offset`.
unfoldable pub insert_lines : ℕ → List Text → List Text → Option (List Text)
unfolding insert_line_at
insert_lines at [] lines = some lines
insert_lines at (new_line ∷ new_segment) lines = elim (insert_line_at at new_line lines) [
  | none ↦ none
  | some next ↦ insert_lines (suc at) new_segment next
]

-- `none` where an insertion panics.
unfoldable pub apply_replacement : Replacement → List Text → Option (List Text)
unfolding remove_lines insert_lines
apply_replacement (start_index, (old_len, new_segment)) lines =
    insert_lines start_index new_segment (remove_lines old_len start_index lines)

-- The last replacement is applied first.
unfoldable pub apply_replacements : List Text → List Replacement → Option (List Text)
unfolding apply_replacement
apply_replacements lines [] = some lines
apply_replacements lines (replacement ∷ rest) = elim (apply_replacements lines rest) [
  | none ↦ none
  | some next ↦ apply_replacement replacement next
]
