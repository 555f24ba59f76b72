-- ===== src/Patch/Data.antt =====
-- The types of apply_patch.rs: a patch is a list of file sections, each with its hunks.
use cloud_agent.Base.{ℕ, Bool, Option, List}
use cloud_agent.Base.Text.{Text}

pub record Hunk : Type 0 where
  pub change_context : Option Text
  pub is_end_of_file : Bool
  pub lines : List Text

pub record FilePatch : Type 0 where
  pub old_path : Text
  pub new_path : Text
  pub move_path : Option Text
  pub hunks : List Hunk

-- One constructor for each message that the code fails with, with what the message shows.
pub data PatchError : Type 0 where
  invalid_patch : Text → PatchError
  missing_end move_before_update move_outside_update multiple_moves move_after_hunks : PatchError
  hunk_before_target : PatchError
  unexpected_line : Text → PatchError
  duplicate_section delete_with_hunks update_without_hunks : Text → PatchError
  unsupported_hunk_line unsupported_new_file_line : Text → PatchError
  context_not_found : Text → PatchError
  lines_not_found : List Text → Option (List Text) → PatchError

-- Where the replaced lines start, how many they are, and the lines in their place.
abbrev pub Replacement : Type 0
Replacement = ℕ × (ℕ × List Text)
