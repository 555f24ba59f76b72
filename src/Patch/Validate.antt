-- ===== src/Patch/Validate.antt =====
-- `validate_file_patches` of apply_patch.rs.
pub mod Apart
use cloud_agent.Base.{
  Bool, ◌||◌, Option, none, some, List, [], ◌∷◌, ◌++◌, if◌then◌else◌, Result, ok, err, ◌>>=◌, ◌>>◌,
}
use cloud_agent.Base.Text.{Text, codes, text_eq, is_empty}
use cloud_agent.Patch.Data.{
  FilePatch, PatchError, duplicate_section, delete_with_hunks, update_without_hunks,
}
use cloud_agent.Patch.Paths.{has_path, insert_path}

abbrev pub dev_null : Text
dev_null = codes "/dev/null"

unfoldable pub insert_unless_null : Text → List Text → List Text
unfolding insert_path is_empty text_eq
insert_unless_null path paths =
    if is_empty path || text_eq path dev_null then paths else insert_path path paths

unfoldable pub section_paths : FilePatch → List Text
unfolding insert_unless_null
section_paths file_patch =
    let move_path : Text = elim file_patch.move_path [ none ↦ [] | some path ↦ path ] in
    insert_unless_null move_path
      (insert_unless_null file_patch.new_path (insert_unless_null file_patch.old_path []))

-- The affected paths after a section's are inserted, none of which may be there.
unfoldable pub affect : List Text → List Text → Result PatchError (List Text)
unfolding has_path
affect [] affected = ok affected
affect (path ∷ paths) affected =
    if has_path path affected then err (duplicate_section path) else affect paths (path ∷ affected)

unfoldable pub validate_hunks : FilePatch → Result PatchError (Unit {0})
unfolding is_empty text_eq
validate_hunks file_patch =
    if text_eq file_patch.old_path dev_null
    then ok tt
    else if text_eq file_patch.new_path dev_null
    then if is_empty file_patch.hunks then ok tt else err (delete_with_hunks file_patch.old_path)
    else if is_empty file_patch.hunks
    then err (update_without_hunks file_patch.old_path)
    else ok tt

unfoldable pub validate_from : List Text → List FilePatch → Result PatchError (Unit {0})
unfolding affect section_paths validate_hunks
validate_from affected [] = ok tt
validate_from affected (file_patch ∷ file_patches) = do
  next ← affect (section_paths file_patch) affected
  validate_hunks file_patch
  validate_from next file_patches

unfoldable pub validate_file_patches : List FilePatch → Result PatchError (Unit {0})
unfolding validate_from
validate_file_patches file_patches = validate_from [] file_patches
