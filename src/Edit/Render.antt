-- ===== src/Edit/Render.antt =====
-- `render_edit_patch` of edit_file.rs.
use cloud_agent.Base.{List, [], ◌∷◌, ◌++◌, map, if◌then◌else◌}
use cloud_agent.Base.Text.{Text, codes, is_empty, join}
use cloud_agent.Base.Lines.{lines, ends_with}
use cloud_agent.Edit.{PreparedInstruction}

unfoldable prefixed_lines : Text → Text → List Text
unfolding lines ends_with
prefixed_lines sign value =
    map (λ line. sign ++ line) (lines value) ++ (if ends_with 10 value then sign ∷ [] else [])

unfoldable edit_lines : PreparedInstruction → List Text
unfolding prefixed_lines is_empty
edit_lines edit =
    let removed =
      if is_empty edit.old_string then [] else prefixed_lines (codes "-") edit.old_string in
    codes "@@" ∷ (removed ++ prefixed_lines (codes "+") edit.new_string)

unfoldable edits_lines : List PreparedInstruction → List Text
unfolding edit_lines
edits_lines [] = []
edits_lines (edit ∷ edits) = edit_lines edit ++ edits_lines edits

-- The edits as the patch that is shown.
unfoldable pub render_edit_patch : Text → List PreparedInstruction → Text
unfolding edits_lines join
render_edit_patch changed_path edits = join (10 ∷ []) (
    codes "*** Begin Patch"
    ∷ (codes "*** Update File: " ++ changed_path)
    ∷ (edits_lines edits ++ codes "*** End Patch" ∷ []))
