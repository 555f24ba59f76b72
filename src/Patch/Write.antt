-- ===== src/Patch/Write.antt =====
-- `apply_planned_changes` of apply_patch.rs: the planned changes are done one by one.
pub mod Step
pub mod Stops
use cloud_agent.Base.{
  ℕ, Bool, true, false, not, Option, none, some, List, [], ◌∷◌, if◌then◌else◌, Result, ok, err,
}
use cloud_agent.Base.Text.{Text}
use cloud_agent.Patch.Paths.{insert_path}
use cloud_agent.Patch.Plan.{FileSystem, PlannedFileChange, writes, deletes}

pub record AppliedPatchDelta : Type 0 where
  pub changed_paths : List Text
  pub exact : Bool

abbrev pub exact_delta : AppliedPatchDelta
exact_delta = record { changed_paths = []; exact = true }

unfoldable pub mark_changed : Text → AppliedPatchDelta → AppliedPatchDelta
unfolding insert_path
mark_changed display_path delta = record delta {
  changed_paths = insert_path display_path delta.changed_paths;
}

abbrev pub mark_inexact : AppliedPatchDelta → AppliedPatchDelta
mark_inexact delta = record delta { exact = false }

-- The files after a call, the delta, and whether the call succeeded.
abbrev pub Outcome : Type 0 → Type 0
Outcome S = S × (AppliedPatchDelta × Bool)

module _ {PathBuf S : Type 0} (fs : FileSystem PathBuf S) where
  -- The source of a moved file is removed after its destination is written.
  unfoldable pub remove_source : Option PathBuf → S → AppliedPatchDelta → Outcome S
  remove_source none s delta = (s, (delta, true))
  remove_source (some source) s delta =
      let (next, done) = fs.remove_file source s in
      if done then (next, (delta, true)) else (next, (mark_inexact delta, false))

  unfoldable pub write_file :
      Text → PathBuf → List ℕ → Option PathBuf → S → AppliedPatchDelta → Outcome S
  unfolding remove_source mark_changed
  write_file display_path path bytes source s delta =
      let (next, done) = fs.write path bytes s in
      let removed = remove_source source next (mark_changed display_path delta) in
      if done then removed else (next, (mark_inexact delta, false))

  unfoldable pub apply_one_planned_change :
      PlannedFileChange PathBuf → S → AppliedPatchDelta → Outcome S
  unfolding write_file mark_changed
  apply_one_planned_change (writes display_path path bytes source) s delta =
      let (next, done) = fs.create_parent path s in
      let written = write_file display_path path bytes source next delta in
      if not (fs.has_parent path)
      then (s, (delta, false))
      else if done
      then written
      else (next, (delta, false))
  apply_one_planned_change (deletes display_path path) s delta =
      let (next, done) = fs.remove_file path s in
      if done then (next, (mark_changed display_path delta, true)) else (next, (delta, false))

  -- `true` where every change was applied; else the delta is what the error reports.
  unfoldable pub apply_planned_changes :
      List (PlannedFileChange PathBuf) → S → AppliedPatchDelta → Outcome S
  unfolding apply_one_planned_change
  apply_planned_changes [] s delta = (s, (delta, true))
  apply_planned_changes (change ∷ rest) s delta =
      let (next, (after, done)) = apply_one_planned_change change s delta in
      let later = apply_planned_changes rest next after in
      if done then later else (next, (after, false))
