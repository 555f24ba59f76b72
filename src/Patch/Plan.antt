-- ===== src/Patch/Plan.antt =====
-- `plan_file_changes` of apply_patch.rs: what a patch writes and deletes, before anything is done.
pub mod Allowed
use cloud_agent.Base.{
  ℕ, Bool, true, false, ◌&&◌, ◌||◌, not, Option, none, some, List, [], ◌∷◌, ◌++◌, if◌then◌else◌,
  Result, ok, err, ◌>>=◌, ◌>>◌,
}
use cloud_agent.Base.Text.{Text, text_eq}
use cloud_agent.Base.Utf.{as_bytes}
use cloud_agent.Codec.{DecodedTextFile, TextDecodeFailure, decode_text_file, encode_text_file}
use cloud_agent.Patch.Data.{Hunk, FilePatch, PatchError}
use cloud_agent.Patch.Hunks.{render_hunks_as_new_file}
use cloud_agent.Patch.Compute.{apply_hunks}
use cloud_agent.Patch.Validate.{dev_null}

-- The file system in a state of type `S`, and `resolve_workspace_path` at the workspace's root.
-- A call that changes files returns the state after it and whether it succeeded.
pub record FileSystem (PathBuf S : Type 0) : Type 0 where
  pub resolve_workspace_path : Text → S → Option PathBuf
  pub same_path : PathBuf → PathBuf → Bool
  pub has_parent : PathBuf → Bool
  pub exists : PathBuf → S → Bool
  pub is_dir : PathBuf → S → Bool
  pub read : PathBuf → S → Option (List ℕ)
  pub create_parent : PathBuf → S → S × Bool
  pub write : PathBuf → List ℕ → S → S × Bool
  pub remove_file : PathBuf → S → S × Bool

pub data PlannedFileChange (PathBuf : Type 0) : Type 0 where
  writes : Text → PathBuf → List ℕ → Option PathBuf → PlannedFileChange PathBuf
  deletes : Text → PathBuf → PlannedFileChange PathBuf

pub data PlanError (PathBuf : Type 0) : Type 0 where
  unresolved : Text → PlanError PathBuf
  refused_add refused_delete refused_update is_directory unreadable : PathBuf → PlanError PathBuf
  undecodable : Text → TextDecodeFailure → PlanError PathBuf
  new_file_failed : PatchError → PlanError PathBuf
  hunks_failed : Text → PatchError → PlanError PathBuf
  panicked : PlanError PathBuf

module _ {PathBuf S : Type 0} (fs : FileSystem PathBuf S) where
  unfoldable pub resolve_path : Text → S → Result (PlanError PathBuf) PathBuf
  resolve_path value s = elim (fs.resolve_workspace_path value s) [
    | none ↦ err (unresolved value)
    | some path ↦ ok path
  ]

  unfoldable pub ensure_not_directory : PathBuf → S → Result (PlanError PathBuf) (Unit {0})
  ensure_not_directory path s = if fs.is_dir path s then err (is_directory path) else ok tt

  unfoldable pub new_text : FilePatch → Result (PlanError PathBuf) Text
  unfolding render_hunks_as_new_file
  new_text file_patch = elim (render_hunks_as_new_file file_patch.hunks) [
    | err e ↦ err (new_file_failed e)
    | ok text ↦ ok text
  ]

  unfoldable pub plan_add :
      FilePatch → S → Result (PlanError PathBuf) (List (PlannedFileChange PathBuf))
  unfolding resolve_path ensure_not_directory new_text as_bytes
  plan_add file_patch s = do
    path ← resolve_path file_patch.new_path s
    if fs.exists path s then err (refused_add path) else ok tt
    ensure_not_directory path s
    next ← new_text file_patch
    ok (writes file_patch.new_path path (as_bytes next) none ∷ [])

  unfoldable pub plan_delete :
      FilePatch → S → Result (PlanError PathBuf) (List (PlannedFileChange PathBuf))
  unfolding resolve_path ensure_not_directory
  plan_delete file_patch s = do
    path ← resolve_path file_patch.old_path s
    if not (fs.exists path s) then err (refused_delete path) else ok tt
    ensure_not_directory path s
    ok (deletes file_patch.old_path path ∷ [])

  -- The path that an update writes, as the patch names it.
  unfoldable pub display_path : FilePatch → Text
  display_path file_patch = elim file_patch.move_path [
    | none ↦ file_patch.new_path
    | some target ↦ target
  ]

  unfoldable pub patched_text : FilePatch → DecodedTextFile → Result (PlanError PathBuf) Text
  unfolding apply_hunks
  patched_text file_patch decoded =
      elim (apply_hunks decoded.text decoded.line_ending file_patch.hunks) [
        | err e ↦ err (hunks_failed file_patch.new_path e)
        | ok none ↦ err panicked
        | ok (some next) ↦ ok next
      ]

  unfoldable pub current_file : FilePatch → PathBuf → S → Result (PlanError PathBuf) DecodedTextFile
  unfolding decode_text_file
  current_file file_patch old_path s = elim (fs.read old_path s) [
    | none ↦ err (unreadable old_path)
    | some current_bytes ↦ elim (decode_text_file current_bytes) [
      | err e ↦ err (undecodable file_patch.new_path e)
      | ok decoded ↦ ok decoded
    ]
  ]

  unfoldable pub plan_update :
      FilePatch → S → Result (PlanError PathBuf) (List (PlannedFileChange PathBuf))
  unfolding resolve_path ensure_not_directory current_file patched_text display_path
      encode_text_file text_eq
  plan_update file_patch s = do
    old_path ← resolve_path file_patch.old_path s
    if not (fs.exists old_path s) then err (refused_update old_path) else ok tt
    ensure_not_directory old_path s
    decoded ← current_file file_patch old_path s
    next ← patched_text file_patch decoded
    destination ← resolve_path (display_path file_patch) s
    ensure_not_directory destination s
    let moved = not (fs.same_path destination old_path)
    let source : Option PathBuf = if moved then some old_path else none
    let change = writes (display_path file_patch) destination (encode_text_file decoded next) source
    ok (if not (text_eq next decoded.text) || moved then change ∷ [] else [])

  unfoldable pub plan_file_change :
      FilePatch → S → Result (PlanError PathBuf) (List (PlannedFileChange PathBuf))
  unfolding text_eq plan_add plan_delete plan_update
  plan_file_change file_patch s =
      if text_eq file_patch.old_path dev_null
      then plan_add file_patch s
      else if text_eq file_patch.new_path dev_null
      then plan_delete file_patch s
      else plan_update file_patch s

  unfoldable pub plan_file_changes :
      List FilePatch → S → Result (PlanError PathBuf) (List (PlannedFileChange PathBuf))
  unfolding plan_file_change
  plan_file_changes [] s = ok []
  plan_file_changes (file_patch ∷ rest) s = do
    first ← plan_file_change file_patch s
    later ← plan_file_changes rest s
    ok (first ++ later)
