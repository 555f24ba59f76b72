-- ===== src/Patch/Plan/Allowed.antt =====
-- What `plan_file_changes` of apply_patch.rs lets a patch change.
use cloud_agent.Base.{
  ◌≡◌, refl, subst, Bool, true, false, not, ◌||◌, Option, none, some, List, [], ◌∷◌, ◌++◌, All,
  All-append, if◌then◌else◌, if-holds, ok, err, value_before,
}
use cloud_agent.Base.Text.{text_eq}
use cloud_agent.Base.Utf.{as_bytes}
use cloud_agent.Codec.{encode_text_file}
use cloud_agent.Patch.Data.{FilePatch}
use cloud_agent.Patch.Validate.{dev_null}
use cloud_agent.Patch.Plan.{
  FileSystem, PlannedFileChange, writes, deletes, resolve_path, ensure_not_directory, plan_add,
  refused_add, refused_delete, refused_update, new_text, current_file, plan_delete, display_path,
  patched_text, plan_update, plan_file_change, plan_file_changes,
}

guard-ok :
    {E : Type 0} (b : Bool) (e : E) (u : Unit {0}) → (if b then err e else ok tt) ≡ ok u → b ≡ false
guard-ok true e u h = cc
guard-ok false e u h = refl

not-false : (b : Bool) → not b ≡ false → b ≡ true
not-false true h = refl
not-false false h = cc

module _ {PathBuf S : Type 0} (fs : FileSystem PathBuf S) (s : S) where
  -- No directory is written or deleted; what is deleted, or removed after a move, is there.
  abbrev pub IsAllowed : PlannedFileChange PathBuf → Type 0
  IsAllowed (deletes name path) = (fs.exists path s ≡ true) × (fs.is_dir path s ≡ false)
  IsAllowed (writes name path bytes none) = fs.is_dir path s ≡ false
  IsAllowed (writes name path bytes (some source)) =
      (fs.is_dir path s ≡ false) × (fs.exists source s ≡ true) × (fs.is_dir source s ≡ false)

  no_directory :
      (path : PathBuf) (u : Unit {0})
      → ensure_not_directory fs path s ≡ ok u
      → fs.is_dir path s ≡ false
  unfolding ensure_not_directory
  no_directory path u h = guard-ok (fs.is_dir path s) _ u h

  plan_add-IsAllowed :
      (file_patch : FilePatch) (changes : List (PlannedFileChange PathBuf))
      → plan_add fs file_patch s ≡ ok changes
      → All IsAllowed changes
  unfolding plan_add
  plan_add-IsAllowed file_patch changes h =
      let (path, _, h₁) = value_before (resolve_path fs file_patch.new_path s) _ h in
      let (_, _, h₂) =
        value_before (if fs.exists path s then err (refused_add path) else ok tt) _ h₁ in
      let (u, e, h₃) = value_before (ensure_not_directory fs path s) _ h₂ in
      let (next, _, h₄) = value_before (new_text fs file_patch) _ h₃ in
      let same : writes file_patch.new_path path (as_bytes next) none ∷ [] ≡ changes = cc h₄ in
      subst (All IsAllowed) same (no_directory path u e, tt)

  plan_delete-IsAllowed :
      (file_patch : FilePatch) (changes : List (PlannedFileChange PathBuf))
      → plan_delete fs file_patch s ≡ ok changes
      → All IsAllowed changes
  unfolding plan_delete
  plan_delete-IsAllowed file_patch changes h =
      let (path, _, h₁) = value_before (resolve_path fs file_patch.old_path s) _ h in
      let (v, there, h₂) =
        value_before (if not (fs.exists path s) then err (refused_delete path) else ok tt) _ h₁ in
      let (u, e, h₃) = value_before (ensure_not_directory fs path s) _ h₂ in
      let found = not-false (fs.exists path s) (guard-ok (not (fs.exists path s)) _ v there) in
      let same : deletes file_patch.old_path path ∷ [] ≡ changes = cc h₃ in
      subst (All IsAllowed) same ((found, no_directory path u e), tt)

  plan_update-IsAllowed :
      (file_patch : FilePatch) (changes : List (PlannedFileChange PathBuf))
      → plan_update fs file_patch s ≡ ok changes
      → All IsAllowed changes
  unfolding plan_update
  plan_update-IsAllowed file_patch changes h =
      let (old_path, _, h₁) = value_before (resolve_path fs file_patch.old_path s) _ h in
      let (v, there, h₂) =
        value_before (if not (fs.exists old_path s) then err (refused_update old_path) else ok tt) _
          h₁ in
      let (u, e, h₃) = value_before (ensure_not_directory fs old_path s) _ h₂ in
      let (decoded, _, h₄) = value_before (current_file fs file_patch old_path s) _ h₃ in
      let (next, _, h₅) = value_before (patched_text fs file_patch decoded) _ h₄ in
      let (destination, _, h₆) =
        value_before (resolve_path fs (display_path fs file_patch) s) _ h₅ in
      let (w, f, h₇) = value_before (ensure_not_directory fs destination s) _ h₆ in
      let found =
        not-false (fs.exists old_path s) (guard-ok (not (fs.exists old_path s)) _ v there) in
      let moved = not (fs.same_path destination old_path) in
      let free = no_directory destination w f in
      let bytes = encode_text_file decoded next in
      let name = display_path fs file_patch in
      let source : Option PathBuf = if moved then some old_path else none in
      let allowed : IsAllowed (writes name destination bytes source) =
        if-holds (λ source. IsAllowed (writes name destination bytes source)) moved (some old_path)
          none (free, found, no_directory old_path u e) free in
      let planned = writes name destination bytes source ∷ [] in
      let same : (if not (text_eq next decoded.text) || moved then planned else []) ≡ changes =
        cc h₇ in
      subst (All IsAllowed) same (
        if-holds (All IsAllowed) (not (text_eq next decoded.text) || moved) planned [] (allowed, tt)
          tt)

  plan_file_change-IsAllowed :
      (file_patch : FilePatch) (changes : List (PlannedFileChange PathBuf))
      → plan_file_change fs file_patch s ≡ ok changes
      → All IsAllowed changes
  unfolding plan_file_change
  plan_file_change-IsAllowed file_patch changes h =
      let added = plan_add fs file_patch s in
      let deleted = plan_delete fs file_patch s in
      let updated = plan_update fs file_patch s in
      if-holds (λ r. r ≡ ok changes → All IsAllowed changes) (text_eq file_patch.old_path dev_null)
        added (if text_eq file_patch.new_path dev_null then deleted else updated)
        (plan_add-IsAllowed file_patch changes)
        (if-holds (λ r. r ≡ ok changes → All IsAllowed changes)
          (text_eq file_patch.new_path dev_null) deleted updated
          (plan_delete-IsAllowed file_patch changes) (plan_update-IsAllowed file_patch changes))
        h

  -- A patch that is planned writes and deletes no directory, and every file that it deletes, or
  -- removes because it is moved, is there.
  pub plan_file_changes-IsAllowed :
      (file_patches : List FilePatch) (changes : List (PlannedFileChange PathBuf))
      → plan_file_changes fs file_patches s ≡ ok changes
      → All IsAllowed changes
  unfolding plan_file_changes
  plan_file_changes-IsAllowed [] changes h =
      let same : [] ≡ changes = cc h in subst (All IsAllowed) same tt
  plan_file_changes-IsAllowed (file_patch ∷ rest) changes h =
      let (first, e, h₁) = value_before (plan_file_change fs file_patch s) _ h in
      let (later, f, h₂) = value_before (plan_file_changes fs rest s) _ h₁ in
      let same : first ++ later ≡ changes = cc h₂ in
      subst (All IsAllowed) same (
        All-append IsAllowed first later (plan_file_change-IsAllowed file_patch first e)
          (plan_file_changes-IsAllowed rest later f))
