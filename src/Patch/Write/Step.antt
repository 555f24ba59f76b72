-- ===== src/Patch/Write/Step.antt =====
-- What one planned change of apply_patch.rs does and reports, told by its calls on the files.
use cloud_agent.Base.{
  ◌≡◌, refl, ◌∙◌, ℕ, not, Bool, true, false, ◌||◌, ◌&&◌, Option, none, some, List, any, arith,
  Bool-cases, inl, inr,
}
use cloud_agent.Base.Text.{Text, text_eq}
use cloud_agent.Patch.Paths.{has_path, has_path-insert_path}
use cloud_agent.Patch.Plan.{FileSystem, PlannedFileChange, writes, deletes}
use cloud_agent.Patch.Write.{
  AppliedPatchDelta, mark_changed, Outcome, remove_source, write_file, apply_one_planned_change,
}

module _ {PathBuf : Type 0} where
  abbrev pub display : PlannedFileChange PathBuf → Text
  display (writes display_path path bytes source) = display_path
  display (deletes display_path path) = display_path

  -- The text names the path of one of the changes.
  abbrev pub names : Text → List (PlannedFileChange PathBuf) → Bool
  names k changes = any (λ change. text_eq k (display change)) changes

module _ {PathBuf S : Type 0} (fs : FileSystem PathBuf S) where
  -- The directory of a file that is written is there, or was made.
  abbrev pub is_ready : PlannedFileChange PathBuf → S → Bool
  is_ready (writes name path bytes source) s = fs.has_parent path && (fs.create_parent path s).1
  is_ready (deletes name path) s = true

  -- The files where `is_ready` has made the directory.
  abbrev ready : PathBuf → S → S
  ready path s = (fs.create_parent path s).0

  -- The call that writes or deletes the file itself succeeds.
  abbrev pub is_called : PlannedFileChange PathBuf → S → Bool
  is_called (writes name path bytes source) s = (fs.write path bytes (ready path s)).1
  is_called (deletes name path) s = (fs.remove_file path s).1

  -- The source of a move, if there is one, is removed after the file is written.
  abbrev pub is_cleared : PlannedFileChange PathBuf → S → Bool
  is_cleared (writes name path bytes (some source)) s =
      (fs.remove_file source (fs.write path bytes (ready path s)).0).1
  is_cleared change s = true

  -- The file of the change was written or deleted.
  abbrev pub is_changed : PlannedFileChange PathBuf → S → Bool
  is_changed change s = is_ready change s && is_called change s

  abbrev pub is_finished : PlannedFileChange PathBuf → S → Bool
  is_finished change s = is_changed change s && is_cleared change s

  -- A failure may have left a file half written, or a moved file at both places.
  abbrev pub is_inexact : PlannedFileChange PathBuf → S → Bool
  is_inexact (writes name path bytes source) s =
      is_ready (writes name path bytes source) s
      && not (is_finished (writes name path bytes source) s)
  is_inexact (deletes name path) s = false

  -- A change succeeds where all its calls do; its path is added exactly where its file changed.
  pub record IsStep (change : PlannedFileChange PathBuf) (s : S) (d : AppliedPatchDelta)
      (out : Outcome S) : Type 0 where
    pub succeeds : out.1.1 ≡ is_finished change s
    pub exact : out.1.0.exact ≡ (d.exact && not (is_inexact change s))
    pub reported :
        (k : Text)
        → has_path k out.1.0.changed_paths
          ≡ ((is_changed change s && text_eq k (display change)) || has_path k d.changed_paths)

  -- A change that fails, or is done, with the delta as it was or with its path.
  unchanged :
      (k : Text) (d : AppliedPatchDelta) (a b : Bool)
      → a ≡ false
      → has_path k d.changed_paths ≡ ((a && b) || has_path k d.changed_paths)
  unchanged k d a b h = ground (arith, h)

  marked :
      (k name : Text) (d : AppliedPatchDelta) (a : Bool)
      → a ≡ true
      → has_path k (mark_changed name d).changed_paths
        ≡ ((a && text_eq k name) || has_path k d.changed_paths)
  unfolding mark_changed
  marked k name d a h = has_path-insert_path k name d.changed_paths ∙ ground (arith, h)

  mark_changed-exact : (name : Text) (d : AppliedPatchDelta) → (mark_changed name d).exact ≡ d.exact
  unfolding mark_changed
  mark_changed-exact name d = refl

  -- A write that fails before the file is changed.
  not_written :
      (name : Text) (path : PathBuf) (bytes : List ℕ) (source : Option PathBuf) (s next : S)
      (d : AppliedPatchDelta) (still : Bool)
      → is_changed (writes name path bytes source) s ≡ false
      → still ≡ (d.exact && not (is_ready (writes name path bytes source) s))
      → IsStep (writes name path bytes source) s d (next, (record d { exact = still }, false))
  not_written name path bytes source s next d still h e = record {
    succeeds = ground (arith, h);
    exact = ground (arith, h, e);
    reported = λ k. unchanged k d (is_changed (writes name path bytes source) s) _ h;
  }

  remove_source-IsStep :
      (name : Text) (path : PathBuf) (bytes : List ℕ) (source : Option PathBuf) (s : S)
      (d : AppliedPatchDelta)
      → is_changed (writes name path bytes source) s ≡ true
      → IsStep
          (writes name path bytes source)
          s
          d
          (remove_source fs source (fs.write path bytes (ready path s)).0 (mark_changed name d))
  unfolding remove_source
  remove_source-IsStep name path bytes none s d h = record {
    succeeds = ground (arith, h);
    exact = mark_changed-exact name d ∙ ground (arith, h);
    reported = λ k. marked k name d (is_changed (writes name path bytes none) s) h;
  }
  remove_source-IsStep name path bytes (some source) s d h =
      elim (Bool-cases (fs.remove_file source (fs.write path bytes (ready path s)).0).1) [
        | inl done ↦ rw done (record {
          succeeds = ground (arith, h, done);
          exact = mark_changed-exact name d ∙ ground (arith, h, done);
          reported = λ k. marked k name d (is_changed (writes name path bytes (some source)) s) h;
        })
        | inr failed ↦ rw failed (record {
          succeeds = ground (arith, h, failed);
          exact = ground (arith, h, failed);
          reported = λ k. marked k name d (is_changed (writes name path bytes (some source)) s) h;
        })
      ]

  pub apply_one-IsStep :
      (change : PlannedFileChange PathBuf) (s : S) (d : AppliedPatchDelta)
      → IsStep change s d (apply_one_planned_change fs change s d)
  unfolding apply_one_planned_change write_file
  apply_one-IsStep (writes name path bytes source) s d = elim (Bool-cases (fs.has_parent path)) [
    | inr lone ↦ rw lone (
        not_written name path bytes source s s d d.exact (ground (arith, lone))
          (ground (arith, lone)))
    | inl kept ↦ elim (Bool-cases (fs.create_parent path s).1) [
      | inr unmade ↦
          rw (kept, unmade)
            (not_written name path bytes source s _ d d.exact (ground (arith, unmade))
              (ground (arith, unmade)))
      | inl made ↦ elim (Bool-cases (fs.write path bytes (ready path s)).1) [
        | inr unwritten ↦
            rw (kept, made, unwritten)
              (not_written name path bytes source s _ d false (ground (arith, unwritten))
                (ground (arith, kept, made)))
        | inl written ↦
            rw (kept, made, written)
              (remove_source-IsStep name path bytes source s d
                (ground (arith, kept, made, written)))
      ]
    ]
  ]
  apply_one-IsStep (deletes name path) s d = elim (Bool-cases (fs.remove_file path s).1) [
    | inl done ↦ rw done (record {
      succeeds = ground (arith, done);
      exact = ground (arith, done);
      reported = λ k. marked k name d (is_changed (deletes name path) s) done;
    })
    | inr failed ↦ rw failed (record {
      succeeds = ground (arith, failed);
      exact = ground (arith, failed);
      reported = λ k. unchanged k d (is_changed (deletes name path) s) _ failed;
    })
  ]
