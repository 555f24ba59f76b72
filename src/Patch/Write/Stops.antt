-- ===== src/Patch/Write/Stops.antt =====
-- What `apply_planned_changes` of apply_patch.rs has done where it fails, and what it reports.
use cloud_agent.Base.{
  ◌≡◌, refl, ap, subst, sym, ◌∙◌, ◌⊎◌, inl, inr, Bool, true, false, ◌||◌, ◌&&◌, not, List, [], ◌∷◌,
  ◌++◌, arith, Bool-cases, if_false,
}
use cloud_agent.Base.Text.{Text, text_eq}
use cloud_agent.Patch.Paths.{has_path}
use cloud_agent.Patch.Plan.{FileSystem, PlannedFileChange, writes, deletes}
use cloud_agent.Patch.Write.Step.{
  display, names, is_changed, is_finished, is_inexact, apply_one-IsStep,
}
use cloud_agent.Patch.Write.{
  AppliedPatchDelta, exact_delta, Outcome, apply_one_planned_change, apply_planned_changes,
}

moved : (a b c : Bool) → (a || (b || c)) ≡ ((b || a) || c)
moved a b c = ground arith

moved_behind : (a b c d : Bool) → ((a || c) || (b || d)) ≡ (((b || a) || c) || d)
moved_behind a b c d = ground arith

module _ {PathBuf S : Type 0} (fs : FileSystem PathBuf S) where
  -- All calls of each change succeed, one change after the other.
  abbrev pub AllFinished : List (PlannedFileChange PathBuf) → S → AppliedPatchDelta → Type 0
  AllFinished [] s d = Unit
  AllFinished (change ∷ changes) s d =
      let out = apply_one_planned_change fs change s d in
      (is_finished fs change s ≡ true) × AllFinished changes out.0 out.1.0

  -- Every change was applied, and the paths are those of the changes on top of the delta's.
  pub record IsComplete (changes : List (PlannedFileChange PathBuf)) (s : S) (d : AppliedPatchDelta)
      (out : Outcome S) : Type 0 where
    pub succeeds : out.1.1 ≡ true
    pub all : AllFinished changes s d
    pub exact : out.1.0.exact ≡ d.exact
    pub reported :
        (k : Text)
        → has_path k out.1.0.changed_paths ≡ (names k changes || has_path k d.changed_paths)

  -- The changes before one that fails were applied and no later one was tried; the paths are those
  -- of the changes before it and its own exactly if its file changed.
  pub record IsPartial (changes : List (PlannedFileChange PathBuf)) (s : S) (d : AppliedPatchDelta)
      (out : Outcome S) : Type 0 where
    pub before : List (PlannedFileChange PathBuf)
    pub failed : PlannedFileChange PathBuf
    pub after : List (PlannedFileChange PathBuf)
    pub whole : changes ≡ before ++ failed ∷ after
    pub reached : Outcome S
    pub run : reached ≡ apply_planned_changes fs before s d
    pub all : AllFinished before s d
    pub last : out ≡ apply_one_planned_change fs failed reached.0 reached.1.0
    pub stops : out.1.1 ≡ false
    pub unfinished : is_finished fs failed reached.0 ≡ false
    pub exact : out.1.0.exact ≡ (d.exact && not (is_inexact fs failed reached.0))
    pub reported :
        (k : Text)
        → has_path k out.1.0.changed_paths ≡ (
            (names k before || (is_changed fs failed reached.0 && text_eq k (display failed)))
            || has_path k d.changed_paths)

  apply_cons-done :
      (change : PlannedFileChange PathBuf) (rest : List (PlannedFileChange PathBuf)) (s : S)
      (d : AppliedPatchDelta)
      → let out = apply_one_planned_change fs change s d in
        out.1.1 ≡ true
        → apply_planned_changes fs (change ∷ rest) s d ≡ apply_planned_changes fs rest out.0 out.1.0
  unfolding apply_planned_changes
  apply_cons-done change rest s d e = rw e

  apply_cons-failed :
      (change : PlannedFileChange PathBuf) (rest : List (PlannedFileChange PathBuf)) (s : S)
      (d : AppliedPatchDelta)
      → let out = apply_one_planned_change fs change s d in
        out.1.1 ≡ false → apply_planned_changes fs (change ∷ rest) s d ≡ out
  unfolding apply_planned_changes
  apply_cons-failed change rest s d e =
      let out = apply_one_planned_change fs change s d in
      if_false out.1.1 (apply_planned_changes fs rest out.0 out.1.0) (out.0, (out.1.0, false)) e
      ∙ ap (λ b. (out.0, (out.1.0, b))) (sym e)

  changed :
      (change : PlannedFileChange PathBuf) (s : S)
      → is_finished fs change s ≡ true
      → is_changed fs change s ≡ true
  changed change s h = ground (arith, h)

  finished-exact :
      (change : PlannedFileChange PathBuf) (s : S)
      → is_finished fs change s ≡ true
      → is_inexact fs change s ≡ false
  finished-exact (writes name path bytes source) s h = ground (arith, h)
  finished-exact (deletes name path) s h = refl

  first_failed :
      (change : PlannedFileChange PathBuf) (rest : List (PlannedFileChange PathBuf)) (s : S)
      (d : AppliedPatchDelta)
      → let out = apply_one_planned_change fs change s d in
        out.1.1 ≡ false → IsPartial (change ∷ rest) s d out
  unfolding apply_planned_changes
  first_failed change rest s d e =
      let step = apply_one-IsStep fs change s d in
      record {
        before = [];
        failed = change;
        after = rest;
        whole = refl;
        reached = (s, (d, true));
        run = refl;
        all = tt;
        last = refl;
        stops = e;
        unfinished = sym step.succeeds ∙ e;
        exact = step.exact;
        reported = step.reported;
      }

  module _ (change : PlannedFileChange PathBuf) (rest : List (PlannedFileChange PathBuf)) (s : S)
      (d : AppliedPatchDelta) where
    finished_here :
        let out = apply_one_planned_change fs change s d in
        out.1.1 ≡ true → is_finished fs change s ≡ true
    finished_here e = sym (apply_one-IsStep fs change s d).succeeds ∙ e

    exact_here :
        let out = apply_one_planned_change fs change s d in out.1.1 ≡ true → out.1.0.exact ≡ d.exact
    exact_here e =
        let safe = finished-exact change s (finished_here e) in
        (apply_one-IsStep fs change s d).exact ∙ ground (arith, safe)

    reported_here :
        let out = apply_one_planned_change fs change s d in
        (k : Text)
        → out.1.1 ≡ true
        → has_path k out.1.0.changed_paths
          ≡ (text_eq k (display change) || has_path k d.changed_paths)
    reported_here k e =
        (apply_one-IsStep fs change s d).reported k
        ∙ ap (λ b. (b && text_eq k (display change)) || has_path k d.changed_paths)
            (changed change s (finished_here e))

    later-IsComplete :
        let out = apply_one_planned_change fs change s d in
        out.1.1 ≡ true
        → IsComplete rest out.0 out.1.0 (apply_planned_changes fs rest out.0 out.1.0)
        → IsComplete (change ∷ rest) s d (apply_planned_changes fs rest out.0 out.1.0)
    later-IsComplete e c = record {
      succeeds = c.succeeds;
      all = (finished_here e, c.all);
      exact = c.exact ∙ exact_here e;
      reported = λ k.
          c.reported k
          ∙ ap (λ b. names k rest || b) (reported_here k e)
          ∙ moved (names k rest) (text_eq k (display change)) (has_path k d.changed_paths);
    }

    later-IsPartial :
        let out = apply_one_planned_change fs change s d in
        (last : Outcome S)
        → out.1.1 ≡ true
        → IsPartial rest out.0 out.1.0 last
        → IsPartial (change ∷ rest) s d last
    later-IsPartial last e p = record {
      before = change ∷ p.before;
      failed = p.failed;
      after = p.after;
      whole = ap (◌∷◌ change) p.whole;
      reached = p.reached;
      run = p.run ∙ sym (apply_cons-done change p.before s d e);
      all = (finished_here e, p.all);
      last = p.last;
      stops = p.stops;
      unfinished = p.unfinished;
      exact = p.exact ∙ ap (λ b. b && not (is_inexact fs p.failed p.reached.0)) (exact_here e);
      reported = λ k.
          let own = is_changed fs p.failed p.reached.0 && text_eq k (display p.failed) in
          p.reported k
          ∙ ap (λ b. (names k p.before || own) || b) (reported_here k e)
          ∙ moved_behind (names k p.before) (text_eq k (display change)) own
              (has_path k d.changed_paths);
    }

  apply_from :
      (changes : List (PlannedFileChange PathBuf)) (s : S) (d : AppliedPatchDelta)
      → let out = apply_planned_changes fs changes s d in
        IsComplete changes s d out ⊎ IsPartial changes s d out
  unfolding apply_planned_changes
  apply_from [] s d = inl (record { succeeds = refl; all = tt; exact = refl; reported = λ k. refl })
  apply_from (change ∷ rest) s d =
      let out = apply_one_planned_change fs change s d in
      elim (Bool-cases out.1.1) [
        | inr e ↦ inr (
            subst (IsPartial (change ∷ rest) s d) (sym (apply_cons-failed change rest s d e))
              (first_failed change rest s d e))
        | inl e ↦
            let same = sym (apply_cons-done change rest s d e) in
            elim (apply_from rest out.0 out.1.0) [
              | inl c ↦ inl (
                  subst (IsComplete (change ∷ rest) s d) same
                    (later-IsComplete change rest s d e c))
              | inr p ↦ inr (
                  subst (IsPartial (change ∷ rest) s d) same
                    (later-IsPartial change rest s d _ e p))
            ]
      ]

  -- A patch whose planned changes are applied: either every call of each change succeeds, and the
  -- reported paths are those of the changes; or the changes before the first one that fails are
  -- applied, no later one is tried, and the reported paths are those of the changes before it, with
  -- its own exactly if its file was written. What was done is reported as exact unless a write, or
  -- the removal of a moved file's source, has failed.
  pub apply_planned_changes_reports :
      (changes : List (PlannedFileChange PathBuf)) (s : S)
      → let out = apply_planned_changes fs changes s exact_delta in
        IsComplete changes s exact_delta out ⊎ IsPartial changes s exact_delta out
  apply_planned_changes_reports changes s = apply_from changes s exact_delta
