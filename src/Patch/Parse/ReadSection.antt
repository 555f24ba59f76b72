-- ===== src/Patch/Parse/ReadSection.antt =====
-- How `parse_unified_patch` of apply_patch.rs reads a file section.
use cloud_agent.Base.{
  true, false, ◌||◌, Option, none, some, List, [], ◌∷◌, ◌++◌, All, map, if_false, ◌≡◌, ◌∙◌, refl,
  sym, ap, subst, ok, ◌>>=◌,
}
use mathlib.Core.List.{append-nil, append_assoc}
use cloud_agent.Base.Text.{Text, codes, text_eq}
use cloud_agent.Patch.Data.{Hunk, FilePatch}
use cloud_agent.Patch.Validate.{dev_null}
use cloud_agent.Patch.Parse.{
  PatchReader, flush_current, start_section, set_move, read_line, read_lines,
}
use cloud_agent.Patch.Parse.Print.{
  PrintedSection, adding, deleting, updating, moving, section_of, patch_of, print_hunks,
  print_section, print_sections, IsPrintable, IsPrintableSection, is_name,
}
use cloud_agent.Patch.Parse.Read.{read_add, read_delete, read_update, read_move}
use cloud_agent.Patch.Parse.ReadHunk.{reading, read_lines-append, read_hunks}

-- The reader between sections, or before the first.
abbrev pub idle : List FilePatch → PatchReader
idle done = record {
  file_patches = done;
  current_old_path = none;
  current_new_path = none;
  current_move_path = none;
  hunks = [];
  current_hunk = none;
  in_patch_block = true;
}

-- A reader in the block that has read these sections once it is flushed.
abbrev pub IsAt : PatchReader → List FilePatch → Type 0
IsAt r done = (r.in_patch_block ≡ true) × (flush_current r ≡ idle done)

-- The hunks that follow a header end up in its section.
read_section_hunks :
    (printed : List Hunk) (done : List FilePatch) (old new : Text) (move : Option Text)
    → All IsPrintable printed
    → (r : PatchReader) × (read_lines (print_hunks printed) (reading done old new move [] none)
        ≡ ok r)
      × IsAt r (done ++ patch_of old new move printed ∷ [])
unfolding flush_current
read_section_hunks printed done old new move h =
    let (before, last, e, f) = read_hunks printed done old new move [] none h in
    (
      reading done old new move before last,
      e,
      (refl, ap (λ hunks. idle (done ++ patch_of old new move hunks ∷ [])) f),
    )

start_section-idle :
    (old new : Text) (r : PatchReader) (done : List FilePatch)
    → IsAt r done
    → start_section old new r ≡ reading done old new none [] none
unfolding start_section
start_section-idle old new r done (_, h) =
    ap (λ (q : PatchReader). record q { current_old_path = some old; current_new_path = some new })
      h

-- A header line and the hunks below it.
read_headed :
    (line : Text) (printed : List Hunk) (done : List FilePatch) (old new : Text) (r : PatchReader)
    → read_line line r ≡ ok (start_section old new r)
    → All IsPrintable printed
    → IsAt r done
    → (next : PatchReader) × (read_lines (line ∷ print_hunks printed) r ≡ ok next)
      × IsAt next (done ++ patch_of old new none printed ∷ [])
unfolding read_lines
read_headed line printed done old new r header h ready =
    let (next, e, f) = read_section_hunks printed done old new none h in
    (
      next,
      ap (λ m. m >>= read_lines (print_hunks printed)) header
          ∙ ap (read_lines (print_hunks printed)) (start_section-idle old new r done ready)
          ∙ e,
      f,
    )

set_move-updating :
    (path target : Text) (done : List FilePatch)
    → text_eq path dev_null ≡ false
    → set_move target (reading done path path none [] none)
      ≡ ok (reading done path target (some target) [] none)
unfolding set_move
set_move-updating path target done h =
    if_false (text_eq path dev_null || text_eq path dev_null) _ _ (rw h)

read_moving :
    (path target : Text) (printed : List Hunk) (done : List FilePatch) (r : PatchReader)
    → is_name path ≡ true
    → text_eq path dev_null ≡ false
    → is_name target ≡ true
    → All IsPrintable printed
    → IsAt r done
    → (next : PatchReader) × (read_lines (print_section (moving path target printed)) r ≡ ok next)
      × IsAt next (done ++ patch_of path target (some target) printed ∷ [])
unfolding read_lines
read_moving path target printed done r hp hn ht hh ready =
    let (next, e, f) = read_section_hunks printed done path target (some target) hh in
    let opened = reading done path path none [] none in
    let move_line = codes "*** Move to: " ++ target in
    (
      next,
      ap (λ m. m >>= read_lines (move_line ∷ print_hunks printed)) (read_update path r hp ready.0)
          ∙ ap (read_lines (move_line ∷ print_hunks printed))
              (start_section-idle path path r done ready)
          ∙ ap (λ m. m >>= read_lines (print_hunks printed))
              (read_move target opened ht refl ∙ set_move-updating path target done hn)
          ∙ e,
      f,
    )

read_section :
    (section : PrintedSection) (r : PatchReader) (done : List FilePatch)
    → IsPrintableSection section
    → IsAt r done
    → (next : PatchReader) × (read_lines (print_section section) r ≡ ok next)
      × IsAt next (done ++ section_of section ∷ [])
read_section (adding path hunks) r done (hp, hh) ready =
    read_headed (codes "*** Add File: " ++ path) hunks done dev_null path r
      (read_add path r hp ready.0) hh ready
read_section (deleting path) r done hp ready =
    read_headed (codes "*** Delete File: " ++ path) [] done path dev_null r
      (read_delete path r hp ready.0) tt ready
read_section (updating path hunks) r done (hp, hh) ready =
    read_headed (codes "*** Update File: " ++ path) hunks done path path r
      (read_update path r hp ready.0) hh ready
read_section (moving path target hunks) r done (hp, hn, ht, hh) ready =
    read_moving path target hunks done r hp hn ht hh ready

pub read_sections :
    (sections : List PrintedSection) (r : PatchReader) (done : List FilePatch)
    → All IsPrintableSection sections
    → IsAt r done
    → (next : PatchReader) × (read_lines (print_sections sections) r ≡ ok next)
      × IsAt next (done ++ map section_of sections)
unfolding read_lines
read_sections [] r done h ready = (r, refl, subst (IsAt r) (sym (append-nil done)) ready)
read_sections (section ∷ sections) r done (hh, hs) ready =
    let (mid, e, f) = read_section section r done hh ready in
    let (next, g, k) = read_sections sections mid (done ++ section_of section ∷ []) hs f in
    (
      next,
      read_lines-append (print_section section) (print_sections sections) r mid e ∙ g,
      subst (IsAt next) (append_assoc done (section_of section ∷ []) (map section_of sections)) k,
    )
