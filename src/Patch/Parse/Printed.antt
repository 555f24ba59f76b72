-- ===== src/Patch/Parse/Printed.antt =====
-- A printed patch is read back by `parse_unified_patch` of apply_patch.rs.
use cloud_agent.Base.{
  false, ◌&&◌, ◌||◌, not, List, [], ◌∷◌, ◌++◌, All, map, if◌then◌else◌, ◌≡◌, ◌∙◌, refl, sym, ap,
  Result, ok, err, ◌>>=◌, leb, length, last?, last?-append_one,
}
use mathlib.Core.List.{append_assoc}
use cloud_agent.Base.Text.{Text, codes, trim, is_whitespace}
use cloud_agent.Base.Lines.{lines, ends_with}
use cloud_agent.Base.Lines.Joined.{lines-join_open, join_last}
use cloud_agent.Base.Lines.Trimmed.{trim-trimmed, is_trimmed-append}
use cloud_agent.Patch.Data.{FilePatch, PatchError, invalid_patch, missing_end}
use cloud_agent.Patch.Validate.{validate_file_patches}
use cloud_agent.Patch.Parse.{
  PatchReader, new_reader, flush_current, read_line, read_lines, trimmed_is, first?,
  after_first_line, before_last_line, strip_heredoc_markers, parse_lines, parse_unified_patch,
}
use cloud_agent.Patch.Parse.Print.{
  PrintedSection, section_of, print_sections, print_lines, print_patch, IsPrintableSection,
}
use cloud_agent.Patch.Parse.PrintLines.{print_sections-IsLine}
use cloud_agent.Patch.Parse.ReadHunk.{read_lines-append}
use cloud_agent.Patch.Parse.ReadSection.{idle, read_sections}

read_begin : read_line (codes "*** Begin Patch") new_reader ≡ ok (idle [])
unfolding read_line
read_begin = refl

read_end :
    (r : PatchReader)
    → read_lines (codes "*** End Patch" ∷ []) r
      ≡ ok (record (flush_current r) { in_patch_block = false })
unfolding read_lines read_line
read_end r = refl

abbrev ended : List FilePatch → PatchReader
ended done = record (idle done) { in_patch_block = false }

read_printed :
    (sections : List PrintedSection)
    → All IsPrintableSection sections
    → read_lines (print_lines sections) new_reader ≡ ok (ended (map section_of sections))
unfolding read_lines
read_printed sections h =
    let (next, e, (_, f)) = read_sections sections (idle []) [] h (refl, refl) in
    let rest = print_sections sections ++ codes "*** End Patch" ∷ [] in
    ap (λ m. m >>= read_lines rest) read_begin
    ∙ read_lines-append (print_sections sections) (codes "*** End Patch" ∷ []) (idle []) next e
    ∙ read_end next
    ∙ ap (λ (r : PatchReader). ok (record r { in_patch_block = false })) f

parse_lines-print :
    (sections : List PrintedSection)
    → All IsPrintableSection sections
    → validate_file_patches (map section_of sections) ≡ ok tt
    → parse_lines (print_lines sections) ≡ ok (map section_of sections)
unfolding parse_lines
parse_lines-print sections h valid =
    let file_patches = map section_of sections in
    ap
      (λ m. m >>= λ last. validate_file_patches (flush_current last).file_patches >>= λ _.
        ok (flush_current last).file_patches)
      (read_printed sections h)
    ∙ ap (λ v. v >>= λ _. ok file_patches) valid

-- The text of a patch has nothing to trim.
print_patch-trim :
    (sections : List PrintedSection) → trim (print_patch sections) ≡ print_patch sections
unfolding print_patch is_whitespace
print_patch-trim sections =
    let (s, e) =
      join_last (codes "*** Begin Patch") (print_sections sections) (codes "*** End Patch") in
    let whole = e ∙ sym (append_assoc (codes "*** Begin Patch") s (codes "*** End Patch")) in
    let shown =
      is_trimmed-append 42 (codes "** Begin Patch" ++ s) (codes "*** End Patch") refl refl in
    ap trim whole
    ∙ trim-trimmed ((codes "*** Begin Patch" ++ s) ++ codes "*** End Patch") shown
    ∙ sym whole

lines-print_patch :
    (sections : List PrintedSection)
    → All IsPrintableSection sections
    → lines (print_patch sections) ≡ print_lines sections
unfolding print_patch ends_with
lines-print_patch sections h =
    lines-join_open (codes "*** Begin Patch" ∷ print_sections sections) 42 (codes "** End Patch")
      (refl, print_sections-IsLine sections h) refl

abbrev unwrapped : Text → List Text → Text
unwrapped patch all =
    let first = first? all in
    let opens =
      trimmed_is (codes "<<EOF") first
      || trimmed_is (codes "<<'EOF'") first
      || trimmed_is (codes "<<\"EOF\"") first in
    if opens && (trimmed_is (codes "EOF") (last? all) && leb 4 (length all))
    then trim (before_last_line (after_first_line patch))
    else patch

-- The first line opens no heredoc.
strip_heredoc_markers-print :
    (sections : List PrintedSection)
    → All IsPrintableSection sections
    → strip_heredoc_markers (print_patch sections) ≡ print_patch sections
unfolding strip_heredoc_markers
strip_heredoc_markers-print sections h =
    ap (unwrapped (print_patch sections)) (lines-print_patch sections h)

abbrev parsed_lines : Text → List Text → Result PatchError (List FilePatch)
parsed_lines stripped patch_lines =
    if not (trimmed_is (codes "*** Begin Patch") (first? patch_lines))
    then err (invalid_patch stripped)
    else if not (trimmed_is (codes "*** End Patch") (last? patch_lines))
    then err missing_end
    else parse_lines patch_lines

abbrev parsed : Text → Result PatchError (List FilePatch)
parsed stripped = parsed_lines stripped (lines stripped)

-- A patch in the tool's format: its sections are read back as they were written, if they pass
-- validation together and each can be printed. That is: paths and contexts are one line each, not
-- empty, without white space at their ends; no context starts with `-`; the source of a move is not
-- /dev/null; and every hunk line is one line that does not end with a carriage return, starts
-- neither with a backslash nor with `diff --git `, is no directive once its leading white space is
-- gone, and is not, once trimmed, `*** Begin Patch`, `*** End Patch` or `*** End of File`.
pub parse_unified_patch-print :
    (sections : List PrintedSection)
    → All IsPrintableSection sections
    → validate_file_patches (map section_of sections) ≡ ok tt
    → parse_unified_patch (print_patch sections) ≡ ok (map section_of sections)
unfolding parse_unified_patch
parse_unified_patch-print sections h valid =
    let ls = print_lines sections in
    let final =
      last?-append_one (codes "*** Begin Patch" ∷ print_sections sections)
        (codes "*** End Patch") in
    ap (λ t. parsed (strip_heredoc_markers t)) (print_patch-trim sections)
    ∙ ap parsed (strip_heredoc_markers-print sections h)
    ∙ ap (parsed_lines (print_patch sections)) (lines-print_patch sections h)
    ∙ ap
        (λ o.
          if not (trimmed_is (codes "*** End Patch") o) then err missing_end else parse_lines ls)
        final
    ∙ parse_lines-print sections h valid
