-- ===== src/Patch/Parse/PrintLines.antt =====
-- The lines of a printed patch, for apply_patch.rs: each is one line.
use cloud_agent.Base.{
  Bool, true, false, ◌&&◌, Option, none, some, List, [], ◌∷◌, ◌++◌, All, All-append, any, ◌≡◌, refl,
  arith, ◌==◌, not,
}
use cloud_agent.Base.Text.{Text, codes, starts_with}
use cloud_agent.Base.Lines.{ends_with}
use cloud_agent.Base.Lines.Joined.{is_line, is_line-append}
use cloud_agent.Base.Lines.Trimmed.{is_trimmed}
use cloud_agent.Patch.Data.{Hunk}
use cloud_agent.Patch.Parse.Print.{
  PrintedSection, adding, deleting, updating, moving, print_header, print_end, print_hunk,
  print_hunks, print_section, print_sections, is_plain, is_name, is_context, IsPrintable,
  IsPrintableSection,
}

abbrev AreLines : List Text → Type 0
AreLines ls = All (λ line. is_line line ≡ true) ls

both_true : (a b : Bool) → (a && b) ≡ true → (a ≡ true) × (b ≡ true)
both_true a b h = ground (arith, h)

prefixed-is_line :
    (p name : Text)
    → any (λ d. d == 10) p ≡ false
    → is_name name ≡ true
    → is_line (p ++ name) ≡ true
unfolding ends_with
prefixed-is_line p [] hp h = cc
prefixed-is_line p (c ∷ name) hp h =
    is_line-append p c name hp (both_true (is_line (c ∷ name)) (is_trimmed (c ∷ name)) h).0

hunk_lines :
    (lines : List Text)
    → All (λ line. (is_plain line && is_line line) ≡ true) lines
    → AreLines lines
hunk_lines [] h = tt
hunk_lines (line ∷ lines) h =
    ((both_true (is_plain line) (is_line line) h.0).1, hunk_lines lines h.1)

header_line :
    (context : Option Text) → is_context context ≡ true → is_line (print_header context) ≡ true
unfolding ends_with
header_line none h = refl
header_line (some name) h =
    prefixed-is_line (codes "@@ ") name refl
      (both_true (is_name name) (not (starts_with name (codes "-"))) h).0

end_lines : (eof : Bool) → AreLines (print_end eof)
unfolding ends_with
end_lines false = tt
end_lines true = (refl, tt)

hunks_lines : (hunks : List Hunk) → All IsPrintable hunks → AreLines (print_hunks hunks)
hunks_lines [] h = tt
hunks_lines (hunk ∷ hunks) ((hc, hl), hs) =
    All-append _ (print_hunk hunk) (print_hunks hunks)
      (
        header_line hunk.change_context hc,
        All-append _ hunk.lines (print_end hunk.is_end_of_file) (hunk_lines hunk.lines hl)
            (end_lines hunk.is_end_of_file),
      )
      (hunks_lines hunks hs)

section_lines :
    (section : PrintedSection) → IsPrintableSection section → AreLines (print_section section)
section_lines (adding path hunks) (hp, hh) =
    (prefixed-is_line (codes "*** Add File: ") path refl hp, hunks_lines hunks hh)
section_lines (deleting path) hp = (prefixed-is_line (codes "*** Delete File: ") path refl hp, tt)
section_lines (updating path hunks) (hp, hh) =
    (prefixed-is_line (codes "*** Update File: ") path refl hp, hunks_lines hunks hh)
section_lines (moving path target hunks) (hp, _, ht, hh) = (
  prefixed-is_line (codes "*** Update File: ") path refl hp,
  (prefixed-is_line (codes "*** Move to: ") target refl ht, hunks_lines hunks hh),
)

pub print_sections-IsLine :
    (sections : List PrintedSection)
    → All IsPrintableSection sections
    → All (λ line. is_line line ≡ true) (print_sections sections)
print_sections-IsLine [] h = tt
print_sections-IsLine (section ∷ sections) h =
    All-append _ (print_section section) (print_sections sections) (section_lines section h.0)
      (print_sections-IsLine sections h.1)
