-- ===== src/Patch/Parse/Print.antt =====
-- Patches written in the format that the description of the tool in apply_patch.rs gives.
use cloud_agent.Base.{
  Bool, true, false, ◌&&◌, not, Option, none, some, List, [], ◌∷◌, ◌++◌, All, if◌then◌else◌, ◌≡◌,
}
use cloud_agent.Base.Text.{Text, codes, text_eq, trim, trim_start, starts_with, join}
use cloud_agent.Base.Lines.Joined.{is_line}
use cloud_agent.Base.Lines.Trimmed.{is_trimmed}
use cloud_agent.Patch.Data.{Hunk, FilePatch}
use cloud_agent.Patch.Validate.{dev_null}
use cloud_agent.Patch.Parse.{Directive, no_directive, directive_of}

pub data PrintedSection : Type 0 where
  adding : Text → List Hunk → PrintedSection
  deleting : Text → PrintedSection
  updating : Text → List Hunk → PrintedSection
  moving : Text → Text → List Hunk → PrintedSection

abbrev pub patch_of : Text → Text → Option Text → List Hunk → FilePatch
patch_of old_path new_path move_path hunks = record {
  old_path = old_path;
  new_path = new_path;
  move_path = move_path;
  hunks = hunks;
}

-- The file section that is read.
abbrev pub section_of : PrintedSection → FilePatch
section_of (adding path hunks) = patch_of dev_null path none hunks
section_of (deleting path) = patch_of path dev_null none []
section_of (updating path hunks) = patch_of path path none hunks
section_of (moving path target hunks) = patch_of path target (some target) hunks

abbrev pub print_header : Option Text → Text
print_header none = codes "@@"
print_header (some context) = codes "@@ " ++ context

abbrev pub print_end : Bool → List Text
print_end eof = if eof then codes "*** End of File" ∷ [] else []

abbrev pub print_hunk : Hunk → List Text
print_hunk hunk = print_header hunk.change_context ∷ (hunk.lines ++ print_end hunk.is_end_of_file)

abbrev pub print_hunks : List Hunk → List Text
print_hunks [] = []
print_hunks (hunk ∷ hunks) = print_hunk hunk ++ print_hunks hunks

abbrev pub print_section : PrintedSection → List Text
print_section (adding path hunks) = (codes "*** Add File: " ++ path) ∷ print_hunks hunks
print_section (deleting path) = (codes "*** Delete File: " ++ path) ∷ []
print_section (updating path hunks) = (codes "*** Update File: " ++ path) ∷ print_hunks hunks
print_section (moving path target hunks) =
    (codes "*** Update File: " ++ path) ∷ (codes "*** Move to: " ++ target) ∷ print_hunks hunks

abbrev pub print_sections : List PrintedSection → List Text
print_sections [] = []
print_sections (section ∷ sections) = print_section section ++ print_sections sections

abbrev pub print_lines : List PrintedSection → List Text
print_lines sections =
    codes "*** Begin Patch" ∷ (print_sections sections ++ codes "*** End Patch" ∷ [])

unfoldable pub print_patch : List PrintedSection → Text
unfolding join
print_patch sections = join (10 ∷ []) (print_lines sections)

abbrev pub is_none : Directive → Bool
is_none no_directive = true
is_none _ = false

-- A line of a hunk that is not read as a marker, as a directive or as a comment.
abbrev pub is_plain : Text → Bool
is_plain line =
    not (text_eq (trim line) (codes "*** Begin Patch"))
    && (not (text_eq (trim line) (codes "*** End Patch"))
        && (not (starts_with line (codes "diff --git "))
            && (is_none (directive_of (trim_start line))
                && (not (starts_with line (92 ∷ []))
                    && not (text_eq (trim line) (codes "*** End of File"))))))

-- A path or a context of one line, without white space at its ends.
abbrev pub is_name : Text → Bool
is_name name = is_line name && is_trimmed name

abbrev pub is_context : Option Text → Bool
is_context none = true
is_context (some context) = is_name context && not (starts_with context (codes "-"))

abbrev pub IsPrintable : Hunk → Type 0
IsPrintable hunk =
    (is_context hunk.change_context ≡ true)
    × All (λ line. (is_plain line && is_line line) ≡ true) hunk.lines

-- The source of a move is a file, as a section without a source has nothing to move.
abbrev pub IsPrintableSection : PrintedSection → Type 0
IsPrintableSection (adding path hunks) = (is_name path ≡ true) × All IsPrintable hunks
IsPrintableSection (deleting path) = is_name path ≡ true
IsPrintableSection (updating path hunks) = (is_name path ≡ true) × All IsPrintable hunks
IsPrintableSection (moving path target hunks) =
    (is_name path ≡ true)
    × (text_eq path dev_null ≡ false)
    × (is_name target ≡ true)
    × All IsPrintable hunks
