-- ===== src/Witnesses/Patches.antt =====
-- Patches, files and their encodings: the theorems at concrete inputs, and tests.
use cloud_agent.Base.{
  ℕ, ◌≡◌, ◌⊎◌, is_some, if◌then◌else◌, ◌&&◌, refl, Bool, true, false, Option, none, some, List, [],
  ◌∷◌, ◌++◌, All, map, arith, ok,
}
use cloud_agent.Base.Text.{
  Text, codes, text_eq, trim, trim_start, is_whitespace, is_empty, starts_with,
}
use cloud_agent.Base.Lines.{lines, ends_with}
use cloud_agent.Base.Lines.Joined.{is_line}
use cloud_agent.Base.Utf.{is_scalar}
use cloud_agent.Codec.{
  utf16_le_bom, lf, cr_lf, DecodedTextFile, detect_line_ending, normalize_from, encode_text_file,
  decode_text_file,
}
use cloud_agent.Codec.RoundTrip.{decode_text_file-encode}
use cloud_agent.Patch.Data.{Hunk, FilePatch, Replacement}
use cloud_agent.Patch.Seek.{lines_match_exact}
use cloud_agent.Patch.Replace.{apply_replacements}
use cloud_agent.Patch.Replace.Spliced.{spliced, apply_replacements-spliced}
use cloud_agent.Patch.Hunks.{hunk_blocks}
use cloud_agent.Patch.Compute.{ends_blank, compute_replacements, apply_hunks}
use cloud_agent.Patch.Compute.Safe.{compute_replacements_safe}
use cloud_agent.Patch.Compute.Exact.{file_text, apply_hunks-exact}
use cloud_agent.Patch.Validate.{validate_file_patches}
use cloud_agent.Patch.Validate.Apart.{names_path, validate_file_patches-apart}
use cloud_agent.Base.Maps.{text_key, lookup, insert, remove}
use cloud_agent.Patch.Plan.{FileSystem, PlannedFileChange, writes, deletes, plan_file_changes}
use cloud_agent.Patch.Plan.Allowed.{IsAllowed, plan_file_changes-IsAllowed}
use cloud_agent.Patch.Write.{exact_delta, apply_planned_changes}
use cloud_agent.Patch.Write.Stops.{IsComplete, IsPartial, apply_planned_changes_reports}
use cloud_agent.Patch.Parse.{directive_of, parse_unified_patch}
use cloud_agent.Patch.Parse.Print.{
  PrintedSection, adding, deleting, updating, moving, section_of, print_patch, IsPrintableSection,
  is_plain,
}
use cloud_agent.Patch.Parse.Printed.{parse_unified_patch-print}

abbrev hunk_of : Option Text → Bool → List Text → Hunk
hunk_of change_context is_end_of_file lines = record {
  change_context = change_context;
  is_end_of_file = is_end_of_file;
  lines = lines;
}

abbrev rename : Hunk
rename = hunk_of none false (codes " fn a() {" ∷ codes "-  b();" ∷ codes "+  c();" ∷ [])

abbrev at_end : Hunk
at_end = hunk_of (some (codes "fn main")) true ([] ∷ codes "+done" ∷ [])

abbrev sections : List PrintedSection
sections =
    updating (codes "src/a.rs") (rename ∷ at_end ∷ [])
    ∷ moving (codes "b.txt") (codes "c.txt") (rename ∷ [])
    ∷ deleting (codes "d.txt")
    ∷ adding (codes "e.txt") (hunk_of none false (codes "+new" ∷ []) ∷ [])
    ∷ []

sections-IsPrintable : All IsPrintableSection sections
unfolding text_eq trim trim_start is_whitespace starts_with ends_with directive_of
sections-IsPrintable = (
  (refl, ((refl, three), ((refl, (refl, (refl, tt))), tt))),
  ((refl, refl, refl, ((refl, three), tt)), (refl, ((refl, ((refl, (refl, tt)), tt)), tt))),
)
  where
    three : All (λ line. (is_plain line && is_line line) ≡ true) rename.lines
    three = (refl, (refl, (refl, tt)))

sections_valid : validate_file_patches (map section_of sections) ≡ ok tt
unfolding validate_file_patches
sections_valid = refl

parse_unified_patch-print_example :
    parse_unified_patch (print_patch sections) ≡ ok (map section_of sections)
parse_unified_patch-print_example =
    parse_unified_patch-print sections sections-IsPrintable sections_valid

abbrev utf16_file : DecodedTextFile
utf16_file = record { text = codes "x"; encoding = utf16_le_bom; line_ending = lf }

-- A carriage return and a line feed, and a character outside the basic plane.
abbrev edited_text : Text
edited_text = b'a' ∷ 13 ∷ 10 ∷ 0x1F600 ∷ []

decode_text_file-encode_example :
    decode_text_file (encode_text_file utf16_file edited_text)
    ≡ ok (record { text = edited_text; encoding = utf16_le_bom; line_ending = cr_lf })
unfolding detect_line_ending is_scalar normalize_from
decode_text_file-encode_example =
    decode_text_file-encode utf16_file edited_text (refl, (refl, (refl, (refl, tt)))) refl refl

abbrev before : List Text
before = codes "start" ∷ []

abbrev old_lines : List Text
old_lines = codes "fn a() {" ∷ codes "  b();" ∷ []

abbrev new_lines : List Text
new_lines = codes "fn a() {" ∷ codes "  c();" ∷ []

abbrev after : List Text
after = codes "}" ∷ []

apply_hunks-exact_example :
    apply_hunks (file_text (before ++ (old_lines ++ after))) lf (rename ∷ [])
    ≡ ok (some (file_text (before ++ (new_lines ++ after))))
unfolding hunk_blocks lines_match_exact is_empty ends_blank ends_with
apply_hunks-exact_example =
    apply_hunks-exact before old_lines new_lines after rename refl refl refl refl refl
      (refl, (refl, (refl, (refl, tt)))) refl

abbrev two_replacements : List Replacement
two_replacements = (0, (1, codes "x" ∷ codes "y" ∷ [])) ∷ (2, (1, [])) ∷ []

apply_replacements-spliced_example :
    apply_replacements (before ++ (old_lines ++ after)) two_replacements
    ≡ some (spliced 0 (before ++ (old_lines ++ after)) two_replacements)
apply_replacements-spliced_example =
    apply_replacements-spliced (before ++ (old_lines ++ after)) two_replacements
      (omega arith, (omega arith, omega arith))

-- The second hunk is found within the lines that the first one replaces.
abbrev overlapping : List Hunk
overlapping =
    hunk_of none false (codes "-a" ∷ codes "-b" ∷ codes "+x" ∷ [])
    ∷ hunk_of none false (codes "-b" ∷ codes "+y" ∷ [])
    ∷ []

abbrev two_lines : List Text
two_lines = codes "a" ∷ codes "b" ∷ []

abbrev found_twice : List Replacement
found_twice = (0, (2, codes "x" ∷ [])) ∷ (1, (1, codes "y" ∷ [])) ∷ []

overlapping_hunks : compute_replacements two_lines overlapping ≡ ok found_twice
unfolding compute_replacements
overlapping_hunks = refl

overlapping_applied : apply_replacements two_lines found_twice ≡ some (codes "x" ∷ [])
unfolding apply_replacements
overlapping_applied = refl

compute_replacements_safe_example :
    (out : List Text) × (apply_replacements two_lines found_twice ≡ some out)
compute_replacements_safe_example =
    compute_replacements_safe two_lines overlapping found_twice overlapping_hunks

validate_file_patches-apart_example :
    (names_path (codes "c.txt") (section_of (moving (codes "b.txt") (codes "c.txt") (rename ∷ [])))
      && names_path (codes "c.txt") (section_of (deleting (codes "d.txt"))))
    ≡ false
unfolding is_empty text_eq
validate_file_patches-apart_example =
    validate_file_patches-apart (map section_of sections) 1 2
      (section_of (moving (codes "b.txt") (codes "c.txt") (rename ∷ [])))
      (section_of (deleting (codes "d.txt"))) (codes "c.txt") sections_valid refl refl (omega arith)
      refl refl

-- A file that ends with an empty line loses it.
lost_empty_line :
    apply_hunks (codes "a\n\n") lf (hunk_of none false (codes "-a" ∷ codes "+b" ∷ []) ∷ [])
    ≡ ok (some (codes "b\n"))
unfolding apply_hunks
lost_empty_line = refl

-- An unchanged line that begins with `@@` after its indentation opens another hunk.
context_taken_for_header :
    parse_unified_patch (
      print_patch
        (updating (codes "a") (hunk_of none false (codes "  @@ x" ∷ codes "+y" ∷ []) ∷ []) ∷ []))
    ≡ ok (
        section_of (
          updating
            (codes "a")
            (hunk_of none false [] ∷ hunk_of (some (codes "x")) false (codes "+y" ∷ []) ∷ []))
        ∷ [])
unfolding parse_unified_patch print_patch
context_taken_for_header = refl

-- Files by their paths; the one named "locked" can be neither written nor removed.
abbrev Files : Type 0
Files = List (Text × List ℕ)

abbrev files : FileSystem Text Files
files = record {
  resolve_workspace_path = λ name s. some name;
  same_path = text_eq;
  has_parent = λ path. true;
  exists = λ path s. is_some (lookup path s);
  is_dir = λ path s. false;
  read = lookup;
  create_parent = λ path s. (s, true);
  write = λ path bytes s.
      if text_eq path (codes "locked") then (s, false) else (insert path bytes s, true);
  remove_file =
      λ path s. if text_eq path (codes "locked") then (s, false) else (remove path s, true);
}

-- The source of the move cannot be removed after its destination is written.
abbrev changes : List (PlannedFileChange Text)
changes =
    deletes (codes "d") (codes "d")
    ∷ writes (codes "c") (codes "c") [] (some (codes "locked"))
    ∷ deletes (codes "e") (codes "e")
    ∷ []

apply_planned_changes_reports_example :
    let out = apply_planned_changes files changes [] exact_delta in
    IsComplete files changes [] exact_delta out ⊎ IsPartial files changes [] exact_delta out
apply_planned_changes_reports_example = apply_planned_changes_reports files changes []

reported_paths :
    (apply_planned_changes files changes [] exact_delta).1
    ≡ (record { changed_paths = codes "c" ∷ codes "d" ∷ []; exact = false }, false)
unfolding apply_planned_changes
reported_paths = refl

abbrev stored : Files
stored = (codes "a", codes "x\ny\n") ∷ (codes "d", []) ∷ []

abbrev moved_and_deleted : List FilePatch
moved_and_deleted =
    section_of
      (moving (codes "a") (codes "b") (hunk_of none false (codes "-y" ∷ codes "+z" ∷ []) ∷ []))
    ∷ section_of (deleting (codes "d"))
    ∷ []

abbrev planned : List (PlannedFileChange Text)
planned =
    writes (codes "b") (codes "b") (codes "x\nz\n") (some (codes "a"))
    ∷ deletes (codes "d") (codes "d")
    ∷ []

planned_changes : plan_file_changes files moved_and_deleted stored ≡ ok planned
unfolding plan_file_changes lookup
planned_changes = refl

plan_file_changes-IsAllowed_example : All (IsAllowed files stored) planned
plan_file_changes-IsAllowed_example =
    plan_file_changes-IsAllowed files stored moved_and_deleted planned planned_changes
