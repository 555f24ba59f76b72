-- ===== src/Patch/Parse/ReadHunk.antt =====
-- How `parse_unified_patch` of apply_patch.rs reads the lines of a hunk.
use cloud_agent.Base.{
  Bool, true, false, ◌&&◌, ◌||◌, not, Option, none, some, List, [], ◌∷◌, ◌++◌, All, if◌then◌else◌,
  if_false, ◌≡◌, ◌∙◌, refl, sym, ap, arith, ok, ◌>>=◌, value_before,
}
use mathlib.Core.List.{append-nil, append_assoc}
use cloud_agent.Base.Text.{Text, codes, text_eq, trim, trim_start, starts_with, is_empty}
use cloud_agent.Base.Lines.{strip_prefix}
use cloud_agent.Base.Lines.Joined.{is_line}
use cloud_agent.Base.Lines.Trimmed.{is_trimmed, trim-trimmed, trim_start-visible, is_trimmed-append}
use cloud_agent.Patch.Data.{Hunk, FilePatch}
use cloud_agent.Patch.Parse.{
  PatchReader, Directive, push_hunk, hunk_header, no_directive, directive_of, parse_change_context,
  new_hunk, start_hunk, opened_hunk, extend_hunk, read_plain, follow, read_line, read_lines,
}
use cloud_agent.Patch.Parse.Print.{
  print_header, print_end, print_hunk, print_hunks, is_plain, is_none, is_name, is_context,
  IsPrintable,
}
use cloud_agent.Patch.Parse.Read.{all_true, read_line-follow, follow_header, name_trimmed}

-- The reader within a section.
abbrev pub reading :
    List FilePatch → Text → Text → Option Text → List Hunk → Option Hunk → PatchReader
reading done old_path new_path move_path hunks current_hunk = record {
  file_patches = done;
  current_old_path = some old_path;
  current_new_path = some new_path;
  current_move_path = move_path;
  hunks = hunks;
  current_hunk = current_hunk;
  in_patch_block = true;
}

pub read_lines-append :
    (first rest : List Text) (r next : PatchReader)
    → read_lines first r ≡ ok next
    → read_lines (first ++ rest) r ≡ read_lines rest next
unfolding read_lines
read_lines-append [] rest r next h = let same : r ≡ next = cc h in ap (read_lines rest) same
read_lines-append (line ∷ first) rest r next h =
    let (mid, e, f) = value_before (read_line line r) (read_lines first) h in
    ap (λ m. m >>= read_lines (first ++ rest)) e ∙ read_lines-append first rest mid next f

both_true : (a b : Bool) → (a && not b) ≡ true → (a ≡ true) × (b ≡ false)
both_true a b h = ground (arith, h)

abbrev kept_context : Text → Option Text
kept_context context =
    if is_empty context || starts_with context (codes "-") then none else some context

abbrev header_rest : Text → Option Text
header_rest header = elim (strip_prefix (codes "@@") header) [
  | none ↦ none
  | some rest ↦ kept_context (trim rest)
]

kept_context-name :
    (name : Text)
    → is_trimmed name ≡ true
    → starts_with name (codes "-") ≡ false
    → kept_context name ≡ some name
unfolding is_empty
kept_context-name [] h d = cc
kept_context-name (c ∷ name) h d =
    if_false (starts_with (c ∷ name) (codes "-")) none (some (c ∷ name)) d

header_context :
    (context : Option Text)
    → is_context context ≡ true
    → parse_change_context (print_header context) ≡ context
unfolding parse_change_context strip_prefix
header_context none h = refl
header_context (some name) h =
    let (named, no_dash) = both_true (is_name name) (starts_with name (codes "-")) h in
    let trimmed = trim-trimmed name (name_trimmed name named) in
    let whole =
      trim-trimmed (codes "@@ " ++ name)
        (is_trimmed-append 64 (codes "@ ") name refl (name_trimmed name named)) in
    ap header_rest whole
    ∙ ap kept_context trimmed
    ∙ kept_context-name name (name_trimmed name named) no_dash

read_hunk_header :
    (context : Option Text) (done : List FilePatch) (old new : Text) (move : Option Text)
    (hunks : List Hunk) (current : Option Hunk)
    → is_context context ≡ true
    → read_line (print_header context) (reading done old new move hunks current)
      ≡ ok (reading done old new move (push_hunk current hunks) (some (new_hunk context)))
unfolding follow start_hunk read_line
read_hunk_header none done old new move hunks current h = refl
read_hunk_header (some name) done old new move hunks current h =
    let (named, _) = both_true (is_name name) (starts_with name (codes "-")) h in
    let line = codes "@@ " ++ name in
    let r = reading done old new move hunks current in
    follow_header 64 (codes "@ ") name hunk_header r refl named refl refl refl refl refl
    ∙ ap (λ t. start_hunk t r) (trim_start-visible 64 (codes "@ " ++ name) refl)
    ∙ ap (λ c. ok (reading done old new move (push_hunk current hunks) (some (new_hunk c))))
        (header_context (some name) h)

abbrev pub with_line : Text → Hunk → Hunk
with_line line hunk = record hunk { lines = hunk.lines ++ line ∷ [] }

six :
    (a b c d e f : Bool)
    → (not a && (not b && (not c && (d && (not e && not f))))) ≡ true
    → (a ≡ false) × (b ≡ false) × (c ≡ false) × (d ≡ true) × (e ≡ false) × (f ≡ false)
six a b c d e f h = ground (arith, h)

is_none→eq : (d : Directive) → is_none d ≡ true → d ≡ no_directive
is_none→eq no_directive h = refl
is_none→eq _ h = cc

read_hunk_line :
    (line : Text) (done : List FilePatch) (old new : Text) (move : Option Text) (hunks : List Hunk)
    (hunk : Hunk)
    → is_plain line ≡ true
    → read_line line (reading done old new move hunks (some hunk))
      ≡ ok (reading done old new move hunks (some (with_line line hunk)))
unfolding follow read_plain opened_hunk extend_hunk
read_hunk_line line done old new move hunks hunk h =
    let r = reading done old new move hunks (some hunk) in
    let begins = text_eq (trim line) (codes "*** Begin Patch") in
    let ends = text_eq (trim line) (codes "*** End Patch") in
    let (no_begin, no_end, no_diff, other, no_note, no_eof) =
      six begins ends (starts_with line (codes "diff --git "))
        (is_none (directive_of (trim_start line))) (starts_with line (92 ∷ []))
        (text_eq (trim line) (codes "*** End of File")) h in
    read_line-follow line r (all_true _ _ _ no_begin no_end no_diff) refl
    ∙ ap (λ d. follow line d r) (is_none→eq (directive_of (trim_start line)) other)
    ∙ ap (λ x. ok (reading done old new move hunks (some x)))
        (if_false _ _ _ no_note ∙ if_false _ _ _ no_eof)

abbrev with_lines : List Text → Hunk → Hunk
with_lines lines hunk = record hunk { lines = hunk.lines ++ lines }

read_hunk_lines :
    (lines : List Text) (done : List FilePatch) (old new : Text) (move : Option Text)
    (hunks : List Hunk) (hunk : Hunk)
    → All (λ line. (is_plain line && is_line line) ≡ true) lines
    → read_lines lines (reading done old new move hunks (some hunk))
      ≡ ok (reading done old new move hunks (some (with_lines lines hunk)))
unfolding read_lines
read_hunk_lines [] done old new move hunks hunk h =
    ap (λ ls. ok (reading done old new move hunks (some (record hunk { lines = ls }))))
      (sym (append-nil hunk.lines))
read_hunk_lines (line ∷ lines) done old new move hunks hunk h =
    let plain = first_true (is_plain line) (is_line line) h.0 in
    ap (λ m. m >>= read_lines lines) (read_hunk_line line done old new move hunks hunk plain)
    ∙ read_hunk_lines lines done old new move hunks (with_line line hunk) h.1
    ∙ ap (λ ls. ok (reading done old new move hunks (some (record hunk { lines = ls }))))
        (append_assoc hunk.lines (line ∷ []) lines)
  where
    first_true : (a b : Bool) → (a && b) ≡ true → a ≡ true
    first_true a b h = ground (arith, h)

read_hunk_end :
    (eof : Bool) (done : List FilePatch) (old new : Text) (move : Option Text) (hunks : List Hunk)
    (context : Option Text) (lines : List Text)
    → let hunk : Bool → Hunk =
        λ b. record { change_context = context; is_end_of_file = b; lines = lines } in
      read_lines (print_end eof) (reading done old new move hunks (some (hunk false)))
      ≡ ok (reading done old new move hunks (some (hunk eof)))
unfolding read_lines read_line follow
read_hunk_end false done old new move hunks context lines = refl
read_hunk_end true done old new move hunks context lines = refl

pub read_hunk :
    (hunk : Hunk) (done : List FilePatch) (old new : Text) (move : Option Text) (hunks : List Hunk)
    (current : Option Hunk)
    → IsPrintable hunk
    → read_lines (print_hunk hunk) (reading done old new move hunks current)
      ≡ ok (reading done old new move (push_hunk current hunks) (some hunk))
unfolding read_lines
read_hunk hunk done old new move hunks current (hc, hl) =
    let before = push_hunk current hunks in
    let opened = reading done old new move before (some (new_hunk hunk.change_context)) in
    let full = with_lines hunk.lines (new_hunk hunk.change_context) in
    ap (λ m. m >>= read_lines (hunk.lines ++ print_end hunk.is_end_of_file))
      (read_hunk_header hunk.change_context done old new move hunks current hc)
    ∙ read_lines-append hunk.lines (print_end hunk.is_end_of_file) opened
        (reading done old new move before (some full))
        (read_hunk_lines hunk.lines done old new move before (new_hunk hunk.change_context) hl)
    ∙ read_hunk_end hunk.is_end_of_file done old new move before hunk.change_context hunk.lines

-- Read in order, the hunks follow those that were there.
pub read_hunks :
    (printed : List Hunk) (done : List FilePatch) (old new : Text) (move : Option Text)
    (hunks : List Hunk) (current : Option Hunk)
    → All IsPrintable printed
    → (before : List Hunk) × (last : Option Hunk) × (read_lines
          (print_hunks printed)
          (reading done old new move hunks current)
        ≡ ok (reading done old new move before last))
      × (push_hunk last before ≡ push_hunk current hunks ++ printed)
unfolding read_lines
read_hunks [] done old new move hunks current h =
    (hunks, current, refl, sym (append-nil (push_hunk current hunks)))
read_hunks (hunk ∷ printed) done old new move hunks current (hh, hs) =
    let next = push_hunk current hunks in
    let (before, last, e, f) = read_hunks printed done old new move next (some hunk) hs in
    (
      before,
      last,
      read_lines-append (print_hunk hunk) (print_hunks printed)
            (reading done old new move hunks current) (reading done old new move next (some hunk))
            (read_hunk hunk done old new move hunks current hh)
          ∙ e,
      f ∙ append_assoc next (hunk ∷ []) printed,
    )
