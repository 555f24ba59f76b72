-- ===== src/Patch/Parse/Read.antt =====
-- How `parse_unified_patch` of apply_patch.rs reads the lines of one hunk or section.
use cloud_agent.Base.{
  Bool, true, false, ◌&&◌, ◌||◌, not, [], ◌∷◌, ◌++◌, if_false, ℕ, ◌≡◌, ◌∙◌, refl, ap, arith, ok,
  Bool-cases, inl, inr, subst,
}
use mathlib.Core.List.{append-nil}
use cloud_agent.Base.Text.{
  Text, codes, text_eq, text_eq_iff, starts_with-append, trim, trim_start, starts_with,
}
use cloud_agent.Base.Lines.{strip_prefix}
use cloud_agent.Base.Lines.Joined.{is_line}
use cloud_agent.Base.Lines.Trimmed.{
  visible, is_trimmed, trim-trimmed, trim_start-visible, is_trimmed-append,
}
use cloud_agent.Patch.Validate.{dev_null}
use cloud_agent.Patch.Parse.{
  PatchReader, Directive, add_file, delete_file, update_file, move_to, directive_of, start_section,
  set_move, follow, read_line,
}
use cloud_agent.Patch.Parse.Print.{is_name}

starts_with_refl : (s : Text) → starts_with s s ≡ true
starts_with_refl s = subst (λ t. starts_with t s ≡ true) (append-nil s) (starts_with-append s [])

text_neq : (s t : Text) → starts_with s t ≡ false → text_eq s t ≡ false
text_neq s t h = elim (Bool-cases (text_eq s t)) [
  | inl e ↦
      let same : s ≡ t = (text_eq_iff s t).0 e in
      absurd (cc (ap (λ x. starts_with x t) same, starts_with_refl t, h))
  | inr e ↦ e
]

-- A line that is no marker and is not skipped.
abbrev pub is_read : Text → Bool
is_read line =
    not (text_eq (trim line) (codes "*** Begin Patch"))
    && (not (text_eq (trim line) (codes "*** End Patch"))
        && not (starts_with line (codes "diff --git ")))

all_false :
    (a b c : Bool) → (not a && (not b && not c)) ≡ true → (a ≡ false) × (b ≡ false) × (c ≡ false)
all_false a b c h = ground (arith, h)

pub all_true :
    (a b c : Bool) → a ≡ false → b ≡ false → c ≡ false → (not a && (not b && not c)) ≡ true
all_true a b c ha hb hc = rw (ha, hb, hc)

pub read_line-follow :
    (line : Text) (r : PatchReader)
    → is_read line ≡ true
    → r.in_patch_block ≡ true
    → read_line line r ≡ follow line (directive_of (trim_start line)) r
unfolding read_line
read_line-follow line r h b =
    let begins = text_eq (trim line) (codes "*** Begin Patch") in
    let ends = text_eq (trim line) (codes "*** End Patch") in
    let (no_begin, no_end, no_diff) =
      all_false begins ends (starts_with line (codes "diff --git ")) h in
    if_false begins _ _ no_begin
    ∙ if_false ends _ _ no_end
    ∙ if_false (not r.in_patch_block || starts_with line (codes "diff --git ")) _ _
        (rw (b, no_diff))

pub name_trimmed : (name : Text) → is_name name ≡ true → is_trimmed name ≡ true
name_trimmed name h = both (is_line name) (is_trimmed name) h
  where
    both : (a b : Bool) → (a && b) ≡ true → b ≡ true
    both a b h = ground (arith, h)

header_is_read :
    (line : Text)
    → trim line ≡ line
    → starts_with line (codes "*** Begin Patch") ≡ false
    → starts_with line (codes "*** End Patch") ≡ false
    → starts_with line (codes "diff --git ") ≡ false
    → is_read line ≡ true
header_is_read line ht hb he hd =
    all_true _ _ _
      (ap (λ t. text_eq t (codes "*** Begin Patch")) ht
        ∙ text_neq line (codes "*** Begin Patch") hb)
      (ap (λ t. text_eq t (codes "*** End Patch")) ht ∙ text_neq line (codes "*** End Patch") he) hd

-- The header of a section is its prefix before a name.
pub follow_header :
    (c : ℕ) (prefix name : Text) (wanted : Directive) (r : PatchReader)
    → visible c ≡ true
    → is_name name ≡ true
    → starts_with (c ∷ prefix ++ name) (codes "*** Begin Patch") ≡ false
    → starts_with (c ∷ prefix ++ name) (codes "*** End Patch") ≡ false
    → starts_with (c ∷ prefix ++ name) (codes "diff --git ") ≡ false
    → directive_of (c ∷ prefix ++ name) ≡ wanted
    → r.in_patch_block ≡ true
    → read_line (c ∷ prefix ++ name) r ≡ follow (c ∷ prefix ++ name) wanted r
follow_header c prefix name wanted r hc hn hb he hd hdir hr =
    let line = c ∷ prefix ++ name in
    let trimmed = trim-trimmed line (is_trimmed-append c prefix name hc (name_trimmed name hn)) in
    read_line-follow line r (header_is_read line trimmed hb he hd) hr
    ∙ ap (λ t. follow line (directive_of t) r) (trim_start-visible c (prefix ++ name) hc)
    ∙ ap (λ d. follow line d r) hdir

delete_directive :
    (name : Text)
    → is_name name ≡ true
    → directive_of (codes "*** Delete File: " ++ name) ≡ delete_file name
unfolding directive_of strip_prefix
delete_directive name h = ap delete_file (trim-trimmed name (name_trimmed name h))

pub read_delete :
    (path : Text) (r : PatchReader)
    → is_name path ≡ true
    → r.in_patch_block ≡ true
    → read_line (codes "*** Delete File: " ++ path) r ≡ ok (start_section path dev_null r)
unfolding follow starts_with
read_delete path r h hr =
    follow_header 42 (codes "** Delete File: ") path (delete_file path) r refl h refl refl refl
      (delete_directive path h) hr

add_directive :
    (name : Text)
    → is_name name ≡ true
    → directive_of (codes "*** Add File: " ++ name) ≡ add_file name
unfolding directive_of strip_prefix
add_directive name h = ap add_file (trim-trimmed name (name_trimmed name h))

pub read_add :
    (path : Text) (r : PatchReader)
    → is_name path ≡ true
    → r.in_patch_block ≡ true
    → read_line (codes "*** Add File: " ++ path) r ≡ ok (start_section dev_null path r)
unfolding follow starts_with
read_add path r h hr =
    follow_header 42 (codes "** Add File: ") path (add_file path) r refl h refl refl refl
      (add_directive path h) hr

update_directive :
    (name : Text)
    → is_name name ≡ true
    → directive_of (codes "*** Update File: " ++ name) ≡ update_file name
unfolding directive_of strip_prefix
update_directive name h = ap update_file (trim-trimmed name (name_trimmed name h))

pub read_update :
    (path : Text) (r : PatchReader)
    → is_name path ≡ true
    → r.in_patch_block ≡ true
    → read_line (codes "*** Update File: " ++ path) r ≡ ok (start_section path path r)
unfolding follow starts_with
read_update path r h hr =
    follow_header 42 (codes "** Update File: ") path (update_file path) r refl h refl refl refl
      (update_directive path h) hr

move_directive :
    (name : Text)
    → is_name name ≡ true
    → directive_of (codes "*** Move to: " ++ name) ≡ move_to name
unfolding directive_of strip_prefix
move_directive name h = ap move_to (trim-trimmed name (name_trimmed name h))

pub read_move :
    (path : Text) (r : PatchReader)
    → is_name path ≡ true
    → r.in_patch_block ≡ true
    → read_line (codes "*** Move to: " ++ path) r ≡ set_move path r
unfolding follow starts_with
read_move path r h hr =
    follow_header 42 (codes "** Move to: ") path (move_to path) r refl h refl refl refl
      (move_directive path h) hr
