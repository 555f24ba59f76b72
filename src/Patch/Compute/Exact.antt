-- ===== src/Patch/Compute/Exact.antt =====
-- A hunk of apply_patch.rs whose old lines stand in the file as they are.
use cloud_agent.Base.{
  ℕ, ◌+◌, ◌-◌, ◌≤◌, ◌≡◌, refl, ◌∙◌, sym, ap, Bool, true, false, Option, option_map, none, some,
  List, [], ◌∷◌, ◌++◌, All, any, range, length, length-append, arith, if_false, Result, ok, ◌>>=◌,
}
use mathlib.Core.List.{append_assoc}
use cloud_agent.Base.Text.{Text, is_empty, join}
use cloud_agent.Base.Lines.{lines, ends_with}
use cloud_agent.Base.Lines.Joined.{is_line, lines-join_closed}
use cloud_agent.Patch.Closest.{closest_current_lines}
use cloud_agent.Codec.{LineEnding, lf, as_str}
use cloud_agent.Patch.Data.{Hunk, PatchError, Replacement, lines_not_found}
use cloud_agent.Patch.Seek.{lines_match_exact, seek_sequence}
use cloud_agent.Patch.Hunks.{hunk_blocks}
use cloud_agent.Patch.Replace.{apply_replacements}
use cloud_agent.Patch.Replace.Spliced.{apply_replacements-spliced}
use cloud_agent.Patch.Compute.{
  seek_context, find_block, place_blocks, place_hunk, place_hunks, sort_by_start,
  compute_replacements, apply_hunks, ends_blank, placed, rejoined,
}
use cloud_agent.Patch.Seek.Exact.{drop-length, take-length, seek_sequence-exact}

find_block-found :
    (file old new : List Text) (from i : ℕ) (eof : Bool)
    → seek_sequence file old from eof ≡ some i
    → find_block file old new from eof ≡ some (i, (length old, new))
unfolding find_block
find_block-found file old new from i eof h = rw (find_block, h)

place_blocks-found :
    (file old new : List Text) (from i : ℕ) (eof : Bool)
    → is_empty old ≡ false
    → find_block file old new from eof ≡ some (i, (length old, new))
    → place_blocks file old new from eof ≡ ok (i + length old, (i, (length old, new)))
unfolding place_blocks
place_blocks-found file old new from i eof some_line h =
    let missing = lines_not_found old (closest_current_lines file old) in
    let at_end = ok (from, (length file, (0, new))) in
    if_false (is_empty old) at_end (placed missing (find_block file old new from eof)) some_line
    ∙ ap (placed missing) h

place_hunk-plain :
    (file old new : List Text) (from : ℕ) (hunk : Hunk)
    → hunk.change_context ≡ none
    → hunk_blocks hunk ≡ ok (old, new)
    → place_hunk file from hunk ≡ place_blocks file old new from hunk.is_end_of_file
unfolding place_hunk seek_context
place_hunk-plain file old new from hunk hc hb = rw (place_hunk, hc, hb)

compute_replacements-one :
    (file : List Text) (hunk : Hunk) (next : ℕ) (r : Replacement)
    → place_hunk file 0 hunk ≡ ok (next, r)
    → compute_replacements file (hunk ∷ []) ≡ ok (r ∷ [])
unfolding compute_replacements place_hunks sort_by_start
compute_replacements-one file hunk next r h = rw (compute_replacements, place_hunks, h)

compute_replacements-exact :
    (before old new after : List Text) (hunk : Hunk)
    → hunk.change_context ≡ none
    → hunk.is_end_of_file ≡ false
    → hunk_blocks hunk ≡ ok (old, new)
    → is_empty old ≡ false
    → any (lines_match_exact (before ++ (old ++ after)) old) (range 0 (length before)) ≡ false
    → compute_replacements (before ++ (old ++ after)) (hunk ∷ [])
      ≡ ok ((length before, (length old, new)) ∷ [])
compute_replacements-exact before old new after hunk hc he hb some_line first =
    let file = before ++ (old ++ after) in
    let i = length before in
    let sought = seek_sequence-exact before old after some_line first in
    let found = find_block-found file old new 0 i false sought in
    let placed = place_blocks-found file old new 0 i false some_line found in
    let same = place_hunk-plain file old new 0 hunk hc hb in
    compute_replacements-one file hunk (i + length old) (i, (length old, new))
      (same ∙ ap (place_blocks file old new 0) he ∙ placed)

apply_replacements-exact :
    (before old new after : List Text)
    → apply_replacements (before ++ (old ++ after)) ((length before, (length old, new)) ∷ [])
      ≡ some (before ++ (new ++ after))
apply_replacements-exact before old new after =
    let fits : length before + length old ≤ length (before ++ (old ++ after)) =
      omega (arith, length-append before (old ++ after), length-append old after) in
    let start : length before - 0 ≡ length before = omega arith in
    apply_replacements-spliced (before ++ (old ++ after)) ((length before, (length old, new)) ∷ [])
      (omega arith, fits)
    ∙ rw (
      start,
      take-length before (old ++ after),
      drop-length before (old ++ after),
      drop-length old after,
    )

apply_hunks-steps :
    (text : Text) (line_ending : LineEnding) (closed : Bool) (file next : List Text)
    (hunks : List Hunk) (rs : List Replacement)
    → lines text ≡ file
    → ends_with 10 text ≡ closed
    → compute_replacements file hunks ≡ ok rs
    → apply_replacements file rs ≡ some next
    → apply_hunks text line_ending hunks ≡ ok (some (rejoined line_ending closed next))
unfolding apply_hunks
apply_hunks-steps text le closed file next hunks rs hl ht hc ha =
    let applied : List Text → Bool → List Replacement → Result PatchError (Option Text) =
      λ ls b qs. ok (option_map (rejoined le b) (apply_replacements ls qs)) in
    ap (λ ls. compute_replacements ls hunks >>= applied ls (ends_with 10 text)) hl
    ∙ ap (λ b. compute_replacements file hunks >>= applied file b) ht
    ∙ ap (λ c. c >>= applied file closed) hc
    ∙ ap (λ o. ok (option_map (rejoined le closed) o)) ha

ends_with-append : (s : Text) (c : ℕ) → ends_with c (s ++ c ∷ []) ≡ true
unfolding ends_with
ends_with-append [] c = ground arith
ends_with-append (d ∷ []) c = ends_with-append [] c
ends_with-append (d ∷ e ∷ s) c = ends_with-append (e ∷ s) c

join_closed :
    (line : Text) (ls : List Text)
    → (s : Text) × (join (10 ∷ []) ((line ∷ ls) ++ [] ∷ []) ≡ s ++ 10 ∷ [])
unfolding join
join_closed line [] = (line, refl)
join_closed line (next ∷ ls) =
    let (s, e) = join_closed next ls in
    (line ++ 10 ∷ s, ap (λ t. line ++ 10 ∷ t) e ∙ sym (append_assoc line (10 ∷ s) (10 ∷ [])))

-- The text of a file of these lines, each with its line feed.
abbrev pub file_text : List Text → Text
file_text file = join (10 ∷ []) (file ++ [] ∷ [])

file_text-closed :
    (before old after : List Text)
    → is_empty old ≡ false
    → ends_with 10 (file_text (before ++ (old ++ after))) ≡ true
unfolding is_empty
file_text-closed [] [] after h = cc
file_text-closed [] (line ∷ old) after h =
    let (s, e) = join_closed line (old ++ after) in ap (ends_with 10) e ∙ ends_with-append s 10
file_text-closed (line ∷ before) old after h =
    let (s, e) = join_closed line (before ++ (old ++ after)) in
    ap (ends_with 10) e ∙ ends_with-append s 10

-- A hunk without a context, not marked as End of File and with one old line at least, whose old
-- lines stand in the file as they are, at no earlier place as they are: its new lines replace those
-- lines there and nothing else changes. Every line of the file ends with a line feed and not with a
-- carriage return before it, and the last of the lines that result, if there is one, is not empty.
pub apply_hunks-exact :
    (before old new after : List Text) (hunk : Hunk)
    → hunk.change_context ≡ none
    → hunk.is_end_of_file ≡ false
    → hunk_blocks hunk ≡ ok (old, new)
    → is_empty old ≡ false
    → any (lines_match_exact (before ++ (old ++ after)) old) (range 0 (length before)) ≡ false
    → All (λ line. is_line line ≡ true) (before ++ (old ++ after))
    → ends_blank (before ++ (new ++ after)) ≡ false
    → apply_hunks (file_text (before ++ (old ++ after))) lf (hunk ∷ [])
      ≡ ok (some (file_text (before ++ (new ++ after))))
unfolding rejoined as_str
apply_hunks-exact before old new after hunk hc he hb some_line first plain shown =
    let file = before ++ (old ++ after) in
    apply_hunks-steps (file_text file) lf true file (before ++ (new ++ after)) (hunk ∷ [])
      ((length before, (length old, new)) ∷ []) (lines-join_closed file plain)
      (file_text-closed before old after some_line)
      (compute_replacements-exact before old new after hunk hc he hb some_line first)
      (apply_replacements-exact before old new after)
    ∙ rw shown
