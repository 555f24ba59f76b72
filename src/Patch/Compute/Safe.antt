-- ===== src/Patch/Compute/Safe.antt =====
-- The replacements that `compute_replacements` of apply_patch.rs returns can all be applied.
use cloud_agent.Base.{
  ℕ, ◌+◌, ◌≤◌, ◌≡◌, refl, subst, Bool, some, List, [], ◌∷◌, All, length, drop_last, leb, leb→le,
  arith, ok, value_before, Bool-cases, Option-cases, inl, inr,
}
use cloud_agent.Base.Text.{Text, is_empty}
use cloud_agent.Patch.Data.{Hunk, Replacement}
use cloud_agent.Patch.Seek.{seek_sequence}
use cloud_agent.Patch.Seek.Found.{IsSought, seek_sequence-IsSought}
use cloud_agent.Patch.Replace.{apply_replacements}
use cloud_agent.Patch.Replace.Safe.{IsSorted, apply_replacements_total}
use cloud_agent.Patch.Hunks.{hunk_blocks}
use cloud_agent.Patch.Compute.{
  seek_context, ends_blank, without_blank, find_block, place_blocks, place_hunk, place_hunks,
  insert_sorted, sort_by_start, compute_replacements,
}

seek_sequence-le :
    (lines pattern : List Text) (start : ℕ) (eof : Bool) (i : ℕ)
    → seek_sequence lines pattern start eof ≡ some i
    → i + length pattern ≤ length lines
unfolding seek_sequence is_empty
seek_sequence-le lines [] start eof i h = ground (arith, h)
seek_sequence-le lines (p ∷ ps) start eof i h =
    (subst (IsSought lines (p ∷ ps) start eof) h
      (seek_sequence-IsSought lines (p ∷ ps) start eof refl)).0

-- The replaced lines are lines of the file.
abbrev pub IsWithin : ℕ → Replacement → Type 0
IsWithin len (start, (old_len, new)) = start + old_len ≤ len

IsWithin-found : (len : ℕ) (q r : Replacement) → some q ≡ some r → IsWithin len q → IsWithin len r
IsWithin-found len q r e h = ground (arith, e, h)

find_block-IsWithin :
    (lines old new : List Text) (from : ℕ) (eof : Bool) (r : Replacement)
    → find_block lines old new from eof ≡ some r
    → IsWithin (length lines) r
unfolding find_block
find_block-IsWithin lines old new from eof r h =
    elim (Option-cases (seek_sequence lines old from eof)) [
      | inr (i, e) ↦
          let found : some (i, (length old, new)) ≡ some r = rw (find_block, e) at h in
          IsWithin-found (length lines) _ r found (seek_sequence-le lines old from eof i e)
      | inl e ↦ elim (Bool-cases (ends_blank old)) [
        | inr whole ↦ absurd (ground (arith, h, e, whole))
        | inl blank ↦ elim (Option-cases (seek_sequence lines (drop_last old) from eof)) [
          | inl f ↦ absurd (ground (arith, h, e, blank, f))
          | inr (i, f) ↦
              let found : some (i, (length (drop_last old), without_blank new)) ≡ some r =
                rw (find_block, e, blank, f) at h in
              IsWithin-found (length lines) _ r found
                (seek_sequence-le lines (drop_last old) from eof i f)
        ]
      ]
    ]

place_blocks-IsWithin :
    (lines old new : List Text) (from : ℕ) (eof : Bool) (next : ℕ) (r : Replacement)
    → place_blocks lines old new from eof ≡ ok (next, r)
    → IsWithin (length lines) r
unfolding place_blocks
place_blocks-IsWithin lines old new from eof next r h = elim (Bool-cases (is_empty old)) [
  | inl e ↦ ground (arith, h, e)
  | inr e ↦ elim (Option-cases (find_block lines old new from eof)) [
    | inl f ↦ absurd (ground (arith, h, e, f))
    | inr (q, f) ↦
        IsWithin-found (length lines) q r (ground (arith, h, e, f))
          (find_block-IsWithin lines old new from eof q f)
  ]
]

place_hunk-IsWithin :
    (lines : List Text) (from : ℕ) (hunk : Hunk) (next : ℕ) (r : Replacement)
    → place_hunk lines from hunk ≡ ok (next, r)
    → IsWithin (length lines) r
unfolding place_hunk
place_hunk-IsWithin lines from hunk next r h =
    let (line_index, _, h₁) = value_before (seek_context lines hunk.change_context from) _ h in
    let ((old, new), _, h₂) = value_before (hunk_blocks hunk) _ h₁ in
    place_blocks-IsWithin lines old new line_index hunk.is_end_of_file next r h₂

place_hunks-IsWithin :
    (lines : List Text) (from : ℕ) (hunks : List Hunk) (rs : List Replacement)
    → place_hunks lines from hunks ≡ ok rs
    → All (IsWithin (length lines)) rs
unfolding place_hunks
place_hunks-IsWithin lines from [] rs h =
    let none_placed : [] ≡ rs = ground (arith, h) in
    subst (All (IsWithin (length lines))) none_placed tt
place_hunks-IsWithin lines from (hunk ∷ hunks) rs h =
    let ((next, r), e, h₁) = value_before (place_hunk lines from hunk) _ h in
    let (rest, f, h₂) = value_before (place_hunks lines next hunks) _ h₁ in
    let all_placed : r ∷ rest ≡ rs = ground (arith, h₂) in
    subst (All (IsWithin (length lines))) all_placed
      (place_hunk-IsWithin lines from hunk next r e, place_hunks-IsWithin lines next hunks rest f)

insert_sorted-IsSorted :
    (low len : ℕ) (r : Replacement) (rs : List Replacement)
    → low ≤ r.0
    → IsWithin len r
    → IsSorted low len rs
    → IsSorted low len (insert_sorted r rs)
unfolding insert_sorted
insert_sorted-IsSorted low len (s, (n, new)) [] hl hw hs = (hl, omega (arith, hw), tt)
insert_sorted-IsSorted low len (s, (n, new)) ((t, (m, old)) ∷ rs) hl hw hs =
    elim (Bool-cases (leb s t)) [
      | inl e ↦ rw e (hl, omega (arith, hw), (leb→le s t e, hs.1, hs.2))
      | inr e ↦
          let less : t ≤ s = ground (arith, e) in
          rw e (hs.0, hs.1, insert_sorted-IsSorted t len (s, (n, new)) rs less hw hs.2)
    ]

sort_by_start-IsSorted :
    (len : ℕ) (rs : List Replacement) → All (IsWithin len) rs → IsSorted 0 len (sort_by_start rs)
unfolding sort_by_start
sort_by_start-IsSorted len [] h = tt
sort_by_start-IsSorted len (r ∷ rs) h =
    insert_sorted-IsSorted 0 len r (sort_by_start rs) (omega arith) h.0
      (sort_by_start-IsSorted len rs h.1)

-- The replacements that are found for a file's hunks, even ones that overlap, can all be applied
-- to the file: no insertion is past the end of the lines, where it would panic.
pub compute_replacements_safe :
    (lines : List Text) (hunks : List Hunk) (rs : List Replacement)
    → compute_replacements lines hunks ≡ ok rs
    → (out : List Text) × (apply_replacements lines rs ≡ some out)
unfolding compute_replacements
compute_replacements_safe lines hunks rs h =
    let (placed, e, f) = value_before (place_hunks lines 0 hunks) _ h in
    let sorted =
      sort_by_start-IsSorted (length lines) placed (place_hunks-IsWithin lines 0 hunks placed e) in
    let same : sort_by_start placed ≡ rs = ground (arith, f) in
    apply_replacements_total lines rs (subst (IsSorted 0 (length lines)) same sorted)
