-- ===== src/Patch/Replace/Safe.antt =====
-- When `apply_replacements` of apply_patch.rs stays within the lines it edits.
use cloud_agent.Base.{
  ℕ, zero, suc, ◌+◌, ◌≤◌, ◌≡◌, refl, ap, sym, some, List, [], ◌∷◌, ◌++◌, length, length-append,
  take, drop, take-append-drop, arith, ltb, Bool-cases, inl, inr,
}
use mathlib.Core.List.{append_assoc}
use cloud_agent.Base.Text.{Text}
use cloud_agent.Patch.Data.{Replacement}
use cloud_agent.Patch.Replace.{
  remove_line_at, insert_line_at, remove_lines, insert_lines, apply_replacement, apply_replacements,
}

insert_line_at-eq :
    (i : ℕ) (line : Text) (lines : List Text)
    → i ≤ length lines
    → insert_line_at i line lines ≡ some (take i lines ++ line ∷ drop i lines)
unfolding insert_line_at
insert_line_at-eq zero line lines h = refl
insert_line_at-eq (suc i) line [] h = absurd (omega (arith, h))
insert_line_at-eq (suc i) line (x ∷ lines) h =
    rw (insert_line_at-eq i line lines (omega (arith, h)))

take_inserted :
    (i : ℕ) (line : Text) (lines : List Text)
    → i ≤ length lines
    → take (suc i) (take i lines ++ line ∷ drop i lines) ≡ take i lines ++ line ∷ []
take_inserted zero line lines h = refl
take_inserted (suc i) line [] h = absurd (omega (arith, h))
take_inserted (suc i) line (x ∷ lines) h =
    ap (◌∷◌ x) (take_inserted i line lines (omega (arith, h)))

drop_inserted :
    (i : ℕ) (line : Text) (lines : List Text)
    → i ≤ length lines
    → drop (suc i) (take i lines ++ line ∷ drop i lines) ≡ drop i lines
drop_inserted zero line lines h = refl
drop_inserted (suc i) line [] h = absurd (omega (arith, h))
drop_inserted (suc i) line (x ∷ lines) h = drop_inserted i line lines (omega (arith, h))

length_inserted :
    (i : ℕ) (line : Text) (lines : List Text)
    → length (take i lines ++ line ∷ drop i lines) ≡ suc (length lines)
length_inserted i line lines = omega (
  arith,
  length-append (take i lines) (line ∷ drop i lines),
  length-append (take i lines) (drop i lines),
  ap length (take-append-drop i lines),
)

pub insert_lines-eq :
    (i : ℕ) (new lines : List Text)
    → i ≤ length lines
    → insert_lines i new lines ≡ some (take i lines ++ (new ++ drop i lines))
unfolding insert_lines
insert_lines-eq i [] lines h = ap some (sym (take-append-drop i lines))
insert_lines-eq i (line ∷ new) lines h =
    let next = take i lines ++ line ∷ drop i lines in
    let rest = insert_lines-eq (suc i) new next (omega (arith, length_inserted i line lines, h)) in
    rw (
      insert_line_at-eq i line lines h,
      insert_lines,
      rest,
      take_inserted i line lines h,
      drop_inserted i line lines h,
      append_assoc,
    )

pub take-kept :
    (s : ℕ) (lines rest : List Text)
    → s ≤ length lines
    → take s (take s lines ++ rest) ≡ take s lines
take-kept zero lines rest h = refl
take-kept (suc s) [] rest h = absurd (omega (arith, h))
take-kept (suc s) (x ∷ lines) rest h = ap (◌∷◌ x) (take-kept s lines rest (omega (arith, h)))

-- Where the lines before `s` are all there, dropping them leaves the rest.
pub drop-kept :
    (s : ℕ) (lines rest : List Text) → s ≤ length lines → drop s (take s lines ++ rest) ≡ rest
drop-kept zero lines rest h = refl
drop-kept (suc s) [] rest h = absurd (omega (arith, h))
drop-kept (suc s) (x ∷ lines) rest h = drop-kept s lines rest (omega (arith, h))

pub length-kept :
    (s : ℕ) (lines rest : List Text)
    → s ≤ length lines
    → length (take s lines ++ rest) ≡ s + length rest
length-kept zero lines rest h = omega arith
length-kept (suc s) [] rest h = absurd (omega (arith, h))
length-kept (suc s) (x ∷ lines) rest h = omega (arith, length-kept s lines rest (omega (arith, h)))

drop-one : (n : ℕ) (lines : List Text) → drop (suc n) lines ≡ drop n (drop 1 lines)
drop-one zero [] = refl
drop-one (suc n) [] = refl
drop-one n (x ∷ lines) = refl

drop_all : (n s : ℕ) (lines : List Text) → length lines ≤ s → drop n (drop s lines) ≡ []
drop_all zero zero [] h = refl
drop_all zero (suc s) [] h = refl
drop_all (suc n) zero [] h = refl
drop_all (suc n) (suc s) [] h = refl
drop_all n zero (x ∷ lines) h = absurd (omega (arith, h))
drop_all n (suc s) (x ∷ lines) h = drop_all n s lines (omega (arith, h))

remove_line_at-eq :
    (i : ℕ) (lines : List Text) → remove_line_at i lines ≡ take i lines ++ drop 1 (drop i lines)
unfolding remove_line_at
remove_line_at-eq zero [] = refl
remove_line_at-eq (suc i) [] = refl
remove_line_at-eq zero (x ∷ lines) = refl
remove_line_at-eq (suc i) (x ∷ lines) = ap (◌∷◌ x) (remove_line_at-eq i lines)

remove_lines-eq :
    (n s : ℕ) (lines : List Text)
    → s ≤ length lines
    → remove_lines n s lines ≡ take s lines ++ drop n (drop s lines)
unfolding remove_lines
remove_lines-eq zero s lines h = sym (take-append-drop s lines)
remove_lines-eq (suc n) s lines h = elim (Bool-cases (ltb s (length lines))) [
  | inl e ↦
      let next = take s lines ++ drop 1 (drop s lines) in
      let room : s ≤ length next = omega (arith, length-kept s lines (drop 1 (drop s lines)) h) in
      rw (e, remove_line_at-eq s lines, remove_lines-eq n s next room)
        (rw (
          take-kept s lines (drop 1 (drop s lines)) h,
          drop-kept s lines (drop 1 (drop s lines)) h,
          drop-one n (drop s lines),
        ))
  | inr e ↦
      let past : length lines ≤ s = ground (arith, e) in
      rw (e, remove_lines-eq n s lines h, drop_all n s lines past, drop_all (suc n) s lines past)
]

-- What one replacement does, where it starts within the lines.
pub apply_replacement-eq :
    (s n : ℕ) (new lines : List Text)
    → s ≤ length lines
    → apply_replacement (s, (n, new)) lines ≡ some (take s lines ++ (new ++ drop n (drop s lines)))
unfolding apply_replacement
apply_replacement-eq s n new lines h =
    let rest = drop n (drop s lines) in
    let room : s ≤ length (take s lines ++ rest) = omega (arith, length-kept s lines rest h) in
    rw (remove_lines-eq n s lines h, insert_lines-eq s new (take s lines ++ rest) room)
      (rw (take-kept s lines rest h, drop-kept s lines rest h))

-- The replacements are sorted by where they start, from `low` on and within `len` lines.
abbrev pub IsSorted : ℕ → ℕ → List Replacement → Type 0
IsSorted low len [] = Unit
IsSorted low len ((s, (n, new)) ∷ rest) = (low ≤ s) × (s ≤ len) × IsSorted s len rest

apply_replacements_keep :
    (low : ℕ) (lines : List Text) (rs : List Replacement)
    → low ≤ length lines
    → IsSorted low (length lines) rs
    → (out : List Text) × (apply_replacements lines rs ≡ some out) × (low ≤ length out)
unfolding apply_replacements
apply_replacements_keep low lines [] h t = (lines, refl, h)
apply_replacements_keep low lines ((s, (n, new)) ∷ rs) h (low', within, sorted) =
    let (next, e, room) = apply_replacements_keep s lines rs within sorted in
    let rest = drop n (drop s next) in
    (
      take s next ++ (new ++ rest),
      rw (e, apply_replacements) (apply_replacement-eq s n new next room),
      omega (arith, length-kept s next (new ++ rest) room, low'),
    )

-- Replacements that are sorted by their start and start within the file, even ones that overlap,
-- are applied without an insertion past the end of the lines.
pub apply_replacements_total :
    (lines : List Text) (rs : List Replacement)
    → IsSorted 0 (length lines) rs
    → (out : List Text) × (apply_replacements lines rs ≡ some out)
apply_replacements_total lines rs h =
    let (out, e, _) = apply_replacements_keep 0 lines rs (omega arith) h in (out, e)
