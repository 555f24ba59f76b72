-- ===== src/Patch/Replace/Spliced.antt =====
-- `apply_replacements` of apply_patch.rs against one pass over the lines from left to right.
use cloud_agent.Base.{
  ℕ, zero, suc, ◌+◌, ◌-◌, ◌≤◌, ◌≡◌, refl, ap, sym, ◌∙◌, some, List, [], ◌∷◌, ◌++◌, length, take,
  drop, take-append-drop, arith,
}
use mathlib.Core.List.{append_assoc}
use cloud_agent.Base.Text.{Text}
use cloud_agent.Patch.Data.{Replacement}
use cloud_agent.Patch.Replace.{apply_replacements}
use cloud_agent.Patch.Replace.Safe.{apply_replacement-eq, drop-kept, length-kept}

-- The replacements are in order and apart, from `low` on and within `len` lines.
abbrev pub IsApart : ℕ → ℕ → List Replacement → Type 0
IsApart low len [] = low ≤ len
IsApart low len ((s, (n, new)) ∷ rest) = (low ≤ s) × IsApart (s + n) len rest

-- `lines` are the lines from `pos` on: those before the next replacement are copied, those that it
-- replaces are left out.
abbrev pub spliced : ℕ → List Text → List Replacement → List Text
spliced pos lines [] = lines
spliced pos lines ((s, (n, new)) ∷ rest) =
    let after = drop (s - pos) lines in
    take (s - pos) lines ++ (new ++ spliced (s + n) (drop n after) rest)

IsApart-le : (low len : ℕ) (rs : List Replacement) → IsApart low len rs → low ≤ len
IsApart-le low len [] h = h
IsApart-le low len ((s, (n, new)) ∷ rest) h = omega (arith, h.0, IsApart-le (s + n) len rest h.1)

drop-nil : (n : ℕ) → drop {A = Text} n [] ≡ []
drop-nil zero = refl
drop-nil (suc n) = refl

take-nil : (n : ℕ) → take {A = Text} n [] ≡ []
take-nil zero = refl
take-nil (suc n) = refl

drop-add : (s n : ℕ) (lines : List Text) → drop n (drop s lines) ≡ drop (s + n) lines
drop-add zero n lines = ap (λ k. drop k lines) (omega arith)
drop-add (suc s) n [] = drop-nil n ∙ sym (drop-nil (suc s + n))
drop-add (suc s) n (x ∷ lines) =
    let one_more : suc (s + n) ≡ suc s + n = omega arith in
    drop-add s n lines ∙ ap (λ k. drop k (x ∷ lines)) one_more

take-split :
    (pos s : ℕ) (lines : List Text)
    → pos ≤ s
    → take pos lines ++ take (s - pos) (drop pos lines) ≡ take s lines
take-split zero s lines h = ap (λ k. take k lines) (omega arith)
take-split (suc pos) zero lines h = absurd (omega (arith, h))
take-split (suc pos) (suc s) [] h =
    ap (λ t. take {A = Text} (suc pos) [] ++ t) (take-nil (suc s - suc pos))
take-split (suc pos) (suc s) (x ∷ lines) h =
    let less : suc s - suc pos ≡ s - pos = omega arith in
    ap (λ k. x ∷ (take pos lines ++ take k (drop pos lines))) less
    ∙ ap (◌∷◌ x) (take-split pos s lines (omega (arith, h)))

take_glue :
    (pos s : ℕ) (lines rest : List Text)
    → pos ≤ s
    → take pos lines ++ (take (s - pos) (drop pos lines) ++ rest) ≡ take s lines ++ rest
take_glue pos s lines rest h =
    sym (append_assoc (take pos lines) (take (s - pos) (drop pos lines)) rest)
    ∙ ap (λ t. t ++ rest) (take-split pos s lines h)

take-within :
    (s m : ℕ) (lines rest : List Text)
    → s ≤ m
    → m ≤ length lines
    → take s (take m lines ++ rest) ≡ take s lines
take-within zero m lines rest h fits = refl
take-within (suc s) zero lines rest h fits = absurd (omega (arith, h))
take-within (suc s) (suc m) [] rest h fits = absurd (omega (arith, fits))
take-within (suc s) (suc m) (x ∷ lines) rest h fits =
    ap (◌∷◌ x) (take-within s m lines rest (omega (arith, h)) (omega (arith, fits)))

drop-past :
    (pos s n : ℕ) (lines : List Text)
    → pos ≤ s
    → drop n (drop (s - pos) (drop pos lines)) ≡ drop (s + n) lines
drop-past pos s n lines h =
    let there : pos + (s - pos) ≡ s = omega (arith, h) in
    rw (drop-add pos (s - pos) lines, there, drop-add s n lines)

apply_replacements-from :
    (pos : ℕ) (lines : List Text) (rs : List Replacement)
    → IsApart pos (length lines) rs
    → apply_replacements lines rs ≡ some (take pos lines ++ spliced pos (drop pos lines) rs)
unfolding apply_replacements
apply_replacements-from pos lines [] h = ap some (sym (take-append-drop pos lines))
apply_replacements-from pos lines ((s, (n, new)) ∷ rs) (low, apart) =
    let fits = IsApart-le (s + n) (length lines) rs apart in
    let rest = spliced (s + n) (drop (s + n) lines) rs in
    let next = take (s + n) lines ++ rest in
    let kept : s ≤ length next = omega (arith, length-kept (s + n) lines rest fits) in
    rw (apply_replacements-from (s + n) lines rs apart, apply_replacement-eq s n new next kept)
      (rw (
        take-within s (s + n) lines rest (omega arith) fits,
        drop-add s n next,
        drop-kept (s + n) lines rest fits,
        drop-past pos s n lines low,
        take_glue pos s lines (new ++ rest) low,
      ))

-- Replacements in order and apart: applying them from the last to the first gives what one pass
-- from the first to the last gives, each range of old lines replaced by its new lines and all
-- other lines kept.
pub apply_replacements-spliced :
    (lines : List Text) (rs : List Replacement)
    → IsApart 0 (length lines) rs
    → apply_replacements lines rs ≡ some (spliced 0 lines rs)
apply_replacements-spliced lines rs h = apply_replacements-from 0 lines rs h
