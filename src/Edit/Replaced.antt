-- ===== src/Edit/Replaced.antt =====
-- What the replacements of edit_file.rs make of a text.
use cloud_agent.Base.{
  ℕ, suc, ◌≤◌, ◌-◌, zero, ◌≡◌, refl, ap, sym, subst, ◌∙◌, true, false, [], ◌∷◌, ◌++◌, length, drop,
  arith, ◌==◌, Bool-cases, inl, inr,
}
use cloud_agent.Base.Text.{Text, is_empty, starts_with}
use cloud_agent.Edit.Strings.{match_from, match_indices, replace_first, replace_from}

starts_with-split : (old s : Text) → starts_with s old ≡ true → s ≡ old ++ drop (length old) s
unfolding starts_with
starts_with-split [] s h = refl
starts_with-split (p ∷ old) [] h = cc
starts_with-split (p ∷ old) (c ∷ s) h =
    let rest = starts_with-split old s (ground (arith, h)) in
    let same : c ≡ p = ground (arith, h) in
    ap (◌∷◌ c) rest ∙ ap (λ d. d ∷ (old ++ drop (length old) s)) same

-- A text around a match, and what replaces the match.
abbrev pub IsSplit : Text → Text → Text → Text → Type 0
IsSplit old new text next =
    (before : Text) × (after : Text) × (text ≡ before ++ (old ++ after))
    × (next ≡ before ++ (new ++ after))

pub replace_first-IsSplit :
    (old new text : Text) (index : ℕ)
    → is_empty old ≡ false
    → (length (match_from 0 index old text) == 0) ≡ false
    → IsSplit old new text (replace_first old new text)
unfolding match_from replace_first is_empty
replace_first-IsSplit [] new text index h m = cc
replace_first-IsSplit (p ∷ old) new [] index h m = absurd (cc m)
replace_first-IsSplit (p ∷ old) new (c ∷ s) index h m =
    elim (Bool-cases (starts_with (c ∷ s) (p ∷ old))) [
      | inl e ↦ ([], drop (length old) s, starts_with-split (p ∷ old) (c ∷ s) e, rw e)
      | inr e ↦
          let (before, after, whole, next) =
            replace_first-IsSplit (p ∷ old) new s (suc index) h (rw e at m) in
          (c ∷ before, after, ap (◌∷◌ c) whole, rw e (ap (◌∷◌ c) next))
    ]

pub matches_from :
    (old text : Text)
    → (length (match_indices old text) == 0) ≡ false
    → (length (match_from 0 0 old text) == 0) ≡ false
unfolding match_indices
matches_from old text h = h

-- `next` is the text where, from the left, each match of the old text that begins behind the ones
-- before it is replaced, `count` of them, and all else is kept.
pub data Replaced (old new : Text) : ℕ → Text → Text → Type 0 where
  ends : Replaced old new 0 [] []
  keeps :
      (count c : ℕ) (text next : Text)
      → starts_with (c ∷ text) old ≡ false
      → Replaced old new count text next
      → Replaced old new count (c ∷ text) (c ∷ next)
  swaps :
      (count : ℕ) (text next : Text)
      → Replaced old new count text next
      → Replaced old new (suc count) (old ++ text) (new ++ next)

starts_with-length : (s old : Text) → starts_with s old ≡ true → length old ≤ length s
unfolding starts_with
starts_with-length s [] h = omega arith
starts_with-length [] (p ∷ old) h = cc
starts_with-length (c ∷ s) (p ∷ old) h =
    let rest = starts_with-length s old (ground (arith, h)) in omega (arith, rest)

pub replace_from-Replaced :
    (p : ℕ) (old new : Text) (skip i : ℕ) (s : Text)
    → skip ≤ length s
    → Replaced
        (p ∷ old)
        new
        (length (match_from skip i (p ∷ old) s))
        (drop skip s)
        (replace_from skip (p ∷ old) new s)
unfolding replace_from match_from starts_with
replace_from-Replaced p old new zero i [] h = ends
replace_from-Replaced p old new (suc skip) i [] h = absurd (omega arith)
replace_from-Replaced p old new (suc skip) i (c ∷ s) h =
    replace_from-Replaced p old new skip (suc i) s (omega arith)
replace_from-Replaced p old new zero i (c ∷ s) h =
    elim (Bool-cases (starts_with (c ∷ s) (p ∷ old))) [
      | inl e ↦
          let fits : length old ≤ length s =
            omega (arith, starts_with-length (c ∷ s) (p ∷ old) e) in
          let one : suc (length old) - 1 ≡ length old = omega arith in
          let rest = replace_from-Replaced p old new (length old) (suc i) s fits in
          let count = length (match_from (length old) (suc i) (p ∷ old) s) in
          let next = replace_from (length old) (p ∷ old) new s in
          let split = starts_with-split (p ∷ old) (c ∷ s) e in
          rw (e, one)
            (subst (λ x. Replaced (p ∷ old) new (suc count) x (new ++ next)) (sym split)
              (swaps count (drop (length old) s) next rest))
      | inr e ↦
          let count = length (match_from 0 (suc i) (p ∷ old) s) in
          let rest = replace_from-Replaced p old new 0 (suc i) s (omega arith) in
          rw e (keeps count c s (replace_from 0 (p ∷ old) new s) e rest)
    ]
