-- ===== src/Base/Lines/Trimmed.antt =====
-- Texts that have no white space to trim.
use Prim.Native.Nat.{ℕ}
use mathlib.Core.Logic.{inl, inr}
use mathlib.Core.Path.{◌≡◌, refl, ap, sym, ◌∙◌}
use mathlib.Core.Bool.{Bool, true, false, ◌&&◌, not}
use mathlib.Core.Option.{Option, none, some}
use mathlib.Core.List.{[], ◌∷◌, ◌++◌, reverse, reverse-append, reverse-reverse}
use native.Mathlib.Omega.{arith}
use cloud_agent.Base.Tests.{Option-cases}
use cloud_agent.Base.Lists.{last?, last?-split, drop_last}
use cloud_agent.Base.Text.{Text, is_whitespace, trim_start, trim}

abbrev pub visible : ℕ → Bool
visible c = not (is_whitespace c)

abbrev visible? : Option ℕ → Bool
visible? none = false
visible? (some c) = visible c

-- The text is not empty, and neither begins nor ends with white space.
abbrev pub is_trimmed : Text → Bool
is_trimmed [] = false
is_trimmed (c ∷ s) = visible c && visible? (last? (c ∷ s))

pub trim_start-visible : (c : ℕ) (s : Text) → visible c ≡ true → trim_start (c ∷ s) ≡ c ∷ s
unfolding trim_start
trim_start-visible c s h = ground (arith, h)

trim_start-reverse : (s : Text) → visible? (last? s) ≡ true → trim_start (reverse s) ≡ reverse s
trim_start-reverse s h = elim (Option-cases (last? s)) [
  | inl e ↦ absurd (ground (arith, h, e))
  | inr (z, e) ↦
      let whole : reverse s ≡ z ∷ reverse (drop_last s) =
        ap reverse (last?-split s z e) ∙ reverse-append (drop_last s) (z ∷ []) in
      ap trim_start whole
      ∙ trim_start-visible z (reverse (drop_last s)) (ap visible? (sym e) ∙ h)
      ∙ sym whole
]

both_true : (a b : Bool) → (a && b) ≡ true → (a ≡ true) × (b ≡ true)
both_true a b h = ground (arith, h)

pub trim-trimmed : (s : Text) → is_trimmed s ≡ true → trim s ≡ s
unfolding trim
trim-trimmed [] h = cc
trim-trimmed (c ∷ s) h =
    let (first, final) = both_true (visible c) (visible? (last? (c ∷ s))) h in
    ap (λ t. reverse (trim_start (reverse t))) (trim_start-visible c s first)
    ∙ ap reverse (trim_start-reverse (c ∷ s) final)
    ∙ reverse-reverse (c ∷ s)

last?-append : (p s : Text) (c : ℕ) → last? (p ++ c ∷ s) ≡ last? (c ∷ s)
last?-append [] s c = refl
last?-append (a ∷ []) s c = refl
last?-append (a ∷ b ∷ p) s c = last?-append (b ∷ p) s c

-- A visible character before a text that is trimmed, with anything between them.
pub is_trimmed-append :
    (c : ℕ) (p s : Text) → visible c ≡ true → is_trimmed s ≡ true → is_trimmed (c ∷ p ++ s) ≡ true
is_trimmed-append c p [] hc hs = cc
is_trimmed-append c p (d ∷ s) hc hs =
    let (_, final) = both_true (visible d) (visible? (last? (d ∷ s))) hs in
    rw (hc, last?-append (c ∷ p) s d) final
