-- ===== src/Patch/Paths.antt =====
-- Sets of paths in apply_patch.rs, each a `BTreeSet<String>`: a sorted list without repetitions.
use cloud_agent.Base.{
  ◌≡◌, refl, ap, ◌∙◌, inl, inr, Bool, true, false, ◌||◌, List, [], ◌∷◌, ltb, ◌==◌, if◌then◌else◌,
  arith, Bool-cases,
}
use cloud_agent.Base.Text.{Text, text_eq, text_eq_iff}

-- The order of `String`, which on UTF-8 is the order of the code points.
unfoldable pub text_lt : Text → Text → Bool
text_lt s [] = false
text_lt [] (d ∷ t) = true
text_lt (c ∷ s) (d ∷ t) =
    let rest = text_lt s t in if ltb c d then true else if c == d then rest else false

unfoldable pub has_path : Text → List Text → Bool
unfolding text_eq
has_path path [] = false
has_path path (p ∷ paths) = text_eq path p || has_path path paths

unfoldable pub insert_path : Text → List Text → List Text
unfolding text_eq text_lt
insert_path path [] = path ∷ []
insert_path path (p ∷ paths) =
    let rest = insert_path path paths in
    if text_eq path p then p ∷ paths else if text_lt path p then path ∷ p ∷ paths else p ∷ rest

swapped : (a b c : Bool) → (a || (b || c)) ≡ (b || (a || c))
swapped a b c = ground arith

same_twice : (a b : Bool) → (a || b) ≡ (a || (a || b))
same_twice a b = ground arith

pub has_path-insert_path :
    (k path : Text) (paths : List Text)
    → has_path k (insert_path path paths) ≡ (text_eq k path || has_path k paths)
unfolding has_path insert_path
has_path-insert_path k path [] = refl
has_path-insert_path k path (p ∷ paths) = elim (Bool-cases (text_eq path p)) [
  | inl e ↦
      let same : text_eq k path ≡ text_eq k p = ap (text_eq k) ((text_eq_iff path p).0 e) in
      rw (e, same) (same_twice (text_eq k p) (has_path k paths))
  | inr e ↦ elim (Bool-cases (text_lt path p)) [
    | inl l ↦ rw (e, l)
    | inr l ↦
        rw (e, l)
          (ap (λ b. text_eq k p || b) (has_path-insert_path k path paths)
            ∙ swapped (text_eq k p) (text_eq k path) (has_path k paths))
  ]
]
