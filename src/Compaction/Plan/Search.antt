-- ===== src/Compaction/Plan/Search.antt =====
-- Elements by index, for the loops that walk a history backwards.
use cloud_agent.Base.{
  ℕ, zero, suc, ◌≤◌, ◌<◌, ◌≡◌, refl, ap, ◌∙◌, ◌+◌, Bool, true, List, [], ◌∷◌, arith, any, drop,
  take, get_elem?, length, keep, if◌then◌else◌, Bool-cases, inl, inr,
}
use cloud_agent.Conversation.Markers.{is_some_and}

module _ {ℓ} {A : Type ℓ} (p : A → Bool) where
  pub any-drop :
      (xs : List A) (k i : ℕ)
      → k ≤ i
      → is_some_and (get_elem? xs i) p ≡ true
      → any p (drop k xs) ≡ true
  any-drop [] k i le h = cc
  any-drop (x ∷ xs) zero zero le h = ground arith
  any-drop (x ∷ xs) zero (suc i) le h = ground (arith, any-drop xs zero i (omega arith) h)
  any-drop (x ∷ xs) (suc k) zero le h = absurd (omega arith)
  any-drop (x ∷ xs) (suc k) (suc i) le h = any-drop xs k i (omega arith) h

  pub any_index :
      (xs : List A)
      → any p xs ≡ true
      → (i : ℕ) × (i < length xs) × (is_some_and (get_elem? xs i) p ≡ true)
  any_index [] h = absurd (cc)
  any_index (x ∷ xs) h = elim (Bool-cases (p x)) [
    | inl here ↦ (0, omega arith, here)
    | inr there ↦ let (i, lt, q) = any_index xs (rw there at h) in (suc i, omega arith, q)
  ]

  pub drop_step :
      (xs : List A) (i : ℕ)
      → i < length xs
      → length (keep p (drop i xs)) ≡ (
          if is_some_and (get_elem? xs i) p
          then suc (length (keep p (drop (suc i) xs)))
          else length (keep p (drop (suc i) xs)))
  drop_step [] i h = absurd (omega arith)
  drop_step (x ∷ xs) zero h = ground arith
  drop_step (x ∷ xs) (suc i) h = drop_step xs i (omega arith)

module _ {ℓ} {A : Type ℓ} where
  pub get_elem?-take : (xs : List A) (k i : ℕ) → i < k → get_elem? (take k xs) i ≡ get_elem? xs i
  get_elem?-take xs zero i h = absurd (omega arith)
  get_elem?-take [] (suc k) i h = refl
  get_elem?-take (x ∷ xs) (suc k) zero h = refl
  get_elem?-take (x ∷ xs) (suc k) (suc i) h = get_elem?-take xs k i (omega arith)

  pub get_elem?-drop_one : (xs : List A) (i : ℕ) → get_elem? (drop 1 xs) i ≡ get_elem? xs (suc i)
  get_elem?-drop_one [] i = refl
  get_elem?-drop_one (x ∷ xs) i = refl

  pub get_elem?-drop : (xs : List A) (k i : ℕ) → get_elem? (drop k xs) i ≡ get_elem? xs (k + i)
  get_elem?-drop xs zero i = let e : i ≡ 0 + i = omega arith in ap (get_elem? xs) e
  get_elem?-drop [] (suc k) i = refl
  get_elem?-drop (x ∷ xs) (suc k) i =
      let e : suc (k + i) ≡ suc k + i = omega arith in
      get_elem?-drop xs k i ∙ ap (get_elem? (x ∷ xs)) e

  pub drop_all : (xs : List A) → drop (length xs) xs ≡ []
  drop_all [] = refl
  drop_all (x ∷ xs) = drop_all xs
