-- ===== src/Base/Maps.antt =====
-- A Rust `HashMap` as a list of keys and values, in any order; a key that occurs twice stands for
-- its first value.
use mathlib.Core.Path.{◌≡◌, refl, sym, ◌∙◌, subst}
use mathlib.Core.Logic.{◌↔◌, ◌⊎◌, inl, inr}
use mathlib.Core.Bool.{Bool, true}
use mathlib.Core.Option.{Option, none, some}
use mathlib.Core.List.{List, [], ◌∷◌}
use native.Mathlib.Omega.{arith}
use cloud_agent.Base.Tests.{if◌then◌else◌, Bool-cases}
use cloud_agent.Base.Text.{Text, text_eq, text_eq_iff}

pub record Eq {ℓ} (K : Type ℓ) : Type ℓ where
  pub eq : K → K → Bool
  pub eq_iff : (k l : K) → (eq k l ≡ true) ↔ (k ≡ l)

instance abbrev pub text_key : Eq Text
text_key = record { eq = text_eq; eq_iff = text_eq_iff }

module _ {ℓ} {K : Type ℓ} ⦃e : Eq K⦄ where
  pub eq_refl : (k : K) → e.eq k k ≡ true
  eq_refl k = (e.eq_iff k k).1 refl

module _ {ℓ κ} {K : Type ℓ} {V : Type κ} ⦃e : Eq K⦄ where
  -- `HashMap::get`.
  unfoldable pub lookup : K → List (K × V) → Option V
  lookup k [] = none
  lookup k ((l, v) ∷ m) = let rest = lookup k m in if e.eq l k then some v else rest

  -- `HashMap::insert`.
  unfoldable pub insert : K → V → List (K × V) → List (K × V)
  insert k v [] = (k, v) ∷ []
  insert k v ((l, w) ∷ m) =
      let rest = insert k v m in if e.eq l k then (k, v) ∷ m else (l, w) ∷ rest

  -- `HashMap::remove`, without the value.
  unfoldable pub remove : K → List (K × V) → List (K × V)
  remove k [] = []
  remove k ((l, v) ∷ m) = let rest = remove k m in if e.eq l k then rest else (l, v) ∷ rest

  pub lookup-insert :
      (k l : K) (v : V) (m : List (K × V))
      → lookup l (insert k v m) ≡ (if e.eq k l then some v else lookup l m)
  unfolding lookup insert
  lookup-insert k l v [] = refl
  lookup-insert k l v ((j, w) ∷ m) =
      ground (arith, e.eq_iff k l, e.eq_iff j k, e.eq_iff j l, lookup-insert k l v m)

  pub lookup-remove :
      (k l : K) (m : List (K × V)) → lookup l (remove k m) ≡ (if e.eq k l then none else lookup l m)
  unfolding lookup remove
  lookup-remove k l [] = ground arith
  lookup-remove k l ((j, w) ∷ m) =
      ground (arith, e.eq_iff k l, e.eq_iff j k, e.eq_iff j l, lookup-remove k l m)

  lookup-insert_cases :
      (k l : K) (v w : V) (m : List (K × V))
      → lookup l (insert k v m) ≡ some w
      → ((k ≡ l) × (v ≡ w)) ⊎ (lookup l m ≡ some w)
  lookup-insert_cases k l v w m h = elim (Bool-cases (e.eq k l)) [
    | inl same ↦
        let h' = sym (lookup-insert k l v m) ∙ h in
        inl ((e.eq_iff k l).0 same, ground (arith, h', same))
    | inr apart ↦ inr (ground (arith, lookup-insert k l v m, h, apart))
  ]

  -- Every key and value of a map satisfy `P`.
  abbrev pub Entries {μ} : (K → V → Type μ) → List (K × V) → Type (ℓ ⊔ κ ⊔ μ)
  Entries P m = (k : K) (v : V) → lookup k m ≡ some v → P k v

  pub insert-Entries {μ} :
      (P : K → V → Type μ) (k : K) (v : V) (m : List (K × V))
      → P k v
      → Entries P m
      → Entries P (insert k v m)
  insert-Entries P k v m hv hm l w h = elim (lookup-insert_cases k l v w m h) [
    | inl (k≡l, v≡w) ↦ subst (λ l. P l w) k≡l (subst (P k) v≡w hv)
    | inr old ↦ hm l w old
  ]

  pub remove-Entries {μ} :
      (P : K → V → Type μ) (k : K) (m : List (K × V)) → Entries P m → Entries P (remove k m)
  remove-Entries P k m hm l w h = elim (Bool-cases (e.eq k l)) [
    | inl same ↦ absurd (ground (arith, lookup-remove k l m, h, same))
    | inr apart ↦ hm l w (ground (arith, lookup-remove k l m, h, apart))
  ]
