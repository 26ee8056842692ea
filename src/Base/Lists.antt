-- ===== src/Base/Lists.antt =====
-- Lists measured by native numbers, and selections by Boolean tests.
use Prim.Native.Nat.{ℕ, zero, suc, ◌+◌}
use mathlib.Core.Path.{◌≡◌, refl, ap}
use mathlib.Core.Logic.{◌⊎◌, inl, inr}
use mathlib.Core.Bool.{Bool, true, false}
use mathlib.Core.List.{List, [], ◌∷◌, ◌++◌}
use mathlib.Core.Option.{Option, none, some}
use native.Mathlib.Omega.{arith}
use acp_mux.Base.Test.{if◌then◌else◌}

module _ {ℓ} {A : Type ℓ} where
  abbrev pub length : List A → ℕ
  length [] = 0
  length (x ∷ xs) = suc (length xs)

  pub length-append : (xs ys : List A) → length (xs ++ ys) ≡ length xs + length ys
  length-append [] ys = omega arith
  length-append (x ∷ xs) ys = omega (arith, length-append xs ys)

  -- `retain`: keeps the entries that pass the test.
  abbrev pub retain : (A → Bool) → List A → List A
  retain p [] = []
  retain p (x ∷ xs) = let rest = retain p xs in if p x then x ∷ rest else rest

  abbrev pub any : (A → Bool) → List A → Bool
  any p [] = false
  any p (x ∷ xs) = let rest = any p xs in if p x then true else rest

  -- `iter().find`.
  abbrev pub find : (A → Bool) → List A → Option A
  find p [] = none
  find p (x ∷ xs) = let rest = find p xs in if p x then some x else rest

  abbrev pub last : List A → Option A
  last [] = none
  last (x ∷ []) = some x
  last (x ∷ y ∷ xs) = last (y ∷ xs)

  -- `get(i)`, and a write at `i` that changes nothing out of bounds.
  abbrev pub get_elem? : List A → ℕ → Option A
  get_elem? [] i = none
  get_elem? (x ∷ xs) zero = some x
  get_elem? (x ∷ xs) (suc i) = get_elem? xs i

  abbrev pub set : List A → ℕ → A → List A
  set [] i v = []
  set (x ∷ xs) zero v = v ∷ xs
  set (x ∷ xs) (suc i) v = x ∷ set xs i v

  pub get_elem?-set :
      (xs : List A) (i j : ℕ) {u v : A}
      → get_elem? (set xs i v) j ≡ some u
      → ((j ≡ i) × (u ≡ v)) ⊎ (get_elem? xs j ≡ some u)
  get_elem?-set [] i j e = inr e
  get_elem?-set (x ∷ xs) zero zero e = inl (refl, cc)
  get_elem?-set (x ∷ xs) zero (suc j) e = inr e
  get_elem?-set (x ∷ xs) (suc i) zero e = inr e
  get_elem?-set (x ∷ xs) (suc i) (suc j) e = elim (get_elem?-set xs i j e) [
    | inl (a, b) ↦ inl (ap suc a, b)
    | inr b ↦ inr b
  ]

  -- What stood at `j` stands there still, unless `j` is the place of the write.
  pub get_elem?-set_old :
      (xs : List A) (i j : ℕ) (u : A) {a : A}
      → get_elem? xs j ≡ some a
      → ((j ≡ i) × (get_elem? (set xs i u) j ≡ some u)) ⊎ (get_elem? (set xs i u) j ≡ some a)
  get_elem?-set_old [] i j u e = inr e
  get_elem?-set_old (x ∷ xs) zero zero u e = inl (refl, refl)
  get_elem?-set_old (x ∷ xs) zero (suc j) u e = inr e
  get_elem?-set_old (x ∷ xs) (suc i) zero u e = inr e
  get_elem?-set_old (x ∷ xs) (suc i) (suc j) u e = elim (get_elem?-set_old xs i j u e) [
    | inl (a, b) ↦ inl (ap suc a, b)
    | inr b ↦ inr b
  ]

  pub get_elem?-append_old :
      (xs ys : List A) (j : ℕ) {a : A} → get_elem? xs j ≡ some a → get_elem? (xs ++ ys) j ≡ some a
  get_elem?-append_old [] ys j e = cc
  get_elem?-append_old (x ∷ xs) ys zero e = e
  get_elem?-append_old (x ∷ xs) ys (suc j) e = get_elem?-append_old xs ys j e

  pub get_elem?-append :
      (xs : List A) (y : A) (j : ℕ) {u : A}
      → get_elem? (xs ++ y ∷ []) j ≡ some u
      → ((j ≡ length xs) × (u ≡ y)) ⊎ (get_elem? xs j ≡ some u)
  get_elem?-append [] y zero e = inl (refl, cc)
  get_elem?-append [] y (suc j) e = inr e
  get_elem?-append (x ∷ xs) y zero e = inr e
  get_elem?-append (x ∷ xs) y (suc j) e = elim (get_elem?-append xs y j e) [
    | inl (a, b) ↦ inl (ap suc a, b)
    | inr b ↦ inr b
  ]

  pub get_elem?-append_new : (xs : List A) (y : A) → get_elem? (xs ++ y ∷ []) (length xs) ≡ some y
  get_elem?-append_new [] y = refl
  get_elem?-append_new (x ∷ xs) y = get_elem?-append_new xs y

  abbrev pub All {κ} : (A → Type κ) → List A → Type κ
  All P [] = Unit
  All P (x ∷ xs) = P x × All P xs

  pub All-append {κ} : (P : A → Type κ) (xs ys : List A) → All P xs → All P ys → All P (xs ++ ys)
  All-append P [] ys h k = k
  All-append P (x ∷ xs) ys h k = (h.0, All-append P xs ys h.1 k)

module _ {ℓ κ} {A : Type ℓ} {B : Type κ} where
  abbrev pub filter_map : (A → Option B) → List A → List B
  filter_map f [] = []
  filter_map f (x ∷ xs) =
      let rest = filter_map f xs in elim (f x) [ none ↦ rest | some y ↦ y ∷ rest ]
