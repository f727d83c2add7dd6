-- ===== src/Prelude/Keyed.antt =====
-- A JavaScript `Map` or `Set` as an association list in insertion order, for keys with a test of
-- equality.
use mathlib.Core.Path.{◌≡◌, refl, sym, ap, ◌∙◌}
use mathlib.Core.Logic.{inl, inr}
use mathlib.Core.Bool.{Bool, true, false, ◌||◌}
use mathlib.Core.Option.{Option, none, some}
use mathlib.Core.List.{List, [], ◌∷◌}
use code_runner.Prelude.Tests.{if◌then◌else◌, Bool-cases}

module _ {ℓ κ} {K : Type ℓ} {V : Type κ} (eq : K → K → Bool) where
  -- `map.get(k)`
  unfoldable pub get_by : K → List (K × V) → Option V
  get_by k [] = none
  get_by k ((j, v) ∷ m) = if eq j k then some v else get_by k m

  -- `map.set(k, v)`: an old key keeps its place, a new one goes to the end.
  unfoldable pub put_by : K → V → List (K × V) → List (K × V)
  put_by k v [] = (k, v) ∷ []
  put_by k v ((j, w) ∷ m) = if eq j k then (k, v) ∷ m else (j, w) ∷ put_by k v m

  -- `map.delete(k)`
  unfoldable pub delete_by : K → List (K × V) → List (K × V)
  delete_by k [] = []
  delete_by k ((j, w) ∷ m) = if eq j k then delete_by k m else (j, w) ∷ delete_by k m

-- `set.has(k)` and `set.add(k)`
module _ {ℓ} {K : Type ℓ} (eq : K → K → Bool) where
  unfoldable pub has_by : K → List K → Bool
  has_by k [] = false
  has_by k (x ∷ xs) = eq x k || has_by k xs

  unfoldable pub add_by : K → List K → List K
  add_by k [] = k ∷ []
  add_by k (x ∷ xs) = if eq x k then x ∷ xs else x ∷ add_by k xs

-- The laws, for a test that is true of equal keys and of those alone.
module _ {ℓ} {K : Type ℓ} (eq : K → K → Bool) (sound : (a b : K) → eq a b ≡ true → a ≡ b) where
  apart : (i k j : K) → eq i k ≡ false → eq k j ≡ true → eq i j ≡ false
  apart i k j e f = ap (eq i) (sym (sound k j f)) ∙ e

module _ {ℓ κ} {K : Type ℓ} {V : Type κ} (eq : K → K → Bool)
    (sound : (a b : K) → eq a b ≡ true → a ≡ b) where
  pub get_by-put_by :
      (k j : K) (v : V) (m : List (K × V))
      → get_by eq j (put_by eq k v m) ≡ (if eq k j then some v else get_by eq j m)
  unfolding get_by put_by
  get_by-put_by k j v [] = refl
  get_by-put_by k j v ((i, w) ∷ m) = elim (Bool-cases (eq i k)) [
    | inl e ↦ elim (Bool-cases (eq k j)) [
      | inl f ↦ rw (e, f) refl
      | inr f ↦ rw (e, f, ap (λ x. eq x j) (sound i k e) ∙ f) refl
    ]
    | inr e ↦ elim (Bool-cases (eq k j)) [
      | inl f ↦ rw (e, f, apart eq sound i k j e f) (get_by-put_by k j v m ∙ rw f refl)
      | inr f ↦
          rw (e, f) (ap (λ x. if eq i j then some w else x) (get_by-put_by k j v m ∙ rw f refl))
    ]
  ]

  pub get_by-delete_by :
      (k j : K) (m : List (K × V))
      → get_by eq j (delete_by eq k m) ≡ (if eq k j then none else get_by eq j m)
  unfolding get_by delete_by
  get_by-delete_by k j [] = elim (Bool-cases (eq k j)) [ inl f ↦ rw f refl | inr f ↦ rw f refl ]
  get_by-delete_by k j ((i, w) ∷ m) = elim (Bool-cases (eq i k)) [
    | inl e ↦ elim (Bool-cases (eq k j)) [
      | inl f ↦ rw (e, f) (get_by-delete_by k j m ∙ rw f refl)
      | inr f ↦ rw (e, f, ap (λ x. eq x j) (sound i k e) ∙ f) (get_by-delete_by k j m ∙ rw f refl)
    ]
    | inr e ↦ elim (Bool-cases (eq k j)) [
      | inl f ↦ rw (e, f, apart eq sound i k j e f) (get_by-delete_by k j m ∙ rw f refl)
      | inr f ↦
          rw (e, f) (ap (λ x. if eq i j then some w else x) (get_by-delete_by k j m ∙ rw f refl))
    ]
  ]
