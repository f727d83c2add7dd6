-- ===== src/Prelude/Maps.antt =====
-- A JavaScript `Map` or `Set` with opaque keys, as an association list in insertion order. Only
-- the equality of keys is used, so they are numbers.
use Prim.Native.Nat.{ℕ}
use mathlib.Core.Path.{◌≡◌, refl}
use mathlib.Core.Bool.{Bool, false, ◌||◌}
use mathlib.Core.Option.{Option, none, some}
use mathlib.Core.List.{List, [], ◌∷◌}
use native.Mathlib.Omega.{arith}
use code_runner.Prelude.Tests.{◌==◌, if◌then◌else◌}

module _ {ℓ} {V : Type ℓ} where
  -- `map.get(k)`
  unfoldable pub get : ℕ → List (ℕ × V) → Option V
  get k [] = none
  get k ((j, v) ∷ m) = if j == k then some v else get k m

  -- `map.set(k, v)`: an old key keeps its place, a new one goes to the end.
  unfoldable pub put : ℕ → V → List (ℕ × V) → List (ℕ × V)
  put k v [] = (k, v) ∷ []
  put k v ((j, w) ∷ m) = if j == k then (k, v) ∷ m else (j, w) ∷ put k v m

  -- `map.delete(k)`
  unfoldable pub delete : ℕ → List (ℕ × V) → List (ℕ × V)
  delete k [] = []
  delete k ((j, w) ∷ m) = if j == k then delete k m else (j, w) ∷ delete k m

  pub get-put :
      (k j : ℕ) (v : V) (m : List (ℕ × V))
      → get j (put k v m) ≡ (if k == j then some v else get j m)
  unfolding get put
  get-put k j v [] = refl
  get-put k j v ((i, w) ∷ m) = ground (arith, get-put k j v m)

  pub get-delete :
      (k j : ℕ) (m : List (ℕ × V)) → get j (delete k m) ≡ (if k == j then none else get j m)
  unfolding get delete
  get-delete k j [] = ground arith
  get-delete k j ((i, w) ∷ m) = ground (arith, get-delete k j m)

  -- Setting what is there already.
  pub put-get : (k : ℕ) (v : V) (m : List (ℕ × V)) → get k m ≡ some v → put k v m ≡ m
  unfolding get put
  put-get k v [] h = cc
  put-get k v ((j, u) ∷ m) h = ground (arith, put-get k v m)

-- `set.has(k)`
unfoldable pub has : ℕ → List ℕ → Bool
has k [] = false
has k (x ∷ xs) = (x == k) || has k xs

-- `set.add(k)`
unfoldable pub add : ℕ → List ℕ → List ℕ
add k [] = k ∷ []
add k (x ∷ xs) = if x == k then x ∷ xs else x ∷ add k xs

-- `set.delete(k)`
unfoldable pub remove : ℕ → List ℕ → List ℕ
remove k [] = []
remove k (x ∷ xs) = if x == k then remove k xs else x ∷ remove k xs

pub has-add : (k j : ℕ) (s : List ℕ) → has j (add k s) ≡ ((k == j) || has j s)
unfolding has add
has-add k j [] = refl
has-add k j (x ∷ s) = ground (arith, has-add k j s)

pub has-remove : (k j : ℕ) (s : List ℕ) → has j (remove k s) ≡ (if k == j then false else has j s)
unfolding has remove
has-remove k j [] = ground arith
has-remove k j (x ∷ s) = ground (arith, has-remove k j s)
