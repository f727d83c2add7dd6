-- ===== src/Json.antt =====
-- The values that `JSON.parse` returns and `JSON.stringify` takes. An object lists its keys once
-- each, in order; a number is given by the bits of its IEEE 754 double.
use code_runner.Prelude.{ℕ, String, List, [], ◌∷◌, Option, none, some, Bool, if◌then◌else◌}
use text.Mathlib.Text.{◌==◌}

mutual
  pub data Json : Type 0 where
    null : Json
    bool : Bool → Json
    num : ℕ → Json
    str : String → Json
    arr : Items → Json
    obj : Fields → Json

  pub data Items : Type 0 where
    nil : Items
    cons : Json → Items → Items

  pub data Fields : Type 0 where
    end : Fields
    field : String → Json → Fields → Fields

-- `data[key]`, where `none` is `undefined`.
unfoldable pub prop : String → Fields → Option Json
prop key end = none
prop key (field k v fs) = if k == key then some v else prop key fs

-- An array of the given values.
abbrev pub items {ℓ} : {A : Type ℓ} → (A → Json) → List A → Items
items f [] = nil
items f (x ∷ xs) = cons (f x) (items f xs)
