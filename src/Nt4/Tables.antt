-- ===== src/Nt4/Tables.antt =====
-- Two tables of the same things by different keys, as `topicsById` and `topicsByName` of
-- apps/control/src/nt4-auto.ts are.
use code_runner.Prelude.{
  List, none, some, Bool, true, false, ◌≡◌, refl, sym, ap, ◌∙◌, inl, inr, Bool-cases, if◌then◌else◌,
  or_else,
}
use code_runner.Prelude.Keyed.{get_by, put_by, delete_by, get_by-put_by, get_by-delete_by}

-- A test of equality.
pub record IsTest {ℓ} {K : Type ℓ} (eq : K → K → Bool) : Type ℓ where
  pub is_refl : (a : K) → eq a a ≡ true
  pub is_sound : (a b : K) → eq a b ≡ true → a ≡ b

inj {ℓ} : {A : Type ℓ} {a b : A} → some a ≡ some b → a ≡ b
inj {a} {b} e = ap (λ o. or_else o a) e

if-true {ℓ} : {A : Type ℓ} {t : Bool} {x : A} (y : A) → t ≡ true → (if t then x else y) ≡ x
if-true {t} {x} y e = rw e refl

if-false {ℓ} : {A : Type ℓ} {t : Bool} {y : A} (x : A) → t ≡ false → (if t then x else y) ≡ y
if-false {t} {y} x e = rw e refl

module _ {ℓ κ ι} {K : Type ℓ} {L : Type κ} {V : Type ι} (eq : K → K → Bool) (eq_l : L → L → Bool)
    (key : V → K) (key_l : V → L) where
  -- What the first table has stands there under its key, and in the second one under its other key.
  abbrev pub Linked : List (K × V) → List (L × V) → Type (ℓ ⊔ ι)
  Linked m n =
      (k : K) (v : V) → get_by eq k m ≡ some v → (key v ≡ k) × (get_by eq_l (key_l v) n ≡ some v)

  module _ (test : IsTest eq) (test_l : IsTest eq_l) where
    unused :
        (v found : V) (n : List (L × V))
        → get_by eq_l (key_l v) n ≡ none
        → get_by eq_l (key_l found) n ≡ some found
        → (if eq_l (key_l v) (key_l found) then some v else get_by eq_l (key_l found) n)
          ≡ some found
    unused v found n fresh there = elim (Bool-cases (eq_l (key_l v) (key_l found))) [
      | inl f ↦
          let clash =
            sym fresh
            ∙ ap (λ x. get_by eq_l x n) (test_l.is_sound (key_l v) (key_l found) f)
            ∙ there in
          cc
      | inr f ↦ if-false _ f ∙ there
    ]

    -- Things under one key are the same, and so then are their other keys.
    kept :
        (v found : V) (n : List (L × V))
        → get_by eq_l (key_l v) n ≡ some v
        → get_by eq_l (key_l found) n ≡ some found
        → eq (key v) (key found) ≡ false
        → (if eq_l (key_l v) (key_l found) then none else get_by eq_l (key_l found) n) ≡ some found
    kept v found n here there apart = elim (Bool-cases (eq_l (key_l v) (key_l found))) [
      | inl f ↦
          let one : v ≡ found = inj (
            sym here
            ∙ ap (λ x. get_by eq_l x n) (test_l.is_sound (key_l v) (key_l found) f)
            ∙ there) in
          let clash = sym apart ∙ ap (λ x. eq (key v) (key x)) (sym one) ∙ test.is_refl (key v) in
          cc
      | inr f ↦ if-false _ f ∙ there
    ]

    pub put-Linked :
        (v : V) (m : List (K × V)) (n : List (L × V))
        → get_by eq_l (key_l v) n ≡ none
        → Linked m n
        → Linked (put_by eq (key v) v m) (put_by eq_l (key_l v) v n)
    put-Linked v m n fresh linked k found h =
        let look = sym (get_by-put_by eq test.is_sound (key v) k v m) ∙ h in
        elim (Bool-cases (eq (key v) k)) [
          | inl f ↦
              let same_thing : v ≡ found = inj (sym (if-true _ f) ∙ look) in
              (
                ap key (sym same_thing) ∙ test.is_sound (key v) k f,
                ap (λ x. get_by eq_l (key_l x) (put_by eq_l (key_l v) v n)) (sym same_thing)
                    ∙ get_by-put_by eq_l test_l.is_sound (key_l v) (key_l v) v n
                    ∙ if-true _ (test_l.is_refl (key_l v))
                    ∙ ap some same_thing,
              )
          | inr f ↦
              let old = linked k found (sym (if-false _ f) ∙ look) in
              (
                old.0,
                get_by-put_by eq_l test_l.is_sound (key_l v) (key_l found) v n
                    ∙ unused v found n fresh old.1,
              )
        ]

    pub delete-Linked :
        (v : V) (m : List (K × V)) (n : List (L × V))
        → get_by eq_l (key_l v) n ≡ some v
        → Linked m n
        → Linked (delete_by eq (key v) m) (delete_by eq_l (key_l v) n)
    delete-Linked v m n there linked k found h =
        let look = sym (get_by-delete_by eq test.is_sound (key v) k m) ∙ h in
        elim (Bool-cases (eq (key v) k)) [
          | inl f ↦ let no_value = sym (if-true _ f) ∙ look in cc
          | inr f ↦
              let old = linked k found (sym (if-false _ f) ∙ look) in
              (
                old.0,
                get_by-delete_by eq_l test_l.is_sound (key_l v) (key_l found) n
                    ∙ kept v found n there old.1 (ap (eq (key v)) old.0 ∙ f),
              )
        ]

    -- A key that is not there can be deleted.
    pub absent-Linked :
        (l : L) (m : List (K × V)) (n : List (L × V))
        → get_by eq_l l n ≡ none
        → Linked m n
        → Linked m (delete_by eq_l l n)
    absent-Linked l m n absent linked k found h =
        let old = linked k found h in
        (
          old.0,
          get_by-delete_by eq_l test_l.is_sound l (key_l found) n
              ∙ elim (Bool-cases (eq_l l (key_l found))) [
                | inl f ↦
                    let clash =
                      sym absent
                      ∙ ap (λ x. get_by eq_l x n) (test_l.is_sound l (key_l found) f)
                      ∙ old.1 in
                    cc
                | inr f ↦ if-false _ f ∙ old.1
              ],
        )

    pub shrink-Linked :
        (k : K) (m : List (K × V)) (n : List (L × V)) → Linked m n → Linked (delete_by eq k m) n
    shrink-Linked k m n linked j found h = elim (Bool-cases (eq k j)) [
      | inl f ↦
          let clash = sym (if-true _ f) ∙ sym (get_by-delete_by eq test.is_sound k j m) ∙ h in cc
      | inr f ↦
          linked j found (sym (if-false _ f) ∙ sym (get_by-delete_by eq test.is_sound k j m) ∙ h)
    ]
