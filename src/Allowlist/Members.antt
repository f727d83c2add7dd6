-- ===== src/Allowlist/Members.antt =====
-- What the lists of apps/control/src/auth/allowlist.ts hold after each change.
use code_runner.Prelude.{
  List, [], ◌∷◌, ◌++◌, Bool, true, false, ◌&&◌, ◌||◌, not, ◌≡◌, refl, sym, ap, ◌∙◌, inl, inr,
  Bool-cases,
}
use code_runner.Prelude.Texts.{Text, same, same→eq}
use code_runner.Prelude.Keyed.{has_by, add_by}
use code_runner.Allowlist.{push_new, drop_text, distinct}

or_assoc : (a b c : Bool) → ((a || b) || c) ≡ (a || (b || c))
or_assoc true b c = refl
or_assoc false b c = refl

pub or_true : (a : Bool) → (a || true) ≡ true
or_true true = refl
or_true false = refl

or_swap : (a b c : Bool) → (a || (b || c)) ≡ (b || (a || c))
or_swap true b c = sym (or_true b)
or_swap false b c = refl

or_false : (a : Bool) → (a || false) ≡ a
or_false true = refl
or_false false = refl

and_false : (a : Bool) → (a && false) ≡ false
and_false true = refl
and_false false = refl

skip_or : (a r : Bool) → (not a && r) ≡ (not a && (a || r))
skip_or true r = refl
skip_or false r = refl

or_twice : (a r : Bool) → (a || r) ≡ (a || (a || r))
or_twice true r = refl
or_twice false r = refl

has-append :
    (x j : Text) (xs : List Text) → has_by same x (xs ++ (j ∷ [])) ≡ (same j x || has_by same x xs)
unfolding has_by
has-append x j [] = refl
has-append x j (y ∷ ys) =
    ap (λ b. same y x || b) (has-append x j ys) ∙ or_swap (same y x) (same j x) (has_by same x ys)

has_same :
    (x j : Text) (xs : List Text)
    → has_by same j xs ≡ true
    → has_by same x xs ≡ (same j x || has_by same x xs)
has_same x j xs h = elim (Bool-cases (same j x)) [
  | inl e ↦
      ap (λ z. has_by same z xs) (sym (same→eq j x e)) ∙ h ∙ sym (ap (λ b. b || has_by same x xs) e)
  | inr e ↦ sym (ap (λ b. b || has_by same x xs) e)
]

pub has-push_new :
    (x j : Text) (xs : List Text) → has_by same x (push_new j xs) ≡ (same j x || has_by same x xs)
has-push_new x j xs = elim (Bool-cases (has_by same j xs)) [
  | inl h ↦ rw h (has_same x j xs h)
  | inr h ↦ rw h (has-append x j xs)
]

drop_head :
    (x j y : Text) (rest : Bool)
    → same j y ≡ false
    → (same y x || (not (same j x) && rest)) ≡ (not (same j x) && (same y x || rest))
drop_head x j y rest h = elim (Bool-cases (same y x)) [
  | inl e ↦ rw (e, ap (same j) (sym (same→eq y x e)) ∙ h) refl
  | inr e ↦ rw e refl
]

pub has-drop_text :
    (x j : Text) (xs : List Text)
    → has_by same x (drop_text j xs) ≡ (not (same j x) && has_by same x xs)
unfolding has_by
has-drop_text x j [] = sym (and_false (not (same j x)))
has-drop_text x j (y ∷ ys) = elim (Bool-cases (same j y)) [
  | inl h ↦ rw h (
      has-drop_text x j ys
      ∙ skip_or (same j x) (has_by same x ys)
      ∙ ap (λ b. not (same j x) && (b || has_by same x ys)) (ap (λ z. same z x) (same→eq j y h)))
  | inr h ↦
      rw h (ap (λ b. same y x || b) (has-drop_text x j ys) ∙ drop_head x j y (has_by same x ys) h)
]

has-add_by :
    (x j : Text) (xs : List Text)
    → has_by same x (add_by same j xs) ≡ (same j x || has_by same x xs)
unfolding has_by add_by
has-add_by x j [] = refl
has-add_by x j (y ∷ ys) = elim (Bool-cases (same y j)) [
  | inl h ↦ rw h (
      or_twice (same y x) (has_by same x ys)
      ∙ ap (λ b. b || (same y x || has_by same x ys)) (ap (λ z. same z x) (same→eq y j h)))
  | inr h ↦ rw h (
      ap (λ b. same y x || b) (has-add_by x j ys)
      ∙ or_swap (same y x) (same j x) (has_by same x ys))
]

pub has-distinct :
    (x : Text) (seen xs : List Text)
    → has_by same x (distinct seen xs) ≡ (has_by same x seen || has_by same x xs)
unfolding distinct has_by
has-distinct x seen [] = sym (or_false (has_by same x seen))
has-distinct x seen (y ∷ ys) =
    has-distinct x (add_by same y seen) ys
    ∙ ap (λ b. b || has_by same x ys) (has-add_by x y seen)
    ∙ or_assoc (same y x) (has_by same x seen) (has_by same x ys)
    ∙ or_swap (same y x) (has_by same x seen) (has_by same x ys)
