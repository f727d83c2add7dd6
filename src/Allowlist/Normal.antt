-- ===== src/Allowlist/Normal.antt =====
-- The entries that the lists of apps/control/src/auth/allowlist.ts hold are normalized.
use mathlib.Core.Path.{subst}
use code_runner.Prelude.{
  ℕ, List, [], ◌∷◌, Option, none, some, Bool, true, false, ◌&&◌, ◌||◌, ◌≡◌, refl, sym, ap, ◌∙◌, inl,
  inr, Bool-cases, if◌then◌else◌, or_else, ◌==◌, leb, length, arith,
}
use code_runner.Prelude.Texts.{split, grow, Text, same, same_refl, same→eq}
use code_runner.Prelude.Keyed.{has_by}
use code_runner.Allowlist.{
  Platform, Kind, email, domain, is_email, is_domain, normalize_entry, normalize_all, cons_both,
  drop_at, is_alnum, all_labels,
}
use code_runner.Allowlist.Members.{or_true}

-- The platform sorts without changing what is in a list, normalizes what is normalized to itself, and
-- keeps domains as they are, which are lower-case letters, digits, dashes and dots.
pub record IsPlatform (p : Platform) : Type 0 where
  pub sort_keeps : (x : Text) (xs : List Text) → has_by same x (p.sort xs) ≡ has_by same x xs
  pub once : (s : Text) → p.normalize (p.normalize s) ≡ p.normalize s
  pub plain : (s : Text) → is_domain s ≡ true → p.normalize s ≡ s

pub if_some : (t : Bool) (x y : Text) → (if t then some x else none) ≡ some y → (t ≡ true) × (x ≡ y)
if_some true x y h = (refl, ap (λ o. or_else o x) h)
if_some false x y h = cc

at_is_no_alnum : (c : ℕ) → (c == b'@') ≡ true → (is_alnum c ≡ false) × ((c == b'.') ≡ false)
at_is_no_alnum c h = (ground arith, ground arith)

grown_label : (c : ℕ) (parts : List Text) → is_alnum c ≡ false → all_labels (grow c parts) ≡ false
grown_label c [] h = rw h refl
grown_label c (part ∷ parts) h = rw h refl

and-false : (a b : Bool) → b ≡ false → (a && b) ≡ true → ⊥
and-false true b h e = let clash = sym e ∙ h in cc
and-false false b h e = cc

domain_no_at : (s : Text) → is_domain s ≡ true → drop_at s ≡ s
unfolding is_domain split
domain_no_at [] h = refl
domain_no_at (c ∷ s) h = elim (Bool-cases (c == b'@')) [
  | inl e ↦
      let (no_alnum, no_dot) = at_is_no_alnum c e in
      let parts : split b'.' (c ∷ s) ≡ grow c (split b'.' s) = rw no_dot refl in
      absurd (
        and-false (leb 2 (length (split b'.' (c ∷ s)))) (all_labels (split b'.' (c ∷ s)))
          (ap all_labels parts ∙ grown_label c (split b'.' s) no_alnum) h)
  | inr e ↦ rw e refl
]

pub if-true {ℓ} : {A : Type ℓ} {t : Bool} {x : A} (y : A) → t ≡ true → (if t then x else y) ≡ x
if-true {t} {x} y e = rw e refl

module _ (p : Platform) (platform : IsPlatform p) where
  pub normalize_entry_twice :
      (kind : Kind) (v x : Text)
      → normalize_entry p kind v ≡ some x
      → normalize_entry p kind x ≡ some x
  unfolding normalize_entry
  normalize_entry_twice email v x h =
      let (valid, same_text) = if_some (is_email (p.normalize v)) (p.normalize v) x h in
      let kept : p.normalize x ≡ x = ap p.normalize (sym same_text) ∙ platform.once v ∙ same_text in
      ap (λ z. if is_email z then some z else none) kept
      ∙ if-true none (ap is_email (sym same_text) ∙ valid)
  normalize_entry_twice domain v x h =
      let (valid, same_text) =
        if_some (is_domain (drop_at (p.normalize v))) (drop_at (p.normalize v)) x h in
      let is_valid : is_domain x ≡ true = ap is_domain (sym same_text) ∙ valid in
      let kept : drop_at (p.normalize x) ≡ x =
        ap drop_at (platform.plain x is_valid) ∙ domain_no_at x is_valid in
      ap (λ z. if is_domain z then some z else none) kept ∙ if-true none is_valid

  -- Lists of normal entries go through unchanged.
  pub normalize_all-normal :
      (kind : Kind) (xs : List Text)
      → ((x : Text) → has_by same x xs ≡ true → normalize_entry p kind x ≡ some x)
      → normalize_all p kind xs ≡ some xs
  unfolding normalize_all has_by
  normalize_all-normal kind [] normal = refl
  normalize_all-normal kind (x ∷ xs) normal =
      let first = normal x (ap (λ b. b || has_by same x xs) (same_refl x)) in
      let rest =
        normalize_all-normal kind xs
          (λ y h. normal y (ap (λ b. same x y || b) h ∙ or_true (same x y))) in
      ap (λ o. cons_both o (normalize_all p kind xs)) first ∙ ap (cons_both (some x)) rest

  -- What goes through is normal.
  AllNormal : Kind → Option (List Text) → Type 0
  AllNormal kind none = Unit
  AllNormal kind (some ys) =
      (y : Text) → has_by same y ys ≡ true → normalize_entry p kind y ≡ some y

  cons_both-AllNormal :
      (kind : Kind) (o : Option Text) (rest : Option (List Text))
      → ((x : Text) → o ≡ some x → normalize_entry p kind x ≡ some x)
      → AllNormal kind rest
      → AllNormal kind (cons_both o rest)
  unfolding AllNormal has_by
  cons_both-AllNormal kind none rest first others = tt
  cons_both-AllNormal kind (some x) none first others = tt
  cons_both-AllNormal kind (some x) (some ys) first others = λ y there.
      elim (Bool-cases (same x y)) [
        | inl e ↦
            ap (normalize_entry p kind) (sym (same→eq x y e))
            ∙ first x refl
            ∙ ap some (same→eq x y e)
        | inr e ↦ others y (sym (ap (λ b. b || has_by same y ys) e) ∙ there)
      ]

  normalize_all-AllNormal :
      (kind : Kind) (xs : List Text) → AllNormal kind (normalize_all p kind xs)
  unfolding normalize_all has_by AllNormal
  normalize_all-AllNormal kind [] = λ y there. cc
  normalize_all-AllNormal kind (x ∷ xs) =
      cons_both-AllNormal kind (normalize_entry p kind x) (normalize_all p kind xs)
        (normalize_entry_twice kind x) (normalize_all-AllNormal kind xs)

  pub normalize_all_result :
      (kind : Kind) (xs ys : List Text)
      → normalize_all p kind xs ≡ some ys
      → (y : Text) → has_by same y ys ≡ true
      → normalize_entry p kind y ≡ some y
  unfolding AllNormal
  normalize_all_result kind xs ys h = subst (AllNormal kind) h (normalize_all-AllNormal kind xs)
