-- ===== src/Classrooms/Cleanup/Tidy.antt =====
-- What holds of a classroom at every step, in apps/control/src/classroom-sweeper.ts, and the steps
-- that keep it.
use code_runner.Prelude.{
  ◌⊎◌, ℕ, List, [], ◌∷◌, some, Bool, true, false, ◌||◌, if◌then◌else◌, ◌==◌, is_some, get, delete,
  has, get-delete, ◌≡◌, refl, sym, ap, ◌∙◌, inl, inr, Bool-cases, arith,
}
use code_runner.Classrooms.Cleanup.{Cleanup, settling, deleting, Room, is_classroom_live}

pub if-true {ℓ} : {A : Type ℓ} {t : Bool} {x : A} (y : A) → t ≡ true → (if t then x else y) ≡ x
if-true {t} {x} y e = rw e refl

pub if-false {ℓ} : {A : Type ℓ} {t : Bool} {y : A} (x : A) → t ≡ false → (if t then x else y) ≡ y
if-false {t} {y} x e = rw e refl

-- What a cleanup that is at work relies on.
abbrev pub IsUnderWay : Room → Cleanup → Type 0
IsUnderWay r settling = is_classroom_live r ≡ false
IsUnderWay r (deleting users) =
    (is_classroom_live r ≡ false)
    × (r.in_flight_joins ≡ [])
    × ((g : ℕ) → has g r.guests ≡ true → has g users ≡ true)

pub record IsTidy (r : Room) : Type 0 where
  pub under_way : (k : ℕ) (c : Cleanup) → get k r.cleanups ≡ some c → IsUnderWay r c
  pub cleaned :
      is_some r.cleaned_at ≡ true
      → (is_classroom_live r ≡ false) × (r.in_flight_joins ≡ []) × (r.guests ≡ [])

-- A step that brings no life, no join and no guest, and starts no cleanup.
pub record Calmer (r s : Room) : Type 0 where
  pub live : is_classroom_live r ≡ false → is_classroom_live s ≡ false
  pub no_joins : is_classroom_live r ≡ false → r.in_flight_joins ≡ [] → s.in_flight_joins ≡ []
  pub fewer :
      is_classroom_live r ≡ false
      → r.in_flight_joins ≡ []
      → (g : ℕ) → has g s.guests ≡ true
      → has g r.guests ≡ true

pub ==-same : (n : ℕ) → (n == n) ≡ true
==-same n = ground arith

pub no_members : (xs : List ℕ) → ((g : ℕ) → has g xs ≡ true → has g [] ≡ true) → xs ≡ []
unfolding has
no_members [] h = refl
no_members (x ∷ xs) h = let clash = h x (ap (λ b. b || has x xs) (==-same x)) in cc

Calmer-IsUnderWay : (r s : Room) (c : Cleanup) → Calmer r s → IsUnderWay r c → IsUnderWay s c
Calmer-IsUnderWay r s settling calm h = calm.live h
Calmer-IsUnderWay r s (deleting users) calm (dead, alone, listed) =
    (calm.live dead, calm.no_joins dead alone, λ g there. listed g (calm.fewer dead alone g there))

Calmer-cleaned :
    (r s : Room)
    → Calmer r s
    → (is_classroom_live r ≡ false) × (r.in_flight_joins ≡ []) × (r.guests ≡ [])
    → (is_classroom_live s ≡ false) × (s.in_flight_joins ≡ []) × (s.guests ≡ [])
Calmer-cleaned r s calm (dead, alone, gone) = (
  calm.live dead,
  calm.no_joins dead alone,
  no_members s.guests (λ g there. sym (ap (has g) gone) ∙ calm.fewer dead alone g there),
)

abbrev pub IsOver : Room → Type 0
IsOver r = (is_classroom_live r ≡ false) × (r.in_flight_joins ≡ []) × (r.guests ≡ [])

-- A calmer room, whose cleanups were at work before or are as they should be, and which was cleaned
-- before or is over.
pub IsTidy-step :
    (r s : Room)
    → Calmer r s
    → ((k : ℕ) (c : Cleanup)
        → get k s.cleanups ≡ some c
        → (get k r.cleanups ≡ some c) ⊎ IsUnderWay s c)
    → (is_some s.cleaned_at ≡ true → (is_some r.cleaned_at ≡ true) ⊎ IsOver s)
    → IsTidy r
    → IsTidy s
IsTidy-step r s calm work clean tidy = record {
  under_way = λ k c h. elim (work k c h) [
    | inl old ↦ Calmer-IsUnderWay r s c calm (tidy.under_way k c old)
    | inr new ↦ new
  ];
  cleaned = λ h. elim (clean h) [
    | inl old ↦ Calmer-cleaned r s calm (tidy.cleaned old)
    | inr over ↦ over
  ];
}

-- The same cleanups, and no new mark.
pub IsTidy-quiet_step :
    (r s : Room)
    → Calmer r s
    → s.cleanups ≡ r.cleanups
    → s.cleaned_at ≡ r.cleaned_at
    → IsTidy r
    → IsTidy s
IsTidy-quiet_step r s calm e f tidy =
    IsTidy-step r s calm (λ k c h. inl (ap (get k) (sym e) ∙ h)) (λ h. inl (ap is_some (sym f) ∙ h))
      tidy

pub calm_as_it_is :
    (r s : Room)
    → is_classroom_live s ≡ is_classroom_live r
    → s.in_flight_joins ≡ r.in_flight_joins
    → s.guests ≡ r.guests
    → Calmer r s
calm_as_it_is r s e f g = record {
  live = λ h. e ∙ h;
  no_joins = λ h k. f ∙ k;
  fewer = λ h k x there. ap (has x) (sym g) ∙ there;
}

pub never : {t : Bool} → t ≡ true → t ≡ false → ⊥
never {t} h k = let clash = sym h ∙ k in cc

pub not_deleted :
    (k j : ℕ) (m : List (ℕ × Cleanup)) (c : Cleanup)
    → get j (delete k m) ≡ some c
    → get j m ≡ some c
not_deleted k j m c h = elim (Bool-cases (k == j)) [
  | inl e ↦ let clash = sym (if-true _ e) ∙ sym (get-delete k j m) ∙ h in cc
  | inr e ↦ sym (if-false _ e) ∙ sym (get-delete k j m) ∙ h
]
