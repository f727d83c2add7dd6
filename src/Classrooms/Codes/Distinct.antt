-- ===== src/Classrooms/Codes/Distinct.antt =====
-- No two live classrooms share a code, in apps/control/src/classrooms.ts.
use code_runner.Prelude.{
  ◌<◌, ℕ, zero, suc, ◌+◌, ◌*◌, not, ltb, List, [], ◌∷◌, Option, none, some, Bool, true, false, ◌&&◌,
  if◌then◌else◌, ◌==◌, is_some, ◌≡◌, refl, sym, ap, ◌∙◌, inl, inr, Bool-cases, Option-cases, arith,
}
use code_runner.Classrooms.Codes.{
  ClassroomRow, Table, empty_table, is_live, find_live_classroom_by_code, attempt, create_classroom,
  insert_row, end_row, end_rows, TableEvent, passes, ends, creates, table_step, table_run,
}

-- A live classroom is the only live one with its code among those made before it.
abbrev pub AllDistinct : ℕ → List ClassroomRow → Type 0
AllDistinct now [] = Unit
AllDistinct now (row ∷ rows) =
    (is_live now row ≡ true → find_live_classroom_by_code row.code now rows ≡ none)
    × AllDistinct now rows

-- Row by row the codes are the same, and what is live then was live now.
abbrev Fades : ℕ → ℕ → List ClassroomRow → List ClassroomRow → Type 0
Fades now then' [] [] = Unit
Fades now then' [] (s ∷ ss) = ⊥
Fades now then' (r ∷ rs) [] = ⊥
Fades now then' (r ∷ rs) (s ∷ ss) =
    (s.code ≡ r.code) × (is_live then' s ≡ true → is_live now r ≡ true) × Fades now then' rs ss

if-false {ℓ} : {A : Type ℓ} {t : Bool} {y : A} (x : A) → t ≡ false → (if t then x else y) ≡ y
if-false {t} {y} x e = rw e refl

none_head :
    (t : Bool) (row : ClassroomRow) (rest : Option ClassroomRow)
    → (if t then some row else rest) ≡ none
    → (t ≡ false) × (rest ≡ none)
none_head true row rest h = cc
none_head false row rest h = (refl, h)

-- A test fails where one that it implies does.
both_fail : (a b c : Bool) → (b ≡ true → c ≡ true) → (a && c) ≡ false → (a && b) ≡ false
both_fail true true c f h = sym (f refl) ∙ h
both_fail true false c f h = refl
both_fail false b c f h = refl

find-Fades :
    (code now then' : ℕ) (rs ss : List ClassroomRow)
    → Fades now then' rs ss
    → find_live_classroom_by_code code now rs ≡ none
    → find_live_classroom_by_code code then' ss ≡ none
unfolding find_live_classroom_by_code
find-Fades code now then' [] [] f h = refl
find-Fades code now then' [] (s ∷ ss) f h = absurd f
find-Fades code now then' (r ∷ rs) [] f h = absurd f
find-Fades code now then' (r ∷ rs) (s ∷ ss) (same_code, alive, f) h =
    let (fails_now, rest) =
      none_head ((r.code == code) && is_live now r) r (find_live_classroom_by_code code now rs) h in
    let fails_then =
      both_fail (s.code == code) (is_live then' s) (is_live now r) alive
        (ap (λ c. (c == code) && is_live now r) same_code ∙ fails_now) in
    if-false _ fails_then ∙ find-Fades code now then' rs ss f rest

AllDistinct-Fades :
    (now then' : ℕ) (rs ss : List ClassroomRow)
    → Fades now then' rs ss
    → AllDistinct now rs
    → AllDistinct then' ss
AllDistinct-Fades now then' [] [] f d = tt
AllDistinct-Fades now then' [] (s ∷ ss) f d = absurd f
AllDistinct-Fades now then' (r ∷ rs) [] f d = absurd f
AllDistinct-Fades now then' (r ∷ rs) (s ∷ ss) (same_code, alive, f) (alone, d) = (
  λ live.
      ap (λ c. find_live_classroom_by_code c then' ss) same_code
      ∙ find-Fades r.code now then' rs ss f (alone (alive live)),
  AllDistinct-Fades now then' rs ss f d,
)

later-Fades : (now time : ℕ) (rs : List ClassroomRow) → Fades now (now + time) rs rs
unfolding is_live
later-Fades now time [] = tt
later-Fades now time (r ∷ rs) = (refl, (λ h. ground arith), later-Fades now time rs)

end_row-code : (now : ℕ) (row : ClassroomRow) → (end_row now row).code ≡ row.code
end_row-code now row = elim (Bool-cases (is_some row.ended_at)) [
  | inl h ↦ rw h refl
  | inr h ↦ rw h refl
]

end_row-live :
    (now : ℕ) (row : ClassroomRow) → is_live now (end_row now row) ≡ true → is_live now row ≡ true
unfolding is_live
end_row-live now row = elim (Option-cases row.ended_at) [
  | inl h ↦ rw h (λ live. cc)
  | inr (t, h) ↦ rw h (λ live. cc)
]

end_rows-Fades : (id now : ℕ) (rs : List ClassroomRow) → Fades now now rs (end_rows id now rs)
unfolding end_rows
end_rows-Fades id now [] = tt
end_rows-Fades id now (r ∷ rs) = elim (Bool-cases (r.id == id)) [
  | inl h ↦ rw (h, end_rows) (end_row-code now r, end_row-live now r, end_rows-Fades id now rs)
  | inr h ↦ rw (h, end_rows) (refl, (λ live. live), end_rows-Fades id now rs)
]

absent : (o : Option ClassroomRow) → is_some o ≡ false → o ≡ none
absent none h = refl
absent (some row) h = cc

attempt-AllDistinct :
    (left created_by duration_minutes : ℕ) (codes : ℕ → ℕ) (tried : ℕ) (t : Table)
    → AllDistinct t.now t.rows
    → AllDistinct
        (attempt left created_by duration_minutes codes tried t).0.now
        (attempt left created_by duration_minutes codes tried t).0.rows
unfolding attempt
attempt-AllDistinct zero created_by duration_minutes codes tried t d = d
attempt-AllDistinct (suc left) created_by duration_minutes codes tried t d =
    elim (Bool-cases (is_some (find_live_classroom_by_code (codes tried) t.now t.rows))) [
      | inl h ↦
          rw (h, attempt)
            (attempt-AllDistinct left created_by duration_minutes codes (suc tried) t d)
      | inr h ↦
          rw (h, attempt)
            ((λ live. absent (find_live_classroom_by_code (codes tried) t.now t.rows) h), d)
    ]

table_step-AllDistinct :
    (e : TableEvent) (t : Table)
    → AllDistinct t.now t.rows
    → AllDistinct (table_step e t).now (table_step e t).rows
unfolding table_step create_classroom
table_step-AllDistinct (passes time) t d =
    AllDistinct-Fades t.now (t.now + time) t.rows t.rows (later-Fades t.now time t.rows) d
table_step-AllDistinct (ends id) t d =
    AllDistinct-Fades t.now t.now t.rows (end_rows id t.now t.rows) (end_rows-Fades id t.now t.rows)
      d
table_step-AllDistinct (creates created_by duration_minutes codes) t d =
    attempt-AllDistinct 20 created_by duration_minutes codes 0 t d

table_run_from-AllDistinct :
    (es : List TableEvent) (t : Table)
    → AllDistinct t.now t.rows
    → AllDistinct (table_run es t).now (table_run es t).rows
unfolding table_run
table_run_from-AllDistinct [] t d = d
table_run_from-AllDistinct (e ∷ es) t d =
    table_run_from-AllDistinct es (table_step e t) (table_step-AllDistinct e t d)

-- Whatever codes the generator gives: at any time, a live classroom is the only live one with its
-- code among those made up to it.
pub table_run-AllDistinct :
    (es : List TableEvent)
    → AllDistinct (table_run es empty_table).now (table_run es empty_table).rows
table_run-AllDistinct es = table_run_from-AllDistinct es empty_table tt

plus_zero : (n : ℕ) → n ≡ n + 0
plus_zero n = omega arith

zero_plus : (n : ℕ) → 0 + n ≡ n
zero_plus n = omega arith

plus_suc : (n k : ℕ) → suc n + k ≡ n + suc k
plus_suc n k = omega arith

-- No classroom among the rows has the code, has not been ended and expires later than `now`.
abbrev pub AllOther : ℕ → ℕ → List ClassroomRow → Type 0
AllOther code now [] = Unit
AllOther code now (row ∷ rows) =
    (((row.code == code) && (not (is_some row.ended_at) && ltb now row.expires_at)) ≡ false)
    × AllOther code now rows

find-AllOther :
    (code now : ℕ) (rows : List ClassroomRow)
    → AllOther code now rows
    → find_live_classroom_by_code code now rows ≡ none
unfolding find_live_classroom_by_code is_live
find-AllOther code now [] h = refl
find-AllOther code now (row ∷ rows) h = if-false _ h.0 ∙ find-AllOther code now rows h.1

-- The table has one row more, of a classroom with a code that the generator gave, which lasts for
-- the minutes that were asked for.
pub record IsMade (created_by duration_minutes : ℕ) (codes : ℕ → ℕ) (t c : Table) : Type 0 where
  pub made : ClassroomRow
  pub rows : c.rows ≡ made ∷ t.rows
  pub tried : ℕ
  pub code : made.code ≡ codes tried
  pub owner : made.created_by ≡ created_by
  pub expires : made.expires_at ≡ t.now + duration_minutes * 60000
  pub not_ended : made.ended_at ≡ none

inserted-IsMade :
    (created_by duration_minutes : ℕ) (codes : ℕ → ℕ) (tried : ℕ) (t : Table)
    → IsMade created_by duration_minutes codes t
        (insert_row created_by duration_minutes (codes tried) t)
inserted-IsMade created_by duration_minutes codes tried t = record {
  made = _;
  rows = refl;
  tried = tried;
  code = refl;
  owner = refl;
  expires = refl;
  not_ended = refl;
}

-- What `createClassroom` gives if it does not throw.
abbrev pub Made : ℕ → ℕ → (ℕ → ℕ) → Table → Table × Bool → Type 0
Made created_by duration_minutes codes t (c, outcome) =
    (outcome ≡ true) × IsMade created_by duration_minutes codes t c

attempt-finds :
    (left k created_by duration_minutes : ℕ) (codes : ℕ → ℕ) (tried : ℕ) (t : Table)
    → k < left
    → find_live_classroom_by_code (codes (tried + k)) t.now t.rows ≡ none
    → Made created_by duration_minutes codes t
        (attempt left created_by duration_minutes codes tried t)
unfolding attempt
attempt-finds zero k created_by duration_minutes codes tried t le free = absurd (omega arith)
attempt-finds (suc left) zero created_by duration_minutes codes tried t le free =
    rw
      (
        ap (λ n. is_some (find_live_classroom_by_code (codes n) t.now t.rows)) (plus_zero tried)
            ∙ ap is_some free,
        attempt,
      )
      (refl, inserted-IsMade created_by duration_minutes codes tried t)
attempt-finds (suc left) (suc k) created_by duration_minutes codes tried t le free =
    elim (Bool-cases (is_some (find_live_classroom_by_code (codes tried) t.now t.rows))) [
      | inl h ↦
          rw (h, attempt)
            (attempt-finds left k created_by duration_minutes codes (suc tried) t (omega arith) (
              ap (λ n. find_live_classroom_by_code (codes n) t.now t.rows) (plus_suc tried k)
              ∙ free))
      | inr h ↦ rw (h, attempt) (refl, inserted-IsMade created_by duration_minutes codes tried t)
    ]

-- If one of the first twenty codes that the generator gives belongs to no classroom that has not
-- been ended and has not expired, `createClassroom` does not throw, and the table gets one more row:
-- a classroom of the caller with a code of the generator, which lasts for the minutes asked for.
pub create_classroom-finds :
    (created_by duration_minutes : ℕ) (codes : ℕ → ℕ) (n : ℕ) (t : Table)
    → n < 20
    → AllOther (codes n) t.now t.rows
    → Made created_by duration_minutes codes t
        (create_classroom created_by duration_minutes codes t)
unfolding create_classroom
create_classroom-finds created_by duration_minutes codes n t le free =
    attempt-finds 20 n created_by duration_minutes codes 0 t le (
      ap (λ i. find_live_classroom_by_code (codes i) t.now t.rows) (zero_plus n)
      ∙ find-AllOther (codes n) t.now t.rows free)
