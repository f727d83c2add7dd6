-- ===== src/Classrooms/Codes.antt =====
-- The codes of classrooms in apps/control/src/classrooms.ts: `createClassroom`, the search for a live
-- classroom and `endClassroom`, on the rows of the table, the newest first. The clock does not go
-- back, and a new id was never used.
pub mod Distinct
mod Tests
use code_runner.Prelude.{
  ℕ, zero, suc, ◌+◌, ◌*◌, List, [], ◌∷◌, Option, none, some, Bool, true, false, ◌&&◌, ◌||◌, not,
  if◌then◌else◌, ltb, ◌==◌, is_some,
}

pub record ClassroomRow : Type 0 where
  pub id : ℕ
  pub code : ℕ
  pub created_by : ℕ
  pub created_at : ℕ
  pub expires_at : ℕ
  pub ended_at : Option ℕ

pub record Table : Type 0 where
  pub rows : List ClassroomRow
  pub next_id : ℕ
  pub now : ℕ

abbrev pub empty_table : Table
empty_table = record { rows = []; next_id = 0; now = 0 }

-- `ended_at IS NULL AND expires_at > ?`
unfoldable pub is_live : ℕ → ClassroomRow → Bool
is_live now row = not (is_some row.ended_at) && ltb now row.expires_at

-- `findLiveClassroomByCode`
unfoldable pub find_live_classroom_by_code : ℕ → ℕ → List ClassroomRow → Option ClassroomRow
unfolding is_live
find_live_classroom_by_code code now [] = none
find_live_classroom_by_code code now (row ∷ rows) =
    let rest = find_live_classroom_by_code code now rows in
    if (row.code == code) && is_live now row then some row else rest

abbrev pub insert_row : ℕ → ℕ → ℕ → Table → Table
insert_row created_by duration_minutes code t = record {
  rows =
      record {
        id = t.next_id;
        code = code;
        created_by = created_by;
        created_at = t.now;
        expires_at = t.now + duration_minutes * 60000;
        ended_at = none;
      }
      ∷ t.rows;
  next_id = suc t.next_id;
  now = t.now;
}

-- The loop over the attempts, with the codes that the generator gives; the flag is false where it
-- throws.
unfoldable pub attempt : ℕ → ℕ → ℕ → (ℕ → ℕ) → ℕ → Table → Table × Bool
unfolding find_live_classroom_by_code
attempt zero created_by duration_minutes codes tried t = (t, false)
attempt (suc left) created_by duration_minutes codes tried t =
    let rest = attempt left created_by duration_minutes codes (suc tried) t in
    if is_some (find_live_classroom_by_code (codes tried) t.now t.rows)
    then rest
    else (insert_row created_by duration_minutes (codes tried) t, true)

unfoldable pub create_classroom : ℕ → ℕ → (ℕ → ℕ) → Table → Table × Bool
unfolding attempt
create_classroom created_by duration_minutes codes t =
    attempt 20 created_by duration_minutes codes 0 t

abbrev end_row : ℕ → ClassroomRow → ClassroomRow
end_row now row = if is_some row.ended_at then row else record row { ended_at = some now }

-- `endClassroom`
unfoldable pub end_rows : ℕ → ℕ → List ClassroomRow → List ClassroomRow
end_rows id now [] = []
end_rows id now (row ∷ rows) =
    let rest = end_rows id now rows in if row.id == id then end_row now row ∷ rest else row ∷ rest

pub data TableEvent : Type 0 where
  passes ends : ℕ → TableEvent
  creates : ℕ → ℕ → (ℕ → ℕ) → TableEvent

unfoldable pub table_step : TableEvent → Table → Table
unfolding create_classroom end_rows
table_step (passes time) t = record t { now = t.now + time }
table_step (ends id) t = record t { rows = end_rows id t.now t.rows }
table_step (creates created_by duration_minutes codes) t =
    (create_classroom created_by duration_minutes codes t).0

unfoldable pub table_run : List TableEvent → Table → Table
unfolding table_step
table_run [] t = t
table_run (e ∷ es) t = table_run es (table_step e t)
