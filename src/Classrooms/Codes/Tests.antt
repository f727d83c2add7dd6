-- ===== src/Classrooms/Codes/Tests.antt =====
-- Two classrooms whose generator gives the same code first.
use code_runner.Prelude.{ℕ, List, [], ◌∷◌, ◌≡◌, refl, arith, ◌+◌, map}
use code_runner.Classrooms.Codes.{
  empty_table, find_live_classroom_by_code, create_classroom, TableEvent, passes, ends, creates,
  table_run,
}
use code_runner.Classrooms.Codes.Distinct.{
  AllDistinct, AllOther, Made, table_run-AllDistinct, create_classroom-finds,
}

abbrev generator : ℕ → ℕ
generator n = 123456 + n

abbrev events : List TableEvent
events =
    creates 1 60 generator
    ∷ passes 10
    ∷ creates 2 60 generator
    ∷ ends 0
    ∷ creates 3 60 generator
    ∷ []

codes_given :
    map (λ row. row.code) (table_run events empty_table).rows ≡ 123456 ∷ 123457 ∷ 123456 ∷ []
unfolding table_run find_live_classroom_by_code
codes_given = refl

table_run-AllDistinct_example :
    AllDistinct (table_run events empty_table).now (table_run events empty_table).rows
table_run-AllDistinct_example = table_run-AllDistinct events

free_code :
    AllOther (generator 2) (table_run events empty_table).now (table_run events empty_table).rows
unfolding table_run find_live_classroom_by_code
free_code = (refl, (refl, (refl, tt)))

create_classroom-finds_example :
    Made 4 60 generator
      (table_run events empty_table)
      (create_classroom 4 60 generator (table_run events empty_table))
create_classroom-finds_example =
    create_classroom-finds 4 60 generator 2 (table_run events empty_table) (omega arith) free_code
