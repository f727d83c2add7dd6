-- ===== src/Runs/Tests.antt =====
-- The manager on a concrete run: started, its command made, and then its exit.
use code_runner.Prelude.{
  Option, List, [], ◌∷◌, none, some, true, false, ◌≡◌, refl, get, put, has, add, ◌≤◌, ◌⊎◌,
}
use code_runner.Runs.{
  RunSnapshot, RunJob, RunManager, build, building, preparing, executing, reporting, stopped,
  failed,
}
use code_runner.Runs.Jobs.{start, cancel_workspace, get_workspace_snapshot}
use code_runner.Runs.Life.{
  Event, starts, prepared, exits, reported, command_made, no_runtime, step, execute, empty_manager,
}
use code_runner.Runs.Lines.{codes, consume}
use mathlib.Core.List.{flatten}
use code_runner.Runs.Lines.Chunks.{consume_one_piece}
use code_runner.Runs.Invariant.{IsSound, tally, has_row}
use code_runner.Runs.Invariant.Events.{execute-AllSettled, execute-IsSound, current-IsOpen}
use code_runner.Runs.Current.{IsCurrent, of_run, has_exited, superseded_run}
use code_runner.Runs.Ending.{IsOver, ended_as, exits-IsOver, reported-IsOver}

-- A line break that is cut between two chunks.
consume_one_piece_example :
    consume (codes "a\r" ∷ codes "\nb" ∷ []) []
    ≡ consume (flatten (codes "a\r" ∷ codes "\nb" ∷ []) ∷ []) []
consume_one_piece_example = consume_one_piece (codes "a\r" ∷ codes "\nb" ∷ [])

abbrev building_events : List Event
building_events = starts 7 (some 3) build ∷ prepared 0 command_made ∷ []

abbrev at_work : RunManager
at_work = execute building_events (empty_manager 1000 500)

abbrev working : RunJob
working = record {
  workspace = 7;
  mode = build;
  state = building;
  clients = 3 ∷ [];
  command = true;
  canceled = false;
  reported_running = false;
  build_slot_held = true;
  finished = false;
  readiness_timer = some 1000;
  build_started_at_ms = some 0;
  running_since_ms = none;
  phase = executing;
  timing_out = false;
}

working_there : at_work.jobs 0 ≡ some working
unfolding execute step start get put add
working_there = refl

current_there : get 7 at_work.jobs_by_workspace ≡ some 0
unfolding execute step start get put
current_there = refl

execute-IsSound_example :
    IsSound working
    × (has 0 at_work.active_builds ≡ true)
    × (tally 0 at_work.runs_total ≤ 0)
    × ((has_row 0 at_work ≡ false) ⊎ (tally 0 at_work.runs_total ≡ 0))
execute-IsSound_example = execute-IsSound 1000 500 building_events 0 working working_there

current-IsOpen_example :
    (j : RunJob) × (at_work.jobs 0 ≡ some j)
    × (j.workspace ≡ 7)
    × ((has_row 0 at_work ≡ false) ⊎ (j.finished ≡ false))
current-IsOpen_example = current-IsOpen 1000 500 building_events 7 0 current_there

at_work_row : has_row 0 at_work ≡ true
unfolding execute step start get put add
at_work_row = refl

exits-IsOver_example : IsOver 0 (ended_as working stopped) (step (exits 0 (some 0) none) at_work)
exits-IsOver_example =
    exits-IsOver 0 working (some 0) none at_work (execute-AllSettled 1000 500 building_events)
      working_there refl at_work_row

abbrev broken_events : List Event
broken_events = starts 7 (some 3) build ∷ prepared 0 no_runtime ∷ []

abbrev broken : RunManager
broken = execute broken_events (empty_manager 1000 500)

abbrev giving_up : RunJob
giving_up = record working { command = false; readiness_timer = none; phase = reporting }

giving_up_there : broken.jobs 0 ≡ some giving_up
unfolding execute step start get put add
giving_up_there = refl

broken_row : has_row 0 broken ≡ true
unfolding execute step start get put add
broken_row = refl

reported-IsOver_example : IsOver 0 (ended_as giving_up failed) (step (reported 0) broken)
reported-IsOver_example =
    reported-IsOver 0 giving_up broken (execute-AllSettled 1000 500 broken_events) giving_up_there
      refl broken_row

-- A second run of the same workspace, while the first is at work.
abbrev restarted : RunManager
restarted =
    execute (starts 7 none build ∷ prepared 0 command_made ∷ starts 7 none build ∷ [])
      (empty_manager 1000 500)

abbrev newer : RunJob
newer = record working { clients = []; command = false; readiness_timer = none; phase = preparing }

abbrev building_again : Option RunSnapshot
building_again = some (record { status = building; run_id = some 1 })

newer-IsCurrent : IsCurrent 0 1 7 newer building_again refl restarted
unfolding execute step start get put add cancel_workspace
newer-IsCurrent = record { job = refl; current_id = refl; remembered = refl }

superseded_run_example :
    (get_workspace_snapshot 7 (step (of_run 0 (has_exited (some 1) none)) restarted)
      ≡ get_workspace_snapshot 7 restarted)
    × IsCurrent 0 1 7 newer building_again refl
        (step (of_run 0 (has_exited (some 1) none)) restarted)
superseded_run_example =
    superseded_run 0 1 7 newer building_again refl (has_exited (some 1) none) restarted
      newer-IsCurrent
