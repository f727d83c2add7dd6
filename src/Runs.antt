-- ===== src/Runs.antt =====
-- apps/control/src/runs.ts: the RunManager, with the table of runs that it writes through
-- apps/control/src/storage.ts. Jobs are objects that pending callbacks keep hold of, so they stand
-- on a heap by their id; ids are drawn in order, as random ids that never repeat would be.
pub mod Lines
pub mod Jobs
pub mod Life
pub mod Invariant
pub mod Current
pub mod Ending
mod Tests
use code_runner.Prelude.{
  ℕ, suc, ◌+◌, String, List, [], ◌∷◌, ◌++◌, Option, none, some, Bool, true, false, ◌&&◌, ◌||◌, not,
  if◌then◌else◌, is_some, or_else, get, put, delete, has, add, remove, ◌==◌, map,
}

pub data SimRunMode : Type 0 where
  run debug build : SimRunMode

-- The states of a job are `building`, `running`, `failed` and `stopped`.
pub data SimRunStatus : Type 0 where
  idle building running stopping stopped failed error : SimRunStatus

pub data LogStream : Type 0 where
  stdout stderr sim : LogStream

-- `hello` with no run is "idle"; a line is a list of character codes.
pub data RunServerMessage : Type 0 where
  hello : Option ℕ → RunServerMessage
  status : SimRunStatus → RunServerMessage
  log : LogStream → List ℕ → RunServerMessage
  exit : Option ℕ → Option String → RunServerMessage
  error : String → RunServerMessage

-- Where the asynchronous `runJob` of a job stands: it waits for the container, for the command to
-- exit, for the error line to be written, or has returned.
pub data Phase : Type 0 where
  preparing executing reporting returned : Phase

-- `phase` and `timing_out` say what the job's pending callbacks will do; the rest are its fields.
pub record RunJob : Type 0 where
  pub workspace : ℕ
  pub mode : SimRunMode
  pub state : SimRunStatus
  pub clients : List ℕ
  pub command : Bool
  pub canceled : Bool
  pub reported_running : Bool
  pub build_slot_held : Bool
  pub finished : Bool
  pub readiness_timer : Option ℕ
  pub build_started_at_ms : Option ℕ
  pub running_since_ms : Option ℕ
  pub phase : Phase
  pub timing_out : Bool

pub record RunSnapshot : Type 0 where
  pub status : SimRunStatus
  pub run_id : Option ℕ

pub record RunJobRow : Type 0 where
  pub workspace_id : ℕ
  pub state : SimRunStatus
  pub started_at : Option ℕ
  pub finished_at : Option ℕ
  pub exit_code : Option ℕ

pub data TerminalStatus : Type 0 where
  canceled : TerminalStatus
  ended : SimRunStatus → TerminalStatus

-- What is asked of the container: to stop the simulator of a workspace, or to end a run's command.
pub data Effect : Type 0 where
  stop_sim kill : ℕ → Effect

pub record RunManager : Type 0 where
  pub run_build_timeout_ms : ℕ
  pub sim_startup_timeout_ms : ℕ
  pub jobs : ℕ → Option RunJob
  pub active_builds : List ℕ
  pub jobs_by_workspace : List (ℕ × ℕ)
  pub last_status : List (ℕ × RunSnapshot)
  pub last_mode : List (ℕ × SimRunMode)
  pub connections : List (ℕ × List ℕ)
  pub rows : List (ℕ × RunJobRow)
  pub next_id : ℕ
  pub clock : ℕ
  pub sent : List (ℕ × RunServerMessage)
  pub runs_total : List (ℕ × TerminalStatus)
  pub effects : List Effect

abbrev pub set_job : ℕ → RunJob → RunManager → RunManager
set_job id j m = record m { jobs = λ k. if id == k then some j else m.jobs k }

-- `this.jobsByWorkspace.get(job.workspace.id)?.id === job.id`
unfoldable pub is_current_job : ℕ → RunJob → RunManager → Bool
is_current_job id j m = elim (get j.workspace m.jobs_by_workspace) [
  | none ↦ false
  | some k ↦ k == id
]

pub send : ℕ → RunServerMessage → RunManager → RunManager
send c message m = record m { sent = m.sent ++ (c, message) ∷ [] }

unfoldable pub broadcast : RunJob → RunServerMessage → RunManager → RunManager
broadcast j message m = record m { sent = m.sent ++ map (λ c. (c, message)) j.clients }

unfoldable pub remember_status : ℕ → SimRunStatus → Option ℕ → RunManager → RunManager
remember_status w s id m = record m {
  last_status = put w (record { status = s; run_id = id }) m.last_status;
}

-- `flags` of `setJobState`
pub record Flags : Type 0 where
  pub started : Bool
  pub finished : Bool
  pub exit_code : Option (Option ℕ)

abbrev kept_or : Bool → Option ℕ → ℕ → Option ℕ
kept_or b old now = if b then some (or_else old now) else old

abbrev pub updated_row : SimRunStatus → Flags → ℕ → RunJobRow → RunJobRow
updated_row s flags now r = record r {
  state = s;
  started_at = kept_or flags.started r.started_at now;
  finished_at = kept_or flags.finished r.finished_at now;
  exit_code = or_else flags.exit_code r.exit_code;
}

-- `updateRunJob`; the flag is false when it throws, since the run has no row. The deletion of a user
-- takes the rows away, also under a live job.
unfoldable pub update_run_job : ℕ → SimRunStatus → Flags → RunManager → RunManager × Bool
update_run_job id s flags m = elim (get id m.rows) [
  | none ↦ (m, false)
  | some r ↦ (record m { rows = put id (updated_row s flags m.clock r) m.rows }, true)
]

-- `DELETE FROM run_jobs WHERE workspace_id = ?`
unfoldable pub delete_rows : ℕ → List (ℕ × RunJobRow) → List (ℕ × RunJobRow)
delete_rows w [] = []
delete_rows w ((id, r) ∷ rows) =
    if r.workspace_id == w then delete_rows w rows else (id, r) ∷ delete_rows w rows

-- `setJobState`, for the job as it stands; the flag is false when it throws.
unfoldable pub set_job_state : ℕ → RunJob → SimRunStatus → Flags → RunManager → RunManager × Bool
unfolding update_run_job is_current_job remember_status
set_job_state id j s flags m =
    let (stored, written) = update_run_job id s flags (set_job id (record j { state = s }) m) in
    (
      if written && is_current_job id j stored
          then remember_status j.workspace s (some id) stored
          else stored,
      written,
    )

abbrev pub without_slot : RunJob → RunJob
without_slot j = record j { build_slot_held = false; readiness_timer = none }

unfoldable pub release_build_slot : ℕ → RunJob → RunManager → RunManager
release_build_slot id j m =
    let timerless : RunJob = record j { readiness_timer = none } in
    if j.build_slot_held
    then record (set_job id (without_slot j) m) { active_builds = remove id m.active_builds }
    else set_job id timerless m

abbrev pub terminal_status : RunJob → SimRunStatus → TerminalStatus
terminal_status j s = if j.canceled then canceled else ended s

-- `this.jobsByWorkspace.delete`, if the job is the current one.
unfoldable pub drop_current : ℕ → RunJob → RunManager → RunManager
unfolding is_current_job
drop_current id j m =
    if is_current_job id j m
    then record m { jobs_by_workspace = delete j.workspace m.jobs_by_workspace }
    else m

-- `finishJob` from the result of `setJobState` on, which may have thrown. The run's running time is
-- a metric that is not modelled.
unfoldable pub tell_end :
    ℕ → RunJob → SimRunStatus → Option ℕ → Option String → RunManager × Bool → RunManager × Bool
unfolding remember_status broadcast drop_current is_current_job
tell_end id j s code signal (stated, false) = (stated, false)
tell_end id j s code signal (stated, true) =
    let remembered =
      if is_current_job id j stated
      then remember_status j.workspace s (some id) stated
      else stated in
    let told = broadcast j (exit code signal) (broadcast j (status s) remembered) in
    let counted = record told { runs_total = told.runs_total ++ (id, terminal_status j s) ∷ [] } in
    (drop_current id j counted, true)

-- `finishJob` past its guard; the flag is false when it throws.
unfoldable pub end_job :
    ℕ → RunJob → SimRunStatus → Option ℕ → Option String → RunManager → RunManager × Bool
unfolding release_build_slot set_job_state tell_end
end_job id j s code signal m =
    let freed = release_build_slot id (record j { finished = true }) m in
    let j' : RunJob = record (without_slot j) { finished = true } in
    let flags : Flags = record { started = false; finished = true; exit_code = some code } in
    tell_end id j' s code signal (set_job_state id j' s flags freed)

unfoldable pub finish_job :
    ℕ → RunJob → SimRunStatus → Option ℕ → Option String → RunManager → RunManager × Bool
unfolding end_job
finish_job id j s code signal m = if j.finished then (m, true) else end_job id j s code signal m
