-- ===== src/Runs/Life.antt =====
-- The life of a run in apps/control/src/runs.ts: `runJob`, the readiness timeout and `recordLog`,
-- each cut at its waits into the events between them, and the manager as a sequence of events.
use code_runner.Prelude.{
  ℕ, ◌+◌, String, List, [], ◌∷◌, Option, none, some, Bool, true, false, ◌&&◌, ◌||◌, not,
  if◌then◌else◌, is_some, get, ◌==◌,
}
use code_runner.Runs.{
  SimRunMode, debug, build, SimRunStatus, building, running, stopped, failed, LogStream, status,
  log, Phase, preparing, executing, reporting, returned, RunJob, RunJobRow, stop_sim, kill,
  RunManager, Flags, delete_rows, set_job, broadcast, remember_status, set_job_state,
  update_run_job, release_build_slot, finish_job,
}
use code_runner.Runs.Jobs.{
  no_flags, connect, disconnect, effect, cancel_workspace, start, fail_later,
}
use code_runner.Runs.Lines.{Text, line_looks_ready, waits_for_debugger}

-- A job as it stands.
unfoldable pub with_job : ℕ → (RunJob → RunManager → RunManager) → RunManager → RunManager
with_job id f m = elim (m.jobs id) [ none ↦ m | some j ↦ f j m ]

abbrev pub is_build : SimRunMode → Bool
is_build build = true
is_build _ = false

abbrev pub is_debug : SimRunMode → Bool
is_debug debug = true
is_debug _ = false

-- The end of `runJob` on every path: the `finally` block.
unfoldable pub return_job : ℕ → RunManager → RunManager
unfolding with_job release_build_slot
return_job id m = with_job id (λ j. release_build_slot id (record j { phase = returned })) m

-- How the wait for the container ends: it runs and the command is made; it does not run, or the
-- wait fails; or it runs and the command cannot be made.
pub data Prepared : Type 0 where
  command_made no_runtime no_command : Prepared

abbrev pub readiness_timeout : SimRunMode → RunManager → ℕ
readiness_timeout mode m =
    if is_build mode
    then m.run_build_timeout_ms
    else m.run_build_timeout_ms + m.sim_startup_timeout_ms

-- After `finishJob` in the `try` block: the end, or the `catch` block if it threw.
unfoldable pub end_or_fail : ℕ → RunManager × Bool → RunManager
unfolding return_job with_job
end_or_fail id (m, true) = return_job id m
end_or_fail id (m, false) = with_job id (fail_later id) m

-- The check between the wait and the command. That the job is about to return is noted already.
abbrev pub unless_canceled : ℕ → RunJob → RunManager → RunManager → RunManager
unless_canceled id j go m =
    if j.canceled
    then end_or_fail id (finish_job id (record j { phase = returned }) stopped none none m)
    else go

-- `runJob` from the end of its first wait to the next.
unfoldable pub prepare : Prepared → ℕ → RunJob → RunManager → RunManager
unfolding end_or_fail finish_job
prepare no_runtime id j m = fail_later id j m
prepare no_command id j m = unless_canceled id j (fail_later id j m) m
prepare command_made id j m =
    let made : RunJob = record j {
      command = true;
      readiness_timer = some (readiness_timeout j.mode m);
      phase = executing;
    } in
    unless_canceled id j (set_job id made m) m

abbrev pub is_zero : Option ℕ → Bool
is_zero none = false
is_zero (some n) = n == 0

abbrev pub exit_status : RunJob → Option ℕ → SimRunStatus
exit_status j code =
    if j.canceled
    then stopped
    else if is_zero code && (j.reported_running || is_build j.mode)
    then stopped
    else failed

-- `runJob` from the exit of the command, its output read, to the end.
unfoldable pub exit_command : Option ℕ → Option String → ℕ → RunJob → RunManager → RunManager
unfolding end_or_fail finish_job
exit_command code signal id j m =
    end_or_fail id
      (finish_job id j (exit_status j code) (if j.canceled then none else code) signal m)

-- The `catch` block of `runJob`, after its line is written; the `finally` block follows also if
-- `finishJob` throws.
unfoldable pub report : ℕ → RunJob → RunManager → RunManager
unfolding return_job finish_job
report id j m =
    return_job id (finish_job id j (if j.canceled then stopped else failed) none none m).0

-- `timeoutBeforeReadiness` up to its wait, and after it.
unfoldable pub time_out : ℕ → RunJob → RunManager → RunManager
time_out id j m =
    if j.finished || j.reported_running
    then m
    else set_job id (record j { canceled = true; timing_out = true }) m

unfoldable pub after_timeout : ℕ → RunJob → RunManager → RunManager
unfolding finish_job
after_timeout id j m =
    let settled : RunJob = record j { timing_out = false } in
    let killed = set_job id settled (if j.command then effect (kill id) m else m) in
    (finish_job id settled failed none none killed).0

-- The two steps that `recordLog` takes after the line is on disk and sent.
unfoldable pub debugger_waits : Text → ℕ → RunJob → RunManager → RunManager
unfolding release_build_slot
debugger_waits line id j m =
    if is_debug j.mode && not j.finished && j.build_slot_held && waits_for_debugger line
    then release_build_slot id j m
    else m

unfoldable pub report_running : ℕ → RunJob → RunManager → RunManager
unfolding set_job_state broadcast with_job release_build_slot
report_running id j m =
    let on : RunJob = record j { reported_running = true; running_since_ms = some m.clock } in
    let (stated, written) = set_job_state id on running no_flags (set_job id on m) in
    if written
    then with_job id (release_build_slot id) (broadcast j (status running) stated)
    else stated

unfoldable pub looks_ready : Text → RunJob → Bool
looks_ready line j =
    not (is_build j.mode)
    && not j.finished
    && not j.canceled
    && not j.reported_running
    && line_looks_ready line

unfoldable pub becomes_ready : Text → ℕ → RunJob → RunManager → RunManager
unfolding report_running looks_ready
becomes_ready line id j m = if looks_ready line j then report_running id j m else m

unfoldable pub record_log : LogStream → Text → ℕ → RunJob → RunManager → RunManager
unfolding debugger_waits becomes_ready with_job broadcast
record_log stream line id j m =
    with_job id (becomes_ready line id) (debugger_waits line id j (broadcast j (log stream line) m))

-- `reconcileOrphanedRuns`: the loop over the rows that are unfinished in the table.
unfoldable pub is_orphan : RunJobRow → Bool
is_orphan r = elim r.finished_at [
  | some t ↦ false
  | none ↦ elim r.state [ building ↦ true | running ↦ true | _ ↦ false ]
]

-- The flag is false when `updateRunJob` throws, which ends the loop.
unfoldable pub stop_orphan : ℕ → RunJobRow → RunManager → RunManager × Bool
unfolding update_run_job remember_status
stop_orphan id r m =
    let flags : Flags = record { started = false; finished = true; exit_code = some none } in
    let (updated, written) = update_run_job id stopped flags m in
    if written
    then (
      effect (stop_sim r.workspace_id) (remember_status r.workspace_id stopped (some id) updated),
      true,
    )
    else (updated, false)

abbrev pub is_left : RunJobRow → RunManager → Bool
is_left r m = is_orphan r && not (is_some (get r.workspace_id m.jobs_by_workspace))

unfoldable pub reconcile_rows : List (ℕ × RunJobRow) → RunManager → RunManager
unfolding is_orphan stop_orphan
reconcile_rows [] m = m
reconcile_rows ((id, r) ∷ rest) m =
    let (stopped_one, written) = if is_left r m then stop_orphan id r m else (m, true) in
    let others = reconcile_rows rest stopped_one in if written then others else stopped_one

-- `deletes`: the rows of a workspace are deleted with its user
-- (apps/control/src/user-deletion.ts). `breaks`: the wait for a command's exit or for the rest of its output fails.
pub data Event : Type 0 where
  connects disconnects : ℕ → ℕ → Event
  starts : ℕ → Option ℕ → SimRunMode → Event
  stops : ℕ → Event
  reconciles : Event
  prepared : ℕ → Prepared → Event
  exits : ℕ → Option ℕ → Option String → Event
  breaks reported : ℕ → Event
  times_out : ℕ → Event
  timeout_logged : ℕ → Event
  logs : ℕ → LogStream → Text → Event
  passes : ℕ → Event
  deletes : ℕ → Event

-- An event that the job is not waiting for does not happen.
abbrev pub in_phase : Phase → Phase → Bool
in_phase preparing preparing = true
in_phase executing executing = true
in_phase reporting reporting = true
in_phase returned returned = true
in_phase _ _ = false

unfoldable pub waiting_at : Phase → ℕ → (RunJob → RunManager → RunManager) → RunManager → RunManager
unfolding with_job
waiting_at p id f m = with_job id (λ j n. if in_phase p j.phase then f j n else n) m

unfoldable pub step : Event → RunManager → RunManager
unfolding waiting_at prepare exit_command report time_out after_timeout record_log reconcile_rows
    delete_rows
step (connects w c) m = connect w c m
step (disconnects w c) m = disconnect w c m
step (starts w c mode) m = start w c mode m
step (stops w) m = (cancel_workspace w m).0
step reconciles m = reconcile_rows m.rows m
step (prepared id how) m = waiting_at preparing id (prepare how id) m
step (exits id code signal) m = waiting_at executing id (exit_command code signal id) m
step (breaks id) m = waiting_at executing id (fail_later id) m
step (reported id) m = waiting_at reporting id (report id) m
step (times_out id) m =
    with_job id (λ j n. if is_some j.readiness_timer then time_out id j n else n) m
step (timeout_logged id) m = with_job id (λ j n. if j.timing_out then after_timeout id j n else n) m
step (logs id stream line) m = with_job id (record_log stream line id) m
step (passes ms) m = record m { clock = m.clock + ms }
step (deletes w) m = record m { rows = delete_rows w m.rows }

unfoldable pub execute : List Event → RunManager → RunManager
execute [] m = m
execute (e ∷ es) m = execute es (step e m)

-- A manager that has just been made, with its two configured times.
abbrev pub empty_manager : ℕ → ℕ → RunManager
empty_manager build_ms startup_ms = record {
  run_build_timeout_ms = build_ms;
  sim_startup_timeout_ms = startup_ms;
  jobs = λ id. none;
  active_builds = [];
  jobs_by_workspace = [];
  last_status = [];
  last_mode = [];
  connections = [];
  rows = [];
  next_id = 0;
  clock = 0;
  sent = [];
  runs_total = [];
  effects = [];
}
