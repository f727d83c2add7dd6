-- ===== src/Runs/Invariant/Events.antt =====
-- The events of a run keep the manager's jobs settled; so does any sequence of calls and events.
use code_runner.Prelude.{
  ℕ, String, List, [], ◌∷◌, Option, none, some, true, false, ◌≡◌, refl, inl, inr, arith, Bool-cases,
  is_some, if◌then◌else◌, ◌&&◌, ◌||◌, not, get, has, ◌≤◌, ◌⊎◌,
}
use code_runner.Runs.{
  RunJob, RunManager, running, stopped, failed, LogStream, preparing, executing, reporting,
  returned, set_job, set_job_state, broadcast, status, log, release_build_slot, finish_job, end_job,
  kill,
}
use code_runner.Runs.Jobs.{no_flags, effect, fail_later}
use code_runner.Runs.Life.{
  with_job, end_or_fail, deletes, Prepared, command_made, no_runtime, no_command, prepare,
  exit_command, exit_status, report, time_out, after_timeout, debugger_waits, report_running,
  looks_ready, becomes_ready, record_log, in_phase, Event, connects, disconnects, starts, stops,
  reconciles, prepared, exits, breaks, reported, times_out, timeout_logged, logs, passes, step,
  execute, empty_manager, is_debug, readiness_timeout,
}
use code_runner.Runs.Lines.{Text, waits_for_debugger}
use code_runner.Runs.Invariant.{IsSound, AllSettled, tally, once, has_row}
use code_runner.Runs.Invariant.Ops.{same, SameCore-AllSettled, set_job_state-SameCore}
use code_runner.Runs.Invariant.Calls.{
  replaced-AllSettled, if-AllSettled, connect-AllSettled, disconnect-AllSettled, start-AllSettled,
  cancel_workspace-AllSettled, reconcile_rows-SameCore, deletes-SameCore,
}
use code_runner.Runs.Invariant.Finish.{
  with_job-AllSettled, guarded-AllSettled, waiting_at-AllSettled, release-AllSettled,
  end_job-Finishes, finish_job-Finishes, Finishes-return, Finishes-end_or_fail, stored-AllSettled,
}

module _ (id : ℕ) (j : RunJob) (m : RunManager) (all : AllSettled m) (at : m.jobs id ≡ some j) where
  sound : IsSound j
  sound = all.sound id j at

  fails_later : AllSettled (set_job id (record j { phase = reporting }) m)
  fails_later =
      let s : IsSound (record j { phase = reporting }) = ground (arith, sound) in
      stored-AllSettled id j (record j { phase = reporting }) m all at s refl refl refl

  canceled_before :
      in_phase preparing j.phase ≡ true
      → AllSettled
          (end_or_fail id (finish_job id (record j { phase = returned }) stopped none none m))
  unfolding finish_job
  canceled_before early =
      let open_ = sound.early early in
      rw (open_, finish_job)
        (Finishes-end_or_fail id (end_job id (record j { phase = returned }) stopped none none m) (
          end_job-Finishes id j (record j { phase = returned }) stopped none none m all at refl refl
            open_ refl refl))

  prepare-AllSettled :
      (how : Prepared) → in_phase preparing j.phase ≡ true → AllSettled (prepare how id j m)
  unfolding prepare
  prepare-AllSettled no_runtime early = fails_later
  prepare-AllSettled no_command early =
      if-AllSettled j.canceled _ _ (canceled_before early) fails_later
  prepare-AllSettled command_made early =
      let made : RunJob = record j {
        command = true;
        readiness_timer = some (readiness_timeout j.mode m);
        phase = executing;
      } in
      let s : IsSound made = ground (arith, sound) in
      if-AllSettled j.canceled _ _ (canceled_before early)
        (stored-AllSettled id j made m all at s refl refl refl)

  exit_command-AllSettled :
      (code : Option ℕ) (signal : Option String)
      → in_phase executing j.phase ≡ true
      → AllSettled (exit_command code signal id j m)
  unfolding exit_command
  exit_command-AllSettled code signal late =
      Finishes-end_or_fail id
        (finish_job id j (exit_status j code) (if j.canceled then none else code) signal m)
        (finish_job-Finishes id j (exit_status j code) _ signal m all at (ground arith)
          (ground arith))

  report-AllSettled : in_phase reporting j.phase ≡ true → AllSettled (report id j m)
  unfolding report
  report-AllSettled late =
      Finishes-return id _
        (finish_job-Finishes id j _ none none m all at (ground arith) (ground arith))

  time_out-AllSettled : is_some j.readiness_timer ≡ true → AllSettled (time_out id j m)
  unfolding time_out
  time_out-AllSettled timed =
      let late : RunJob = record j { canceled = true; timing_out = true } in
      let s : IsSound late = ground (arith, sound) in
      if-AllSettled (j.finished || j.reported_running) m _ all
        (stored-AllSettled id j late m all at s refl refl refl)

  after_timeout-AllSettled : j.timing_out ≡ true → AllSettled (after_timeout id j m)
  unfolding after_timeout
  after_timeout-AllSettled timing =
      let done : RunJob = record j { timing_out = false } in
      let s : IsSound done = ground (arith, sound) in
      let killed = if j.command then effect (kill id) m else m in
      let all' : AllSettled killed =
        if-AllSettled j.command (effect (kill id) m) m
          (SameCore-AllSettled (effect (kill id) m) m (same m) all) all in
      let at' : killed.jobs id ≡ some j = ground arith in
      (finish_job-Finishes id done failed none none (set_job id done killed)
        (stored-AllSettled id j done killed all' at' s refl refl refl) (ground arith) refl
        (ground (arith, sound))).settled

  report_running-AllSettled : j.finished ≡ false → AllSettled (report_running id j m)
  unfolding report_running broadcast
  report_running-AllSettled open_ =
      let on : RunJob = record j { reported_running = true; running_since_ms = some m.clock } in
      let shown : RunJob = record on { state = running } in
      let s : IsSound on = ground (arith, sound) in
      let s' : IsSound shown = ground (arith, sound) in
      let put_on = set_job id on m in
      let all' = stored-AllSettled id j on m all at s refl refl refl in
      let core = set_job_state-SameCore id on running no_flags put_on in
      let (stated, written) = set_job_state id on running no_flags put_on in
      let told = broadcast j (status running) stated in
      let all'' : AllSettled stated =
        replaced-AllSettled id on shown put_on stated all' (ground arith) s' refl refl refl core in
      let all_told : AllSettled told = SameCore-AllSettled told stated (same stated) all'' in
      if-AllSettled written (with_job id (release_build_slot id) told) stated
        (with_job-AllSettled id (release_build_slot id) told all_told
          λ k e. release-AllSettled id k told all_told e)
        all''

  becomes_ready-AllSettled : (line : Text) → AllSettled (becomes_ready line id j m)
  unfolding becomes_ready looks_ready
  becomes_ready-AllSettled line = elim (Bool-cases j.finished) [
    | inl h ↦ let never : looks_ready line j ≡ false = ground arith in rw (never, becomes_ready) all
    | inr h ↦ if-AllSettled (looks_ready line j) _ m (report_running-AllSettled h) all
  ]

  debugger_waits-AllSettled : (line : Text) → AllSettled (debugger_waits line id j m)
  unfolding debugger_waits
  debugger_waits-AllSettled line =
      if-AllSettled
        (is_debug j.mode && not j.finished && j.build_slot_held && waits_for_debugger line) _ m
        (release-AllSettled id j m all at) all

record_log-AllSettled :
    (stream : LogStream) (line : Text) (id : ℕ) (j : RunJob) (m : RunManager)
    → AllSettled m
    → m.jobs id ≡ some j
    → AllSettled (record_log stream line id j m)
unfolding record_log broadcast
record_log-AllSettled stream line id j m all at =
    let told = broadcast j (log stream line) m in
    let all' = SameCore-AllSettled told m (same m) all in
    let all'' = debugger_waits-AllSettled id j told all' at line in
    with_job-AllSettled id (becomes_ready line id) _ all''
      λ k e. becomes_ready-AllSettled id k _ all'' e line

pub step-AllSettled : (e : Event) (m : RunManager) → AllSettled m → AllSettled (step e m)
unfolding step
step-AllSettled (connects w c) m all = connect-AllSettled w c m all
step-AllSettled (disconnects w c) m all = disconnect-AllSettled w c m all
step-AllSettled (starts w c mode) m all = start-AllSettled w c mode m all
step-AllSettled (stops w) m all = cancel_workspace-AllSettled w m all
step-AllSettled reconciles m all = SameCore-AllSettled _ m (reconcile_rows-SameCore m.rows m) all
step-AllSettled (prepared id how) m all =
    waiting_at-AllSettled preparing id (prepare how id) m all
      λ j at h. prepare-AllSettled id j m all at how h
step-AllSettled (exits id code signal) m all =
    waiting_at-AllSettled executing id (exit_command code signal id) m all
      λ j at h. exit_command-AllSettled id j m all at code signal h
step-AllSettled (breaks id) m all =
    waiting_at-AllSettled executing id (fail_later id) m all λ j at h. fails_later id j m all at
step-AllSettled (reported id) m all =
    waiting_at-AllSettled reporting id (report id) m all λ j at h. report-AllSettled id j m all at h
step-AllSettled (times_out id) m all =
    guarded-AllSettled id (λ j. is_some j.readiness_timer) (time_out id) m all
      λ j at h. time_out-AllSettled id j m all at h
step-AllSettled (timeout_logged id) m all =
    guarded-AllSettled id (λ j. j.timing_out) (after_timeout id) m all
      λ j at h. after_timeout-AllSettled id j m all at h
step-AllSettled (logs id stream line) m all =
    with_job-AllSettled id (record_log stream line id) m all
      λ j at. record_log-AllSettled stream line id j m all at
step-AllSettled (passes ms) m all = SameCore-AllSettled _ m (same m) all
step-AllSettled (deletes w) m all = SameCore-AllSettled _ m (deletes-SameCore w m) all

execute_from-AllSettled :
    (es : List Event) (m : RunManager) → AllSettled m → AllSettled (execute es m)
unfolding execute
execute_from-AllSettled [] m all = all
execute_from-AllSettled (e ∷ es) m all =
    execute_from-AllSettled es (step e m) (step-AllSettled e m all)

pub execute-AllSettled :
    (build_ms startup_ms : ℕ) (es : List Event)
    → AllSettled (execute es (empty_manager build_ms startup_ms))
unfolding get has tally
execute-AllSettled build_ms startup_ms es =
    execute_from-AllSettled es (empty_manager build_ms startup_ms) record {
      sound = λ id j h. cc;
      slots = λ id j h. cc;
      counted = λ id j h. cc;
      numbered = λ id j h. cc;
      unknown = λ id h. (refl, refl);
      currents = λ w id h. ground arith;
    }

-- From a manager without jobs, after any calls, exits, failures, output lines and timer callbacks in any
-- order, and deletions of a user's rows among them: every job has its build slot in use exactly
-- while it holds it; a finished job holds none, has no readiness timer and is failed or stopped; a
-- run that has returned is finished; and a job is counted as ended once at most, never if it is
-- not finished, and once if it is finished and has its row.
pub execute-IsSound :
    (build_ms startup_ms : ℕ) (es : List Event) (id : ℕ) (j : RunJob)
    → (execute es (empty_manager build_ms startup_ms)).jobs id ≡ some j
    → let m = execute es (empty_manager build_ms startup_ms) in
      IsSound j
      × (has id m.active_builds ≡ j.build_slot_held)
      × (tally id m.runs_total ≤ once j.finished)
      × ((has_row id m ≡ false) ⊎ (tally id m.runs_total ≡ once j.finished))
execute-IsSound build_ms startup_ms es id j h =
    let all = execute-AllSettled build_ms startup_ms es in
    let m = execute es (empty_manager build_ms startup_ms) in
    let count = all.counted id j h in
    (
      all.sound id j h,
      all.slots id j h,
      count.at_most,
      elim (Bool-cases (has_row id m)) [ inl row ↦ inr (count.exactly row) | inr gone ↦ inl gone ],
    )

-- From a manager without jobs, after any calls and callbacks in any order, and deletions of a user's
-- rows among them, the current run of a workspace is a job of that workspace, and it is not
-- finished, unless its row was deleted.
pub current-IsOpen :
    (build_ms startup_ms : ℕ) (es : List Event) (w id : ℕ)
    → get w (execute es (empty_manager build_ms startup_ms)).jobs_by_workspace ≡ some id
    → (j : RunJob) × ((execute es (empty_manager build_ms startup_ms)).jobs id ≡ some j)
      × (j.workspace ≡ w)
      × ((has_row id (execute es (empty_manager build_ms startup_ms)) ≡ false)
          ⊎ (j.finished ≡ false))
current-IsOpen build_ms startup_ms es w id h =
    let m = execute es (empty_manager build_ms startup_ms) in
    let (j, at, own, open_) = (execute-AllSettled build_ms startup_ms es).currents w id h in
    (
      j,
      at,
      own,
      elim (Bool-cases (has_row id m)) [ inl row ↦ inr (open_ row) | inr gone ↦ inl gone ],
    )
