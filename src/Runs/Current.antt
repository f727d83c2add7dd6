-- ===== src/Runs/Current.antt =====
-- A run that was replaced by a newer one, and its late callbacks in apps/control/src/runs.ts.
use code_runner.Prelude.{
  ℕ, String, Option, none, some, Bool, true, false, ◌≡◌, refl, inl, inr, arith, Option-cases,
  Bool-cases, is_some, if◌then◌else◌, ◌==◌, ◌&&◌, ◌||◌, not, get, put, get-delete, get-put, sym,
  ◌∙◌,
}
use code_runner.Runs.{
  RunSnapshot, update_run_job, updated_row, RunJob, RunManager, SimRunStatus, running, stopping,
  stopped, failed, LogStream, preparing, executing, reporting, returned, set_job, set_job_state,
  remember_status, is_current_job, broadcast, status, log, release_build_slot, without_slot,
  drop_current, finish_job, end_job, tell_end, Flags, kill,
}
use code_runner.Runs.Jobs.{no_flags, effect, fail_later, get_workspace_snapshot, current}
use code_runner.Runs.Life.{
  with_job, return_job, Prepared, command_made, no_runtime, no_command, prepare, exit_command,
  exit_status, report, end_or_fail, time_out, after_timeout, debugger_waits, report_running,
  becomes_ready, record_log, waiting_at, in_phase, Event, prepared, exits, breaks, reported,
  times_out, timeout_logged, logs, step,
}
use code_runner.Runs.Lines.{Text}

-- What the asynchronous work of one run may still report.
pub data Callback : Type 0 where
  was_prepared : Prepared → Callback
  has_exited : Option ℕ → Option String → Callback
  broke was_reported timed_out timeout_was_logged : Callback
  wrote : LogStream → Text → Callback

unfoldable pub of_run : ℕ → Callback → Event
of_run id (was_prepared how) = prepared id how
of_run id (has_exited code signal) = exits id code signal
of_run id broke = breaks id
of_run id was_reported = reported id
of_run id timed_out = times_out id
of_run id timeout_was_logged = timeout_logged id
of_run id (wrote stream line) = logs id stream line

module _ (id cur w : ℕ) (c : RunJob) (l : Option RunSnapshot) (apart : (id == cur) ≡ false) where
  -- The job `c` is under `cur`, which is the current run of the workspace, and `l` is the status that
  -- is remembered for it.
  pub record IsCurrent (m : RunManager) : Type 0 where
    pub job : m.jobs cur ≡ some c
    pub current_id : get w m.jobs_by_workspace ≡ some cur
    pub remembered : get w m.last_status ≡ l

  -- Nothing but a part that does not matter differs.
  same_parts :
      (n m : RunManager)
      → n.jobs ≡ m.jobs
      → n.jobs_by_workspace ≡ m.jobs_by_workspace
      → n.last_status ≡ m.last_status
      → IsCurrent m
      → IsCurrent n
  same_parts n m a b d h = record {
    job = rw a h.job;
    current_id = rw b h.current_id;
    remembered = rw d h.remembered;
  }

  -- A job that is not the current one does not touch the status of its workspace.
  remember_status-IsCurrent :
      (j : RunJob) (s : SimRunStatus) (m : RunManager)
      → IsCurrent m
      → IsCurrent (if is_current_job id j m then remember_status j.workspace s (some id) m else m)
  unfolding is_current_job remember_status
  remember_status-IsCurrent j s m h = elim (Bool-cases (j.workspace == w)) [
    | inl here ↦
        let never : is_current_job id j m ≡ false = ground (arith, h.current_id, apart) in
        rw never h
    | inr away ↦ record {
      job = ground (arith, h.job);
      current_id = ground (arith, h.current_id);
      remembered = ground (
        arith,
        h.remembered,
        get-put j.workspace w (record { status = s; run_id = some id }) m.last_status,
      );
    }
  ]

  set_job-IsCurrent : (j : RunJob) (m : RunManager) → IsCurrent m → IsCurrent (set_job id j m)
  set_job-IsCurrent j m h = record {
    job = ground (arith, h, apart);
    current_id = h.current_id;
    remembered = h.remembered;
  }

  if-IsCurrent :
      (t : Bool) (n k : RunManager) → IsCurrent n → IsCurrent k → IsCurrent (if t then n else k)
  if-IsCurrent true n k h g = h
  if-IsCurrent false n k h g = g

  release_build_slot-IsCurrent :
      (j : RunJob) (m : RunManager) → IsCurrent m → IsCurrent (release_build_slot id j m)
  unfolding release_build_slot
  release_build_slot-IsCurrent j m h =
      if-IsCurrent j.build_slot_held _ _
        (record {
          job = ground (arith, h, apart);
          current_id = h.current_id;
          remembered = h.remembered;
        })
        (set_job-IsCurrent (record j { readiness_timer = none }) m h)

  set_job_state-IsCurrent :
      (j : RunJob) (s : SimRunStatus) (flags : Flags) (m : RunManager)
      → IsCurrent m
      → IsCurrent (set_job_state id j s flags m).0
  unfolding set_job_state update_run_job
  set_job_state-IsCurrent j s flags m h =
      let base = set_job id (record j { state = s }) m in
      let kept = set_job-IsCurrent (record j { state = s }) m h in
      elim (Option-cases (get id m.rows)) [
        | inl e ↦ rw (e, update_run_job) kept
        | inr (r, e) ↦
            let stored : RunManager = record base {
              rows = put id (updated_row s flags m.clock r) m.rows;
            } in
            rw (e, update_run_job)
              (remember_status-IsCurrent j s stored (same_parts stored base refl refl refl kept))
      ]

  -- A job that is not the current one takes nothing away from its workspace.
  drop_current-IsCurrent :
      (j : RunJob) (m : RunManager) → IsCurrent m → IsCurrent (drop_current id j m)
  unfolding drop_current is_current_job
  drop_current-IsCurrent j m h = record {
    job = ground (arith, h);
    current_id = ground (arith, h, apart, get-delete j.workspace w m.jobs_by_workspace);
    remembered = ground (arith, h.remembered);
  }

  tell_end-IsCurrent :
      (j : RunJob) (s : SimRunStatus) (code : Option ℕ) (signal : Option String)
      (p : RunManager × Bool)
      → IsCurrent p.0
      → IsCurrent (tell_end id j s code signal p).0
  unfolding tell_end broadcast remember_status
  tell_end-IsCurrent j s code signal (stated, false) h = h
  tell_end-IsCurrent j s code signal (stated, true) h =
      drop_current-IsCurrent j _
        (same_parts _ _ refl refl refl (remember_status-IsCurrent j s stated h))

  finish_job-IsCurrent :
      (j : RunJob) (s : SimRunStatus) (code : Option ℕ) (signal : Option String) (m : RunManager)
      → IsCurrent m
      → IsCurrent (finish_job id j s code signal m).0
  unfolding finish_job end_job
  finish_job-IsCurrent j s code signal m h =
      let done : RunJob = record j { finished = true } in
      let freed = release_build_slot id done m in
      let j' : RunJob = record (without_slot j) { finished = true } in
      let flags : Flags = record { started = false; finished = true; exit_code = some code } in
      elim (Bool-cases j.finished) [
        | inl e ↦ rw (e, finish_job) h
        | inr e ↦
            rw (e, finish_job)
              (tell_end-IsCurrent j' s code signal (set_job_state id j' s flags freed)
                (set_job_state-IsCurrent j' s flags freed (release_build_slot-IsCurrent done m h)))
      ]

  with_job-IsCurrent :
      (f : RunJob → RunManager → RunManager) (m : RunManager)
      → IsCurrent m
      → ((j : RunJob) → IsCurrent (f j m))
      → IsCurrent (with_job id f m)
  unfolding with_job
  with_job-IsCurrent f m h keep = elim (Option-cases (m.jobs id)) [
    | inl e ↦ rw (e, with_job) h
    | inr (j, e) ↦ rw (e, with_job) (keep j)
  ]

  return_job-IsCurrent : (m : RunManager) → IsCurrent m → IsCurrent (return_job id m)
  unfolding return_job
  return_job-IsCurrent m h =
      with_job-IsCurrent (λ j. release_build_slot id (record j { phase = returned })) m h
        λ j. release_build_slot-IsCurrent (record j { phase = returned }) m h

  end_or_fail-IsCurrent : (p : RunManager × Bool) → IsCurrent p.0 → IsCurrent (end_or_fail id p)
  unfolding end_or_fail
  end_or_fail-IsCurrent (n, true) h = return_job-IsCurrent n h
  end_or_fail-IsCurrent (n, false) h =
      with_job-IsCurrent (fail_later id) n h
        λ j. set_job-IsCurrent (record j { phase = reporting }) n h

  prepare-IsCurrent :
      (how : Prepared) (j : RunJob) (m : RunManager) → IsCurrent m → IsCurrent (prepare how id j m)
  unfolding prepare
  prepare-IsCurrent no_runtime j m h = set_job-IsCurrent (record j { phase = reporting }) m h
  prepare-IsCurrent no_command j m h =
      let back : RunJob = record j { phase = returned } in
      if-IsCurrent j.canceled _ _
        (end_or_fail-IsCurrent (finish_job id back stopped none none m)
          (finish_job-IsCurrent back stopped none none m h))
        (set_job-IsCurrent (record j { phase = reporting }) m h)
  prepare-IsCurrent command_made j m h =
      let back : RunJob = record j { phase = returned } in
      if-IsCurrent j.canceled _ _
        (end_or_fail-IsCurrent (finish_job id back stopped none none m)
          (finish_job-IsCurrent back stopped none none m h))
        (set_job-IsCurrent _ m h)

  record_log-IsCurrent :
      (stream : LogStream) (line : Text) (j : RunJob) (m : RunManager)
      → IsCurrent m
      → IsCurrent (record_log stream line id j m)
  unfolding record_log debugger_waits becomes_ready report_running broadcast
  record_log-IsCurrent stream line j m h =
      let told = broadcast j (log stream line) m in
      let told' : IsCurrent told = record {
        job = h.job;
        current_id = h.current_id;
        remembered = h.remembered;
      } in
      let waits = debugger_waits line id j told in
      let waits' : IsCurrent waits =
        if-IsCurrent _ _ told (release_build_slot-IsCurrent j told told') told' in
      with_job-IsCurrent (becomes_ready line id) waits waits' λ k.
        let on : RunJob = record k {
          reported_running = true;
          running_since_ms = some waits.clock;
        } in
        let (stated, written) = set_job_state id on running no_flags (set_job id on waits) in
        let stated' : IsCurrent stated =
          set_job_state-IsCurrent on running no_flags (set_job id on waits)
            (set_job-IsCurrent on waits waits') in
        let shown = broadcast k (status running) stated in
        let shown' : IsCurrent shown = record {
          job = stated'.job;
          current_id = stated'.current_id;
          remembered = stated'.remembered;
        } in
        let go_on = with_job id (release_build_slot id) shown in
        if-IsCurrent _ (if written then go_on else stated) waits
          (if-IsCurrent written go_on stated
            (with_job-IsCurrent (release_build_slot id) shown shown'
              λ x. release_build_slot-IsCurrent x shown shown')
            stated')
          waits'

  guarded-IsCurrent :
      (test : RunJob → Bool) (f : RunJob → RunManager → RunManager) (m : RunManager)
      → IsCurrent m
      → ((j : RunJob) → IsCurrent (f j m))
      → IsCurrent (with_job id (λ j n. if test j then f j n else n) m)
  guarded-IsCurrent test f m h keep =
      with_job-IsCurrent (λ j n. if test j then f j n else n) m h
        λ j. if-IsCurrent (test j) (f j m) m (keep j) h

  time_out-IsCurrent : (j : RunJob) (m : RunManager) → IsCurrent m → IsCurrent (time_out id j m)
  unfolding time_out
  time_out-IsCurrent j m h =
      let late : RunJob = record j { canceled = true; timing_out = true } in
      if-IsCurrent (j.finished || j.reported_running) m (set_job id late m) h
        (set_job-IsCurrent late m h)

  after_timeout-IsCurrent :
      (j : RunJob) (m : RunManager) → IsCurrent m → IsCurrent (after_timeout id j m)
  unfolding after_timeout
  after_timeout-IsCurrent j m h =
      let settled : RunJob = record j { timing_out = false } in
      let killed = if j.command then effect (kill id) m else m in
      let killed' : IsCurrent killed =
        if-IsCurrent j.command (effect (kill id) m) m
          (record { job = h.job; current_id = h.current_id; remembered = h.remembered }) h in
      finish_job-IsCurrent settled failed none none (set_job id settled killed)
        (set_job-IsCurrent settled killed killed')

  step-IsCurrent : (b : Callback) (m : RunManager) → IsCurrent m → IsCurrent (step (of_run id b) m)
  unfolding step of_run waiting_at exit_command report
  step-IsCurrent (was_prepared how) m h =
      guarded-IsCurrent (λ j. in_phase preparing j.phase) (prepare how id) m h
        λ j. prepare-IsCurrent how j m h
  step-IsCurrent (has_exited code signal) m h =
      guarded-IsCurrent (λ j. in_phase executing j.phase) (exit_command code signal id) m h
        λ j.
          end_or_fail-IsCurrent
            (finish_job id j (exit_status j code) (if j.canceled then none else code) signal m)
            (finish_job-IsCurrent j (exit_status j code) (if j.canceled then none else code) signal
              m h)
  step-IsCurrent broke m h =
      guarded-IsCurrent (λ j. in_phase executing j.phase) (fail_later id) m h
        λ j. set_job-IsCurrent (record j { phase = reporting }) m h
  step-IsCurrent was_reported m h =
      guarded-IsCurrent (λ j. in_phase reporting j.phase) (report id) m h
        λ j. return_job-IsCurrent _ (finish_job-IsCurrent j _ none none m h)
  step-IsCurrent timed_out m h =
      guarded-IsCurrent (λ j. is_some j.readiness_timer) (time_out id) m h
        λ j. time_out-IsCurrent j m h
  step-IsCurrent timeout_was_logged m h =
      guarded-IsCurrent (λ j. j.timing_out) (after_timeout id) m h
        λ j. after_timeout-IsCurrent j m h
  step-IsCurrent (wrote stream line) m h =
      with_job-IsCurrent (record_log stream line id) m h λ j. record_log-IsCurrent stream line j m h

  snapshot-IsCurrent :
      (m : RunManager)
      → IsCurrent m
      → get_workspace_snapshot w m ≡ record {
        status = if c.canceled && not c.finished then stopping else c.state;
        run_id = some cur;
      }
  unfolding get_workspace_snapshot current
  snapshot-IsCurrent m h = rw (h.current_id, get_workspace_snapshot) (rw h.job refl)

  -- While another run is the current one of a workspace, nothing that the asynchronous work of a
  -- run still reports changes what getWorkspaceSnapshot returns for the workspace, the current run
  -- itself, or the status that is remembered for the workspace once no run is current. What is sent
  -- to the run's clients is not part of this.
  pub superseded_run :
      (b : Callback) (m : RunManager)
      → IsCurrent m
      → (get_workspace_snapshot w (step (of_run id b) m) ≡ get_workspace_snapshot w m)
        × IsCurrent (step (of_run id b) m)
  superseded_run b m h =
      let kept = step-IsCurrent b m h in
      (snapshot-IsCurrent (step (of_run id b) m) kept ∙ sym (snapshot-IsCurrent m h), kept)
