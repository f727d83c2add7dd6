-- ===== src/Runs/Ending.antt =====
-- How a run ends: the exit of its command, or the line written about its error, takes it there.
use code_runner.Prelude.{
  ℕ, String, Option, none, some, zero, suc, Bool, true, false, ◌||◌, Option-cases, get-put, ◌≡◌,
  ◌≢◌, refl, inl, inr, arith, Bool-cases, ap, ◌∙◌, if◌then◌else◌, get, has,
}
use code_runner.Runs.{
  RunJob, RunManager, SimRunStatus, stopped, failed, Phase, executing, reporting, returned,
  release_build_slot, without_slot, finish_job, end_job, tell_end, set_job_state, update_run_job,
  updated_row, Flags, drop_current, broadcast, remember_status,
}
use code_runner.Runs.Life.{
  with_job, return_job, end_or_fail, is_build, exit_command, exit_status, report, waiting_at,
  in_phase, exits, reported, step,
}
use code_runner.Runs.Invariant.{AllSettled, IsSound, at-Changes, tally, is_terminal, has_row, once}
use code_runner.Runs.Invariant.End.{over, end_job-Changes}
use code_runner.Runs.Invariant.Events.{step-AllSettled}

-- The job after its end: as it was if it had been finished before, by its readiness timeout.
abbrev pub ended_as : RunJob → SimRunStatus → RunJob
ended_as j s =
    let last : RunJob = if j.finished then j else over j s in
    record (without_slot last) { phase = returned }

-- How a command's exit ends a run, given whether it was canceled, its exit code, and whether the
-- robot program had come up or the run was a build.
abbrev pub outcome : Bool → Option ℕ → Bool → SimRunStatus
outcome true code came_up = stopped
outcome false (some zero) true = stopped
outcome false (some zero) false = failed
outcome false (some (suc n)) came_up = failed
outcome false none came_up = failed

exit_status-outcome :
    (j : RunJob) (code : Option ℕ)
    → exit_status j code ≡ outcome j.canceled code (j.reported_running || is_build j.mode)
exit_status-outcome j none = ground arith
exit_status-outcome j (some zero) = ground arith
exit_status-outcome j (some (suc n)) = ground arith

-- The run is over: its job has returned, has no slot, is counted once and is nobody's current job.
pub record IsOver (id : ℕ) (j : RunJob) (n : RunManager) : Type 0 where
  pub job : n.jobs id ≡ some j
  pub slot : has id n.active_builds ≡ false
  pub count : tally id n.runs_total ≡ 1
  pub current : (w : ℕ) → get w n.jobs_by_workspace ≢ some id

return_job-jobs :
    (id : ℕ) (k : RunJob) (m : RunManager)
    → m.jobs id ≡ some k
    → (return_job id m).jobs id ≡ some (record (without_slot k) { phase = returned })
unfolding return_job with_job release_build_slot
return_job-jobs id k m at = elim (Bool-cases k.build_slot_held) [
  | inl h ↦ rw (at, return_job, with_job) (ground arith)
  | inr h ↦ rw (at, return_job, with_job) (ground arith)
]

finish_job-jobs :
    (id : ℕ) (j : RunJob) (s : SimRunStatus) (code : Option ℕ) (signal : Option String)
    (m : RunManager)
    → AllSettled m
    → m.jobs id ≡ some j
    → is_terminal s ≡ true
    → IsSound (over j s)
    → (finish_job id j s code signal m).0.jobs id ≡ some (if j.finished then j else over j s)
unfolding finish_job
finish_job-jobs id j s code signal m all at last sound = elim (Bool-cases j.finished) [
  | inl h ↦ ground arith
  | inr h ↦
      let change = end_job-Changes id j j m all at refl s code signal last refl h sound in
      let there = at-Changes id (over j s) m (end_job id j s code signal m).0 all change in
      ground arith
]

tell_end-written :
    (id : ℕ) (j : RunJob) (s : SimRunStatus) (code : Option ℕ) (signal : Option String)
    (p : RunManager × Bool)
    → (tell_end id j s code signal p).1 ≡ p.1
unfolding tell_end
tell_end-written id j s code signal (n, true) = refl
tell_end-written id j s code signal (n, false) = refl

tell_end-row :
    (id : ℕ) (j : RunJob) (s : SimRunStatus) (code : Option ℕ) (signal : Option String)
    (p : RunManager × Bool)
    → has_row id (tell_end id j s code signal p).0 ≡ has_row id p.0
unfolding tell_end drop_current broadcast remember_status
tell_end-row id j s code signal (n, true) = ground arith
tell_end-row id j s code signal (n, false) = refl

release_build_slot-row :
    (id : ℕ) (j : RunJob) (m : RunManager)
    → has_row id m ≡ true
    → has_row id (release_build_slot id j m) ≡ true
unfolding release_build_slot
release_build_slot-row id j m row = ground arith

set_job_state-row :
    (id : ℕ) (j : RunJob) (s : SimRunStatus) (flags : Flags) (m : RunManager)
    → has_row id m ≡ true
    → ((set_job_state id j s flags m).1 ≡ true)
      × (has_row id (set_job_state id j s flags m).0 ≡ true)
unfolding set_job_state update_run_job remember_status
set_job_state-row id j s flags m row = elim (Option-cases (get id m.rows)) [
  | inl e ↦ ground arith
  | inr (r, e) ↦ ground (arith, get-put id id (updated_row s flags m.clock r) m.rows)
]

-- With its row in the table, `finishJob` does not throw, and the row stays.
finish_job-row :
    (id : ℕ) (j : RunJob) (s : SimRunStatus) (code : Option ℕ) (signal : Option String)
    (m : RunManager)
    → has_row id m ≡ true
    → ((finish_job id j s code signal m).1 ≡ true)
      × (has_row id (finish_job id j s code signal m).0 ≡ true)
unfolding finish_job end_job
finish_job-row id j s code signal m row = elim (Bool-cases j.finished) [
  | inl h ↦ rw (h, finish_job) (refl, row)
  | inr h ↦
      let done : RunJob = record (without_slot j) { finished = true } in
      let flags : Flags = record { started = false; finished = true; exit_code = some code } in
      let freed = release_build_slot id (record j { finished = true }) m in
      let p = set_job_state id done s flags freed in
      let (written, kept) =
        set_job_state-row id done s flags freed
          (release_build_slot-row id (record j { finished = true }) m row) in
      rw (h, finish_job)
        (
          tell_end-written id done s code signal p ∙ written,
          tell_end-row id done s code signal p ∙ kept,
        )
]

return_job-row :
    (id : ℕ) (k : RunJob) (m : RunManager)
    → m.jobs id ≡ some k
    → has_row id m ≡ true
    → has_row id (return_job id m) ≡ true
unfolding return_job with_job
return_job-row id k m at row =
    rw (at, return_job, with_job) (release_build_slot-row id (record k { phase = returned }) m row)

end_or_fail-written :
    (id : ℕ) (p : RunManager × Bool) → p.1 ≡ true → end_or_fail id p ≡ return_job id p.0
unfolding end_or_fail
end_or_fail-written id (n, true) h = refl
end_or_fail-written id (n, false) h = cc

ended_as-finished : (j : RunJob) (s : SimRunStatus) → (ended_as j s).finished ≡ true
ended_as-finished j s = ground arith

IsOver-AllSettled :
    (id : ℕ) (j : RunJob) (n : RunManager)
    → AllSettled n
    → n.jobs id ≡ some j
    → j.finished ≡ true
    → has_row id n ≡ true
    → IsOver id j n
IsOver-AllSettled id j n all at done row = record {
  job = at;
  slot = ground (arith, all.slots id j at, (all.sound id j at).slotless done);
  count = (all.counted id j at).exactly row ∙ ap once done;
  current = λ w h. let (x, p, q, r) = all.currents w id h in ground arith;
}

waiting_at-there :
    (p : Phase) (id : ℕ) (f : RunJob → RunManager → RunManager) (j : RunJob) (m : RunManager)
    → m.jobs id ≡ some j
    → in_phase p j.phase ≡ true
    → waiting_at p id f m ≡ f j m
unfolding waiting_at with_job
waiting_at-there p id f j m at here = ground arith

IsOver-outcome :
    (id : ℕ) (j : RunJob) (code : Option ℕ) (n : RunManager)
    → IsOver id (ended_as j (exit_status j code)) n
    → IsOver id (ended_as j (outcome j.canceled code (j.reported_running || is_build j.mode))) n
IsOver-outcome id j code n h = rw (← exit_status-outcome j code) h

-- When the command of a run exits, in any settled manager where the run has its row, the run is over:
-- it has returned, holds no slot, is counted once and is nobody's current job. It keeps the state
-- that an earlier finish gave it, or else is stopped, if it was canceled or its command succeeded
-- after the robot program was up or in a build, and failed otherwise.
pub exits-IsOver :
    (id : ℕ) (j : RunJob) (code : Option ℕ) (signal : Option String) (m : RunManager)
    → AllSettled m
    → m.jobs id ≡ some j
    → j.phase ≡ executing
    → has_row id m ≡ true
    → IsOver id
        (ended_as j (outcome j.canceled code (j.reported_running || is_build j.mode)))
        (step (exits id code signal) m)
unfolding step exit_command
exits-IsOver id j code signal m all at here row =
    let s = exit_status j code in
    let last : is_terminal s ≡ true = ground arith in
    let sound : IsSound (over j s) = ground arith in
    let kept = if j.canceled then none else code in
    let finished = finish_job-jobs id j s kept signal m all at last sound in
    let p = finish_job id j s kept signal m in
    let (written, still) = finish_job-row id j s kept signal m row in
    let last_job = if j.finished then j else over j s in
    let now : in_phase executing j.phase ≡ true = rw here refl in
    let met =
      waiting_at-there executing id (exit_command code signal id) j m at now
      ∙ end_or_fail-written id p written in
    IsOver-outcome id j code (step (exits id code signal) m) (
      IsOver-AllSettled id (ended_as j s) (step (exits id code signal) m)
        (step-AllSettled (exits id code signal) m all)
        (ap (λ x. x.jobs id) met ∙ return_job-jobs id last_job p.0 finished) (ended_as-finished j s)
        (ap (λ x. has_row id x) met ∙ return_job-row id last_job p.0 finished still))

-- When the line about the error of a run has been written, in any settled manager where the run has
-- its row, the run is over: it has returned, holds no slot, is counted once and is nobody's current
-- job. It keeps the state that an earlier finish gave it, or else is stopped, if it was canceled,
-- and failed otherwise.
pub reported-IsOver :
    (id : ℕ) (j : RunJob) (m : RunManager)
    → AllSettled m
    → m.jobs id ≡ some j
    → j.phase ≡ reporting
    → has_row id m ≡ true
    → IsOver id (ended_as j (if j.canceled then stopped else failed)) (step (reported id) m)
unfolding step report
reported-IsOver id j m all at here row =
    let s = if j.canceled then stopped else failed in
    let last : is_terminal s ≡ true = ground arith in
    let sound : IsSound (over j s) = ground arith in
    let finished = finish_job-jobs id j s none none m all at last sound in
    let p = finish_job id j s none none m in
    let last_job = if j.finished then j else over j s in
    let now : in_phase reporting j.phase ≡ true = rw here refl in
    let met = waiting_at-there reporting id (report id) j m at now in
    IsOver-AllSettled id (ended_as j s) (step (reported id) m) (step-AllSettled (reported id) m all)
      (ap (λ x. x.jobs id) met ∙ return_job-jobs id last_job p.0 finished) (ended_as-finished j s)
      (ap (λ x. has_row id x) met
        ∙ return_job-row id last_job p.0 finished (finish_job-row id j s none none m row).1)
