-- ===== src/Runs/Invariant/End.antt =====
-- What `finishJob` does to the manager, as far as the invariant sees it.
use code_runner.Prelude.{
  ℕ, String, [], ◌∷◌, ◌++◌, Option, some, true, ◌≡◌, arith, if◌then◌else◌, ◌==◌, get, has,
  has-remove, get-delete, ◌∙◌, refl, Bool, false,
}
use code_runner.Runs.{
  RunJob, RunManager, SimRunStatus, Flags, set_job, set_job_state, remember_status, is_current_job,
  release_build_slot, without_slot, end_job, tell_end, drop_current, broadcast, terminal_status,
  status, exit,
}
use code_runner.Runs.Invariant.{
  IsSound, AllSettled, Changes, tally, tally-append, is_terminal, has_row,
}
use code_runner.Runs.Invariant.Ops.{
  SameCore, same, set_job_state-missing, SameParts-trans, set_job_state-SameCore,
  remember_status-SameCore, if-SameCore,
}

-- The job that `finishJob` leaves.
abbrev pub over : RunJob → SimRunStatus → RunJob
over j s = record (without_slot j) { finished = true; state = s }

module _ (id : ℕ) (i j : RunJob) (m : RunManager) (all : AllSettled m) (at : m.jobs id ≡ some i)
    (held : j.build_slot_held ≡ i.build_slot_held) where
  freed : RunManager
  freed = release_build_slot id (record j { finished = true }) m

  builds-freed :
      (k : ℕ) → has k freed.active_builds ≡ (if id == k then false else has k m.active_builds)
  unfolding freed release_build_slot
  builds-freed k = ground (arith, has-remove id k m.active_builds, all.slots id i at)

  jobs-freed : (k : ℕ) → (id == k) ≡ false → freed.jobs k ≡ m.jobs k
  unfolding freed release_build_slot
  jobs-freed k h = ground arith

  uncounted : i.finished ≡ false → tally id m.runs_total ≡ 0
  uncounted open_ = ground (arith, (all.counted id i at).at_most)

  rows-freed : (k : ℕ) → has_row k freed ≡ true → has_row k m ≡ true
  unfolding freed release_build_slot
  rows-freed k h = ground arith

  rest-freed :
      (freed.runs_total ≡ m.runs_total)
      × (freed.jobs_by_workspace ≡ m.jobs_by_workspace)
      × (freed.next_id ≡ m.next_id)
  unfolding freed release_build_slot
  rest-freed = ground arith

  owner : (v : ℕ) → get v m.jobs_by_workspace ≡ some id → i.workspace ≡ v
  owner v h = let (x, p, q, r) = all.currents v id h in ground arith

  -- `r` is the manager once the state is set, and `last_of r s` is the end of `finishJob`.
  last_of : RunManager → SimRunStatus → RunManager
  last_of r s =
      drop_current id (record (without_slot j) { finished = true })
        (record r { runs_total = r.runs_total ++ (id, terminal_status j s) ∷ [] })

  total-last_of :
      (r : RunManager) (s : SimRunStatus)
      → (last_of r s).runs_total ≡ r.runs_total ++ (id, terminal_status j s) ∷ []
  unfolding last_of drop_current
  total-last_of r s = ground arith

  rows-last_of : (r : RunManager) (s : SimRunStatus) → (last_of r s).rows ≡ r.rows
  unfolding last_of drop_current
  rows-last_of r s = ground arith

  current-last_of :
      (r : RunManager) (s : SimRunStatus) (v k : ℕ)
      → r.jobs_by_workspace ≡ m.jobs_by_workspace
      → j.workspace ≡ i.workspace
      → get v (last_of r s).jobs_by_workspace ≡ some k
      → ((id == k) ≡ false) × (get v m.jobs_by_workspace ≡ some k)
  unfolding last_of drop_current
  current-last_of r s v k same w h =
      ground (arith, get-delete j.workspace v r.jobs_by_workspace, owner v)

  last_of-Changes :
      (s : SimRunStatus) (r : RunManager)
      → is_terminal s ≡ true
      → j.workspace ≡ i.workspace
      → i.finished ≡ false
      → SameCore r (set_job id (over j s) freed)
      → IsSound (over j s)
      → Changes id (over j s) m (last_of r s)
  unfolding last_of drop_current tally
  last_of-Changes s r last w open_ core sound = record {
    is_sound = sound;
    jobs = λ k. ground (arith, core.same_jobs, jobs-freed k);
    builds = λ k. ground (arith, core.same_builds, builds-freed k);
    counts =
        λ k o. rw (total-last_of r s, tally-append, core.same_total, rest-freed.0) (ground arith);
    own_count =
        let once_more : tally id (last_of r s).runs_total ≡ 1 =
          rw (total-last_of r s, tally-append, core.same_total, rest-freed.0)
            (ground (arith, uncounted open_)) in
        record { at_most = omega arith; exactly = λ row. once_more };
    rows = λ k o h. rows-freed k (core.no_more_rows k (rw (← rows-last_of r s) h));
    numbers = ground (arith, core.same_next, rest-freed, all.numbered id i at);
    own = λ v g. ground (arith, current-last_of r s v id (core.same_current ∙ rest-freed.1) w g);
    others = λ v k g o. (current-last_of r s v k (core.same_current ∙ rest-freed.1) w g).1;
  }

  -- The end of a `finishJob` that throws at the row.
  thrown-Changes :
      (s : SimRunStatus) (r : RunManager)
      → j.workspace ≡ i.workspace
      → i.finished ≡ false
      → SameCore r (set_job id (over j s) freed)
      → has_row id r ≡ false
      → IsSound (over j s)
      → Changes id (over j s) m r
  unfolding tally
  thrown-Changes s r w open_ core gone sound = record {
    is_sound = sound;
    jobs = λ k. ground (arith, core.same_jobs, jobs-freed k);
    builds = λ k. ground (arith, core.same_builds, builds-freed k);
    counts = λ k o. rw (core.same_total, rest-freed.0) refl;
    own_count =
        let none_yet : tally id r.runs_total ≡ 0 =
          rw (core.same_total, rest-freed.0) (uncounted open_) in
        record { at_most = omega arith; exactly = λ row. cc };
    rows = λ k o h. rows-freed k (core.no_more_rows k h);
    numbers = ground (arith, core.same_next, rest-freed, all.numbered id i at);
    own = λ v g. (w ∙ owner v (rw (← rest-freed.1, ← core.same_current) g), λ row. cc);
    others = λ v k g o. rw (← rest-freed.1, ← core.same_current) g;
  }

  done_job : RunJob
  done_job = record (without_slot j) { finished = true }

  tell_end-Changes :
      (s : SimRunStatus) (code : Option ℕ) (signal : Option String) (p : RunManager × Bool)
      → is_terminal s ≡ true
      → j.workspace ≡ i.workspace
      → i.finished ≡ false
      → SameCore p.0 (set_job id (over j s) freed)
      → (p.1 ≡ false → has_row id p.0 ≡ false)
      → IsSound (over j s)
      → Changes id (over j s) m (tell_end id done_job s code signal p).0
  unfolding tell_end broadcast last_of freed done_job
  tell_end-Changes s code signal (stated, false) last w open_ here gone sound =
      thrown-Changes s stated w open_ here (gone refl) sound
  tell_end-Changes s code signal (stated, true) last w open_ here gone sound =
      let base = set_job id (over j s) freed in
      let remembered =
        if is_current_job id done_job stated
        then remember_status j.workspace s (some id) stated
        else stated in
      let kept : SameCore remembered base =
        if-SameCore (is_current_job id done_job stated)
          (remember_status j.workspace s (some id) stated) stated base
          (SameParts-trans (remember_status-SameCore j.workspace s (some id) stated) here) here in
      let told = broadcast j (exit code signal) (broadcast j (status s) remembered) in
      last_of-Changes s told last w open_ kept sound

  pub end_job-Changes :
      (s : SimRunStatus) (code : Option ℕ) (signal : Option String)
      → is_terminal s ≡ true
      → j.workspace ≡ i.workspace
      → i.finished ≡ false
      → IsSound (over j s)
      → Changes id (over j s) m (end_job id j s code signal m).0
  unfolding end_job freed done_job
  end_job-Changes s code signal last w open_ sound =
      let flags : Flags = record { started = false; finished = true; exit_code = some code } in
      tell_end-Changes s code signal (set_job_state id done_job s flags freed) last w open_
        (set_job_state-SameCore id done_job s flags freed)
        (set_job_state-missing id done_job s flags freed) sound
