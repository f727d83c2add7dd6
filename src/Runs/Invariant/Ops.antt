-- ===== src/Runs/Invariant/Ops.antt =====
-- What each operation on a job does to the manager, as far as the invariant sees it.
use code_runner.Prelude.{
  ℕ, List, Option, some, Bool, true, false, ◌≡◌, refl, inl, inr, arith, Bool-cases, Option-cases,
  if◌then◌else◌, get, has-remove, is_some, ◌&&◌, get-put,
}
use code_runner.Runs.{
  RunJob, RunManager, SimRunStatus, TerminalStatus, Flags, set_job, set_job_state, update_run_job,
  remember_status, is_current_job, release_build_slot, without_slot, RunJobRow, updated_row,
}
use code_runner.Runs.Invariant.{IsSound, AllSettled, Changes, IsCounted, has_row, tally}

-- The parts of the manager that the invariant reads.
pub record Core : Type 0 where
  pub jobs : ℕ → Option RunJob
  pub builds : List ℕ
  pub total : List (ℕ × TerminalStatus)
  pub current : List (ℕ × ℕ)
  pub next : ℕ
  pub rows : List (ℕ × RunJobRow)

abbrev pub core : RunManager → Core
core m = record {
  jobs = m.jobs;
  builds = m.active_builds;
  total = m.runs_total;
  current = m.jobs_by_workspace;
  next = m.next_id;
  rows = m.rows;
}

pub record SameParts (c d : Core) : Type 0 where
  pub same_jobs : c.jobs ≡ d.jobs
  pub same_builds : c.builds ≡ d.builds
  pub same_total : c.total ≡ d.total
  pub same_current : c.current ≡ d.current
  pub same_next : c.next ≡ d.next
  pub no_more_rows : (k : ℕ) → is_some (get k c.rows) ≡ true → is_some (get k d.rows) ≡ true

abbrev pub SameCore : RunManager → RunManager → Type 0
SameCore n m = SameParts (core n) (core m)

pub same : (m : RunManager) → SameCore m m
same m = record {
  same_jobs = refl;
  same_builds = refl;
  same_total = refl;
  same_current = refl;
  same_next = refl;
  no_more_rows = λ k h. h;
}

pub SameParts-trans : {c d e : Core} → SameParts c d → SameParts d e → SameParts c e
SameParts-trans a b = record {
  same_jobs = rw a.same_jobs b.same_jobs;
  same_builds = rw a.same_builds b.same_builds;
  same_total = rw a.same_total b.same_total;
  same_current = rw a.same_current b.same_current;
  same_next = rw a.same_next b.same_next;
  no_more_rows = λ k h. b.no_more_rows k (a.no_more_rows k h);
}

pub SameCore-AllSettled : (n m : RunManager) → SameCore n m → AllSettled m → AllSettled n
SameCore-AllSettled n m s all = record {
  sound = rw (s.same_jobs) all.sound;
  slots = rw (s.same_jobs, s.same_builds) all.slots;
  counted = λ id j h.
      let count = all.counted id j (rw (← s.same_jobs) h) in
      record {
        at_most = rw (s.same_total) count.at_most;
        exactly = λ row. rw (s.same_total) (count.exactly (s.no_more_rows id row));
      };
  numbered = rw (s.same_jobs, s.same_next) all.numbered;
  unknown = rw (s.same_jobs, s.same_builds, s.same_total) all.unknown;
  currents = λ w id h.
      let (j, at, own, open_) = all.currents w id (rw (← s.same_current) h) in
      (j, rw s.same_jobs at, own, λ row. open_ (s.no_more_rows id row));
}

pub SameCore-Changes :
    (id : ℕ) (j : RunJob) (m n k : RunManager) → SameCore k n → Changes id j m n → Changes id j m k
SameCore-Changes id j m n k s c = record {
  is_sound = c.is_sound;
  jobs = rw (s.same_jobs) c.jobs;
  builds = rw (s.same_builds) c.builds;
  counts = rw (s.same_total) c.counts;
  own_count = record {
    at_most = rw (s.same_total) c.own_count.at_most;
    exactly = λ row. rw (s.same_total) (c.own_count.exactly (s.no_more_rows id row));
  };
  rows = λ k o h. c.rows k o (s.no_more_rows k h);
  numbers = rw (s.same_next) c.numbers;
  own = λ w h.
      let (a, b) = c.own w (rw (← s.same_current) h) in (a, λ row. b (s.no_more_rows id row));
  others = rw (s.same_current) c.others;
}

pub update_run_job-SameCore :
    (id : ℕ) (s : SimRunStatus) (flags : Flags) (m : RunManager)
    → SameCore (update_run_job id s flags m).0 m
unfolding update_run_job
update_run_job-SameCore id s flags m = elim (Option-cases (get id m.rows)) [
  | inl e ↦ rw (e, update_run_job) (same m)
  | inr (r, e) ↦
      rw (e, update_run_job)
        record {
          same_jobs = refl;
          same_builds = refl;
          same_total = refl;
          same_current = refl;
          same_next = refl;
          no_more_rows = λ k h. ground (arith, get-put id k (updated_row s flags m.clock r) m.rows);
        }
]

pub if-SameCore :
    (t : Bool) (a b m : RunManager) → SameCore a m → SameCore b m → SameCore (if t then a else b) m
if-SameCore true a b m h k = h
if-SameCore false a b m h k = k

pub remember_status-SameCore :
    (w : ℕ) (s : SimRunStatus) (o : Option ℕ) (m : RunManager)
    → SameCore (remember_status w s o m) m
unfolding remember_status
remember_status-SameCore w s o m = same m

pub set_job_state-SameCore :
    (id : ℕ) (j : RunJob) (s : SimRunStatus) (flags : Flags) (m : RunManager)
    → SameCore (set_job_state id j s flags m).0 (set_job id (record j { state = s }) m)
unfolding set_job_state
set_job_state-SameCore id j s flags m =
    let base = set_job id (record j { state = s }) m in
    let stored = (update_run_job id s flags base).0 in
    let here = update_run_job-SameCore id s flags base in
    let remembered = remember_status j.workspace s (some id) stored in
    if-SameCore ((update_run_job id s flags base).1 && is_current_job id j stored) remembered stored
      base (SameParts-trans (remember_status-SameCore j.workspace s (some id) stored) here) here

pub set_job_state-missing :
    (id : ℕ) (j : RunJob) (s : SimRunStatus) (flags : Flags) (m : RunManager)
    → (set_job_state id j s flags m).1 ≡ false
    → has_row id (set_job_state id j s flags m).0 ≡ false
unfolding set_job_state update_run_job
set_job_state-missing id j s flags m h = elim (Option-cases (get id m.rows)) [
  | inl e ↦ ground arith
  | inr (r, e) ↦ ground arith
]

-- A job that is stored in place of one that agrees with it in what the rest of the manager knows.
module _ (id : ℕ) (i j : RunJob) (m : RunManager) (all : AllSettled m)
    (at : m.jobs id ≡ some i) where
  own-current :
      (w : ℕ)
      → get w m.jobs_by_workspace ≡ some id
      → (i.workspace ≡ w) × (has_row id m ≡ true → i.finished ≡ false)
  own-current w h =
      let (x, p, q, r) = all.currents w id h in
      let here : x ≡ i = ground arith in rw (← here) (q, r)

  -- The job `j` has the same workspace and end.
  kept_own :
      j.finished ≡ i.finished
      → j.workspace ≡ i.workspace
      → (w : ℕ) → get w m.jobs_by_workspace ≡ some id
      → (j.workspace ≡ w) × (has_row id m ≡ true → j.finished ≡ false)
  kept_own f w v g = let (a, b) = own-current v g in rw (f, w) (a, b)

  kept_count : j.finished ≡ i.finished → IsCounted (tally id m.runs_total) j.finished (has_row id m)
  kept_count f = rw f (all.counted id i at)

  pub set_job-Changes :
      IsSound j
      → j.build_slot_held ≡ i.build_slot_held
      → j.finished ≡ i.finished
      → j.workspace ≡ i.workspace
      → Changes id j m (set_job id j m)
  set_job-Changes s h f w = record {
    is_sound = s;
    jobs = λ k. refl;
    builds = λ k. ground (arith, all.slots id i at);
    counts = λ k o. refl;
    own_count = kept_count f;
    rows = λ k o g. g;
    numbers = ground (arith, all.numbered id i at);
    own = λ v g. kept_own f w v g;
    others = λ v k g o. g;
  }

  pub release_build_slot-Changes :
      IsSound (without_slot j)
      → j.build_slot_held ≡ i.build_slot_held
      → j.finished ≡ i.finished
      → j.workspace ≡ i.workspace
      → Changes id (without_slot j) m (release_build_slot id j m)
  unfolding release_build_slot
  release_build_slot-Changes s h f w = elim (Bool-cases j.build_slot_held) [
    | inl held ↦
        rw (held, release_build_slot)
          record {
            is_sound = s;
            jobs = λ k. refl;
            builds = λ k. ground (arith, has-remove id k m.active_builds);
            counts = λ k o. refl;
            own_count = kept_count f;
            rows = λ k o g. g;
            numbers = ground (arith, all.numbered id i at);
            own = λ v g. kept_own f w v g;
            others = λ v k g o. g;
          }
    | inr free ↦
        rw (free, release_build_slot)
          record {
            is_sound = s;
            jobs = λ k. ground arith;
            builds = λ k. ground (arith, all.slots id i at);
            counts = λ k o. refl;
            own_count = kept_count f;
            rows = λ k o g. g;
            numbers = ground (arith, all.numbered id i at);
            own = λ v g. kept_own f w v g;
            others = λ v k g o. g;
          }
  ]
