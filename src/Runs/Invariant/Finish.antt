-- ===== src/Runs/Invariant/Finish.antt =====
-- The rules for a job's event, and what `finishJob` and the end of `runJob` leave.
use code_runner.Prelude.{
  ℕ, String, Option, some, Bool, true, false, ◌≡◌, refl, inl, inr, arith, Bool-cases, Option-cases,
  if◌then◌else◌,
}
use code_runner.Runs.{
  RunJob, RunManager, SimRunStatus, Phase, preparing, reporting, returned, set_job,
  release_build_slot, without_slot, finish_job, end_job,
}
use code_runner.Runs.Jobs.{fail_later}
use code_runner.Runs.Life.{with_job, return_job, end_or_fail, waiting_at, in_phase}
use code_runner.Runs.Invariant.{IsSound, AllSettled, Changes-AllSettled, at-Changes, is_terminal}
use code_runner.Runs.Invariant.Ops.{same, release_build_slot-Changes}
use code_runner.Runs.Invariant.End.{over, end_job-Changes}
use code_runner.Runs.Invariant.Calls.{replaced-AllSettled}

pub with_job-AllSettled :
    (id : ℕ) (f : RunJob → RunManager → RunManager) (m : RunManager)
    → AllSettled m
    → ((j : RunJob) → m.jobs id ≡ some j → AllSettled (f j m))
    → AllSettled (with_job id f m)
unfolding with_job
with_job-AllSettled id f m all keep = elim (Option-cases (m.jobs id)) [
  | inl e ↦ rw (e, with_job) all
  | inr (j, e) ↦ rw (e, with_job) (keep j e)
]

pub guarded-AllSettled :
    (id : ℕ) (test : RunJob → Bool) (f : RunJob → RunManager → RunManager) (m : RunManager)
    → AllSettled m
    → ((j : RunJob) → m.jobs id ≡ some j → test j ≡ true → AllSettled (f j m))
    → AllSettled (with_job id (λ j n. if test j then f j n else n) m)
guarded-AllSettled id test f m all keep =
    with_job-AllSettled id (λ j n. if test j then f j n else n) m all
      λ j e. elim (Bool-cases (test j)) [ inl h ↦ rw h (keep j e h) | inr h ↦ rw h all ]

pub waiting_at-AllSettled :
    (p : Phase) (id : ℕ) (f : RunJob → RunManager → RunManager) (m : RunManager)
    → AllSettled m
    → ((j : RunJob) → m.jobs id ≡ some j → in_phase p j.phase ≡ true → AllSettled (f j m))
    → AllSettled (waiting_at p id f m)
unfolding waiting_at
waiting_at-AllSettled p id f m all keep =
    guarded-AllSettled id (λ j. in_phase p j.phase) f m all keep

pub release-AllSettled :
    (id : ℕ) (j : RunJob) (m : RunManager)
    → AllSettled m
    → m.jobs id ≡ some j
    → AllSettled (release_build_slot id j m)
release-AllSettled id j m all at =
    let s : IsSound (without_slot j) = ground (arith, all.sound id j at) in
    Changes-AllSettled id (without_slot j) m _ all
      (release_build_slot-Changes id j j m all at s refl refl refl)

-- A finished job may return.
pub return_job-AllSettled :
    (id : ℕ) (j : RunJob) (m : RunManager)
    → AllSettled m
    → m.jobs id ≡ some j
    → j.finished ≡ true
    → AllSettled (return_job id m)
unfolding return_job with_job
return_job-AllSettled id j m all at done =
    let back : RunJob = record j { phase = returned } in
    let s : IsSound (without_slot back) = ground (arith, all.sound id j at) in
    rw (at, return_job, with_job)
      (Changes-AllSettled id (without_slot back) m _ all
        (release_build_slot-Changes id j back m all at s refl refl refl))

-- `finishJob` leaves a settled manager with the job finished.
pub record Finishes (id : ℕ) (n : RunManager) : Type 0 where
  pub settled : AllSettled n
  pub ending : (j : RunJob) × (n.jobs id ≡ some j) × (j.finished ≡ true)

pub end_job-Finishes :
    (id : ℕ) (i j : RunJob) (s : SimRunStatus) (code : Option ℕ) (signal : Option String)
    (m : RunManager)
    → AllSettled m
    → m.jobs id ≡ some i
    → j.build_slot_held ≡ i.build_slot_held
    → j.workspace ≡ i.workspace
    → i.finished ≡ false
    → is_terminal s ≡ true
    → in_phase preparing j.phase ≡ false
    → Finishes id (end_job id j s code signal m).0
end_job-Finishes id i j s code signal m all at held w open_ last late =
    let sound : IsSound (over j s) = ground arith in
    let change = end_job-Changes id i j m all at held s code signal last w open_ sound in
    record {
      settled = Changes-AllSettled id (over j s) m _ all change;
      ending = (over j s, at-Changes id (over j s) m _ all change, refl);
    }

pub finish_job-Finishes :
    (id : ℕ) (j : RunJob) (s : SimRunStatus) (code : Option ℕ) (signal : Option String)
    (m : RunManager)
    → AllSettled m
    → m.jobs id ≡ some j
    → is_terminal s ≡ true
    → in_phase preparing j.phase ≡ false
    → Finishes id (finish_job id j s code signal m).0
unfolding finish_job
finish_job-Finishes id j s code signal m all at last late = elim (Bool-cases j.finished) [
  | inl h ↦ rw (h, finish_job) record { settled = all; ending = (j, at, h) }
  | inr h ↦
      rw (h, finish_job) (end_job-Finishes id j j s code signal m all at refl refl h last late)
]

pub Finishes-return : (id : ℕ) (n : RunManager) → Finishes id n → AllSettled (return_job id n)
Finishes-return id n f =
    let (j, at, done) = f.ending in return_job-AllSettled id j n f.settled at done

pub fail_later-AllSettled :
    (id : ℕ) (n : RunManager) → AllSettled n → AllSettled (with_job id (fail_later id) n)
fail_later-AllSettled id n all = with_job-AllSettled id (fail_later id) n all λ j at.
    let s : IsSound (record j { phase = reporting }) = ground (arith, all.sound id j at) in
    replaced-AllSettled id j (record j { phase = reporting }) n _ all at s refl refl refl
      (same (set_job id (record j { phase = reporting }) n))

pub Finishes-end_or_fail :
    (id : ℕ) (p : RunManager × Bool) → Finishes id p.0 → AllSettled (end_or_fail id p)
unfolding end_or_fail
Finishes-end_or_fail id (n, true) f = Finishes-return id n f
Finishes-end_or_fail id (n, false) f = fail_later-AllSettled id n f.settled

-- A job stored with changes to the fields that nothing else in the manager knows.
pub stored-AllSettled :
    (id : ℕ) (i j : RunJob) (m : RunManager)
    → AllSettled m
    → m.jobs id ≡ some i
    → IsSound j
    → j.build_slot_held ≡ i.build_slot_held
    → j.finished ≡ i.finished
    → j.workspace ≡ i.workspace
    → AllSettled (set_job id j m)
stored-AllSettled id i j m all at s h f w =
    replaced-AllSettled id i j m _ all at s h f w (same (set_job id j m))
