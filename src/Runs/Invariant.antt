-- ===== src/Runs/Invariant.antt =====
-- What holds of every job of the manager, whatever calls and callbacks come in whatever order.
pub mod Ops
pub mod End
pub mod Calls
pub mod Finish
pub mod Events
use code_runner.Prelude.{
  ℕ, suc, ◌+◌, ◌≤◌, ◌<◌, List, [], ◌∷◌, ◌++◌, Option, none, some, Bool, true, false, ◌≡◌, refl, ◌⊎◌,
  inl, inr, arith, Bool-cases, Option-cases, is_some, if◌then◌else◌, ◌==◌, get, has, ◌&&◌,
}
use code_runner.Runs.{
  RunJob, RunManager, SimRunStatus, stopped, failed, TerminalStatus, Phase, preparing, returned,
}
use code_runner.Runs.Life.{in_phase}

abbrev pub is_terminal : SimRunStatus → Bool
is_terminal stopped = true
is_terminal failed = true
is_terminal _ = false

-- One job by itself: a finished job holds no slot and no timer and is in a last state; a job that
-- waits for its container is unfinished and has no timer, spent or not; a job that has returned is finished.
pub record IsSound (j : RunJob) : Type 0 where
  pub slotless : j.finished ≡ true → j.build_slot_held ≡ false
  pub timerless : j.finished ≡ true → is_some j.readiness_timer ≡ false
  pub last : j.finished ≡ true → is_terminal j.state ≡ true
  pub early : in_phase preparing j.phase ≡ true → j.finished ≡ false
  pub early_timer : in_phase preparing j.phase ≡ true → is_some j.readiness_timer ≡ false
  pub early_timing : in_phase preparing j.phase ≡ true → j.timing_out ≡ false
  pub over : in_phase returned j.phase ≡ true → j.finished ≡ true

-- How often a run is counted in the metric of ended runs.
unfoldable pub tally : ℕ → List (ℕ × TerminalStatus) → ℕ
tally id [] = 0
tally id ((k, s) ∷ rest) = (if k == id then 1 else 0) + tally id rest

pub tally-append :
    (id : ℕ) (xs ys : List (ℕ × TerminalStatus)) → tally id (xs ++ ys) ≡ tally id xs + tally id ys
unfolding tally
tally-append id [] ys = ground arith
tally-append id ((k, s) ∷ xs) ys = ground (arith, tally-append id xs ys)

abbrev pub once : Bool → ℕ
once b = if b then 1 else 0

-- The run has its row in the table.
abbrev pub has_row : ℕ → RunManager → Bool
has_row id m = is_some (get id m.rows)

-- A run that is counted `n` times: once at most, only if it is finished, and then if it has its row.
pub record IsCounted (n : ℕ) (finished row : Bool) : Type 0 where
  pub at_most : n ≤ once finished
  pub exactly : row ≡ true → n ≡ once finished

-- The manager with its jobs: the slots in use are those that the jobs hold, an ended run is
-- counted, and the current job of a workspace is one of its own, unfinished if it has its row.
pub record AllSettled (m : RunManager) : Type 0 where
  pub sound : (id : ℕ) (j : RunJob) → m.jobs id ≡ some j → IsSound j
  pub slots :
      (id : ℕ) (j : RunJob) → m.jobs id ≡ some j → has id m.active_builds ≡ j.build_slot_held
  pub counted :
      (id : ℕ) (j : RunJob)
      → m.jobs id ≡ some j
      → IsCounted (tally id m.runs_total) j.finished (has_row id m)
  pub numbered : (id : ℕ) (j : RunJob) → m.jobs id ≡ some j → id < m.next_id
  pub unknown :
      (id : ℕ) → m.jobs id ≡ none → (has id m.active_builds ≡ false) × (tally id m.runs_total ≡ 0)
  pub currents :
      (w id : ℕ)
      → get w m.jobs_by_workspace ≡ some id
      → (j : RunJob) × (m.jobs id ≡ some j)
        × (j.workspace ≡ w)
        × (has_row id m ≡ true → j.finished ≡ false)

-- The manager `n` is `m` with the job `j` stored under `id`, and the rest to match.
pub record Changes (id : ℕ) (j : RunJob) (m n : RunManager) : Type 0 where
  pub is_sound : IsSound j
  pub jobs : (k : ℕ) → n.jobs k ≡ (if id == k then some j else m.jobs k)
  pub builds :
      (k : ℕ)
      → has k n.active_builds ≡ (if id == k then j.build_slot_held else has k m.active_builds)
  pub counts : (k : ℕ) → (id == k) ≡ false → tally k n.runs_total ≡ tally k m.runs_total
  pub own_count : IsCounted (tally id n.runs_total) j.finished (has_row id n)
  pub rows : (k : ℕ) → (id == k) ≡ false → has_row k n ≡ true → has_row k m ≡ true
  pub numbers : (id < n.next_id) × (m.next_id ≤ n.next_id)
  pub own :
      (w : ℕ)
      → get w n.jobs_by_workspace ≡ some id
      → (j.workspace ≡ w) × (has_row id n ≡ true → j.finished ≡ false)
  pub others :
      (w k : ℕ)
      → get w n.jobs_by_workspace ≡ some k
      → (id == k) ≡ false
      → get w m.jobs_by_workspace ≡ some k

module _ (id : ℕ) (j : RunJob) (m n : RunManager) (all : AllSettled m) (c : Changes id j m n) where
  pub at-Changes : n.jobs id ≡ some j
  at-Changes = ground (arith, c.jobs id)

  pub Changes-AllSettled : AllSettled n
  Changes-AllSettled = record {
    sound = λ k x h. elim (Bool-cases (id == k)) [
      | inl same ↦ let here : j ≡ x = ground (arith, c.jobs k) in rw (← here) c.is_sound
      | inr other ↦ all.sound k x (ground (arith, c.jobs k))
    ];
    slots = λ k x h. elim (Bool-cases (id == k)) [
      | inl same ↦ ground (arith, c.jobs k, c.builds k)
      | inr other ↦
          let old : m.jobs k ≡ some x = ground (arith, c.jobs k) in
          ground (arith, c.builds k, all.slots k x old)
    ];
    counted = λ k x h. elim (Bool-cases (id == k)) [
      | inl same ↦
          let here : j ≡ x = ground (arith, c.jobs k) in
          let this : id ≡ k = ground arith in rw (← here, ← this) c.own_count
      | inr other ↦
          let old : m.jobs k ≡ some x = ground (arith, c.jobs k) in
          let count = all.counted k x old in
          record {
            at_most = rw (c.counts k other) count.at_most;
            exactly = λ row. rw (c.counts k other) (count.exactly (c.rows k other row));
          }
    ];
    numbered = λ k x h. elim (Bool-cases (id == k)) [
      | inl same ↦ ground (arith, c.numbers)
      | inr other ↦
          let old : m.jobs k ≡ some x = ground (arith, c.jobs k) in
          ground (arith, c.numbers, all.numbered k x old)
    ];
    unknown = λ k h. elim (Bool-cases (id == k)) [
      | inl same ↦ ground (arith, c.jobs k)
      | inr other ↦
          let old : m.jobs k ≡ none = ground (arith, c.jobs k) in
          ground (arith, c.builds k, c.counts k other, all.unknown k old)
    ];
    currents = λ w k h. elim (Bool-cases (id == k)) [
      | inl same ↦
          let this : id ≡ k = ground arith in
          let mine : get w n.jobs_by_workspace ≡ some id = ground arith in
          let (a, b) = c.own w mine in (j, rw (← this) at-Changes, a, rw (← this) b)
      | inr other ↦
          let (x, p, q, r) = all.currents w k (c.others w k h other) in
          (x, ground (arith, c.jobs k), q, λ row. r (c.rows k other row))
    ];
  }
