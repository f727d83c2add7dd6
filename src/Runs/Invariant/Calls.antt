-- ===== src/Runs/Invariant/Calls.antt =====
-- The calls of the manager keep its jobs settled: connections, starting and stopping.
use code_runner.Prelude.{
  ℕ, List, [], ◌∷◌, Option, none, some, Bool, true, false, ◌≡◌, refl, ◌⊎◌, inl, inr, arith,
  Bool-cases, Option-cases, is_some, if◌then◌else◌, ◌==◌, get, add, remove, has-add, get-put,
}
use code_runner.Runs.{
  RunJob, RunJobRow, RunManager, SimRunMode, building, stopped, reporting, status, update_run_job,
  delete_rows, Flags, set_job, set_job_state, remember_status, broadcast, send,
}
use code_runner.Runs.Jobs.{
  fail_later, current, connect, disconnect, cancel_workspace, queue_job, begin_job, start, new_job,
  new_row, with_connection, connections_of, without_connection,
}
use code_runner.Runs.Life.{reconcile_rows, is_left, stop_orphan}
use code_runner.Runs.Invariant.{IsSound, AllSettled, Changes, Changes-AllSettled, at-Changes, tally}
use code_runner.Runs.Invariant.Ops.{
  SameCore, same, SameParts-trans, SameCore-AllSettled, set_job_state-SameCore,
  update_run_job-SameCore, if-SameCore, set_job-Changes,
}

current-cases :
    (w : ℕ) (m : RunManager)
    → (current w m ≡ none)
      ⊎ ((id : ℕ) × (j : RunJob) × (current w m ≡ some (id, j)) × (m.jobs id ≡ some j))
unfolding current
current-cases w m = elim (Option-cases (get w m.jobs_by_workspace)) [
  | inl e ↦ inl (rw (e, current) refl)
  | inr (id, e) ↦ elim (Option-cases (m.jobs id)) [
    | inl f ↦ inl (rw (e, current) (rw f refl))
    | inr (j, f) ↦ inr (id, j, rw (e, current) (rw f refl), f)
  ]
]

-- A job stored with other clients or with the mark that it is to stop.
pub replaced-AllSettled :
    (id : ℕ) (i j : RunJob) (m n : RunManager)
    → AllSettled m
    → m.jobs id ≡ some i
    → IsSound j
    → j.build_slot_held ≡ i.build_slot_held
    → j.finished ≡ i.finished
    → j.workspace ≡ i.workspace
    → SameCore n (set_job id j m)
    → AllSettled n
replaced-AllSettled id i j m n all at s h f w core =
    SameCore-AllSettled n (set_job id j m) core
      (Changes-AllSettled id j m (set_job id j m) all (set_job-Changes id i j m all at s h f w))

pub connect-AllSettled : (w c : ℕ) (m : RunManager) → AllSettled m → AllSettled (connect w c m)
unfolding connect send
connect-AllSettled w c m all = elim (current-cases w m) [
  | inl e ↦ rw (e, connect) (SameCore-AllSettled _ m (same m) all)
  | inr (id, j, e, at) ↦
      let more : RunJob = record j { clients = add c j.clients } in
      let s : IsSound more = ground (arith, all.sound id j at) in
      rw (e, connect)
        (replaced-AllSettled id j more m _ all at s refl refl refl (same (set_job id more m)))
]

pub disconnect-AllSettled :
    (w c : ℕ) (m : RunManager) → AllSettled m → AllSettled (disconnect w c m)
unfolding disconnect
disconnect-AllSettled w c m all =
    let left : RunManager = elim (get w m.connections) [
      | none ↦ m
      | some cs ↦ record m { connections = without_connection w (remove c cs) m.connections }
    ] in
    let core : SameCore left m = elim (Option-cases (get w m.connections)) [
      | inl e ↦ rw e (same m)
      | inr (cs, e) ↦ rw e (same m)
    ] in
    elim (current-cases w m) [
      | inl e ↦ rw (e, disconnect) (SameCore-AllSettled left m core all)
      | inr (id, j, e, at) ↦
          let fewer : RunJob = record j { clients = remove c j.clients } in
          let s : IsSound fewer = ground (arith, all.sound id j at) in
          rw (e, disconnect)
            (replaced-AllSettled id j fewer left _ (SameCore-AllSettled left m core all)
              (rw core.same_jobs at) s refl refl refl (same (set_job id fewer left)))
    ]

pub if-AllSettled :
    (t : Bool) (n k : RunManager) → AllSettled n → AllSettled k → AllSettled (if t then n else k)
if-AllSettled true n k h g = h
if-AllSettled false n k h g = g

pub cancel_workspace-AllSettled :
    (w : ℕ) (m : RunManager) → AllSettled m → AllSettled (cancel_workspace w m).0
unfolding cancel_workspace remember_status broadcast
cancel_workspace-AllSettled w m all = elim (current-cases w m) [
  | inl e ↦ rw (e, cancel_workspace) (SameCore-AllSettled _ m (same m) all)
  | inr (id, j, e, at) ↦
      let marked : RunJob = record j { canceled = true } in
      let s : IsSound marked = ground (arith, all.sound id j at) in
      rw (e, cancel_workspace)
        (let keep : (n : RunManager) → SameCore n (set_job id marked m) → AllSettled n =
            λ n. replaced-AllSettled id j marked m n all at s refl refl refl in
          if-AllSettled j.command _ _ (keep _ (same (set_job id marked m)))
            (keep _ (same (set_job id marked m))))
]

-- The next id is no job's yet.
pub fresh : (m : RunManager) → AllSettled m → m.jobs m.next_id ≡ none
fresh m all = elim (Option-cases (m.jobs m.next_id)) [
  | inl e ↦ e
  | inr (j, e) ↦ ground (arith, all.numbered m.next_id j e)
]

pub queue_job-Changes :
    (w : ℕ) (c : Option ℕ) (mode : SimRunMode) (m : RunManager)
    → AllSettled m
    → Changes m.next_id
        (new_job w mode (with_connection c (connections_of w m)) m.clock)
        m
        (queue_job w c mode m)
unfolding queue_job remember_status
queue_job-Changes w c mode m all =
    let (free, none_yet) = all.unknown m.next_id (fresh m all) in
    record {
      is_sound = ground arith;
      jobs = λ k. refl;
      builds = λ k. ground (arith, has-add m.next_id k m.active_builds);
      counts = λ k o. refl;
      own_count =
          let zero_yet : tally m.next_id m.runs_total ≡ 0 = none_yet in
          record { at_most = omega arith; exactly = λ row. none_yet };
      rows = λ k o h. ground (arith, get-put m.next_id k (new_row w) m.rows);
      numbers = ground arith;
      own = λ v g. elim (Bool-cases (w == v)) [
        | inl here ↦ ground arith
        | inr away ↦
            let old : get v m.jobs_by_workspace ≡ some m.next_id =
              ground (arith, get-put w v m.next_id m.jobs_by_workspace) in
            let (x, at, p, q) = all.currents v m.next_id old in ground (arith, fresh m all)
      ];
      others = λ v k g o. ground (arith, get-put w v m.next_id m.jobs_by_workspace);
    }

pub start-AllSettled :
    (w : ℕ) (c : Option ℕ) (mode : SimRunMode) (m : RunManager)
    → AllSettled m
    → AllSettled (start w c mode m)
unfolding start begin_job broadcast
start-AllSettled w c mode m all =
    let cleared = (cancel_workspace w m).0 in
    let all' = cancel_workspace-AllSettled w m all in
    let j = new_job w mode (with_connection c (connections_of w cleared)) cleared.clock in
    let queued = queue_job w c mode cleared in
    let change = queue_job-Changes w c mode cleared all' in
    let flags : Flags = record { started = true; finished = false; exit_code = none } in
    let (stated, written) = set_job_state cleared.next_id j building flags queued in
    let core = set_job_state-SameCore cleared.next_id j building flags queued in
    let all'' =
      replaced-AllSettled cleared.next_id j j queued stated
        (Changes-AllSettled cleared.next_id j cleared queued all' change)
        (at-Changes cleared.next_id j cleared queued all' change) change.is_sound refl refl refl
        core in
    let stuck : RunJob = record j { phase = reporting } in
    let s : IsSound stuck = ground arith in
    if-AllSettled written (broadcast j (status building) stated)
      (fail_later cleared.next_id j stated) (SameCore-AllSettled _ stated (same stated) all'')
      (replaced-AllSettled cleared.next_id j stuck stated _ all'' (ground (arith, core.same_jobs)) s
        refl refl refl (same (set_job cleared.next_id stuck stated)))

stop_orphan-SameCore : (id : ℕ) (r : RunJobRow) (m : RunManager) → SameCore (stop_orphan id r m).0 m
unfolding stop_orphan remember_status
stop_orphan-SameCore id r m =
    let flags : Flags = record { started = false; finished = true; exit_code = some none } in
    let updated = update_run_job-SameCore id stopped flags m in
    elim (Bool-cases (update_run_job id stopped flags m).1) [
      | inl h ↦ rw (h, stop_orphan) updated
      | inr h ↦ rw (h, stop_orphan) updated
    ]

pub reconcile_rows-SameCore :
    (rows : List (ℕ × RunJobRow)) (m : RunManager) → SameCore (reconcile_rows rows m) m
unfolding reconcile_rows
reconcile_rows-SameCore [] m = same m
reconcile_rows-SameCore ((id, r) ∷ rest) m =
    let (one, written) = if is_left r m then stop_orphan id r m else (m, true) in
    let first : SameCore one m = elim (Bool-cases (is_left r m)) [
      | inl h ↦ rw h (stop_orphan-SameCore id r m)
      | inr h ↦ rw h (same m)
    ] in
    if-SameCore written (reconcile_rows rest one) one m
      (SameParts-trans (reconcile_rows-SameCore rest one) first) first

delete_rows-gone :
    (w k : ℕ) (rows : List (ℕ × RunJobRow))
    → is_some (get k (delete_rows w rows)) ≡ true
    → is_some (get k rows) ≡ true
unfolding delete_rows get
delete_rows-gone w k [] h = h
delete_rows-gone w k ((id, r) ∷ rows) h = ground (arith, delete_rows-gone w k rows)

pub deletes-SameCore :
    (w : ℕ) (m : RunManager) → SameCore (record m { rows = delete_rows w m.rows }) m
deletes-SameCore w m = record {
  same_jobs = refl;
  same_builds = refl;
  same_total = refl;
  same_current = refl;
  same_next = refl;
  no_more_rows = λ k h. delete_rows-gone w k m.rows h;
}
