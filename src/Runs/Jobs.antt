-- ===== src/Runs/Jobs.antt =====
-- The operations of the RunManager in apps/control/src/runs.ts, and the life of a run between its
-- waits: each event is what runs from one `await` to the next.
use code_runner.Prelude.{
  ℕ, suc, List, [], ◌∷◌, ◌++◌, Option, none, some, Bool, true, false, ◌&&◌, not, if◌then◌else◌,
  or_else, get, put, delete, add, remove, ◌==◌,
}
use code_runner.Runs.{
  SimRunMode, run, idle, building, stopping, stopped, hello, status, preparing, reporting, RunJob,
  RunSnapshot, RunJobRow, Effect, stop_sim, kill, RunManager, set_job, send, broadcast,
  remember_status, Flags, set_job_state,
}

abbrev pub no_flags : Flags
no_flags = record { started = false; finished = false; exit_code = none }

-- `this.jobsByWorkspace.get(workspaceId)`, with the job as it stands.
unfoldable pub current : ℕ → RunManager → Option (ℕ × RunJob)
current w m = elim (get w m.jobs_by_workspace) [
  | none ↦ none
  | some id ↦ elim (m.jobs id) [ none ↦ none | some j ↦ some (id, j) ]
]

abbrev pub connections_of : ℕ → RunManager → List ℕ
connections_of w m = or_else (get w m.connections) []

unfoldable pub connect : ℕ → ℕ → RunManager → RunManager
unfolding current send
connect w c m =
    let joined : RunManager = record m {
      connections = put w (add c (connections_of w m)) m.connections;
    } in
    elim (current w m) [
      | none ↦ send c (hello none) joined
      | some (id, j) ↦
          send c (status j.state)
            (send c (hello (some id)) (set_job id (record j { clients = add c j.clients }) joined))
    ]

abbrev pub without_connection : ℕ → List ℕ → List (ℕ × List ℕ) → List (ℕ × List ℕ)
without_connection w [] all = delete w all
without_connection w (d ∷ ds) all = put w (d ∷ ds) all

unfoldable pub disconnect : ℕ → ℕ → RunManager → RunManager
unfolding current
disconnect w c m =
    let left : RunManager = elim (get w m.connections) [
      | none ↦ m
      | some cs ↦ record m { connections = without_connection w (remove c cs) m.connections }
    ] in
    elim (current w m) [
      | none ↦ left
      | some (id, j) ↦ set_job id (record j { clients = remove c j.clients }) left
    ]

unfoldable pub last_mode_of : ℕ → RunManager → SimRunMode
last_mode_of w m = or_else (get w m.last_mode) run

abbrev pub effect : Effect → RunManager → RunManager
effect e m = record m { effects = m.effects ++ e ∷ [] }

-- The row of a workspace with the latest request: the table lists them in that order.
latest_row : ℕ → List (ℕ × RunJobRow) → Option RunSnapshot
latest_row w [] = none
latest_row w ((id, r) ∷ rows) = elim (latest_row w rows) [
  | some later ↦ some later
  | none ↦
      if r.workspace_id == w then some (record { status = r.state; run_id = some id }) else none
]

unfoldable pub get_workspace_snapshot : ℕ → RunManager → RunSnapshot
unfolding current latest_row
get_workspace_snapshot w m = elim (current w m) [
  | some (id, j) ↦ record {
    status = if j.canceled && not j.finished then stopping else j.state;
    run_id = some id;
  }
  | none ↦ elim (get w m.last_status) [
    | some recent ↦ recent
    | none ↦ or_else (latest_row w m.rows) (record { status = idle; run_id = none })
  ]
]

-- `cancelWorkspace`, which is `stopWorkspace` too; the flag is what it returns.
unfoldable pub cancel_workspace : ℕ → RunManager → RunManager × Bool
unfolding current remember_status broadcast
cancel_workspace w m = elim (current w m) [
  | none ↦ (remember_status w stopped none (effect (stop_sim w) m), false)
  | some (id, j) ↦
      let marked = set_job id (record j { canceled = true }) m in
      let told =
        broadcast j (status stopping) (remember_status j.workspace stopping (some id) marked) in
      let stops = effect (stop_sim w) told in
      (if j.command then effect (kill id) stops else stops, true)
]

abbrev pub with_connection : Option ℕ → List ℕ → List ℕ
with_connection none cs = cs
with_connection (some c) cs = add c cs

abbrev pub new_job : ℕ → SimRunMode → List ℕ → ℕ → RunJob
new_job w mode clients now = record {
  workspace = w;
  mode = mode;
  state = building;
  clients = clients;
  command = false;
  canceled = false;
  reported_running = false;
  build_slot_held = true;
  finished = false;
  readiness_timer = none;
  build_started_at_ms = some now;
  running_since_ms = none;
  phase = preparing;
  timing_out = false;
}

abbrev pub new_row : ℕ → RunJobRow
new_row w = record {
  workspace_id = w;
  state = building;
  started_at = none;
  finished_at = none;
  exit_code = none;
}

-- `start` up to the call of `runJob`.
unfoldable pub queue_job : ℕ → Option ℕ → SimRunMode → RunManager → RunManager
unfolding remember_status
queue_job w c mode m =
    let id = m.next_id in
    let j = new_job w mode (with_connection c (connections_of w m)) m.clock in
    remember_status w building (some id) (record (set_job id j m) {
      rows = put id (new_row w) m.rows;
      jobs_by_workspace = put w id m.jobs_by_workspace;
      last_mode = put w mode m.last_mode;
      active_builds = add id m.active_builds;
      next_id = suc id;
    })

-- The job's `catch` block begins: it writes a line first.
abbrev pub fail_later : ℕ → RunJob → RunManager → RunManager
fail_later id j m = set_job id (record j { phase = reporting }) m

-- `runJob` up to its first wait; a new job is not canceled.
unfoldable pub begin_job : ℕ → RunJob → RunManager → RunManager
unfolding set_job_state broadcast
begin_job id j m =
    let (stated, written) =
      set_job_state id j building (record { started = true; finished = false; exit_code = none })
        m in
    if written
    then broadcast j (status building) stated
    else fail_later id (record j { state = building }) stated

unfoldable pub start : ℕ → Option ℕ → SimRunMode → RunManager → RunManager
unfolding cancel_workspace queue_job begin_job
start w c mode m =
    let cleared = (cancel_workspace w m).0 in
    let j = new_job w mode (with_connection c (connections_of w cleared)) cleared.clock in
    begin_job cleared.next_id j (queue_job w c mode cleared)
