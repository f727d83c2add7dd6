-- ===== src/HalSim.antt =====
-- apps/control/src/ws-bridge.ts and the class HalSimBridge of apps/control/src/halsim.ts: one
-- entry for each workspace, one socket for each entry, and a reconnect timer with backoff.
-- Entries and sockets are objects that listeners and timers keep hold of, so they stand on a heap.
pub mod Calls
pub mod Events
pub mod Invariant
pub mod Backoff
pub mod Patch
pub mod Release
pub mod Refusal
pub mod Sample
mod Tests
use Prim.Native.String
use text.Mathlib.Text.{◌==◌ as str_eq}
use code_runner.Prelude.{
  ℕ, suc, ◌+◌, ◌*◌, ◌/◌, ◌%◌, min, String, List, [], ◌∷◌, ◌++◌, Option, none, some, Bool, true,
  false, ◌&&◌, not, if◌then◌else◌, is_some, get, put, ◌==◌, ltb,
}
use code_runner.Json.{bool, Fields, end, field}
use code_runner.DriverStation.{DriverStationState, default_driver_station}

pub data BridgeConnection : Type 0 where
  connected reconnecting disconnected : BridgeConnection

pub data ReadyState : Type 0 where
  connecting open_ closing closed : ReadyState

-- A socket, with the entry that its listeners are bound to.
pub record Socket : Type 0 where
  pub ready : ReadyState
  pub owner : ℕ

-- `reconnect_timer` is the delay of the pending timer.
pub record Entry : Type 0 where
  pub workspace_id : ℕ
  pub upstream_url : String
  pub socket : Option ℕ
  pub connection : BridgeConnection
  pub connected : Bool
  pub stale : Bool
  pub last_message_at : Option ℕ
  pub error : Option String
  pub driver_station : DriverStationState
  pub reconnect_timer : Option ℕ
  pub reconnect_backoff_ms : ℕ
  pub should_reconnect : Bool

pub record Message : Type 0 where
  pub type : String
  pub device : String
  pub payload : Fields

-- `entries` maps a workspace to its entry's place on the heap; `sent` lists what went out on which
-- socket, oldest first.
pub record Bridge : Type 0 where
  pub entries : List (ℕ × ℕ)
  pub heap : ℕ → Option Entry
  pub sockets : ℕ → Option Socket
  pub next_entry : ℕ
  pub next_socket : ℕ
  pub sent : List (ℕ × Message)

abbrev pub update {ℓ} : {A : Type ℓ} → (ℕ → Option A) → ℕ → A → ℕ → Option A
update f p v q = if p == q then some v else f q

abbrev pub default_backoff_ms : ℕ
default_backoff_ms = 500

abbrev pub max_backoff_ms : ℕ
max_backoff_ms = 10000

abbrev digit : ℕ → String
digit n =
    if n == 0
    then "0"
    else if n == 1
    then "1"
    else if n == 2
    then "2"
    else if n == 3
    then "3"
    else if n == 4
    then "4"
    else if n == 5
    then "5"
    else if n == 6
    then "6"
    else if n == 7
    then "7"
    else if n == 8
    then "8"
    else "9"

-- A port in decimal; its five digits at most are the fuel.
unfoldable pub decimal : ℕ → ℕ → String
decimal ℕ.zero n = ""
decimal (suc fuel) n =
    let front = decimal fuel (n / 10) in
    if ltb n 10 then digit n else String.◌++◌ front (digit (n % 10))

pub data Target : Type 0 where
  url : String → Target
  port : ℕ → Target

unfoldable pub upstream_url_for : Target → String
unfolding decimal
upstream_url_for (url s) = s
upstream_url_for (port n) = String.◌++◌ "ws://127.0.0.1:" (String.◌++◌ (decimal 5 n) "/wpilibws")

unfoldable pub create_entry : ℕ → String → Entry
create_entry workspace_id upstream_url = record {
  workspace_id = workspace_id;
  upstream_url = upstream_url;
  socket = none;
  connection = disconnected;
  connected = false;
  stale = true;
  last_message_at = none;
  error = none;
  driver_station = default_driver_station;
  reconnect_timer = none;
  reconnect_backoff_ms = default_backoff_ms;
  should_reconnect = true;
}

abbrev pub store : ℕ → Entry → Bridge → Bridge
store r e b = record b { heap = update b.heap r e }

-- `this.entries.get(workspaceId)`
unfoldable pub find_entry : Bridge → ℕ → Option (ℕ × Entry)
find_entry b workspace_id = elim (get workspace_id b.entries) [
  | none ↦ none
  | some r ↦ elim (b.heap r) [ none ↦ none | some e ↦ some (r, e) ]
]

-- `open`: the entry is marked as connecting anew, and gets a socket of its own.
pub opened : ℕ → Entry → Entry
opened s e = record e {
  connection = reconnecting;
  connected = false;
  stale = is_some e.last_message_at;
  error = none;
  socket = some s;
}

pub open_socket : ℕ → Entry → Bridge → Bridge
open_socket r e b = record b {
  heap = update b.heap r (opened b.next_socket e);
  sockets = update b.sockets b.next_socket (record { ready = connecting; owner = r });
  next_socket = suc b.next_socket;
}

abbrev pub is_open : ReadyState → Bool
is_open open_ = true
is_open _ = false

abbrev closes : ReadyState → ReadyState
closes closed = closed
closes _ = closing

-- `if (socket && socket.readyState !== WebSocket.CLOSED) socket.close();`
pub close_socket : Option ℕ → Bridge → Bridge
close_socket none b = b
close_socket (some s) b = elim (b.sockets s) [
  | none ↦ b
  | some k ↦ record b { sockets = update b.sockets s (record k { ready = closes k.ready }) }
]

-- The fields that the two `disconnect` methods set.
pub detached : Entry → Entry
detached e = record e {
  should_reconnect = false;
  reconnect_timer = none;
  socket = none;
  connection = disconnected;
  connected = false;
  stale = true;
}

pub disconnect_entry : ℕ → Entry → Bridge → Bridge
unfolding detached close_socket
disconnect_entry r e b = close_socket e.socket (store r (detached e) b)

unfoldable pub disconnect : ℕ → Bridge → Bridge
unfolding find_entry disconnect_entry
disconnect workspace_id b = elim (find_entry b workspace_id) [
  | none ↦ b
  | some (r, e) ↦ disconnect_entry r e b
]

-- `close`: the loop over the keys, and `entries.clear()`.
unfoldable pub disconnect_all : List (ℕ × ℕ) → Bridge → Bridge
unfolding disconnect
disconnect_all [] b = b
disconnect_all ((workspace_id, r) ∷ rest) b = disconnect_all rest (disconnect workspace_id b)

unfoldable pub close : Bridge → Bridge
unfolding disconnect_all
close b = record (disconnect_all b.entries b) { entries = [] }

-- `this.createEntry` and `this.entries.set`
unfoldable pub add_entry : ℕ → String → Bridge → Bridge
unfolding create_entry
add_entry workspace_id upstream_url b = record b {
  entries = put workspace_id b.next_entry b.entries;
  heap = update b.heap b.next_entry (create_entry workspace_id upstream_url);
  next_entry = suc b.next_entry;
}

-- The place of the workspace's entry, after the bridge.
unfoldable pub ensure_entry : ℕ → String → Bridge → Bridge × ℕ × Entry
unfolding find_entry disconnect add_entry
ensure_entry workspace_id upstream_url b =
    let made : Bridge → Bridge × ℕ × Entry = λ c. (
      add_entry workspace_id upstream_url c,
      c.next_entry,
      create_entry workspace_id upstream_url,
    ) in
    elim (find_entry b workspace_id) [
      | none ↦ made b
      | some (r, e) ↦
          if str_eq e.upstream_url upstream_url then (b, r, e) else made (disconnect workspace_id b)
    ]

pub data Outcome : Type 0 where
  done : Outcome
  unavailable : String → Outcome
