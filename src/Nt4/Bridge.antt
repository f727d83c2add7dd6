-- ===== src/Nt4/Bridge.antt =====
-- Nt4AutoChooserBridge of apps/control/src/nt4-auto.ts, with what it has of the class in
-- apps/control/src/ws-bridge.ts. An entry that is replaced has no socket any more, so nothing
-- reaches it, and the entries stand in the map by value.
pub mod Calls
pub mod Select
pub mod Coherent
pub mod Reach
mod Tests
use code_runner.Prelude.{
  ℕ, suc, ◌*◌, List, [], ◌∷◌, ◌++◌, Option, none, some, Bool, true, false, ◌&&◌, not, if◌then◌else◌,
  ◌==◌, is_some, get, put, or_else, map,
}
use code_runner.Prelude.Texts.{Text, codes, same}
use code_runner.Prelude.Keyed.{get_by, put_by, has_by}
use code_runner.Json.{Json}
use code_runner.HalSim.{
  BridgeConnection, connected, reconnecting, disconnected, ReadyState, connecting, open_, closing,
  closed, is_open,
}
use code_runner.Nt4.Number.{Number, whole, nearest}
use code_runner.Nt4.MsgPack.{
  TextCodec, Value, num, str, nil, arr, Values, end, item, encode_msg_pack,
}
use code_runner.Nt4.Topics.{
  AutoChooser, normalize_topic_name, publish_topic_name, snapshot_choosers, Sort, digits,
}
use code_runner.Nt4.Entry.{Topic, Entry, Raw, create_entry, handle_message}

pub data Frame : Type 0 where
  publish : Topic → Frame
  subscribe : Frame
  binary : List ℕ → Frame

pub record Bridge : Type 0 where
  pub entries : List (ℕ × Entry)
  pub sockets : ℕ → ReadyState
  pub next_socket : ℕ
  pub sent : List (ℕ × Frame)

-- What the platform gives.
pub record Platform : Type 0 where
  pub codec : TextCodec
  pub parse_json : Text → Option Json
  pub sort : Sort

abbrev pub app_name : Text
app_name = codes "FrcSimAutoChooser"

pub data Target : Type 0 where
  url : Text → Target
  port : ℕ → Target

-- A port has five digits at most.
unfoldable pub upstream_url_for : Target → Text
upstream_url_for (url s) = s
upstream_url_for (port n) = codes "ws://127.0.0.1:" ++ (digits 5 n ++ (codes "/nt/" ++ app_name))

abbrev pub store : ℕ → Entry → Bridge → Bridge
store workspace_id e b = record b { entries = put workspace_id e b.entries }

abbrev pub set_ready : ℕ → ReadyState → (ℕ → ReadyState) → ℕ → ReadyState
set_ready s r f t = if s == t then r else f t

abbrev closes : ReadyState → ReadyState
closes closed = closed
closes _ = closing

abbrev close_socket : Option ℕ → Bridge → Bridge
close_socket none b = b
close_socket (some s) b = record b { sockets = set_ready s (closes (b.sockets s)) b.sockets }

unfoldable pub detached : Entry → Entry
detached e = record e { socket = none; connection = disconnected; connected = false; stale = true }

unfoldable pub disconnect : ℕ → Bridge → Bridge
unfolding detached
disconnect workspace_id b = elim (get workspace_id b.entries) [
  | none ↦ b
  | some e ↦ close_socket e.socket (store workspace_id (detached e) b)
]

unfoldable pub disconnect_all : List (ℕ × Entry) → Bridge → Bridge
unfolding disconnect
disconnect_all [] b = b
disconnect_all ((workspace_id, e) ∷ rest) b = disconnect_all rest (disconnect workspace_id b)

unfoldable pub close : Bridge → Bridge
unfolding disconnect_all
close b = record (disconnect_all b.entries b) { entries = [] }

-- `ensureEntry`, with the workspace's entry.
unfoldable pub ensure_entry : ℕ → Text → Bridge → Bridge × Entry
unfolding disconnect create_entry
ensure_entry workspace_id upstream_url b =
    let fresh = create_entry upstream_url in
    elim (get workspace_id b.entries) [
      | none ↦ (store workspace_id fresh b, fresh)
      | some e ↦
          if same e.upstream_url upstream_url
          then (b, e)
          else (store workspace_id fresh (disconnect workspace_id b), fresh)
    ]

unfoldable pub opened : ℕ → Entry → Entry
opened s e = record e {
  connection = reconnecting;
  connected = false;
  stale = is_some e.last_message_at;
  error = none;
  socket = some s;
}

unfoldable pub open_socket : ℕ → Entry → Bridge → Bridge × Entry
unfolding opened
open_socket workspace_id e b =
    let next = opened b.next_socket e in
    (
      record (store workspace_id next b) {
        sockets = set_ready b.next_socket connecting b.sockets;
        next_socket = suc b.next_socket;
      },
      next,
    )

-- `ensureConnected`, with the entry whose snapshot it returns.
unfoldable pub ensure_connected : ℕ → Text → Bridge → Bridge × Entry
unfolding ensure_entry open_socket
ensure_connected workspace_id upstream_url b =
    let (c, e) = ensure_entry workspace_id upstream_url b in
    if is_some e.socket then (c, e) else open_socket workspace_id e c

-- `nt4` of a snapshot
pub record Status : Type 0 where
  pub connection : BridgeConnection
  pub connected : Bool
  pub stale : Bool
  pub last_message_at : Option ℕ
  pub error : Option Text

pub record Snapshot : Type 0 where
  pub nt4 : Status
  pub choosers : List AutoChooser

unfoldable pub status_of : Entry → Status
status_of e = record {
  connection = e.connection;
  connected = e.connected;
  stale = e.stale;
  last_message_at = e.last_message_at;
  error = e.error;
}

-- `snapshotFromEntry`; `none` where it does not end.
unfoldable pub snapshot_from_entry : Platform → Entry → Option Snapshot
unfolding status_of snapshot_choosers
snapshot_from_entry p e =
    elim (snapshot_choosers p.sort (map (λ x. x.0) e.topics_by_name) e.values_by_name) [
      | none ↦ none
      | some choosers ↦ some (record { nt4 = status_of e; choosers = choosers })
    ]

abbrev no_status : Status
no_status = record {
  connection = disconnected;
  connected = false;
  stale = true;
  last_message_at = none;
  error = none;
}

unfoldable pub get_snapshot : Platform → ℕ → Bridge → Option Snapshot
unfolding snapshot_from_entry
get_snapshot p workspace_id b = elim (get workspace_id b.entries) [
  | none ↦ some (record { nt4 = no_status; choosers = [] })
  | some e ↦ snapshot_from_entry p e
]

abbrev pub usable : Option ℕ → Bridge → Bool
usable none b = false
usable (some s) b = is_open (b.sockets s)

-- `entry.socket.send`
abbrev pub send : Option ℕ → Frame → Bridge → Bridge
send none f b = b
send (some s) f b = record b { sent = b.sent ++ ((s, f) ∷ []) }

-- `sendJson`; the flag is false where it throws Nt4AutoChooserUnavailableError.
unfoldable pub send_json : Entry → Frame → Bridge → Bridge × Bool
send_json e f b = if usable e.socket b then (send e.socket f b, true) else (b, false)
