-- ===== src/HalSim/Events.antt =====
-- The listeners of a socket (`open` in apps/control/src/ws-bridge.ts, with the hooks of
-- apps/control/src/halsim.ts), the reconnect timer, and the bridge as a sequence of events.
use code_runner.Prelude.{
  ℕ, ◌*◌, min, String, List, [], ◌∷◌, Option, none, some, Bool, true, false, ◌&&◌, not,
  if◌then◌else◌, is_some, ◌==◌,
}
use text.Mathlib.Text.{◌==◌ as str_eq}
use code_runner.Json.{Json, bool, Fields, end, field}
use code_runner.DriverStation.{
  DriverStationPatch, ignored, type_error, state, read_message, read_frame,
}
use code_runner.HalSim.{
  Bridge, Entry, Socket, connected, reconnecting, disconnected, ReadyState, open_, closing, closed,
  Target, open_socket, store, update, default_backoff_ms, max_backoff_ms, disconnect, close,
}
use code_runner.HalSim.Calls.{
  JoystickWireState, ensure_connected, apply_driver_station_patch, apply_joystick_state,
  release_joystick, send_ds,
}

-- `entry.socket !== socket` of the stale guard, negated.
abbrev pub holds : Option ℕ → ℕ → Bool
holds none s = false
holds (some t) s = t == s

abbrev pub set_ready : ℕ → Socket → ReadyState → Bridge → Bridge
set_ready s k ready b = record b { sockets = update b.sockets s (record k { ready = ready }) }

-- A listener of socket `s`: its entry, unless the entry has gone on to another socket.
unfoldable pub guarded : ℕ → (ℕ → Entry → Bridge → Bridge) → Bridge → Bridge
guarded s hook b = elim (b.sockets s) [
  | none ↦ b
  | some k ↦ elim (b.heap k.owner) [
    | none ↦ b
    | some e ↦ if holds e.socket s then hook k.owner e b else b
  ]
]

-- The environment moves the socket to its new state, and then calls the listener.
unfoldable pub becomes : ℕ → ReadyState → Bridge → Bridge
becomes s ready b = elim (b.sockets s) [ none ↦ b | some k ↦ set_ready s k ready b ]

abbrev pub hello : Fields
hello = field ">ds" (bool true) (field ">fms" (bool false) (field ">new_data" (bool true) end))

unfoldable pub on_socket_open : ℕ → Entry → Bridge → Bridge
unfolding send_ds
on_socket_open r e b =
    let live : Entry = record e {
      connection = connected;
      connected = true;
      stale = false;
      error = none;
      reconnect_backoff_ms = default_backoff_ms;
    } in
    if e.should_reconnect then (send_ds live hello (store r live b)).0 else b

-- `onSocketMessage` with `handleMessage`; a look-up in `null` throws before anything is written.
unfoldable pub on_socket_message : Option Json → ℕ → ℕ → Entry → Bridge → Bridge
on_socket_message frame now r e b =
    if e.should_reconnect
    then elim (read_message frame) [
      | ignored ↦ b
      | type_error ↦ b
      | state fs ↦
          store r
            (record e {
              driver_station = read_frame fs e.driver_station;
              last_message_at = some now;
              stale = false;
              error = none;
            })
            b
    ]
    else b

abbrev pub non_empty : String → Option String
non_empty s = if str_eq s "" then none else some s

-- `scheduleReconnect`
unfoldable pub schedule_reconnect : Entry → Entry
schedule_reconnect e = if is_some e.reconnect_timer then e else record e {
  reconnect_backoff_ms = min (e.reconnect_backoff_ms * 2) max_backoff_ms;
  reconnect_timer = some e.reconnect_backoff_ms;
}

-- What the close listener and `onSocketClosed` make of the entry.
unfoldable pub closed_entry : String → Entry → Entry
unfolding schedule_reconnect
closed_entry reason e =
    let base : Entry = record e { socket = none; connected = false; stale = true } in
    if e.should_reconnect
    then schedule_reconnect (record base {
      connection = reconnecting;
      error = if str_eq reason "" then some "HALSim upstream closed." else some reason;
    })
    else record base { connection = disconnected; error = non_empty reason }

unfoldable pub on_socket_closed : String → ℕ → Entry → Bridge → Bridge
on_socket_closed reason r e b = store r (closed_entry reason e) b

unfoldable pub on_socket_error : ℕ → Entry → Bridge → Bridge
on_socket_error r e b = store r (record e { error = some "HALSim upstream error." }) b

-- The callback that `scheduleReconnect` hands to `setTimeout`; it is gone once cleared.
unfoldable pub timer_fires : ℕ → Bridge → Bridge
timer_fires r b = elim (b.heap r) [
  | none ↦ b
  | some e ↦
      let spent : Entry = record e { reconnect_timer = none } in
      if is_some e.reconnect_timer
      then if spent.should_reconnect && not (is_some spent.socket)
        then open_socket r spent b
        else store r spent b
      else b
]

-- `shuts`: a socket is closing, or closed, ahead of the call of its close listener.
pub data Event : Type 0 where
  ensure : ℕ → Target → Event
  patch : ℕ → Target → DriverStationPatch → Event
  joystick : ℕ → Target → ℕ → JoystickWireState → Event
  release : ℕ → Target → ℕ → Event
  detach : ℕ → Event
  shut_down : Event
  opens : ℕ → Event
  receives : ℕ → Option Json → ℕ → Event
  closes : ℕ → String → Event
  fails : ℕ → Event
  fires : ℕ → Event
  shuts : ℕ → ReadyState → Event

abbrev pub is_over : ReadyState → Bool
is_over closing = true
is_over closed = true
is_over _ = false

unfoldable pub step : Event → Bridge → Bridge
unfolding guarded becomes on_socket_open on_socket_message on_socket_closed on_socket_error
    timer_fires
step (ensure w t) b = (ensure_connected w t b).0
step (patch w t p) b = (apply_driver_station_patch w t p b).0
step (joystick w t n s) b = (apply_joystick_state w t n s b).0
step (release w t n) b = (release_joystick w t n b).0
step (detach w) b = disconnect w b
step shut_down b = close b
step (opens s) b = guarded s on_socket_open (becomes s open_ b)
step (receives s frame now) b = guarded s (on_socket_message frame now) b
step (closes s reason) b = guarded s (on_socket_closed reason) (becomes s closed b)
step (fails s) b = guarded s on_socket_error b
step (fires r) b = timer_fires r b
step (shuts s ready) b = if is_over ready then becomes s ready b else b

unfoldable pub run : List Event → Bridge → Bridge
run [] b = b
run (e ∷ es) b = run es (step e b)

abbrev pub empty_bridge : Bridge
empty_bridge = record {
  entries = [];
  heap = λ r. none;
  sockets = λ s. none;
  next_entry = 0;
  next_socket = 0;
  sent = [];
}
