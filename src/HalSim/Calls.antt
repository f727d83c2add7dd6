-- ===== src/HalSim/Calls.antt =====
-- The calls of HalSimBridge in apps/control/src/halsim.ts that the routes and the gamepad make.
-- A call that throws HalSimBridgeUnavailableError keeps what it did to the bridge before.
use code_runner.Prelude.{
  ℕ, String, List, [], ◌∷◌, ◌++◌, Option, none, some, Bool, true, false, ◌&&◌, not, if◌then◌else◌,
  is_some, or_else, replicate,
}
use code_runner.Json.{bool, num, arr, Fields, end, field, items}
use code_runner.DriverStation.{DriverStationPatch, apply_patch}
use code_runner.HalSim.{
  Bridge, Entry, Message, BridgeConnection, connected, Outcome, done, unavailable, Target,
  upstream_url_for, ensure_entry, open_socket, opened, store, is_open, decimal,
}

abbrev pub not_connected : String
not_connected = "HALSim bridge is not connected."

-- `socket.readyState === WebSocket.OPEN`, false where there is no socket
abbrev pub usable : Option ℕ → Bridge → Bool
usable none b = false
usable (some s) b = elim (b.sockets s) [ none ↦ false | some k ↦ is_open k.ready ]

abbrev pub is_connected : BridgeConnection → Bool
is_connected connected = true
is_connected _ = false

-- What `ensureConnected` does with the entry that `ensureEntry` returns.
unfoldable pub attach : Bridge → ℕ → Entry → Bridge × ℕ × Entry
attach b r e =
    let wanted : Entry = record e { should_reconnect = true } in
    if not (is_some wanted.socket) && not (is_some wanted.reconnect_timer)
    then (open_socket r wanted b, r, opened b.next_socket wanted)
    else (store r wanted b, r, wanted)

-- `ensureConnected`, with the workspace's entry as it then stands.
unfoldable pub ensure_connected : ℕ → Target → Bridge → Bridge × ℕ × Entry
unfolding attach
ensure_connected workspace_id target b =
    let (c, r, e) = ensure_entry workspace_id (upstream_url_for target) b in attach c r e

-- `entry.socket.send`
abbrev pub send : Option ℕ → Message → Bridge → Bridge
send none m b = b
send (some s) m b = record b { sent = b.sent ++ (s, m) ∷ [] }

-- `sendDs`: the socket's state is tested before each frame.
unfoldable pub send_ds : Entry → Fields → Bridge → Bridge × Outcome
send_ds e fs b =
    if usable e.socket b
    then (send e.socket (record { type = "DriverStation"; device = ""; payload = fs }) b, done)
    else (b, unavailable not_connected)

unfoldable pub send_all : Entry → List Fields → Bridge → Bridge × Outcome
unfolding send_ds
send_all e [] b = (b, done)
send_all e (f ∷ fs) b =
    let (c, outcome) = send_ds e f b in
    elim outcome [ unavailable m ↦ (c, unavailable m) | done ↦ send_all e fs c ]

-- The guard that the two calls below share.
abbrev pub can_send : Entry → Bridge → Bool
can_send e b = is_connected e.connection && usable e.socket b

-- What `applyDriverStationPatch` does with the entry that `ensureConnected` leaves.
unfoldable pub patch_entry : DriverStationPatch → Bridge → ℕ → Entry → Bridge × Outcome
unfolding send_all
patch_entry patch b r e =
    let (next, frames) = apply_patch patch e.driver_station in
    let (c, outcome) = send_all e frames b in
    if can_send e b
    then elim outcome [
      | unavailable m ↦ (c, unavailable m)
      | done ↦ (store r (record e { driver_station = next; stale = false; error = none }) c, done)
    ]
    else (b, unavailable (or_else e.error not_connected))

unfoldable pub apply_driver_station_patch :
    ℕ → Target → DriverStationPatch → Bridge → Bridge × Outcome
unfolding patch_entry
apply_driver_station_patch workspace_id target patch b =
    let (c, r, e) = ensure_connected workspace_id target b in patch_entry patch c r e

-- Numbers by their bits.
pub record JoystickWireState : Type 0 where
  pub axes : List ℕ
  pub buttons : List Bool
  pub povs : List ℕ

unfoldable pub joystick_message : ℕ → JoystickWireState → Message
joystick_message port state = record {
  type = "Joystick";
  device = decimal 5 port;
  payload = field ">axes" (arr (items num state.axes)) (
      field ">buttons" (arr (items bool state.buttons))
        (field ">povs" (arr (items num state.povs)) end));
}

-- What `applyJoystickState` does with the entry that `ensureConnected` leaves.
unfoldable pub joystick_entry : ℕ → JoystickWireState → Bridge → Entry → Bridge × Outcome
unfolding send_ds joystick_message
joystick_entry port state b e =
    if can_send e b
    then send_ds e (field ">new_data" (bool true) end)
        (send e.socket (joystick_message port state) b)
    else (b, unavailable (or_else e.error not_connected))

unfoldable pub apply_joystick_state : ℕ → Target → ℕ → JoystickWireState → Bridge → Bridge × Outcome
unfolding joystick_entry
apply_joystick_state workspace_id target port state b =
    let (c, r, e) = ensure_connected workspace_id target b in joystick_entry port state c e

-- Six axes at 0, sixteen buttons up and one POV at -1.
abbrev pub neutral_joystick : JoystickWireState
neutral_joystick = record {
  axes = replicate 6 0;
  buttons = replicate 16 false;
  povs = 0xBFF0000000000000 ∷ [];
}

abbrev pub disable_patch : DriverStationPatch
disable_patch = record { enabled = some false; mode = none; e_stopped = none; alliance = none }

-- The failure of the patch is caught, that of the joystick is not.
unfoldable pub release_joystick : ℕ → Target → ℕ → Bridge → Bridge × Outcome
release_joystick workspace_id target port b =
    let (c, outcome) = apply_joystick_state workspace_id target port neutral_joystick b in
    elim outcome [
      | unavailable m ↦ (c, unavailable m)
      | done ↦ ((apply_driver_station_patch workspace_id target disable_patch c).0, done)
    ]
