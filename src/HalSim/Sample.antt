-- ===== src/HalSim/Sample.antt =====
-- A workspace whose simulator is linked, as the tests of the bridge and of the gamepad use it.
use code_runner.Prelude.{List, [], ◌∷◌, none, some, true, false, ◌≡◌, refl, get, put}
use code_runner.DriverStation.{default_driver_station}
use code_runner.HalSim.{
  Bridge, Entry, Target, port, connected, upstream_url_for, find_entry, opened, open_socket,
  ensure_entry,
}
use code_runner.HalSim.Calls.{ensure_connected}
use code_runner.HalSim.Events.{Event, ensure, opens, run, step, empty_bridge}
use code_runner.HalSim.Patch.{IsLinked}

abbrev pub robot : Target
robot = port 5803

abbrev pub linking : List Event
linking = ensure 7 robot ∷ opens 0 ∷ []

abbrev pub linked_bridge : Bridge
linked_bridge = run linking empty_bridge

abbrev pub linked : Entry
linked = record {
  workspace_id = 7;
  upstream_url = upstream_url_for robot;
  socket = some 0;
  connection = connected;
  connected = true;
  stale = false;
  last_message_at = none;
  error = none;
  driver_station = default_driver_station;
  reconnect_timer = none;
  reconnect_backoff_ms = 500;
  should_reconnect = true;
}

pub heap-linked_bridge : linked_bridge.heap 0 ≡ some linked
unfolding run step ensure_connected ensure_entry get open_socket opened
heap-linked_bridge = refl

pub linked_bridge-IsLinked : IsLinked linked_bridge 7 robot 0 0 linked
unfolding run step find_entry get ensure_connected ensure_entry open_socket opened put
linked_bridge-IsLinked = record {
  found = refl;
  address = refl;
  connected = refl;
  socket = refl;
  open_now = refl;
}
