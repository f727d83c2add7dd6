-- ===== src/HalSim/Tests.antt =====
-- The bridge on concrete calls and events.
use code_runner.Prelude.{false, ◌∷◌, ◌++◌, none, some, true, ◌≡◌, ◌≢◌, refl, get, arith}
use code_runner.DriverStation.{DriverStationPatch, teleop}
use code_runner.HalSim.{Entry, ensure_entry, open_socket, opened, done}
use code_runner.HalSim.Calls.{ensure_connected, apply_driver_station_patch, release_joystick}
use code_runner.HalSim.Events.{closes, run, empty_bridge}
use code_runner.HalSim.Invariant.{IsSound, Attached}
use code_runner.HalSim.Invariant.Events.{run-AllSound, run-IsSound}
use code_runner.HalSim.Backoff.{failing, reconnect_delay}
use code_runner.HalSim.Patch.{Accepted, patch-Accepted}
use code_runner.HalSim.Refusal.{Untouched, patch_refused}
use code_runner.HalSim.Release.{released_frames, release_linked}
use code_runner.HalSim.Sample.{
  robot, linking, linked_bridge, linked, heap-linked_bridge, linked_bridge-IsLinked,
}

abbrev enable : DriverStationPatch
enable = record { enabled = some true; mode = some teleop; e_stopped = none; alliance = none }

run-IsSound_example :
    IsSound linked × Attached linked_bridge.sockets linked_bridge.next_socket 0 linked
run-IsSound_example = run-IsSound linking 0 linked heap-linked_bridge

-- After six failures the timer has reached its longest delay.
reconnect_delay_example :
    (f : Entry) × ((run (closes 0 "" ∷ failing 6 0 linked_bridge.next_socket "") linked_bridge).heap
        0
      ≡ some f)
    × (f.reconnect_timer ≡ some 10000)
    × (f.socket ≡ none)
reconnect_delay_example = reconnect_delay linking 6 0 0 linked "" heap-linked_bridge refl refl

patch-Accepted_example :
    Accepted enable 0 0 linked linked_bridge
      (apply_driver_station_patch 7 robot enable linked_bridge)
patch-Accepted_example = patch-Accepted linking 7 robot enable 0 0 linked linked_bridge-IsLinked

refused_before : (apply_driver_station_patch 7 robot enable empty_bridge).1 ≢ done
unfolding apply_driver_station_patch ensure_connected ensure_entry get open_socket opened
refused_before = λ h. grind arith

patch_refused_example :
    Untouched empty_bridge (apply_driver_station_patch 7 robot enable empty_bridge).0
patch_refused_example = patch_refused 7 robot enable empty_bridge refused_before

release_linked_example :
    ((release_joystick 7 robot 0 linked_bridge).1 ≡ done)
    × ((release_joystick 7 robot 0 linked_bridge).0.sent
        ≡ linked_bridge.sent ++ released_frames 0 0 linked.driver_station.mode)
    × ((f : Entry) × ((release_joystick 7 robot 0 linked_bridge).0.heap 0 ≡ some f)
        × (f.driver_station.enabled ≡ false))
release_linked_example =
    release_linked 7 robot 0 0 0 linked linked_bridge (run-AllSound linking) linked_bridge-IsLinked
