-- ===== src/Gamepad/Tests.antt =====
-- The gamepad sessions on concrete messages.
use code_runner.Prelude.{[], ◌∷◌, none, some, ◌≡◌, refl, get, arith}
use code_runner.HalSim.Calls.{neutral_joystick}
use code_runner.HalSim.Invariant.Events.{run-AllSound}
use code_runner.HalSim.Sample.{robot, linking, linked_bridge, linked, linked_bridge-IsLinked}
use code_runner.Gamepad.{
  Sessions, SessionState, minus_one, LeaseResolver, state, release, ok, unknown, disconnected,
  get_status, handle_message, close_session,
}
use code_runner.Gamepad.Frames.{frames, frames_taken_once}
use code_runner.Gamepad.Release.{
  InControl, DisabledAt, close_session-DisabledAt, release-DisabledAt,
}

abbrev in_use : SessionState
in_use = record {
  selected = some (record { id = "0"; label = "Controller" });
  last_seq = minus_one;
  last_input_at = none;
}

abbrev playing : Sessions
playing = record { sessions = (7, in_use) ∷ []; halsim = linked_bridge }

abbrev leased : LeaseResolver
leased w = some robot

playing-InControl : InControl playing 7 0 0 leased robot linked
unfolding get
playing-InControl = record {
  session = in_use;
  here = refl;
  in_use = refl;
  leased = refl;
  sound = run-AllSound linking;
  linked = linked_bridge-IsLinked;
}

frames_taken_once_example :
    frames 7 leased 20
      ((3, neutral_joystick) ∷ (5, neutral_joystick) ∷ [])
      (handle_message 7 (state 5 neutral_joystick) leased 10 playing).0
    ≡ (handle_message 7 (state 5 neutral_joystick) leased 10 playing).0
unfolding get
frames_taken_once_example =
    frames_taken_once 7 5 10 20 neutral_joystick leased
      ((3, neutral_joystick) ∷ (5, neutral_joystick) ∷ []) playing in_use refl refl refl
      (ground arith, (ground arith, tt))

close_session-DisabledAt_example :
    ((close_session 7 leased playing).1 ≡ ok)
    × DisabledAt 0 0 linked linked_bridge (close_session 7 leased playing).0.halsim
    × ((get_status 7 (close_session 7 leased playing).0).status ≡ unknown)
close_session-DisabledAt_example =
    close_session-DisabledAt 7 0 0 leased robot linked playing playing-InControl

release-DisabledAt_example :
    ((handle_message 7 release leased 30 playing).1 ≡ ok)
    × DisabledAt 0 0 linked linked_bridge (handle_message 7 release leased 30 playing).0.halsim
    × ((get_status 7 (handle_message 7 release leased 30 playing).0).status ≡ disconnected)
release-DisabledAt_example =
    release-DisabledAt 7 0 0 30 leased robot linked playing playing-InControl
