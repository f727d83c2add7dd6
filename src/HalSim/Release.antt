-- ===== src/HalSim/Release.antt =====
-- Joystick frames and the safety release of apps/control/src/halsim.ts.
use code_runner.Prelude.{
  ℕ, List, false, replicate, [], ◌∷◌, ◌++◌, some, true, ◌≡◌, refl, ap, ◌∙◌, arith,
}
use mathlib.Core.List.{append_assoc}
use text.Mathlib.TextEquality.{eq_iff}
use code_runner.Json.{bool, num, arr, items, Fields, end, field}
use code_runner.DriverStation.{DsMode, is_auto, is_test, apply_patch}
use code_runner.HalSim.{Bridge, Entry, Message, Target, decimal, done, store, find_entry}
use code_runner.HalSim.Calls.{
  JoystickWireState, can_send, usable, joystick_entry, joystick_message, apply_joystick_state,
  release_joystick, neutral_joystick, disable_patch,
}
use code_runner.HalSim.Invariant.{AllSound, find_entry_lem}
use code_runner.HalSim.Invariant.Calls.{apply_joystick_state-AllSound}
use code_runner.HalSim.Patch.{
  ds_message, as_wanted, patched, IsLinked, patch_linked, ensure_connected_there,
  can_send_of_connected,
}

abbrev pub flush : Fields
flush = field ">new_data" (bool true) end

-- The bridge after a joystick frame that went through.
abbrev pub with_joystick : ℕ → JoystickWireState → ℕ → ℕ → Entry → Bridge → Bridge
with_joystick port state r s e b = record (store r (as_wanted e) b) {
  sent = (b.sent ++ (s, joystick_message port state) ∷ []) ++ ds_message s flush ∷ [];
}

joystick_entry_sends :
    (port : ℕ) (state : JoystickWireState) (b : Bridge) (e : Entry) (s : ℕ)
    → e.socket ≡ some s
    → can_send e b ≡ true
    → joystick_entry port state b e ≡ (
      record b {
        sent = (b.sent ++ (s, joystick_message port state) ∷ []) ++ ds_message s flush ∷ [];
      },
      done,
    )
unfolding joystick_entry
joystick_entry_sends port state b e s h can =
    let open' : usable (some s) b ≡ true = ground arith in rw (can, h) (rw open')

-- A joystick frame of a workspace with an open socket goes out, followed by the frame that makes the simulator
-- take it, and no entry changes but that it is wanted.
joystick_linked :
    (w : ℕ) (t : Target) (port : ℕ) (state : JoystickWireState) (r s : ℕ) (e : Entry) (b : Bridge)
    → AllSound b
    → IsLinked b w t r s e
    → apply_joystick_state w t port state b ≡ (with_joystick port state r s e b, done)
unfolding apply_joystick_state
joystick_linked w t port state r s e b all l =
    let sound = (all r e (find_entry_lem w b r e l.found)).0 in
    ap (λ x. joystick_entry port state x.0 x.2)
      (ensure_connected_there w t b r e l.found ((eq_iff _ _).1 l.address) (rw l.socket))
    ∙ joystick_entry_sends port state (store r (as_wanted e) b) (as_wanted e) s l.socket
        (can_send_of_connected r e b sound l.connected (rw l.socket l.open_now))

with_joystick-IsLinked :
    (w : ℕ) (t : Target) (port : ℕ) (state : JoystickWireState) (r s : ℕ) (e : Entry) (b : Bridge)
    → IsLinked b w t r s e
    → IsLinked (with_joystick port state r s e b) w t r s (as_wanted e)
unfolding find_entry
with_joystick-IsLinked w t port state r s e b l = record {
  found = ground (arith, l.found);
  address = l.address;
  connected = l.connected;
  socket = l.socket;
  open_now = l.open_now;
}

-- Six axes at 0, sixteen buttons up and one POV at -1, for joystick `port`.
abbrev pub neutral_message : ℕ → Message
neutral_message port = record {
  type = "Joystick";
  device = decimal 5 port;
  payload = field ">axes" (arr (items num (0 ∷ 0 ∷ 0 ∷ 0 ∷ 0 ∷ 0 ∷ []))) (
      field ">buttons" (arr (items bool (replicate 16 false)))
        (field ">povs" (arr (items num (0xBFF0000000000000 ∷ []))) end));
}

-- The frame that disables the robot in its mode.
abbrev pub disabling_message : DsMode → Message
disabling_message m = record {
  type = "DriverStation";
  device = "";
  payload = field ">enabled" (bool false) (
      field ">autonomous" (bool (is_auto m))
        (field ">test" (bool (is_test m)) (field ">new_data" (bool true) end)));
}

-- What a release sends on socket `s`, for a driver station in mode `m`.
abbrev pub released_frames : ℕ → ℕ → DsMode → List (ℕ × Message)
released_frames port s m =
    (s, neutral_message port) ∷ ds_message s flush ∷ (s, disabling_message m) ∷ []

frames_together :
    (before : List (ℕ × Message)) (a b c : ℕ × Message)
    → ((before ++ a ∷ []) ++ b ∷ []) ++ c ∷ [] ≡ before ++ a ∷ b ∷ c ∷ []
frames_together before a b c =
    append_assoc (before ++ a ∷ []) (b ∷ []) (c ∷ []) ∙ append_assoc before (a ∷ []) (b ∷ c ∷ [])

-- The release of the joystick of a workspace that is connected by an open socket goes through. Three
-- frames go out on that socket, in this order: one with six axes at 0, sixteen buttons up and the POV
-- at -1, one that makes the simulator take it, and one that disables the robot and keeps its mode;
-- and the entry's driver station is disabled then.
pub release_linked :
    (w : ℕ) (t : Target) (port : ℕ) (r s : ℕ) (e : Entry) (b : Bridge)
    → AllSound b
    → IsLinked b w t r s e
    → let (c, outcome) = release_joystick w t port b in
      (outcome ≡ done)
      × (c.sent ≡ b.sent ++ released_frames port s e.driver_station.mode)
      × ((f : Entry) × (c.heap r ≡ some f) × (f.driver_station.enabled ≡ false))
unfolding release_joystick joystick_message apply_patch
release_linked w t port r s e b all l =
    let zeroed = joystick_linked w t port neutral_joystick r s e b all l in
    let c = with_joystick port neutral_joystick r s e b in
    let all' : AllSound c =
      rw zeroed at (apply_joystick_state-AllSound w t port neutral_joystick b all) in
    let done' =
      patch_linked w t disable_patch r s (as_wanted e) c all'
        (with_joystick-IsLinked w t port neutral_joystick r s e b l) in
    rw (ap (λ x. x.1) zeroed, release_joystick)
      (rw (ap (λ x. x.0) zeroed) (
        refl,
        done'.1
            ∙ frames_together b.sent (s, neutral_message port) (ds_message s flush)
                (s, disabling_message e.driver_station.mode),
        (patched disable_patch e, done'.2, refl),
      ))
