-- ===== src/Gamepad.antt =====
-- apps/control/src/gamepad.ts: the gamepad session of each workspace, in front of the bridge.
pub mod Frames
pub mod Release
mod Tests
use code_runner.Prelude.{
  ℕ, suc, String, List, Option, none, some, Bool, true, false, if◌then◌else◌, is_some, get, put,
  delete, leb, or_else,
}
use code_runner.HalSim.{Bridge, Target, Outcome, done, unavailable}
use code_runner.HalSim.Calls.{JoystickWireState, apply_joystick_state, release_joystick}

pub data Status : Type 0 where
  unknown connected disconnected : Status

pub record GamepadStatus : Type 0 where
  pub status : Status
  pub port : Option ℕ
  pub label : Option String
  pub last_input_at : Option ℕ

pub record Selection : Type 0 where
  pub id : String
  pub label : String

-- The number of the last frame taken, which starts at -1.
pub data LastSeq : Type 0 where
  minus_one : LastSeq
  at : ℕ → LastSeq

pub record SessionState : Type 0 where
  pub selected : Option Selection
  pub last_seq : LastSeq
  pub last_input_at : Option ℕ

pub record Sessions : Type 0 where
  pub sessions : List (ℕ × SessionState)
  pub halsim : Bridge

pub data ClientMessage : Type 0 where
  select : String → String → ClientMessage
  state : ℕ → JoystickWireState → ClientMessage
  release : ClientMessage

pub data MessageOutcome : Type 0 where
  ok no_lease halsim_unavailable : MessageOutcome

-- Where the workspace's simulator can be reached, if a run is on: asked of the caller.
abbrev pub LeaseResolver : Type 0
LeaseResolver = ℕ → Option Target

abbrev pub default_port : ℕ
default_port = 0

abbrev fresh_session : SessionState
fresh_session = record { selected = none; last_seq = minus_one; last_input_at = none }

-- `ensureSession`: the session, which the caller then puts back.
unfoldable pub session_of : ℕ → Sessions → SessionState
session_of w g = or_else (get w g.sessions) fresh_session

unfoldable pub store_session : ℕ → SessionState → Sessions → Sessions
store_session w s g = record g { sessions = put w s g.sessions }

-- `message.seq <= session.lastSeq`
abbrev pub is_stale : ℕ → LastSeq → Bool
is_stale seq minus_one = false
is_stale seq (at n) = leb seq n

unfoldable pub get_status : ℕ → Sessions → GamepadStatus
get_status w g = elim (get w g.sessions) [
  | none ↦ record { status = unknown; port = none; label = none; last_input_at = none }
  | some s ↦ elim s.selected [
    | none ↦ record {
      status = disconnected;
      port = none;
      label = none;
      last_input_at = s.last_input_at;
    }
    | some x ↦ record {
      status = connected;
      port = some default_port;
      label = some x.label;
      last_input_at = s.last_input_at;
    }
  ]
]

-- The only error that the bridge throws is caught.
unfoldable pub safety_release : ℕ → LeaseResolver → Sessions → Sessions × MessageOutcome
safety_release w lease g = elim (lease w) [
  | none ↦ (g, no_lease)
  | some target ↦
      let (b, outcome) = release_joystick w target default_port g.halsim in
      (record g { halsim = b }, elim outcome [ done ↦ ok | unavailable m ↦ halsim_unavailable ])
]

-- The time of the last input, unless the bridge threw.
abbrev taken_by : Outcome → ℕ → SessionState → SessionState
taken_by done now s = record s { last_input_at = some now }
taken_by (unavailable m) now s = s

-- A `state` frame of a session with a controller selected, past the check of its number.
unfoldable pub forward :
    ℕ → JoystickWireState → SessionState → LeaseResolver → ℕ → Sessions → Sessions
unfolding store_session
forward w frame s lease now g = elim (lease w) [
  | none ↦ store_session w s g
  | some target ↦
      let (b, outcome) = apply_joystick_state w target default_port frame g.halsim in
      store_session w (taken_by outcome now s) (record g { halsim = b })
]

unfoldable pub handle_message :
    ℕ → ClientMessage → LeaseResolver → ℕ → Sessions → Sessions × MessageOutcome
unfolding session_of store_session safety_release forward
handle_message w (select id label) lease now g =
    let s = session_of w g in
    let x : Selection = record { id = id; label = label } in
    (store_session w (record s { selected = some x; last_seq = minus_one }) g, ok)
handle_message w release lease now g =
    let s = session_of w g in
    let cleared =
      store_session w (record s { selected = none; last_seq = minus_one; last_input_at = none })
        g in
    if is_some s.selected then safety_release w lease cleared else (cleared, ok)
handle_message w (state seq frame) lease now g =
    let s = session_of w g in
    if is_some s.selected
    then if is_stale seq s.last_seq
      then (store_session w s g, ok)
      else (forward w frame (record s { last_seq = at seq }) lease now g, ok)
    else (store_session w s g, ok)

unfoldable pub close_session : ℕ → LeaseResolver → Sessions → Sessions × MessageOutcome
unfolding safety_release
close_session w lease g = elim (get w g.sessions) [
  | none ↦ (g, ok)
  | some s ↦
      let dropped : Sessions = record g { sessions = delete w g.sessions } in
      if is_some s.selected then safety_release w lease dropped else (dropped, ok)
]

unfoldable pub reset : ℕ → Sessions → Sessions
unfolding store_session
reset w g = elim (get w g.sessions) [
  | none ↦ g
  | some s ↦ store_session w (record s { last_seq = minus_one; last_input_at = none }) g
]
