-- ===== src/Gamepad/Release.antt =====
-- The safety of apps/control/src/gamepad.ts: letting go of a controller disables the robot.
use code_runner.Prelude.{
  ℕ, ◌++◌, none, some, true, false, ◌≡◌, refl, ◌∙◌, arith, delete, put, get, get-delete, get-put,
  is_some,
}
use code_runner.HalSim.{Bridge, Entry, Target}
use code_runner.HalSim.Invariant.{AllSound}
use code_runner.HalSim.Patch.{IsLinked}
use code_runner.HalSim.Release.{released_frames, release_linked}
use code_runner.Gamepad.{
  Sessions, SessionState, LeaseResolver, ok, release, session_of, safety_release, handle_message,
  close_session, get_status, unknown, disconnected, minus_one,
}

-- From `b` to `c`, three frames went out on socket `s`, the last of which disables the robot, and the
-- entry at `r` has a disabled driver station.
abbrev pub DisabledAt : ℕ → ℕ → Entry → Bridge → Bridge → Type 0
DisabledAt r s e b c =
    (c.sent ≡ b.sent ++ released_frames 0 s e.driver_station.mode)
    × ((f : Entry) × (c.heap r ≡ some f) × (f.driver_station.enabled ≡ false))

safety_release_linked :
    (w r s : ℕ) (lease : LeaseResolver) (t : Target) (e : Entry) (g : Sessions)
    → lease w ≡ some t
    → AllSound g.halsim
    → IsLinked g.halsim w t r s e
    → let (h, outcome) = safety_release w lease g in
      (outcome ≡ ok) × DisabledAt r s e g.halsim h.halsim × (h.sessions ≡ g.sessions)
unfolding safety_release
safety_release_linked w r s lease t e g leased all l =
    let gone = release_linked w t 0 r s e g.halsim all l in
    rw (leased, safety_release) (rw gone.0 (refl, (gone.1, gone.2), refl))

-- A session that is in use, on a workspace whose simulator is linked at the leased address.
pub record InControl (g : Sessions) (w r s : ℕ) (lease : LeaseResolver) (t : Target) (e : Entry)
    : Type 0 where
  pub session : SessionState
  pub here : get w g.sessions ≡ some session
  pub in_use : is_some session.selected ≡ true
  pub leased : lease w ≡ some t
  pub sound : AllSound g.halsim
  pub linked : IsLinked g.halsim w t r s e

status_unknown :
    (w : ℕ) (g : Sessions) → get w g.sessions ≡ none → (get_status w g).status ≡ unknown
unfolding get_status
status_unknown w g h = rw (h, get_status)

status_disconnected :
    (w : ℕ) (s : SessionState) (g : Sessions)
    → get w g.sessions ≡ some s
    → s.selected ≡ none
    → (get_status w g).status ≡ disconnected
unfolding get_status
status_disconnected w s g h off = rw (h, get_status) (rw off)

close_session_in_use :
    (w : ℕ) (lease : LeaseResolver) (s : SessionState) (g : Sessions)
    → get w g.sessions ≡ some s
    → is_some s.selected ≡ true
    → close_session w lease g ≡ safety_release w lease (record g { sessions = delete w g.sessions })
unfolding close_session
close_session_in_use w lease s g here in_use = rw (here, close_session) (rw in_use)

-- When the browser's socket closes while a controller is in use, on a workspace whose simulator is
-- connected by an open socket, the session is dropped, and on that socket go out a neutral joystick,
-- the frame that makes the simulator take it, and the frame that disables the robot; the driver
-- station that the server keeps is disabled too.
pub close_session-DisabledAt :
    (w r s : ℕ) (lease : LeaseResolver) (t : Target) (e : Entry) (g : Sessions)
    → InControl g w r s lease t e
    → let (h, outcome) = close_session w lease g in
      (outcome ≡ ok) × DisabledAt r s e g.halsim h.halsim × ((get_status w h).status ≡ unknown)
close_session-DisabledAt w r s lease t e g c =
    let dropped : Sessions = record g { sessions = delete w g.sessions } in
    let (taken, off, same) =
      safety_release_linked w r s lease t e dropped c.leased c.sound c.linked in
    rw (close_session_in_use w lease c.session g c.here c.in_use) (
      taken,
      off,
      status_unknown w (safety_release w lease dropped).0
          (rw same (get-delete w w g.sessions ∙ ground arith)),
    )

abbrev let_go : SessionState → SessionState
let_go s = record s { selected = none; last_seq = minus_one; last_input_at = none }

release_in_use :
    (w now : ℕ) (lease : LeaseResolver) (s : SessionState) (g : Sessions)
    → get w g.sessions ≡ some s
    → is_some s.selected ≡ true
    → handle_message w release lease now g
      ≡ safety_release w lease (record g { sessions = put w (let_go s) g.sessions })
unfolding handle_message
release_in_use w now lease s g here in_use = rw (here, session_of) (rw in_use)

-- When the player lets go of a controller in use, on a workspace whose simulator is connected by an
-- open socket, the session stays with nothing selected, and on that socket go out a neutral joystick,
-- the frame that makes the simulator take it, and the frame that disables the robot; the driver
-- station that the server keeps is disabled too.
pub release-DisabledAt :
    (w r s now : ℕ) (lease : LeaseResolver) (t : Target) (e : Entry) (g : Sessions)
    → InControl g w r s lease t e
    → let (h, outcome) = handle_message w release lease now g in
      (outcome ≡ ok) × DisabledAt r s e g.halsim h.halsim × ((get_status w h).status ≡ disconnected)
release-DisabledAt w r s now lease t e g c =
    let cleared : Sessions = record g { sessions = put w (let_go c.session) g.sessions } in
    let (taken, off, same) =
      safety_release_linked w r s lease t e cleared c.leased c.sound c.linked in
    rw (release_in_use w now lease c.session g c.here c.in_use) (
      taken,
      off,
      status_disconnected w (let_go c.session) (safety_release w lease cleared).0
          (rw same (get-put w w (let_go c.session) g.sessions ∙ ground arith)) refl,
    )
