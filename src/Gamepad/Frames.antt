-- ===== src/Gamepad/Frames.antt =====
-- Which joystick frames of apps/control/src/gamepad.ts are taken.
use code_runner.Prelude.{
  ℕ, ◌≤◌, List, [], ◌∷◌, some, true, false, ◌≡◌, refl, ap, ◌∙◌, arith, get, put-get, get-put,
  is_some, Bool-cases, Option-cases, inl, inr, All,
}
use code_runner.HalSim.{Outcome, done, unavailable}
use code_runner.HalSim.Calls.{JoystickWireState, apply_joystick_state}
use code_runner.Gamepad.{
  Sessions, SessionState, at, LeaseResolver, state, is_stale, session_of, store_session, forward,
  handle_message, default_port, taken_by,
}

-- The frames of one workspace in the order of their arrival.
pub frames : ℕ → LeaseResolver → ℕ → List (ℕ × JoystickWireState) → Sessions → Sessions
frames w lease now [] g = g
frames w lease now ((seq, frame) ∷ fs) g =
    frames w lease now fs (handle_message w (state seq frame) lease now g).0

-- The session of `w` has taken frame number `n`.
abbrev pub HasTaken : ℕ → ℕ → Sessions → Type 0
HasTaken n w g = (s : SessionState) × (get w g.sessions ≡ some s) × (s.last_seq ≡ at n)

-- Putting back the session that is there.
restore :
    (w : ℕ) (s : SessionState) (g : Sessions) → get w g.sessions ≡ some s → store_session w s g ≡ g
unfolding store_session
restore w s g h = ap (λ l. record g { sessions = l }) (put-get w s g.sessions h)

stale_frame :
    (w n seq now : ℕ) (frame : JoystickWireState) (lease : LeaseResolver) (g : Sessions)
    → HasTaken n w g
    → seq ≤ n
    → (handle_message w (state seq frame) lease now g).0 ≡ g
unfolding handle_message
stale_frame w n seq now frame lease g (s, here, taken) h =
    let late : is_stale seq s.last_seq ≡ true = ground arith in
    rw (here, session_of)
      (elim (Bool-cases (is_some s.selected)) [
        | inl used ↦ rw (used, late) (restore w s g here)
        | inr unused ↦ rw unused (restore w s g here)
      ])

store_session-HasTaken :
    (w n : ℕ) (s : SessionState) (g : Sessions)
    → s.last_seq ≡ at n
    → HasTaken n w (store_session w s g)
unfolding store_session
store_session-HasTaken w n s g h = (s, get-put w w s g.sessions ∙ ground arith, h)

taken_by-last_seq :
    (o : Outcome) (now : ℕ) (s : SessionState) → (taken_by o now s).last_seq ≡ s.last_seq
taken_by-last_seq done now s = refl
taken_by-last_seq (unavailable m) now s = refl

forward-HasTaken :
    (w n now : ℕ) (frame : JoystickWireState) (s : SessionState) (lease : LeaseResolver)
    (g : Sessions)
    → s.last_seq ≡ at n
    → HasTaken n w (forward w frame s lease now g)
unfolding forward
forward-HasTaken w n now frame s lease g h = elim (Option-cases (lease w)) [
  | inl off ↦ rw (off, forward) (store_session-HasTaken w n s g h)
  | inr (target, on) ↦
      let (b, outcome) = apply_joystick_state w target default_port frame g.halsim in
      rw (on, forward)
        (store_session-HasTaken w n (taken_by outcome now s) (record g { halsim = b })
          (taken_by-last_seq outcome now s ∙ h))
]

-- A frame that is not stale is taken, whether or not the bridge can pass it on.
fresh_frame :
    (w seq now : ℕ) (frame : JoystickWireState) (lease : LeaseResolver) (g : Sessions)
    (s : SessionState)
    → get w g.sessions ≡ some s
    → is_some s.selected ≡ true
    → is_stale seq s.last_seq ≡ false
    → HasTaken seq w (handle_message w (state seq frame) lease now g).0
unfolding handle_message
fresh_frame w seq now frame lease g s here used due =
    rw (here, session_of)
      (rw (used, due)
        (forward-HasTaken w seq now frame (record s { last_seq = at seq }) lease g refl))

stale_frames :
    (w n now : ℕ) (lease : LeaseResolver) (fs : List (ℕ × JoystickWireState)) (g : Sessions)
    → HasTaken n w g
    → All (λ f. f.0 ≤ n) fs
    → frames w lease now fs g ≡ g
unfolding frames
stale_frames w n now lease [] g h below = refl
stale_frames w n now lease ((seq, frame) ∷ fs) g h below =
    let same = stale_frame w n seq now frame lease g h below.0 in
    rw same (stale_frames w n now lease fs g h below.1)

-- When a frame is taken from a controller in use, the repeated and older frames that follow it, up
-- to the next other message, reset or newer frame, have no effect: not on the sessions, not on the
-- bridge, and nothing is sent to the simulator for them.
pub frames_taken_once :
    (w seq now later : ℕ) (frame : JoystickWireState) (lease : LeaseResolver)
    (fs : List (ℕ × JoystickWireState)) (g : Sessions) (s : SessionState)
    → get w g.sessions ≡ some s
    → is_some s.selected ≡ true
    → is_stale seq s.last_seq ≡ false
    → All (λ f. f.0 ≤ seq) fs
    → let h = (handle_message w (state seq frame) lease now g).0 in frames w lease later fs h ≡ h
frames_taken_once w seq now later frame lease fs g s here used due below =
    stale_frames w seq later lease fs _ (fresh_frame w seq now frame lease g s here used due) below
