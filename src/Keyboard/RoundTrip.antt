-- ===== src/Keyboard/RoundTrip.antt =====
-- The picture of the keyboard's state in apps/web/src/lib/keyboard-mapping.ts, read back.
use code_runner.Prelude.{String, List, Bool, true, false, ◌≡◌, refl}
use code_runner.Keyboard.{
  Pov, level, pressed, dpad_to_pov, pov_to_buttons, keyboard_codes_to_wpilib,
  gamepad_state_to_visualizer_frame, gamepad_frame_to_wpilib, nth, at_least_zero,
}

abbrev pov_of : Bool × Bool × Bool × Bool → Pov
pov_of (up, down, left, right) = dpad_to_pov up down left right

dpad_to_pov-pov_to_buttons :
    (up down left right : Bool)
    → pov_of (pov_to_buttons (dpad_to_pov up down left right)) ≡ dpad_to_pov up down left right
unfolding dpad_to_pov pov_to_buttons
dpad_to_pov-pov_to_buttons true true true true = refl
dpad_to_pov-pov_to_buttons true true true false = refl
dpad_to_pov-pov_to_buttons true true false true = refl
dpad_to_pov-pov_to_buttons true true false false = refl
dpad_to_pov-pov_to_buttons true false true true = refl
dpad_to_pov-pov_to_buttons true false true false = refl
dpad_to_pov-pov_to_buttons true false false true = refl
dpad_to_pov-pov_to_buttons true false false false = refl
dpad_to_pov-pov_to_buttons false true true true = refl
dpad_to_pov-pov_to_buttons false true true false = refl
dpad_to_pov-pov_to_buttons false true false true = refl
dpad_to_pov-pov_to_buttons false true false false = refl
dpad_to_pov-pov_to_buttons false false true true = refl
dpad_to_pov-pov_to_buttons false false true false = refl
dpad_to_pov-pov_to_buttons false false false true = refl
dpad_to_pov-pov_to_buttons false false false false = refl

at_least_zero-level : (b : Bool) → at_least_zero (level b) ≡ level b
at_least_zero-level true = refl
at_least_zero-level false = refl

-- The frame that the page draws for the pressed keys, read as that of a controller in the standard
-- layout, is the joystick state that the keys stand for: no axis, trigger, button or direction is
-- lost or moved.
pub gamepad_frame_to_wpilib-visualizer :
    (codes : List String)
    → gamepad_frame_to_wpilib (gamepad_state_to_visualizer_frame (keyboard_codes_to_wpilib codes))
      ≡ keyboard_codes_to_wpilib codes
unfolding gamepad_frame_to_wpilib gamepad_state_to_visualizer_frame keyboard_codes_to_wpilib nth
gamepad_frame_to_wpilib-visualizer codes =
    rw
      (
        at_least_zero-level (pressed codes "KeyQ"),
        at_least_zero-level (pressed codes "KeyO"),
        dpad_to_pov-pov_to_buttons (pressed codes "KeyZ") (pressed codes "KeyX")
            (pressed codes "KeyC") (pressed codes "KeyV"),
      )
      refl
