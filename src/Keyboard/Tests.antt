-- ===== src/Keyboard/Tests.antt =====
-- The keyboard on concrete keys.
use code_runner.Prelude.{String, List, [], ◌∷◌, ◌≡◌, refl}
use code_runner.Keyboard.{
  degrees, neutral_gamepad_state, keyboard_codes_to_wpilib, gamepad_state_to_visualizer_frame,
  gamepad_frame_to_wpilib, digital_axis, dpad_to_pov, pressed,
}
use code_runner.Keyboard.RoundTrip.{gamepad_frame_to_wpilib-visualizer}
use code_runner.Keyboard.Mapped.{mapped_only, keyboard_codes_to_wpilib-mapped_only}

abbrev held : List String
held = "KeyA" ∷ "KeyK" ∷ "KeyQ" ∷ "F5" ∷ "KeyZ" ∷ "KeyV" ∷ []

no_keys : keyboard_codes_to_wpilib [] ≡ neutral_gamepad_state
unfolding keyboard_codes_to_wpilib digital_axis dpad_to_pov pressed
no_keys = refl

up_right : (keyboard_codes_to_wpilib held).povs ≡ degrees 45 ∷ []
unfolding keyboard_codes_to_wpilib digital_axis dpad_to_pov pressed
up_right = refl

gamepad_frame_to_wpilib-visualizer_example :
    gamepad_frame_to_wpilib (gamepad_state_to_visualizer_frame (keyboard_codes_to_wpilib held))
    ≡ keyboard_codes_to_wpilib held
gamepad_frame_to_wpilib-visualizer_example = gamepad_frame_to_wpilib-visualizer held

keyboard_codes_to_wpilib-mapped_only_example :
    keyboard_codes_to_wpilib (mapped_only held) ≡ keyboard_codes_to_wpilib held
keyboard_codes_to_wpilib-mapped_only_example = keyboard_codes_to_wpilib-mapped_only held
