-- ===== src/Keyboard.antt =====
-- apps/web/src/lib/keyboard-mapping.ts and apps/web/src/lib/gamepad-mapping.ts: the keyboard as a
-- controller, and controllers as joysticks. A keyboard moves an axis to its ends or to its middle,
-- so the numbers here are -1, 0 and 1, which rounding to four places leaves as they are.
pub mod Mapped
pub mod RoundTrip
mod Tests
use Prim.Native.String
use text.Mathlib.Text.{◌==◌}
use code_runner.Prelude.{
  ℕ, String, List, [], ◌∷◌, Option, none, some, Bool, true, false, ◌&&◌, ◌||◌, if◌then◌else◌,
  or_else, map, ◌==◌ as eqb,
}

pub data Level : Type 0 where
  minus_one zero one : Level

-- A direction of the pad in degrees, or -1.
pub data Pov : Type 0 where
  released : Pov
  degrees : ℕ → Pov

pub record GamepadState : Type 0 where
  pub axes : List Level
  pub buttons : List Bool
  pub povs : List Pov

pub record Button : Type 0 where
  pub pressed : Bool
  pub value : Level

pub record GamepadFrame : Type 0 where
  pub axes : List Level
  pub buttons : List Button

pub data KeyboardBindingGroup : Type 0 where
  sticks shoulders buttons pov : KeyboardBindingGroup

pub record Binding : Type 0 where
  pub code : String
  pub key : String
  pub action : String
  pub group : KeyboardBindingGroup

abbrev binding : String → String → String → KeyboardBindingGroup → Binding
binding code key action group = record { code = code; key = key; action = action; group = group }

abbrev pub keyboard_bindings : List Binding
keyboard_bindings =
    binding "KeyW" "W" "Left stick up" sticks
    ∷ binding "KeyA" "A" "Left stick left" sticks
    ∷ binding "KeyS" "S" "Left stick down" sticks
    ∷ binding "KeyD" "D" "Left stick right" sticks
    ∷ binding "ArrowUp" "Arrow Up" "Right stick up" sticks
    ∷ binding "ArrowDown" "Arrow Down" "Right stick down" sticks
    ∷ binding "ArrowLeft" "Arrow Left" "Right stick left" sticks
    ∷ binding "ArrowRight" "Arrow Right" "Right stick right" sticks
    ∷ binding "KeyQ" "Q" "Left trigger" shoulders
    ∷ binding "KeyO" "O" "Right trigger" shoulders
    ∷ binding "KeyE" "E" "Left bumper" shoulders
    ∷ binding "KeyU" "U" "Right bumper" shoulders
    ∷ binding "KeyK" "K" "A button" buttons
    ∷ binding "KeyL" "L" "B button" buttons
    ∷ binding "KeyJ" "J" "X button" buttons
    ∷ binding "KeyI" "I" "Y button" buttons
    ∷ binding "KeyR" "R" "Back button" buttons
    ∷ binding "KeyY" "Y" "Start button" buttons
    ∷ binding "KeyF" "F" "Left stick click" buttons
    ∷ binding "KeyH" "H" "Right stick click" buttons
    ∷ binding "KeyZ" "Z" "POV up" pov
    ∷ binding "KeyX" "X" "POV down" pov
    ∷ binding "KeyC" "C" "POV left" pov
    ∷ binding "KeyV" "V" "POV right" pov
    ∷ []

-- A set of codes is the list of its members.
unfoldable pub pressed : List String → String → Bool
pressed [] code = false
pressed (c ∷ codes) code = (c == code) || pressed codes code

abbrev mapped_codes : List String
mapped_codes = map (λ b. b.code) keyboard_bindings

unfoldable pub is_mapped_keyboard_code : String → Bool
unfolding pressed
is_mapped_keyboard_code code = pressed mapped_codes code

abbrev axis_of : Bool → Bool → Level
axis_of true true = zero
axis_of false false = zero
axis_of true false = minus_one
axis_of false true = one

unfoldable pub digital_axis : List String → String → String → Level
unfolding pressed
digital_axis codes negative_code positive_code =
    axis_of (pressed codes negative_code) (pressed codes positive_code)

unfoldable pub dpad_to_pov : Bool → Bool → Bool → Bool → Pov
dpad_to_pov up down left right =
    if up && right
    then degrees 45
    else if right && down
    then degrees 135
    else if down && left
    then degrees 225
    else if left && up
    then degrees 315
    else if up
    then degrees 0
    else if right
    then degrees 90
    else if down
    then degrees 180
    else if left
    then degrees 270
    else released

unfoldable pub pov_to_buttons : Pov → Bool × Bool × Bool × Bool
pov_to_buttons released = (false, false, false, false)
pov_to_buttons (degrees n) =
    if eqb n 0
    then (true, false, false, false)
    else if eqb n 45
    then (true, false, false, true)
    else if eqb n 90
    then (false, false, false, true)
    else if eqb n 135
    then (false, true, false, true)
    else if eqb n 180
    then (false, true, false, false)
    else if eqb n 225
    then (false, true, true, false)
    else if eqb n 270
    then (false, false, true, false)
    else if eqb n 315
    then (true, false, true, false)
    else (false, false, false, false)

abbrev pub level : Bool → Level
level b = if b then one else zero

unfoldable pub keyboard_codes_to_wpilib : List String → GamepadState
unfolding digital_axis dpad_to_pov pressed
keyboard_codes_to_wpilib codes = record {
  axes =
      digital_axis codes "KeyA" "KeyD"
      ∷ digital_axis codes "KeyW" "KeyS"
      ∷ level (pressed codes "KeyQ")
      ∷ level (pressed codes "KeyO")
      ∷ digital_axis codes "ArrowLeft" "ArrowRight"
      ∷ digital_axis codes "ArrowUp" "ArrowDown"
      ∷ [];
  buttons =
      pressed codes "KeyK"
      ∷ pressed codes "KeyL"
      ∷ pressed codes "KeyJ"
      ∷ pressed codes "KeyI"
      ∷ pressed codes "KeyE"
      ∷ pressed codes "KeyU"
      ∷ pressed codes "KeyR"
      ∷ pressed codes "KeyY"
      ∷ pressed codes "KeyF"
      ∷ pressed codes "KeyH"
      ∷ [];
  povs =
      dpad_to_pov (pressed codes "KeyZ") (pressed codes "KeyX") (pressed codes "KeyC")
        (pressed codes "KeyV")
      ∷ [];
}

-- `xs[i] ?? d`
pub nth {ℓ} : {A : Type ℓ} → A → ℕ → List A → A
nth d i [] = d
nth d ℕ.zero (x ∷ xs) = x
nth d (ℕ.suc i) (x ∷ xs) = nth d i xs

abbrev positive : Level → Bool
positive one = true
positive _ = false

abbrev digital_button : Bool → Button
digital_button b = record { pressed = b; value = level b }

abbrev trigger : Level → Button
trigger v = record { pressed = positive v; value = v }

unfoldable pub gamepad_state_to_visualizer_frame : GamepadState → GamepadFrame
unfolding nth pov_to_buttons
gamepad_state_to_visualizer_frame s =
    let axis : ℕ → Level = λ i. nth zero i s.axes in
    let on : ℕ → Button = λ i. digital_button (nth false i s.buttons) in
    let (up, down, left, right) = pov_to_buttons (nth released 0 s.povs) in
    record {
      axes = axis 0 ∷ axis 1 ∷ axis 4 ∷ axis 5 ∷ [];
      buttons =
          on 0
          ∷ on 1
          ∷ on 2
          ∷ on 3
          ∷ on 4
          ∷ on 5
          ∷ trigger (axis 2)
          ∷ trigger (axis 3)
          ∷ on 6
          ∷ on 7
          ∷ on 8
          ∷ on 9
          ∷ digital_button up
          ∷ digital_button down
          ∷ digital_button left
          ∷ digital_button right
          ∷ [];
    }

-- `clamp(v, 0, 1)`
abbrev at_least_zero : Level → Level
at_least_zero minus_one = zero
at_least_zero v = v

unfoldable pub gamepad_frame_to_wpilib : GamepadFrame → GamepadState
unfolding nth dpad_to_pov
gamepad_frame_to_wpilib f =
    let none_pressed : Button = digital_button false in
    let axis : ℕ → Level = λ i. nth zero i f.axes in
    let bv : ℕ → Level = λ i. at_least_zero (nth none_pressed i f.buttons).value in
    let bp : ℕ → Bool = λ i. (nth none_pressed i f.buttons).pressed in
    record {
      axes = axis 0 ∷ axis 1 ∷ bv 6 ∷ bv 7 ∷ axis 2 ∷ axis 3 ∷ [];
      buttons = bp 0 ∷ bp 1 ∷ bp 2 ∷ bp 3 ∷ bp 4 ∷ bp 5 ∷ bp 8 ∷ bp 9 ∷ bp 10 ∷ bp 11 ∷ [];
      povs = dpad_to_pov (bp 12) (bp 13) (bp 14) (bp 15) ∷ [];
    }

abbrev pub neutral_gamepad_state : GamepadState
neutral_gamepad_state = record {
  axes = zero ∷ zero ∷ zero ∷ zero ∷ zero ∷ zero ∷ [];
  buttons = false ∷ false ∷ false ∷ false ∷ false ∷ false ∷ false ∷ false ∷ false ∷ false ∷ [];
  povs = released ∷ [];
}
