-- ===== src/Keyboard/Mapped.antt =====
-- The keys that count in apps/web/src/lib/keyboard-mapping.ts.
use text.Mathlib.Text.{◌==◌}
use text.Mathlib.TextEquality.{eq_iff}
use code_runner.Prelude.{
  String, List, [], ◌∷◌, true, false, ◌≡◌, refl, inl, inr, arith, Bool-cases, if◌then◌else◌, ap,
}
use code_runner.Keyboard.{pressed, is_mapped_keyboard_code, keyboard_codes_to_wpilib, digital_axis}

-- The pressed keys that have a binding.
unfoldable pub mapped_only : List String → List String
mapped_only [] = []
mapped_only (c ∷ codes) =
    if is_mapped_keyboard_code c then c ∷ mapped_only codes else mapped_only codes

-- An unmapped key is not the mapped one that is asked for.
unmapped-differs :
    (c code : String)
    → is_mapped_keyboard_code c ≡ false
    → is_mapped_keyboard_code code ≡ true
    → (c == code) ≡ false
unmapped-differs c code off on = elim (Bool-cases (c == code)) [
  | inr h ↦ h
  | inl h ↦
      let this : c ≡ code = (eq_iff c code).0 h in
      let same : is_mapped_keyboard_code c ≡ is_mapped_keyboard_code code =
        ap is_mapped_keyboard_code this in
      ground arith
]

pub pressed-mapped_only :
    (code : String) (codes : List String)
    → is_mapped_keyboard_code code ≡ true
    → pressed (mapped_only codes) code ≡ pressed codes code
unfolding pressed mapped_only
pressed-mapped_only code [] h = refl
pressed-mapped_only code (c ∷ codes) h = elim (Bool-cases (is_mapped_keyboard_code c)) [
  | inl on ↦ rw (on, pressed-mapped_only code codes h, mapped_only) refl
  | inr off ↦
      rw (off, unmapped-differs c code off h, mapped_only) (pressed-mapped_only code codes h)
]

-- Keys without a binding change nothing: the joystick state of the pressed keys is that of those
-- among them that have one.
pub keyboard_codes_to_wpilib-mapped_only :
    (codes : List String)
    → keyboard_codes_to_wpilib (mapped_only codes) ≡ keyboard_codes_to_wpilib codes
unfolding keyboard_codes_to_wpilib digital_axis is_mapped_keyboard_code
keyboard_codes_to_wpilib-mapped_only codes =
    let m : (code : String)
        → is_mapped_keyboard_code code ≡ true
        → pressed (mapped_only codes) code ≡ pressed codes code =
      λ code h. pressed-mapped_only code codes h in
    rw
      (
        m "KeyA" refl,
        m "KeyD" refl,
        m "KeyW" refl,
        m "KeyS" refl,
        m "KeyQ" refl,
        m "KeyO" refl,
        m "ArrowLeft" refl,
        m "ArrowRight" refl,
        m "ArrowUp" refl,
        m "ArrowDown" refl,
        m "KeyK" refl,
        m "KeyL" refl,
        m "KeyJ" refl,
        m "KeyI" refl,
        m "KeyE" refl,
        m "KeyU" refl,
        m "KeyR" refl,
        m "KeyY" refl,
        m "KeyF" refl,
        m "KeyH" refl,
        m "KeyZ" refl,
        m "KeyX" refl,
        m "KeyC" refl,
        m "KeyV" refl,
      )
      refl
