-- ===== src/HalSim/Invariant/Calls.antt =====
-- The calls of the bridge keep every entry sound.
use code_runner.Prelude.{
  ℕ, String, List, [], ◌∷◌, Option, none, some, true, ◌≡◌, refl, ◌∙◌, ◌⊎◌, inl, inr, arith,
  Bool-cases, Option-cases, is_some, ◌&&◌, not,
}
use text.Mathlib.Text.{◌==◌ as str_eq}
use code_runner.Json.{bool, Fields, end, field}
use code_runner.DriverStation.{DriverStationPatch, apply_patch}
use code_runner.HalSim.{
  Bridge, Entry, Message, Target, Outcome, done, unavailable, upstream_url_for, disconnect,
  disconnect_all, close, find_entry, add_entry, create_entry, ensure_entry,
}
use code_runner.HalSim.Calls.{
  attach, ensure_connected, send, send_ds, send_all, can_send, patch_entry, joystick_entry,
  apply_driver_station_patch, apply_joystick_state, release_joystick, JoystickWireState,
  neutral_joystick, disable_patch, joystick_message, usable,
}
use code_runner.HalSim.Invariant.{
  IsSound, AllSound, store-AllSound, open_socket-AllSound, disconnect-AllSound, find_entry_lem,
  heap-open_socket,
}

pub disconnect_all-AllSound :
    (ws : List (ℕ × ℕ)) (b : Bridge) → AllSound b → AllSound (disconnect_all ws b)
unfolding disconnect_all
disconnect_all-AllSound [] b all = all
disconnect_all-AllSound ((w, r) ∷ ws) b all =
    disconnect_all-AllSound ws (disconnect w b) (disconnect-AllSound w b all)

pub close-AllSound : (b : Bridge) → AllSound b → AllSound (close b)
unfolding close
close-AllSound b all = disconnect_all-AllSound b.entries b all

add_entry-AllSound : (w : ℕ) (u : String) (b : Bridge) → AllSound b → AllSound (add_entry w u b)
unfolding add_entry create_entry
add_entry-AllSound w u b all =
    store-AllSound b.next_entry (create_entry w u) b all (ground arith) tt

-- A bridge with an entry picked out of it.
abbrev pub Holds : Bridge × ℕ × Entry → Type 0
Holds (b, r, e) = AllSound b × (b.heap r ≡ some e)

add_entry-Holds :
    (w : ℕ) (u : String) (b : Bridge)
    → AllSound b
    → Holds (add_entry w u b, b.next_entry, create_entry w u)
unfolding add_entry
add_entry-Holds w u b all = (add_entry-AllSound w u b all, ground arith)

pub ensure_entry-Holds : (w : ℕ) (u : String) (b : Bridge) → AllSound b → Holds (ensure_entry w u b)
unfolding ensure_entry
ensure_entry-Holds w u b all = elim (Option-cases (find_entry b w)) [
  | inl missing ↦ rw (missing, ensure_entry) (add_entry-Holds w u b all)
  | inr ((r, e), found) ↦ elim (Bool-cases (str_eq e.upstream_url u)) [
    | inl same ↦ rw (found, ensure_entry) (rw same (all, find_entry_lem w b r e found))
    | inr other ↦
        rw (found, ensure_entry)
          (rw other (add_entry-Holds w u (disconnect w b) (disconnect-AllSound w b all)))
  ]
]

abbrev wanted : Entry → Entry
wanted e = record e { should_reconnect = true }

attach-Holds :
    (b : Bridge) (r : ℕ) (e : Entry) → AllSound b → b.heap r ≡ some e → Holds (attach b r e)
unfolding attach
attach-Holds b r e all h =
    let (sound, attached) = all r e h in
    let sound' : IsSound (wanted e) = ground arith in
    elim (Bool-cases (not (is_some e.socket) && not (is_some e.reconnect_timer))) [
      | inl idle ↦
          rw (idle, attach)
            (
              open_socket-AllSound r (wanted e) b all refl (ground arith) sound',
              heap-open_socket r (wanted e) b,
            )
      | inr busy ↦
          rw (busy, attach) (store-AllSound r (wanted e) b all sound' attached, ground arith)
    ]

pub ensure_connected-Holds :
    (w : ℕ) (t : Target) (b : Bridge) → AllSound b → Holds (ensure_connected w t b)
unfolding ensure_connected
ensure_connected-Holds w t b all =
    let (all', h) = ensure_entry-Holds w (upstream_url_for t) b all in attach-Holds _ _ _ all' h

-- Sending changes neither entries nor sockets.
abbrev SameState : Bridge → Bridge → Type 0
SameState b c = (c.heap ≡ b.heap) × (c.sockets ≡ b.sockets) × (c.next_socket ≡ b.next_socket)

send-SameState : (o : Option ℕ) (m : Message) (b : Bridge) → SameState b (send o m b)
send-SameState none m b = (refl, refl, refl)
send-SameState (some s) m b = (refl, refl, refl)

pub send_ds-SameState : (e : Entry) (fs : Fields) (b : Bridge) → SameState b (send_ds e fs b).0
unfolding send_ds
send_ds-SameState e fs b = elim (Bool-cases (usable e.socket b)) [
  | inl yes' ↦ rw (yes', send_ds) (send-SameState e.socket _ b)
  | inr no' ↦ rw (no', send_ds) (refl, refl, refl)
]

pub send_all-SameState :
    (e : Entry) (fs : List Fields) (b : Bridge) → SameState b (send_all e fs b).0
unfolding send_all
send_all-SameState e [] b = (refl, refl, refl)
send_all-SameState e (f ∷ fs) b =
    ground (arith, send_ds-SameState e f b, send_all-SameState e fs (send_ds e f b).0)

pub SameState-AllSound : (b c : Bridge) → SameState b c → AllSound b → AllSound c
SameState-AllSound b c (h, s, n) all r e at = rw (s, n) (all r e (rw h at at))

outcome-cases : (o : Outcome) → (o ≡ done) ⊎ ((m : String) × (o ≡ unavailable m))
outcome-cases done = inl refl
outcome-cases (unavailable m) = inr (m, refl)

patch_entry-AllSound :
    (p : DriverStationPatch) (b : Bridge) (r : ℕ) (e : Entry)
    → Holds (b, r, e)
    → AllSound (patch_entry p b r e).0
unfolding patch_entry
patch_entry-AllSound p b r e (all, h) =
    let sent = send_all e (apply_patch p e.driver_station).1 b in
    let same = send_all-SameState e (apply_patch p e.driver_station).1 b in
    let all' = SameState-AllSound b sent.0 same all in
    let (sound, attached) = all' r e (rw same.0 h) in
    elim (Bool-cases (can_send e b)) [
      | inr no' ↦ rw (no', patch_entry) all
      | inl yes' ↦ elim (outcome-cases sent.1) [
        | inl e' ↦
            rw (yes', patch_entry) (rw e' (store-AllSound r _ sent.0 all' (ground arith) attached))
        | inr (m, e') ↦ rw (yes', patch_entry) (rw e' all')
      ]
    ]

pub apply_driver_station_patch-AllSound :
    (w : ℕ) (t : Target) (p : DriverStationPatch) (b : Bridge)
    → AllSound b
    → AllSound (apply_driver_station_patch w t p b).0
unfolding apply_driver_station_patch
apply_driver_station_patch-AllSound w t p b all =
    patch_entry-AllSound p _ _ _ (ensure_connected-Holds w t b all)

SameState-trans : (b c d : Bridge) → SameState b c → SameState c d → SameState b d
SameState-trans b c d (h, s, n) (h', s', n') = (h' ∙ h, s' ∙ s, n' ∙ n)

joystick_entry-SameState :
    (n : ℕ) (s : JoystickWireState) (b : Bridge) (e : Entry)
    → SameState b (joystick_entry n s b e).0
unfolding joystick_entry
joystick_entry-SameState n s b e =
    let mid = send e.socket (joystick_message n s) b in
    let flush = field ">new_data" (bool true) end in
    elim (Bool-cases (can_send e b)) [
      | inr no' ↦ rw (no', joystick_entry) (refl, refl, refl)
      | inl yes' ↦
          rw (yes', joystick_entry)
            (SameState-trans b mid (send_ds e flush mid).0 (send-SameState e.socket _ b)
              (send_ds-SameState e flush mid))
    ]

pub apply_joystick_state-AllSound :
    (w : ℕ) (t : Target) (n : ℕ) (s : JoystickWireState) (b : Bridge)
    → AllSound b
    → AllSound (apply_joystick_state w t n s b).0
unfolding apply_joystick_state
apply_joystick_state-AllSound w t n s b all =
    let (c, r, e) = ensure_connected w t b in
    SameState-AllSound c (joystick_entry n s c e).0 (joystick_entry-SameState n s c e)
      (ensure_connected-Holds w t b all).0

pub release_joystick-AllSound :
    (w : ℕ) (t : Target) (n : ℕ) (b : Bridge) → AllSound b → AllSound (release_joystick w t n b).0
unfolding release_joystick
release_joystick-AllSound w t n b all =
    let zeroed = apply_joystick_state w t n neutral_joystick b in
    let all' = apply_joystick_state-AllSound w t n neutral_joystick b all in
    elim (outcome-cases zeroed.1) [
      | inl e ↦
          rw (e, release_joystick)
            (apply_driver_station_patch-AllSound w t disable_patch zeroed.0 all')
      | inr (m, e) ↦ rw (e, release_joystick) all'
    ]
