-- ===== src/HalSim/Invariant/Events.antt =====
-- The listeners and the timer keep every entry sound; so does any sequence of calls and events.
use code_runner.Prelude.{
  ℕ, String, List, [], ◌∷◌, Option, none, some, Bool, true, false, ◌≡◌, refl, ◌⊎◌, inl, inr, arith,
  Bool-cases, Option-cases, ◌==◌, is_some, ◌&&◌, not, if◌then◌else◌,
}
use code_runner.Json.{Json, Fields}
use code_runner.DriverStation.{Reading, read_frame, read_message, ignored, type_error, state}
use code_runner.HalSim.{
  Bridge, Entry, Socket, ReadyState, open_, closed, store, connected, default_backoff_ms,
}
use code_runner.HalSim.Calls.{send_ds}
use code_runner.HalSim.Events.{
  Event, ensure, patch, joystick, release, detach, shut_down, opens, receives, closes, fails, fires,
  shuts, is_over, step, run, empty_bridge, guarded, becomes, set_ready, holds, hello,
  on_socket_open, on_socket_message, on_socket_closed, on_socket_error, closed_entry, timer_fires,
}
use code_runner.HalSim.Invariant.{
  IsSound, Attached, AllSound, store-AllSound, open_socket-AllSound, disconnect-AllSound,
}
use code_runner.HalSim.Invariant.Calls.{
  close-AllSound, ensure_connected-Holds, apply_driver_station_patch-AllSound,
  apply_joystick_state-AllSound, release_joystick-AllSound, send_ds-SameState, SameState-AllSound,
}

reading-cases :
    (r : Reading) → ((fs : Fields) × (r ≡ state fs)) ⊎ ((r ≡ ignored) ⊎ (r ≡ type_error))
reading-cases (state fs) = inl (fs, refl)
reading-cases ignored = inr (inl refl)
reading-cases type_error = inr (inr refl)

-- The rule for a listener: it runs only for the entry that still holds the socket.
guarded-AllSound :
    (s : ℕ) (hook : ℕ → Entry → Bridge → Bridge) (b : Bridge)
    → AllSound b
    → ((r : ℕ) (e : Entry) → b.heap r ≡ some e → holds e.socket s ≡ true → AllSound (hook r e b))
    → AllSound (guarded s hook b)
unfolding guarded
guarded-AllSound s hook b all keep = elim (Option-cases (b.sockets s)) [
  | inl e ↦ rw (e, guarded) all
  | inr (k, e) ↦ elim (Option-cases (b.heap k.owner)) [
    | inl f ↦ rw (e, guarded) (rw f all)
    | inr (x, f) ↦ elim (Bool-cases (holds x.socket s)) [
      | inl h ↦ rw (e, guarded) (rw f (rw h (keep k.owner x f h)))
      | inr h ↦ rw (e, guarded) (rw f (rw h all))
    ]
  ]
]

on_socket_message-AllSound :
    (frame : Option Json) (now r : ℕ) (e : Entry) (b : Bridge)
    → AllSound b
    → b.heap r ≡ some e
    → AllSound (on_socket_message frame now r e b)
unfolding on_socket_message
on_socket_message-AllSound frame now r e b all at = elim (Bool-cases e.should_reconnect) [
  | inr off ↦ rw (off, on_socket_message) all
  | inl on ↦ elim (reading-cases (read_message frame)) [
    | inl (fs, f) ↦
        rw (on, on_socket_message)
          (rw f (store-AllSound r _ b all (keeps fs (all r e at).0) (all r e at).1))
    | inr (inl f) ↦ rw (on, on_socket_message) (rw f all)
    | inr (inr f) ↦ rw (on, on_socket_message) (rw f all)
  ]
]
  where
    keeps :
        (fs : Fields)
        → IsSound e
        → IsSound (record e {
          driver_station = read_frame fs e.driver_station;
          last_message_at = some now;
          stale = false;
          error = none;
        })
    keeps fs s = ground arith

receives-AllSound :
    (s : ℕ) (frame : Option Json) (now : ℕ) (b : Bridge)
    → AllSound b
    → AllSound (step (receives s frame now) b)
unfolding step
receives-AllSound s frame now b all =
    guarded-AllSound s (on_socket_message frame now) b all
      λ r e at h. on_socket_message-AllSound frame now r e b all at

fails-AllSound : (s : ℕ) (b : Bridge) → AllSound b → AllSound (step (fails s) b)
unfolding step
fails-AllSound s b all =
    guarded-AllSound s on_socket_error b all
      λ r e at h. store-AllSound r _ b all (ground (arith, (all r e at).0)) (all r e at).1

becomes_open-AllSound : (s : ℕ) (b : Bridge) → AllSound b → AllSound (becomes s open_ b)
unfolding becomes
becomes_open-AllSound s b all = elim (Option-cases (b.sockets s)) [
  | inl e ↦ rw (e, becomes) all
  | inr (k, e) ↦ rw (e, becomes) λ r f at. ((all r f at).0, ground (arith, (all r f at).1))
]

if-AllSound : (t : Bool) (b c : Bridge) → AllSound b → AllSound c → AllSound (if t then b else c)
if-AllSound true b c h k = h
if-AllSound false b c h k = k

abbrev live : Entry → Entry
live e = record e {
  connection = connected;
  connected = true;
  stale = false;
  error = none;
  reconnect_backoff_ms = default_backoff_ms;
}

holds-is_some : (o : Option ℕ) (s : ℕ) → holds o s ≡ true → is_some o ≡ true
holds-is_some none s h = h
holds-is_some (some t) s h = refl

-- After the move, an entry that holds the socket holds an open one.
becomes_open_lem :
    (s r : ℕ) (e f : Entry) (b : Bridge)
    → holds e.socket s ≡ true
    → f.socket ≡ e.socket
    → Attached (becomes s open_ b).sockets (becomes s open_ b).next_socket r e
    → Attached (becomes s open_ b).sockets (becomes s open_ b).next_socket r f
unfolding becomes
becomes_open_lem s r e f b h same attached = ground arith

opens-AllSound : (s : ℕ) (b : Bridge) → AllSound b → AllSound (step (opens s) b)
unfolding step on_socket_open
opens-AllSound s b all = guarded-AllSound s on_socket_open c all' keep
  where
    c : Bridge
    c = becomes s open_ b

    all' : AllSound c
    all' = becomes_open-AllSound s b all

    keep :
        (r : ℕ) (e : Entry)
        → c.heap r ≡ some e
        → holds e.socket s ≡ true
        → AllSound (on_socket_open r e c)
    keep r e at h =
        let stored = store r (live e) c in
        if-AllSound e.should_reconnect (send_ds (live e) hello stored).0 c
          (SameState-AllSound stored (send_ds (live e) hello stored).0
            (send_ds-SameState (live e) hello stored)
            (store-AllSound r (live e) c all'
              (ground (arith, (all' r e at).0, holds-is_some e.socket s))
              (becomes_open_lem s r e (live e) b h refl (all' r e at).1)))
          all'

-- The socket of an entry is bound to it, so a socket of another owner is not its socket.
holds-owner :
    (s q : ℕ) (f : Entry) (k : Socket) (b : Bridge)
    → b.sockets s ≡ some k
    → Attached b.sockets b.next_socket q f
    → holds f.socket s ≡ true
    → k.owner ≡ q
holds-owner s q f k b e attached h = ground arith

set_ready-Attached :
    (s q : ℕ) (f : Entry) (k : Socket) (b : Bridge)
    → Attached b.sockets b.next_socket q f
    → holds f.socket s ≡ false
    → Attached (set_ready s k closed b).sockets b.next_socket q f
set_ready-Attached s q f k b attached h = ground arith

closed_entry-IsSound :
    (reason : String) (e : Entry)
    → IsSound e
    → is_some e.socket ≡ true
    → IsSound (closed_entry reason e)
unfolding closed_entry
closed_entry-IsSound reason e sound h = ground arith

closed_entry-socket : (reason : String) (e : Entry) → (closed_entry reason e).socket ≡ none
unfolding closed_entry
closed_entry-socket reason e = ground arith

module _ (s : ℕ) (reason : String) (k : Socket) (b : Bridge) (all : AllSound b)
    (at_s : b.sockets s ≡ some k) where
  abbrev shut : Bridge
  shut = set_ready s k closed b

  unheld-AllSound :
      ((q : ℕ) (f : Entry) → b.heap q ≡ some f → holds f.socket s ≡ false) → AllSound shut
  unheld-AllSound free q f at =
      let (sound, attached) = all q f at in
      (sound, set_ready-Attached s q f k b attached (free q f at))

  -- Who holds the socket that closes loses it; nobody else is disturbed.
  held-AllSound :
      (x : Entry)
      → b.heap k.owner ≡ some x
      → holds x.socket s ≡ true
      → AllSound (store k.owner (closed_entry reason x) shut)
  held-AllSound x at_owner h q f at = elim (Bool-cases (k.owner == q)) [
    | inl same ↦
        let this : k.owner ≡ q = ground arith in
        let here : closed_entry reason x ≡ f = ground arith in
        let sound = (all k.owner x at_owner).0 in
        rw (← this, ← here)
          (
            closed_entry-IsSound reason x sound (holds-is_some x.socket s h),
            rw (closed_entry-socket reason x) tt,
          )
    | inr other ↦
        let old : b.heap q ≡ some f = ground arith in
        let (sound, attached) = all q f old in
        (
          sound,
          set_ready-Attached s q f k b attached
              (ground (arith, holds-owner s q f k b at_s attached)),
        )
  ]

  shut_at : shut.sockets s ≡ some (record k { ready = closed })
  shut_at = ground arith

  guarded-shut : AllSound (guarded s (on_socket_closed reason) shut)
  unfolding guarded on_socket_closed
  guarded-shut = elim (Option-cases (b.heap k.owner)) [
    | inl gone ↦
        rw (shut_at, guarded)
          (rw gone
            (unheld-AllSound λ q f at. ground (arith, holds-owner s q f k b at_s (all q f at).1)))
    | inr (x, at_owner) ↦ elim (Bool-cases (holds x.socket s)) [
      | inl h ↦ rw (shut_at, guarded) (rw at_owner (rw h (held-AllSound x at_owner h)))
      | inr h ↦
          rw (shut_at, guarded)
            (rw at_owner (
              rw h (
                unheld-AllSound
                  λ q f at. ground (arith, holds-owner s q f k b at_s (all q f at).1))))
    ]
  ]

closes-AllSound :
    (s : ℕ) (reason : String) (b : Bridge) → AllSound b → AllSound (step (closes s reason) b)
unfolding step
closes-AllSound s reason b all = elim (Option-cases (b.sockets s)) [
  | inl e ↦ rw (e, becomes) (rw (e, guarded) all)
  | inr (k, e) ↦ rw (e, becomes) (guarded-shut s reason k b all e)
]

fires-AllSound : (r : ℕ) (b : Bridge) → AllSound b → AllSound (step (fires r) b)
unfolding step timer_fires
fires-AllSound r b all = elim (Option-cases (b.heap r)) [
  | inl e ↦ rw (e, timer_fires) all
  | inr (x, e) ↦
      let spent : Entry = record x { reconnect_timer = none } in
      let (sound, attached) = all r x e in
      let sound' : IsSound spent = ground arith in
      rw (e, timer_fires)
        (if-AllSound (is_some x.reconnect_timer) _ b
          (elim (Bool-cases (x.should_reconnect && not (is_some x.socket))) [
            | inl idle ↦ rw idle (open_socket-AllSound r spent b all (ground arith) refl sound')
            | inr busy ↦ rw busy (store-AllSound r spent b all sound' attached)
          ])
          all)
]

shuts-AllSound :
    (s : ℕ) (ready : ReadyState) (b : Bridge) → AllSound b → AllSound (step (shuts s ready) b)
unfolding step becomes
shuts-AllSound s ready b all = elim (Bool-cases (is_over ready)) [
  | inr no' ↦ rw no' all
  | inl over ↦ elim (Option-cases (b.sockets s)) [
    | inl e ↦ rw over (rw (e, becomes) all)
    | inr (k, e) ↦
        rw over (rw (e, becomes) λ r f at. ((all r f at).0, ground (arith, (all r f at).1)))
  ]
]

pub step-AllSound : (e : Event) (b : Bridge) → AllSound b → AllSound (step e b)
unfolding step
step-AllSound (ensure w t) b all = (ensure_connected-Holds w t b all).0
step-AllSound (patch w t p) b all = apply_driver_station_patch-AllSound w t p b all
step-AllSound (joystick w t n s) b all = apply_joystick_state-AllSound w t n s b all
step-AllSound (release w t n) b all = release_joystick-AllSound w t n b all
step-AllSound (detach w) b all = disconnect-AllSound w b all
step-AllSound shut_down b all = close-AllSound b all
step-AllSound (opens s) b all = opens-AllSound s b all
step-AllSound (receives s frame now) b all = receives-AllSound s frame now b all
step-AllSound (closes s reason) b all = closes-AllSound s reason b all
step-AllSound (fails s) b all = fails-AllSound s b all
step-AllSound (fires r) b all = fires-AllSound r b all
step-AllSound (shuts s ready) b all = shuts-AllSound s ready b all

run_from-AllSound : (es : List Event) (b : Bridge) → AllSound b → AllSound (run es b)
unfolding run
run_from-AllSound [] b all = all
run_from-AllSound (e ∷ es) b all = run_from-AllSound es (step e b) (step-AllSound e b all)

pub run-AllSound : (es : List Event) → AllSound (run es empty_bridge)
run-AllSound es = run_from-AllSound es empty_bridge (λ r e h. cc)

-- From a bridge without entries, after any calls, socket events and timer events in any order,
-- every entry ever made is sound: it has a socket or a pending reconnect timer and never both, has
-- either only while the workspace wants the connection, reports a connection that agrees with its
-- flags, and keeps its backoff between 500 and 10000 ms, at 500 while connected; and its socket is
-- bound to it alone, and no longer connecting if the entry says that it is connected.
pub run-IsSound :
    (es : List Event) (r : ℕ) (e : Entry)
    → (run es empty_bridge).heap r ≡ some e
    → IsSound e × Attached (run es empty_bridge).sockets (run es empty_bridge).next_socket r e
run-IsSound es r e h = run-AllSound es r e h
