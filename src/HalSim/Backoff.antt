-- ===== src/HalSim/Backoff.antt =====
-- The reconnect timer of apps/control/src/halsim.ts: exponential backoff.
use code_runner.Prelude.{
  ℕ, zero, suc, ◌+◌, ◌*◌, ◌^◌, min, String, List, [], ◌∷◌, none, some, true, ◌≡◌, refl, arith,
}
use code_runner.HalSim.{
  Bridge, Entry, default_backoff_ms, max_backoff_ms, open_socket, opened, store, connecting, closed,
}
use native.Mathlib.Nat.{pow-suc}
use code_runner.HalSim.Invariant.{Attached}
use code_runner.HalSim.Invariant.Events.{run-AllSound}
use code_runner.HalSim.Events.{
  Event, fires, closes, step, run, timer_fires, closed_entry, set_ready, empty_bridge,
}

-- `n` rounds in which the timer of entry `r` fires and the new socket, numbered from `next`,
-- closes again before it has opened.
abbrev pub failing : ℕ → ℕ → ℕ → String → List Event
failing zero r next reason = []
failing (suc n) r next reason = fires r ∷ closes next reason ∷ failing n r (suc next) reason

-- An entry that waits for its timer, with the backoff that comes after it.
pub record IsWaiting (b : Bridge) (r delay backoff : ℕ) : Type 0 where
  pub entry : Entry
  pub here : b.heap r ≡ some entry
  pub wanted : entry.should_reconnect ≡ true
  pub idle : entry.socket ≡ none
  pub timer : entry.reconnect_timer ≡ some delay
  pub backoff_ms : entry.reconnect_backoff_ms ≡ backoff

abbrev spent : Entry → Entry
spent e = record e { reconnect_timer = none }

fires_waiting :
    (b : Bridge) (r delay backoff : ℕ) (w : IsWaiting b r delay backoff)
    → step (fires r) b ≡ open_socket r (spent w.entry) b
unfolding step timer_fires
fires_waiting b r delay backoff w = rw (w.here, timer_fires) (rw (w.timer, w.wanted, w.idle))

abbrev given_up : String → ℕ → Entry → Bridge → Bridge
given_up reason r e b =
    store r (closed_entry reason (opened b.next_socket e)) (
      set_ready b.next_socket (record { ready = connecting; owner = r }) closed (open_socket r e b))

closes_unopened :
    (b : Bridge) (r : ℕ) (e : Entry) (reason : String)
    → step (closes b.next_socket reason) (open_socket r e b) ≡ given_up reason r e b
unfolding step open_socket opened
closes_unopened b r e reason = ground arith

-- What an entry that is wanted, with no timer pending, turns into when its socket closes.
closed-IsWaiting :
    (b : Bridge) (r backoff : ℕ) (e : Entry) (reason : String)
    → e.should_reconnect ≡ true
    → e.reconnect_timer ≡ none
    → e.reconnect_backoff_ms ≡ backoff
    → b.heap r ≡ some (closed_entry reason e)
    → IsWaiting b r backoff (min (backoff * 2) max_backoff_ms)
unfolding closed_entry
closed-IsWaiting b r backoff e reason wanted no_timer at here = record {
  entry = closed_entry reason e;
  here = here;
  wanted = ground arith;
  idle = ground arith;
  timer = ground arith;
  backoff_ms = ground arith;
}

one_round :
    (b : Bridge) (r delay backoff : ℕ) (reason : String)
    → IsWaiting b r delay backoff
    → let c = step (closes b.next_socket reason) (step (fires r) b) in
      IsWaiting c r backoff (min (backoff * 2) max_backoff_ms) × (c.next_socket ≡ suc b.next_socket)
unfolding open_socket opened
one_round b r delay backoff reason w =
    let e = opened b.next_socket (spent w.entry) in
    rw (fires_waiting b r delay backoff w) (
      rw (closes_unopened b r (spent w.entry) reason) (
        closed-IsWaiting (given_up reason r (spent w.entry) b) r backoff e reason w.wanted refl
            w.backoff_ms (ground arith),
        refl,
      ))

abbrev pub delay_after : ℕ → ℕ
delay_after n = min (default_backoff_ms * 2 ^ n) max_backoff_ms

delay_after-suc : (n : ℕ) → min (delay_after n * 2) max_backoff_ms ≡ delay_after (suc n)
delay_after-suc n = rw (pow-suc) (omega arith)

run-failing :
    (n k m r : ℕ) (b : Bridge) (reason : String)
    → m ≡ n + k
    → IsWaiting b r (delay_after k) (delay_after (suc k))
    → IsWaiting (run (failing n r b.next_socket reason) b) r (delay_after m) (delay_after (suc m))
unfolding run
run-failing zero k m r b reason e w = let same : m ≡ k = omega arith in rw same w
run-failing (suc n) k m r b reason e w =
    let c = step (closes b.next_socket reason) (step (fires r) b) in
    let (w', next) = one_round b r (delay_after k) (delay_after (suc k)) reason w in
    rw (← next)
      (run-failing n (suc k) m r c reason (omega arith) (rw (delay_after-suc (suc k)) at w'))

-- The first close of a socket that the entry holds.
closes_held :
    (b : Bridge) (r s : ℕ) (e : Entry) (reason : String)
    → b.heap r ≡ some e
    → e.socket ≡ some s
    → Attached b.sockets b.next_socket r e
    → let c = step (closes s reason) b in
      (c.heap r ≡ some (closed_entry reason e)) × (c.next_socket ≡ b.next_socket)
unfolding step
closes_held b r s e reason here sock attached = (ground arith, ground arith)

-- However the bridge came to it: when the socket of a connected entry closes, and then n attempts
-- to reconnect fail in a row, the timer that is pending waits for min(500 * 2^n, 10000) ms, and
-- the entry has no socket.
pub reconnect_delay :
    (es : List Event) (n r s : ℕ) (e : Entry) (reason : String)
    → (run es empty_bridge).heap r ≡ some e
    → e.connected ≡ true
    → e.socket ≡ some s
    → let b = run es empty_bridge in
      let c = run (closes s reason ∷ failing n r b.next_socket reason) b in
      (f : Entry) × (c.heap r ≡ some f)
      × (f.reconnect_timer ≡ some (min (500 * 2 ^ n) 10000))
      × (f.socket ≡ none)
unfolding run
reconnect_delay es n r s e reason here conn sock =
    let b = run es empty_bridge in
    let (sound, attached) = run-AllSound es r e here in
    let c = step (closes s reason) b in
    let (at, next) = closes_held b r s e reason here sock attached in
    let first =
      closed-IsWaiting c r 500 e reason (sound.held (rw sock)) (ground arith) (sound.settled conn)
        at in
    let w = run-failing n 0 n r c reason (omega arith) first in
    rw (← next) (w.entry, w.here, w.timer, w.idle)
