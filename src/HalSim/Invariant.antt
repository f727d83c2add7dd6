-- ===== src/HalSim/Invariant.antt =====
-- What holds of every entry of the bridge, whatever calls and events come in whatever order.
pub mod Calls
pub mod Events
use code_runner.Prelude.{
  ℕ, suc, ◌≤◌, ◌<◌, ◌*◌, min, String, List, [], ◌∷◌, Option, none, some, Bool, true, false, ◌≡◌,
  ◌≢◌, refl, ◌⊎◌, inl, inr, arith, Bool-cases, Option-cases, is_some, if◌then◌else◌, ◌==◌, get, put,
}
use code_runner.HalSim.{
  Bridge, Entry, Socket, BridgeConnection, connected, reconnecting, disconnected, ReadyState,
  connecting, open_, closing, closed, update, store, open_socket, opened, detached, close_socket,
  disconnect_entry, disconnect, disconnect_all, close, find_entry, add_entry, create_entry,
  ensure_entry, is_open, default_backoff_ms, max_backoff_ms,
}
use code_runner.HalSim.Calls.{is_connected}

-- One entry by itself: it has a socket or waits for a timer, never both; it has either only while
-- it is wanted; what it reports of its connection agrees; its backoff lies in its range, and at
-- its least while the entry is connected.
pub record IsSound (e : Entry) : Type 0 where
  pub one_link : is_some e.socket ≡ true → is_some e.reconnect_timer ≡ false
  pub held : is_some e.socket ≡ true → e.should_reconnect ≡ true
  pub wanted : is_some e.reconnect_timer ≡ true → e.should_reconnect ≡ true
  pub waiting : is_some e.reconnect_timer ≡ true → e.connection ≡ reconnecting
  pub flag : e.connected ≡ is_connected e.connection
  pub linked : e.connected ≡ true → is_some e.socket ≡ true
  pub fresh : e.connected ≡ true → e.stale ≡ false
  pub settled : e.connected ≡ true → e.reconnect_backoff_ms ≡ default_backoff_ms
  pub at_least : default_backoff_ms ≤ e.reconnect_backoff_ms
  pub at_most : e.reconnect_backoff_ms ≤ max_backoff_ms

abbrev pub was_opened : ReadyState → Bool
was_opened connecting = false
was_opened _ = true

abbrev Serves : ℕ → Entry → Option Socket → Type 0
Serves r e none = ⊥
Serves r e (some k) = (k.owner ≡ r) × (e.connected ≡ true → was_opened k.ready ≡ true)

-- The entry's socket is its own, and no longer connecting if the entry is connected.
abbrev AttachedTo : (ℕ → Option Socket) → ℕ → ℕ → Entry → Option ℕ → Type 0
AttachedTo sockets next r e none = Unit
AttachedTo sockets next r e (some s) = (s < next) × Serves r e (sockets s)

abbrev pub Attached : (ℕ → Option Socket) → ℕ → ℕ → Entry → Type 0
Attached sockets next r e = AttachedTo sockets next r e e.socket

abbrev pub AllSound : Bridge → Type 0
AllSound b =
    (r : ℕ) (e : Entry) → b.heap r ≡ some e → IsSound e × Attached b.sockets b.next_socket r e

pub store-AllSound :
    (r : ℕ) (e : Entry) (b : Bridge)
    → AllSound b
    → IsSound e
    → Attached b.sockets b.next_socket r e
    → AllSound (store r e b)
store-AllSound r e b all sound attached q f h = elim (Bool-cases (r == q)) [
  | inl same ↦
      let this : r ≡ q = ground arith in
      let here : e ≡ f = ground arith in rw (← this, ← here) (sound, attached)
  | inr other ↦ all q f (ground arith)
]

-- A new socket is nobody else's.
pub Attached-new :
    (k : Socket) (b : Bridge) (q : ℕ) (f : Entry)
    → Attached b.sockets b.next_socket q f
    → Attached (update b.sockets b.next_socket k) (suc b.next_socket) q f
Attached-new k b q f h = ground arith

pub open_socket-AllSound :
    (r : ℕ) (e : Entry) (b : Bridge)
    → AllSound b
    → e.should_reconnect ≡ true
    → is_some e.reconnect_timer ≡ false
    → IsSound e
    → AllSound (open_socket r e b)
unfolding open_socket opened
open_socket-AllSound r e b all wanted idle sound q f h = elim (Bool-cases (r == q)) [
  | inl same ↦
      let this : r ≡ q = ground arith in
      let here : opened b.next_socket e ≡ f = ground arith in
      rw (← this, ← here) (ground arith, ground arith)
  | inr other ↦
      let old = all q f (ground arith) in
      (old.0, Attached-new (record { ready = connecting; owner = r }) b q f old.1)
]

pub heap-open_socket :
    (r : ℕ) (e : Entry) (b : Bridge) → (open_socket r e b).heap r ≡ some (opened b.next_socket e)
unfolding open_socket
heap-open_socket r e b = ground arith

-- Closing a socket disturbs no entry but the one that it belongs to.
close_socket-AllSound :
    (o : Option ℕ) (r : ℕ) (e : Entry) (b : Bridge)
    → AllSound b
    → e.socket ≡ o
    → Attached b.sockets b.next_socket r e
    → IsSound e
    → AllSound (close_socket o (store r (detached e) b))
unfolding close_socket detached
close_socket-AllSound none r e b all h attached sound q f g =
    store-AllSound r (detached e) b all (ground arith) (ground arith) q f g
close_socket-AllSound (some s) r e b all h attached sound q f g = elim (Bool-cases (r == q)) [
  | inl same ↦
      let this : r ≡ q = ground arith in
      let here : detached e ≡ f = ground arith in rw (← this, ← here) (ground arith, ground arith)
  | inr other ↦ let old = all q f (ground arith) in (old.0, ground arith)
]

pub find_entry_lem :
    (w : ℕ) (b : Bridge) (r : ℕ) (e : Entry) → find_entry b w ≡ some (r, e) → b.heap r ≡ some e
unfolding find_entry
find_entry_lem w b r e h = ground arith

pub disconnect-AllSound : (w : ℕ) (b : Bridge) → AllSound b → AllSound (disconnect w b)
unfolding disconnect
disconnect-AllSound w b all = elim (Option-cases (find_entry b w)) [
  | inl missing ↦ rw (missing, disconnect) all
  | inr ((r, e), found) ↦
      let (sound, attached) = all r e (find_entry_lem w b r e found) in
      rw (found, disconnect) (close_socket-AllSound e.socket r e b all refl attached sound)
]
