-- ===== src/HalSim/Patch.antt =====
-- When a driver station patch of apps/control/src/halsim.ts goes through, and what it does then.
use code_runner.Prelude.{
  ℕ, List, [], ◌∷◌, ◌++◌, Option, none, some, true, false, ◌≡◌, ◌≢◌, refl, ap, ◌∙◌, inl, inr, arith,
  Bool-cases, map, is_some, Option,
}
use mathlib.Core.List.{append-nil, append_assoc}
use text.Mathlib.Text.{◌==◌ as str_eq}
use text.Mathlib.TextEquality.{eq_iff}
use code_runner.Json.{Fields}
use code_runner.DriverStation.{DriverStationPatch, apply_patch}
use code_runner.HalSim.{
  Bridge, Entry, Message, Target, Outcome, done, upstream_url_for, store, find_entry, ensure_entry,
}
use code_runner.HalSim.Calls.{
  attach, ensure_connected, send_ds, send_all, usable, can_send, patch_entry,
  apply_driver_station_patch,
}
use code_runner.HalSim.Events.{Event, run, empty_bridge}
use code_runner.HalSim.Invariant.{IsSound, AllSound, find_entry_lem}
use code_runner.HalSim.Invariant.Events.{run-AllSound}

abbrev pub ds_message : ℕ → Fields → ℕ × Message
ds_message s fs = (s, record { type = "DriverStation"; device = ""; payload = fs })

pub send_ds-usable :
    (e : Entry) (s : ℕ) (f : Fields) (b : Bridge)
    → e.socket ≡ some s
    → usable (some s) b ≡ true
    → send_ds e f b ≡ (record b { sent = b.sent ++ ds_message s f ∷ [] }, done)
unfolding send_ds
send_ds-usable e s f b h u = rw (h, send_ds) (rw u)

-- On a usable socket every frame goes out, in order, and nothing else changes.
pub send_all-usable :
    (e : Entry) (s : ℕ) (fs : List Fields) (b : Bridge)
    → e.socket ≡ some s
    → usable (some s) b ≡ true
    → send_all e fs b ≡ (record b { sent = b.sent ++ map (ds_message s) fs }, done)
unfolding send_all
send_all-usable e s [] b h u = rw append-nil
send_all-usable e s (f ∷ fs) b h u =
    let next : Bridge = record b { sent = b.sent ++ ds_message s f ∷ [] } in
    let went = send_ds-usable e s f b h u in
    rw (ap (λ x. x.1) went, send_all)
      (rw (ap (λ x. x.0) went) (
        send_all-usable e s fs next h u
        ∙ ap (λ l. (record b { sent = l }, done)) (append_assoc b.sent _ _)))

patch_entry_sends :
    (p : DriverStationPatch) (b : Bridge) (r : ℕ) (e : Entry) (s : ℕ)
    → e.socket ≡ some s
    → can_send e b ≡ true
    → let (next, frames) = apply_patch p e.driver_station in
      patch_entry p b r e ≡ (
        store r
            (record e { driver_station = next; stale = false; error = none })
            (record b { sent = b.sent ++ map (ds_message s) frames }),
        done,
      )
unfolding patch_entry
patch_entry_sends p b r e s h can =
    let went = send_all-usable e s (apply_patch p e.driver_station).1 b h (ground arith) in
    rw (can, ap (λ x. x.1) went, patch_entry) (rw (ap (λ x. x.0) went))

abbrev pub as_wanted : Entry → Entry
as_wanted e = record e { should_reconnect = true }

-- A connected entry with an open socket is one that can send.
pub can_send_of_connected :
    (r : ℕ) (e : Entry) (b : Bridge)
    → IsSound e
    → e.connected ≡ true
    → usable e.socket b ≡ true
    → can_send (as_wanted e) (store r (as_wanted e) b) ≡ true
can_send_of_connected r e b sound h open' = ground arith

usable-is_some : (o : Option ℕ) (b : Bridge) → usable o b ≡ true → (s : ℕ) × (o ≡ some s)
usable-is_some none b h = cc
usable-is_some (some s) b h = (s, refl)

pub patch_entry_refuses :
    (p : DriverStationPatch) (b : Bridge) (r : ℕ) (e : Entry)
    → (patch_entry p b r e).1 ≢ done
    → (patch_entry p b r e).0 ≡ b
patch_entry_refuses p b r e refused = elim (Bool-cases (can_send e b)) [
  | inr cannot ↦ unfold patch_entry in rw cannot
  | inl can ↦
      let (s, h) = usable-is_some e.socket b (ground arith) in
      absurd (refused (ap (λ x. x.1) (patch_entry_sends p b r e s h can)))
]

-- On an entry that is there, connected, and at the right address, `ensureConnected` only notes
-- that it is wanted.
pub ensure_connected_there :
    (w : ℕ) (t : Target) (b : Bridge) (r : ℕ) (e : Entry)
    → find_entry b w ≡ some (r, e)
    → str_eq e.upstream_url (upstream_url_for t) ≡ true
    → is_some e.socket ≡ true
    → let wanted : Entry = record e { should_reconnect = true } in
      ensure_connected w t b ≡ (store r wanted b, r, wanted)
unfolding ensure_connected attach ensure_entry
ensure_connected_there w t b r e found same held = rw (found, ensure_entry) (rw (same, held))

abbrev pub patched : DriverStationPatch → Entry → Entry
patched p e = record e {
  driver_station = (apply_patch p e.driver_station).0;
  stale = false;
  error = none;
  should_reconnect = true;
}

patch_connected :
    (w : ℕ) (t : Target) (p : DriverStationPatch) (b : Bridge) (r s : ℕ) (e : Entry)
    → find_entry b w ≡ some (r, e)
    → str_eq e.upstream_url (upstream_url_for t) ≡ true
    → e.socket ≡ some s
    → can_send (as_wanted e) (store r (as_wanted e) b) ≡ true
    → apply_driver_station_patch w t p b ≡ (
      store r (patched p e) (record (store r (as_wanted e) b) {
        sent = b.sent ++ map (ds_message s) (apply_patch p e.driver_station).1;
      }),
      done,
    )
unfolding apply_driver_station_patch
patch_connected w t p b r s e found at sock can =
    ap (λ x. patch_entry p x.0 x.1 x.2) (ensure_connected_there w t b r e found at (rw sock))
    ∙ patch_entry_sends p (store r (as_wanted e) b) r (as_wanted e) s sock can

-- What a patch does to the bridge that accepts it.
abbrev pub Accepted : DriverStationPatch → ℕ → ℕ → Entry → Bridge → Bridge × Outcome → Type 0
Accepted p r s e b (c, outcome) =
    (outcome ≡ done)
    × (c.sent ≡ b.sent ++ map (ds_message s) (apply_patch p e.driver_station).1)
    × (c.heap r ≡ some (patched p e))
    × ((q : ℕ) → r ≢ q → c.heap q ≡ b.heap q)

-- The workspace's entry is at the address, and connected by socket `s`, which is open.
pub record IsLinked (b : Bridge) (w : ℕ) (t : Target) (r s : ℕ) (e : Entry) : Type 0 where
  pub found : find_entry b w ≡ some (r, e)
  pub address : e.upstream_url ≡ upstream_url_for t
  pub connected : e.connected ≡ true
  pub socket : e.socket ≡ some s
  pub open_now : usable (some s) b ≡ true

pub patch_linked :
    (w : ℕ) (t : Target) (p : DriverStationPatch) (r s : ℕ) (e : Entry) (b : Bridge)
    → AllSound b
    → IsLinked b w t r s e
    → Accepted p r s e b (apply_driver_station_patch w t p b)
patch_linked w t p r s e b all l =
    let sound = (all r e (find_entry_lem w b r e l.found)).0 in
    rw
      (patch_connected w t p b r s e l.found ((eq_iff _ _).1 l.address) l.socket
        (can_send_of_connected r e b sound l.connected (rw l.socket l.open_now)))
      (refl, refl, ground arith, λ q other. ground arith)

-- When a workspace's entry reports `connected` and its socket is open, after whatever calls and
-- events, a patch for the same address is accepted: the patch's frames go out on the entry's socket in order, the entry
-- takes the patched driver station, and no other entry changes.
pub patch-Accepted :
    (es : List Event) (w : ℕ) (t : Target) (p : DriverStationPatch) (r s : ℕ) (e : Entry)
    → IsLinked (run es empty_bridge) w t r s e
    → Accepted p r s e
        (run es empty_bridge)
        (apply_driver_station_patch w t p (run es empty_bridge))
patch-Accepted es w t p r s e l = patch_linked w t p r s e _ (run-AllSound es) l
