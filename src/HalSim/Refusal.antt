-- ===== src/HalSim/Refusal.antt =====
-- What a call of apps/control/src/halsim.ts that is refused leaves: the guard before any frame.
use code_runner.Prelude.{
  ℕ, Option, none, some, ◌≡◌, ◌≢◌, refl, ap, ◌∙◌, inl, inr, arith, Bool-cases, Option-cases,
  is_some, String, Option, ◌==◌, ◌&&◌, not,
}
use mathlib.Core.Option.{map as map_option}
use text.Mathlib.Text.{◌==◌ as str_eq}
use code_runner.DriverStation.{DriverStationPatch}
use code_runner.HalSim.{
  Bridge, Entry, Target, done, upstream_url_for, store, find_entry, ensure_entry, add_entry,
  create_entry, disconnect, disconnect_entry, close_socket, detached, open_socket, opened,
}
use code_runner.HalSim.Calls.{attach, ensure_connected, apply_driver_station_patch}
use code_runner.HalSim.Invariant.{find_entry_lem}
use code_runner.HalSim.Patch.{as_wanted, patch_entry_refuses}

-- Nothing was sent, and no entry but one that is new has another driver station.
abbrev pub Untouched : Bridge → Bridge → Type 0
Untouched b c =
    (c.sent ≡ b.sent)
    × ((q : ℕ)
        → b.next_entry ≢ q
        → map_option (λ e. e.driver_station) (c.heap q)
          ≡ map_option (λ e. e.driver_station) (b.heap q))

Untouched-trans :
    (b c d : Bridge) → c.next_entry ≡ b.next_entry → Untouched b c → Untouched c d → Untouched b d
Untouched-trans b c d n (h, f) (k, g) = (k ∙ h, λ q other. g q (rw n other) ∙ f q other)

heap_kept :
    (r : ℕ) (e f : Entry) (b : Bridge) (q : ℕ)
    → b.heap r ≡ some f
    → e.driver_station ≡ f.driver_station
    → map_option (λ x. x.driver_station) ((store r e b).heap q)
      ≡ map_option (λ x. x.driver_station) (b.heap q)
heap_kept r e f b q at h = elim (Bool-cases (r == q)) [
  | inl same ↦ let this : r ≡ q = ground arith in rw (same) (rw (← this, at) (ap some h))
  | inr away ↦ rw away refl
]

stored-Untouched :
    (r : ℕ) (e f : Entry) (b : Bridge)
    → b.heap r ≡ some f
    → e.driver_station ≡ f.driver_station
    → Untouched b (store r e b)
stored-Untouched r e f b at h = (refl, λ q other. heap_kept r e f b q at h)

closed_away :
    (o : Option ℕ) (r : ℕ) (d e : Entry) (b : Bridge)
    → b.heap r ≡ some e
    → d.driver_station ≡ e.driver_station
    → Untouched b (close_socket o (store r d b))
      × ((close_socket o (store r d b)).next_entry ≡ b.next_entry)
unfolding close_socket
closed_away none r d e b at h = (stored-Untouched r d e b at h, refl)
closed_away (some s) r d e b at h = elim (Option-cases (b.sockets s)) [
  | inl gone ↦ rw (gone, close_socket) (stored-Untouched r d e b at h, refl)
  | inr (k, f) ↦ rw (f, close_socket) (stored-Untouched r d e b at h, refl)
]

disconnect-Untouched :
    (w : ℕ) (b : Bridge)
    → Untouched b (disconnect w b) × ((disconnect w b).next_entry ≡ b.next_entry)
unfolding disconnect disconnect_entry detached
disconnect-Untouched w b = elim (Option-cases (find_entry b w)) [
  | inl missing ↦ rw (missing, disconnect) ((refl, λ q other. refl), refl)
  | inr ((r, e), found) ↦
      rw (found, disconnect)
        (closed_away e.socket r (detached e) e b (find_entry_lem w b r e found) refl)
]

-- A bridge and an entry of it, reached from another with nothing sent.
abbrev Reached : Bridge → Bridge × ℕ × Entry → Type 0
Reached b (c, r, e) = Untouched b c × (c.heap r ≡ some e)

add_entry-Untouched : (w : ℕ) (u : String) (b : Bridge) → Untouched b (add_entry w u b)
unfolding add_entry
add_entry-Untouched w u b = (refl, λ q other. ground arith)

add_entry-there :
    (w : ℕ) (u : String) (b : Bridge)
    → (add_entry w u b).heap b.next_entry ≡ some (create_entry w u)
unfolding add_entry
add_entry-there w u b = ground arith

ensure_entry-Reached : (w : ℕ) (u : String) (b : Bridge) → Reached b (ensure_entry w u b)
unfolding ensure_entry
ensure_entry-Reached w u b = elim (Option-cases (find_entry b w)) [
  | inl missing ↦ rw (missing, ensure_entry) (add_entry-Untouched w u b, add_entry-there w u b)
  | inr ((r, e), found) ↦ elim (Bool-cases (str_eq e.upstream_url u)) [
    | inl same ↦
        rw (found, ensure_entry) (rw same ((refl, λ q other. refl), find_entry_lem w b r e found))
    | inr other ↦
        let (left, same_next) = disconnect-Untouched w b in
        rw (found, ensure_entry)
          (rw other (
            Untouched-trans b (disconnect w b) (add_entry w u (disconnect w b)) same_next left
                (add_entry-Untouched w u (disconnect w b)),
            add_entry-there w u (disconnect w b),
          ))
  ]
]

attach-Untouched :
    (b c : Bridge) (r : ℕ) (e : Entry)
    → Untouched b c
    → c.heap r ≡ some e
    → Untouched b (attach c r e).0
unfolding attach open_socket opened
attach-Untouched b c r e (h, f) at =
    let wanted = as_wanted e in
    elim (Bool-cases (not (is_some e.socket) && not (is_some e.reconnect_timer))) [
      | inl idle ↦
          rw (idle, attach)
            (h, λ q other. heap_kept r (opened c.next_socket wanted) e c q at refl ∙ f q other)
      | inr busy ↦ rw (busy, attach) (h, λ q other. heap_kept r wanted e c q at refl ∙ f q other)
    ]

-- A patch that is not accepted sends nothing, and no entry's driver station changes, but that an
-- entry may be made for the workspace, with a new place.
pub patch_refused :
    (w : ℕ) (t : Target) (p : DriverStationPatch) (b : Bridge)
    → (apply_driver_station_patch w t p b).1 ≢ done
    → Untouched b (apply_driver_station_patch w t p b).0
unfolding apply_driver_station_patch ensure_connected
patch_refused w t p b refused =
    let (c, r, e) = ensure_connected w t b in
    let (d, q, f) = ensure_entry w (upstream_url_for t) b in
    let (left, at) = ensure_entry-Reached w (upstream_url_for t) b in
    rw (patch_entry_refuses p c r e refused) (attach-Untouched b d q f left at)
