-- ===== src/Classrooms.antt =====
-- apps/control/src/classrooms.ts: the limiter of failed joins, and the guest slots of a classroom.
-- Client addresses and classrooms are numbers. The time is that of the caller, in milliseconds.
pub mod Limiter
pub mod Slots
pub mod Cleanup
pub mod Codes
mod Tests
use code_runner.Prelude.{
  ℕ, suc, ◌+◌, ◌-◌, List, [], ◌∷◌, ◌++◌, Option, none, some, Bool, true, false, ◌||◌, if◌then◌else◌,
  leb, ltb, or_else, length, get, put, delete,
}

abbrev pub classroom_guest_cap : ℕ
classroom_guest_cap = 60

pub record FailedAttemptLimiter : Type 0 where
  pub window_ms : ℕ
  pub per_ip_max : ℕ
  pub global_max : ℕ
  pub per_ip : List (ℕ × List ℕ)
  pub all : List ℕ

abbrev pub new_limiter : ℕ → ℕ → ℕ → FailedAttemptLimiter
new_limiter window_ms per_ip_max global_max = record {
  window_ms = window_ms;
  per_ip_max = per_ip_max;
  global_max = global_max;
  per_ip = [];
  all = [];
}

-- `attempts.filter((time) => time > now - windowMs)`
unfoldable pub recent : ℕ → ℕ → List ℕ → List ℕ
recent window_ms now [] = []
recent window_ms now (time ∷ times) =
    let rest = recent window_ms now times in
    if ltb now (time + window_ms) then time ∷ rest else rest

-- `this.perIp.set(ip, kept)` or `this.perIp.delete(ip)`
abbrev kept : ℕ → List ℕ → List (ℕ × List ℕ) → List (ℕ × List ℕ)
kept ip [] rest = delete ip rest
kept ip (time ∷ times) rest = (ip, time ∷ times) ∷ rest

-- The loop over the map, which visits each address once.
unfoldable pub prune_ips : ℕ → ℕ → List (ℕ × List ℕ) → List (ℕ × List ℕ)
unfolding recent
prune_ips window_ms now [] = []
prune_ips window_ms now ((ip, attempts) ∷ rest) =
    kept ip (recent window_ms now attempts) (prune_ips window_ms now rest)

unfoldable pub prune : ℕ → FailedAttemptLimiter → FailedAttemptLimiter
unfolding prune_ips recent
prune now l = record l {
  per_ip = prune_ips l.window_ms now l.per_ip;
  all = recent l.window_ms now l.all;
}

abbrev pub attempts_of : ℕ → FailedAttemptLimiter → List ℕ
attempts_of ip l = or_else (get ip l.per_ip) []

unfoldable pub is_blocked : ℕ → ℕ → FailedAttemptLimiter → FailedAttemptLimiter × Bool
unfolding prune
is_blocked ip now l =
    let pruned = prune now l in
    (
      pruned,
      leb pruned.per_ip_max (length (attempts_of ip pruned))
          || leb pruned.global_max (length pruned.all),
    )

unfoldable pub record_failure : ℕ → ℕ → FailedAttemptLimiter → FailedAttemptLimiter
unfolding prune
record_failure ip now l =
    let pruned = prune now l in
    record pruned {
      per_ip = put ip (attempts_of ip pruned ++ now ∷ []) pruned.per_ip;
      all = pruned.all ++ now ∷ [];
    }

-- The guests of one classroom that are in the table, and those that are being created.
pub record Guests : Type 0 where
  pub guests : ℕ
  pub pending_guests : Option ℕ

-- `reserveGuestSlot`: `false` when the classroom is full.
unfoldable pub reserve_guest_slot : Guests → Guests × Bool
reserve_guest_slot g =
    let pending = or_else g.pending_guests 0 in
    if leb classroom_guest_cap (g.guests + pending)
    then (g, false)
    else (record g { pending_guests = some (suc pending) }, true)

-- What `reserveGuestSlot` returns for the caller to call.
unfoldable pub release_guest_slot : Guests → Guests
release_guest_slot g =
    let left = or_else g.pending_guests 1 - 1 in
    record g { pending_guests = if ltb 0 left then some left else none }
