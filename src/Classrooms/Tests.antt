-- ===== src/Classrooms/Tests.antt =====
-- The limiter and the guest slots on concrete calls.
use code_runner.Prelude.{
  ◌+◌, ◌≤◌, List, [], ◌∷◌, true, false, ◌||◌, ◌≡◌, refl, arith, leb, or_else, put, get, delete,
}
use code_runner.Classrooms.{
  is_blocked, new_limiter, recent, prune, prune_ips, record_failure, classroom_guest_cap,
}
use code_runner.Classrooms.Limiter.{
  Call, fails, asks, after, failures_of, failures, count_within, is_blocked_iff,
}
use code_runner.Classrooms.Slots.{
  JoinEvent, asks as wants, creates, returns_created, returns_failed, joins, join_step, no_joins,
  joins_within_cap,
}

-- Two failures of address 1, with a question of address 2 between them.
abbrev guesses : List Call
guesses = fails 1 100 ∷ asks 2 150 ∷ fails 1 200 ∷ []

blocked_now : (is_blocked 1 900 (after guesses (new_limiter 1000 2 100))).1 ≡ true
unfolding is_blocked after record_failure prune prune_ips recent get put delete
blocked_now = refl

free_later : (is_blocked 1 1150 (after guesses (new_limiter 1000 2 100))).1 ≡ false
unfolding is_blocked after record_failure prune prune_ips recent get put delete
free_later = refl

is_blocked_iff_example : (is_blocked 1 1150 (after guesses (new_limiter 1000 2 100))).1 ≡ (
    leb 2 (count_within 1000 1150 (failures_of 1 guesses))
    || leb 100 (count_within 1000 1150 (failures guesses)))
is_blocked_iff_example =
    is_blocked_iff 1000 2 100 guesses 1 1150
      (ground arith, (ground arith, (ground arith, ground arith)))

abbrev two_students : List JoinEvent
two_students = wants ∷ wants ∷ creates ∷ returns_created ∷ returns_failed ∷ []

one_guest : (joins two_students no_joins).room.guests ≡ 1
unfolding joins join_step
one_guest = refl

joins_within_cap_example :
    ((joins two_students no_joins).room.guests + (joins two_students no_joins).waiting
      ≤ classroom_guest_cap)
    × (or_else (joins two_students no_joins).room.pending_guests 0
        ≡ (joins two_students no_joins).waiting + (joins two_students no_joins).created)
joins_within_cap_example = joins_within_cap two_students
