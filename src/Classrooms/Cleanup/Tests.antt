-- ===== src/Classrooms/Cleanup/Tests.antt =====
-- A classroom with a join that is still in flight when its coach ends it.
use code_runner.Prelude.{
  List, [], ◌∷◌, some, true, false, ◌≡◌, refl, is_some, get, put, delete, has, add, remove, length,
  replicate, suc,
}
use code_runner.Classrooms.Cleanup.{
  Room, new_room, settling, is_classroom_live, RoomEvent, passes, joins, creates, settles, ends,
  continues, sweeps, room_run,
}
use code_runner.Classrooms.Cleanup.Cleaned.{room_run-cleaned, cleanup_classroom-ends}

-- Join 1 creates guest 7 after the end, and join 2 comes too late.
abbrev events : List RoomEvent
events = joins 1 ∷ passes 5 ∷ ends 0 ∷ joins 2 ∷ continues 0 ∷ creates 1 7 ∷ settles 1 ∷ []

abbrev all_events : List RoomEvent
all_events =
    joins 1
    ∷ passes 5
    ∷ ends 0
    ∷ joins 2
    ∷ continues 0
    ∷ creates 1 7
    ∷ settles 1
    ∷ continues 0
    ∷ continues 0
    ∷ continues 0
    ∷ sweeps 3
    ∷ []

abbrev waiting : Room
waiting = room_run events (new_room 0 10)

marked : is_some (room_run all_events (new_room 0 10)).cleaned_at ≡ true
unfolding room_run get put delete has add remove
marked = refl

room_run-cleaned_example :
    (is_classroom_live (room_run all_events (new_room 0 10)) ≡ false)
    × ((room_run all_events (new_room 0 10)).in_flight_joins ≡ [])
    × ((room_run all_events (new_room 0 10)).guests ≡ [])
room_run-cleaned_example = room_run-cleaned 0 10 all_events marked

waits : get 0 waiting.cleanups ≡ some settling
unfolding room_run get put delete has add remove
waits = refl

none_in_flight : waiting.in_flight_joins ≡ []
unfolding room_run get put delete has add remove
none_in_flight = refl

one_guest : waiting.guests ≡ 7 ∷ []
unfolding room_run get put delete has add remove
one_guest = refl

cleanup_classroom-ends_example :
    is_some
      (room_run (replicate (suc (suc (length waiting.guests))) (continues 0)) waiting).cleaned_at
    ≡ true
cleanup_classroom-ends_example = cleanup_classroom-ends 0 waiting waits none_in_flight
