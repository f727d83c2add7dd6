-- ===== src/Classrooms/Cleanup.antt =====
-- The end of a classroom: `createClassroom`'s row, the liveness tests and the joins in flight of
-- apps/control/src/classrooms.ts, `cleanupClassroom` of apps/control/src/classroom-sweeper.ts, and
-- where apps/control/src/auth/classroom-plugin.ts and apps/control/src/app/classroom-routes.ts call
-- them. A step is what runs between two `await`s; the clock does not go back.
pub mod Tidy
pub mod Cleaned
mod Tests
use code_runner.Prelude.{
  ℕ, ◌+◌, ◌*◌, List, [], ◌∷◌, Option, none, some, Bool, true, false, ◌&&◌, ◌||◌, not, if◌then◌else◌,
  ltb, leb, is_some, get, put, delete, has, add, remove,
}

-- How far a `cleanupClassroom` has come: it waits for joins, or it has these guests left to delete.
pub data Cleanup : Type 0 where
  settling : Cleanup
  deleting : List ℕ → Cleanup

-- The row of one classroom, its guests, the joins in flight, the cleanups at work, and the time.
pub record Room : Type 0 where
  pub expires_at : ℕ
  pub ended_at : Option ℕ
  pub cleaned_at : Option ℕ
  pub guests : List ℕ
  pub in_flight_joins : List ℕ
  pub cleanups : List (ℕ × Cleanup)
  pub now : ℕ

abbrev pub new_room : ℕ → ℕ → Room
new_room now duration_minutes = record {
  expires_at = now + duration_minutes * 60000;
  ended_at = none;
  cleaned_at = none;
  guests = [];
  in_flight_joins = [];
  cleanups = [];
  now = now;
}

unfoldable pub is_classroom_live : Room → Bool
is_classroom_live r = not (is_some r.ended_at) && ltb r.now r.expires_at

-- Whether `listClassroomsNeedingCleanup` lists it.
unfoldable pub needs_cleanup : Room → Bool
needs_cleanup r = not (is_some r.cleaned_at) && (is_some r.ended_at || leb r.expires_at r.now)

abbrev ended : Option ℕ → ℕ → Option ℕ
ended none now = some now
ended (some t) now = some t

unfoldable pub end_classroom : Room → Room
end_classroom r = record r { ended_at = ended r.ended_at r.now }

unfoldable pub mark_classroom_cleaned : Room → Room
mark_classroom_cleaned r = record r { cleaned_at = some r.now }

-- The check of the code and `trackClassroomJoin`, in one tick.
unfoldable pub track_classroom_join : ℕ → Room → Room
unfolding is_classroom_live
track_classroom_join join r =
    if is_classroom_live r then record r { in_flight_joins = add join r.in_flight_joins } else r

-- `createUser` of a join that is in flight.
unfoldable pub create_guest : ℕ → ℕ → Room → Room
create_guest join user r =
    if has join r.in_flight_joins then record r { guests = add user r.guests } else r

-- A join's promise settles, one way or the other.
unfoldable pub settle_join : ℕ → Room → Room
settle_join join r = record r { in_flight_joins = remove join r.in_flight_joins }

abbrev pub put_cleanup : ℕ → Cleanup → Room → Room
put_cleanup k c r = record r { cleanups = put k c r.cleanups }

abbrev pub drop_cleanup : ℕ → Room → Room
drop_cleanup k r = record r { cleanups = delete k r.cleanups }

-- The loop of `classroomJoinsSettled`, and `listGuestIds` once it has ended.
unfoldable pub settled_or_waits : ℕ → List ℕ → Room → Room
settled_or_waits k [] r = put_cleanup k (deleting r.guests) r
settled_or_waits k (join ∷ joins) r = r

unfoldable pub go_on : ℕ → Cleanup → Room → Room
unfolding settled_or_waits mark_classroom_cleaned
go_on k settling r = settled_or_waits k r.in_flight_joins r
go_on k (deleting (user ∷ rest)) r =
    put_cleanup k (deleting rest) (record r { guests = remove user r.guests })
go_on k (deleting []) r = drop_cleanup k (mark_classroom_cleaned r)

unfoldable pub cleanup_classroom : ℕ → Room → Room
unfolding go_on
cleanup_classroom k r = elim (get k r.cleanups) [ none ↦ r | some c ↦ go_on k c r ]

-- The route that ends the classroom, and a sweep; both begin a cleanup, unless `k` is at work.
unfoldable pub end_route : ℕ → Room → Room
unfolding end_classroom
end_route k r = put_cleanup k settling (end_classroom r)

unfoldable pub sweep : ℕ → Room → Room
unfolding needs_cleanup
sweep k r = if needs_cleanup r then put_cleanup k settling r else r

pub data RoomEvent : Type 0 where
  passes joins settles ends sweeps continues fails : ℕ → RoomEvent
  creates : ℕ → ℕ → RoomEvent

unfoldable pub room_step : RoomEvent → Room → Room
unfolding track_classroom_join create_guest settle_join end_route sweep cleanup_classroom
room_step (passes time) r = record r { now = r.now + time }
room_step (joins join) r = track_classroom_join join r
room_step (creates join user) r = create_guest join user r
room_step (settles join) r = settle_join join r
room_step (ends k) r = end_route k r
room_step (sweeps k) r = sweep k r
room_step (continues k) r = cleanup_classroom k r
room_step (fails k) r = drop_cleanup k r

unfoldable pub room_run : List RoomEvent → Room → Room
unfolding room_step
room_run [] r = r
room_run (e ∷ es) r = room_run es (room_step e r)
