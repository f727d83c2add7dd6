-- ===== src/Classrooms/Slots.antt =====
-- The guest cap of apps/control/src/classrooms.ts under joins that overlap.
use code_runner.Prelude.{
  ℕ, suc, ◌+◌, ◌-◌, ◌≤◌, List, [], ◌∷◌, none, ◌≡◌, refl, arith, if◌then◌else◌, ltb, or_else,
}
use code_runner.Classrooms.{Guests, classroom_guest_cap, reserve_guest_slot, release_guest_slot}

-- What a join does, in any order among the joins of one classroom: it asks for a slot; it creates
-- its guest; it gives the slot back, with the guest created or not. Guests are deleted, too.
pub data JoinEvent : Type 0 where
  asks creates returns_created returns_failed leaves : JoinEvent

-- The classroom, with the number of joins that hold a slot and have not created their guest, and of
-- those that hold one and have.
pub record Joins : Type 0 where
  pub room : Guests
  pub waiting : ℕ
  pub created : ℕ

unfoldable pub join_step : JoinEvent → Joins → Joins
unfolding reserve_guest_slot release_guest_slot
join_step asks j =
    let (room, granted) = reserve_guest_slot j.room in
    if granted then record j { room = room; waiting = suc j.waiting } else record j { room = room }
join_step creates j =
    if ltb 0 j.waiting
    then record j {
      room = record (j.room) { guests = suc j.room.guests };
      waiting = j.waiting - 1;
      created = suc j.created;
    }
    else j
join_step returns_created j =
    if ltb 0 j.created
    then record j { room = release_guest_slot j.room; created = j.created - 1 }
    else j
join_step returns_failed j =
    if ltb 0 j.waiting
    then record j { room = release_guest_slot j.room; waiting = j.waiting - 1 }
    else j
join_step leaves j = record j { room = record (j.room) { guests = j.room.guests - 1 } }

unfoldable pub joins : List JoinEvent → Joins → Joins
joins [] j = j
joins (e ∷ es) j = joins es (join_step e j)

abbrev pub no_joins : Joins
no_joins = record { room = record { guests = 0; pending_guests = none }; waiting = 0; created = 0 }

-- The pending count is that of the slots held, and a slot that is held for a guest to come is free.
record HasRoom (j : Joins) : Type 0 where
  counted : or_else j.room.pending_guests 0 ≡ j.waiting + j.created
  fits : j.room.guests + j.waiting ≤ classroom_guest_cap

join_step-HasRoom : (e : JoinEvent) (j : Joins) → HasRoom j → HasRoom (join_step e j)
unfolding join_step reserve_guest_slot release_guest_slot
join_step-HasRoom asks j h = ground (arith, h)
join_step-HasRoom creates j h = ground (arith, h)
join_step-HasRoom returns_created j h = ground (arith, h)
join_step-HasRoom returns_failed j h = ground (arith, h)
join_step-HasRoom leaves j h = ground (arith, h)

joins-HasRoom : (es : List JoinEvent) (j : Joins) → HasRoom j → HasRoom (joins es j)
unfolding joins
joins-HasRoom [] j h = h
joins-HasRoom (e ∷ es) j h = joins-HasRoom es (join_step e j) (join_step-HasRoom e j h)

-- However the joins of a classroom overlap, it never has more than 60 guests, counted with the
-- guests that joins with a slot are still to create; and the pending count is the number of slots
-- held.
pub joins_within_cap :
    (es : List JoinEvent)
    → ((joins es no_joins).room.guests + (joins es no_joins).waiting ≤ classroom_guest_cap)
      × (or_else (joins es no_joins).room.pending_guests 0
          ≡ (joins es no_joins).waiting + (joins es no_joins).created)
joins_within_cap es =
    let h = joins-HasRoom es no_joins (record { counted = refl; fits = ground arith }) in
    (h.fits, h.counted)
