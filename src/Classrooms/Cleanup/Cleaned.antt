-- ===== src/Classrooms/Cleanup/Cleaned.antt =====
-- A classroom that has been cleaned stays empty, and a cleanup ends, in
-- apps/control/src/classroom-sweeper.ts.
use mathlib.Core.Path.{subst}
use code_runner.Prelude.{
  suc, replicate, length, ℕ, ◌+◌, List, [], ◌∷◌, Option, none, some, Bool, true, false, ◌||◌, ◌==◌,
  is_some, get, has, add, remove, has-remove, get-put, or_else, ◌≡◌, refl, sym, ap, ◌∙◌, inl, inr,
  Bool-cases, Option-cases, arith,
}
use code_runner.Classrooms.Cleanup.{
  Cleanup, settling, deleting, Room, new_room, is_classroom_live, needs_cleanup, end_classroom,
  mark_classroom_cleaned, track_classroom_join, create_guest, settle_join, put_cleanup,
  drop_cleanup, settled_or_waits, go_on, cleanup_classroom, end_route, sweep, RoomEvent, passes,
  joins, settles, ends, sweeps, continues, fails, creates, room_step, room_run,
}
use code_runner.Classrooms.Cleanup.Tidy.{
  if-true, if-false, IsUnderWay, IsTidy, Calmer, no_members, ==-same, IsTidy-step,
  IsTidy-quiet_step, calm_as_it_is, never, not_deleted,
}

passes-IsTidy : (time : ℕ) (r : Room) → IsTidy r → IsTidy (record r { now = r.now + time })
unfolding is_classroom_live
passes-IsTidy time r tidy =
    IsTidy-quiet_step r (record r { now = r.now + time })
      (record { live = λ h. ground arith; no_joins = λ h k. k; fewer = λ h k x there. there }) refl
      refl tidy

track_classroom_join-IsTidy :
    (join : ℕ) (r : Room) → IsTidy r → IsTidy (track_classroom_join join r)
unfolding track_classroom_join
track_classroom_join-IsTidy join r tidy = elim (Bool-cases (is_classroom_live r)) [
  | inl h ↦
      rw (h, track_classroom_join)
        (IsTidy-quiet_step r (record r { in_flight_joins = add join r.in_flight_joins })
          (record {
            live = λ dead. absurd (never h dead);
            no_joins = λ dead alone. absurd (never h dead);
            fewer = λ dead alone g there. there;
          })
          refl refl tidy)
  | inr h ↦ rw (h, track_classroom_join) tidy
]

create_guest-IsTidy : (join user : ℕ) (r : Room) → IsTidy r → IsTidy (create_guest join user r)
unfolding create_guest is_classroom_live has
create_guest-IsTidy join user r tidy = elim (Bool-cases (has join r.in_flight_joins)) [
  | inl h ↦
      rw (h, create_guest)
        (IsTidy-quiet_step r (record r { guests = add user r.guests })
          (record {
            live = λ dead. dead;
            no_joins = λ dead alone. alone;
            fewer = λ dead alone g there. absurd (never h (ap (has join) alone ∙ refl));
          })
          refl refl tidy)
  | inr h ↦ rw (h, create_guest) tidy
]

settle_join-IsTidy : (join : ℕ) (r : Room) → IsTidy r → IsTidy (settle_join join r)
unfolding settle_join is_classroom_live remove
settle_join-IsTidy join r tidy =
    IsTidy-quiet_step r (settle_join join r)
      (record {
        live = λ dead. dead;
        no_joins = λ dead alone. ap (remove join) alone;
        fewer = λ dead alone g there. there;
      })
      refl refl tidy

drop_cleanup-IsTidy : (k : ℕ) (r : Room) → IsTidy r → IsTidy (drop_cleanup k r)
unfolding is_classroom_live
drop_cleanup-IsTidy k r tidy =
    IsTidy-step r (drop_cleanup k r) (calm_as_it_is r (drop_cleanup k r) refl refl refl)
      (λ j c h. inl (not_deleted k j r.cleanups c h)) (λ h. inl h) tidy

over_now : (r : Room) → is_classroom_live (end_classroom r) ≡ false
unfolding end_classroom is_classroom_live
over_now r = elim (Option-cases r.ended_at) [ inl h ↦ rw h refl | inr (t, h) ↦ rw h refl ]

still-IsUnderWay :
    (k : ℕ) (d : Cleanup) (s : Room) (c : Cleanup)
    → IsUnderWay s c
    → IsUnderWay (put_cleanup k d s) c
unfolding is_classroom_live
still-IsUnderWay k d s settling h = h
still-IsUnderWay k d s (deleting users) h = h

-- One cleanup gets further, in a calmer room.
put_cleanup-IsTidy :
    (k : ℕ) (c : Cleanup) (r s : Room)
    → Calmer r s
    → s.cleanups ≡ r.cleanups
    → s.cleaned_at ≡ r.cleaned_at
    → IsUnderWay s c
    → IsTidy r
    → IsTidy (put_cleanup k c s)
unfolding is_classroom_live
put_cleanup-IsTidy k c r s calm e f here tidy =
    IsTidy-step r (put_cleanup k c s)
      (record { live = calm.live; no_joins = calm.no_joins; fewer = calm.fewer })
      (λ j d h. elim (Bool-cases (k == j)) [
        | inl t ↦ inr (
            subst (IsUnderWay (put_cleanup k c s))
              (ap (λ o. or_else o c) (sym (if-true _ t) ∙ sym (get-put k j c s.cleanups) ∙ h))
              (still-IsUnderWay k c s c here))
        | inr t ↦ inl (ap (get j) (sym e) ∙ sym (if-false _ t) ∙ sym (get-put k j c s.cleanups) ∙ h)
      ])
      (λ h. inl (ap is_some (sym f) ∙ h)) tidy

end_route-IsTidy : (k : ℕ) (r : Room) → IsTidy r → IsTidy (end_route k r)
unfolding end_route end_classroom is_classroom_live
end_route-IsTidy k r tidy =
    put_cleanup-IsTidy k settling r (end_classroom r)
      (record {
        live = λ dead. over_now r;
        no_joins = λ dead alone. alone;
        fewer = λ dead alone g there. there;
      })
      refl refl (over_now r) tidy

sweep-IsTidy : (k : ℕ) (r : Room) → IsTidy r → IsTidy (sweep k r)
unfolding sweep needs_cleanup is_classroom_live
sweep-IsTidy k r tidy = elim (Bool-cases (needs_cleanup r)) [
  | inl h ↦
      rw (h, sweep)
        (put_cleanup-IsTidy k settling r r (calm_as_it_is r r refl refl refl) refl refl
          (ground arith) tidy)
  | inr h ↦ rw (h, sweep) tidy
]

settled_or_waits-IsTidy :
    (k : ℕ) (waiting : List ℕ) (r : Room)
    → r.in_flight_joins ≡ waiting
    → is_classroom_live r ≡ false
    → IsTidy r
    → IsTidy (settled_or_waits k waiting r)
unfolding settled_or_waits
settled_or_waits-IsTidy k [] r e dead tidy =
    put_cleanup-IsTidy k (deleting r.guests) r r (calm_as_it_is r r refl refl refl) refl refl
      (dead, e, λ g there. there) tidy
settled_or_waits-IsTidy k (join ∷ others) r e dead tidy = tidy

removed_has :
    (u g : ℕ) (xs : List ℕ) → has g (remove u xs) ≡ true → ((u == g) ≡ false) × (has g xs ≡ true)
removed_has u g xs h = elim (Bool-cases (u == g)) [
  | inl e ↦ absurd (never h (has-remove u g xs ∙ if-true _ e))
  | inr e ↦ (e, sym (if-false _ e) ∙ sym (has-remove u g xs) ∙ h)
]

others_listed :
    (u g : ℕ) (xs rest : List ℕ)
    → (has g xs ≡ true → has g (u ∷ rest) ≡ true)
    → has g (remove u xs) ≡ true
    → has g rest ≡ true
unfolding has
others_listed u g xs rest listed h =
    let (apart, there) = removed_has u g xs h in
    sym (ap (λ b. b || has g rest) apart) ∙ listed there

go_on-IsTidy :
    (k : ℕ) (c : Cleanup) (r : Room) → get k r.cleanups ≡ some c → IsTidy r → IsTidy (go_on k c r)
unfolding go_on mark_classroom_cleaned is_classroom_live
go_on-IsTidy k settling r h tidy =
    settled_or_waits-IsTidy k r.in_flight_joins r refl (tidy.under_way k settling h) tidy
go_on-IsTidy k (deleting (user ∷ rest)) r h tidy =
    let (dead, alone, listed) = tidy.under_way k (deleting (user ∷ rest)) h in
    let s : Room = record r { guests = remove user r.guests } in
    put_cleanup-IsTidy k (deleting rest) r s
      (record {
        live = λ d. d;
        no_joins = λ d a. a;
        fewer = λ d a g there. (removed_has user g r.guests there).1;
      })
      refl refl (dead, alone, λ g there. others_listed user g r.guests rest (listed g) there) tidy
go_on-IsTidy k (deleting []) r h tidy =
    let (dead, alone, listed) = tidy.under_way k (deleting []) h in
    IsTidy-step r (drop_cleanup k (mark_classroom_cleaned r))
      (calm_as_it_is r (drop_cleanup k (mark_classroom_cleaned r)) refl refl refl)
      (λ j c g. inl (not_deleted k j r.cleanups c g))
      (λ marked. inr (dead, alone, no_members r.guests listed)) tidy

cleanup_classroom-IsTidy : (k : ℕ) (r : Room) → IsTidy r → IsTidy (cleanup_classroom k r)
unfolding cleanup_classroom
cleanup_classroom-IsTidy k r tidy = elim (Option-cases (get k r.cleanups)) [
  | inl h ↦ rw (h, cleanup_classroom) tidy
  | inr (c, h) ↦ rw (h, cleanup_classroom) (go_on-IsTidy k c r h tidy)
]

room_step-IsTidy : (e : RoomEvent) (r : Room) → IsTidy r → IsTidy (room_step e r)
unfolding room_step
room_step-IsTidy (passes time) r tidy = passes-IsTidy time r tidy
room_step-IsTidy (joins join) r tidy = track_classroom_join-IsTidy join r tidy
room_step-IsTidy (creates join user) r tidy = create_guest-IsTidy join user r tidy
room_step-IsTidy (settles join) r tidy = settle_join-IsTidy join r tidy
room_step-IsTidy (ends k) r tidy = end_route-IsTidy k r tidy
room_step-IsTidy (sweeps k) r tidy = sweep-IsTidy k r tidy
room_step-IsTidy (continues k) r tidy = cleanup_classroom-IsTidy k r tidy
room_step-IsTidy (fails k) r tidy = drop_cleanup-IsTidy k r tidy

room_run-IsTidy : (es : List RoomEvent) (r : Room) → IsTidy r → IsTidy (room_run es r)
unfolding room_run
room_run-IsTidy [] r tidy = tidy
room_run-IsTidy (e ∷ es) r tidy = room_run-IsTidy es (room_step e r) (room_step-IsTidy e r tidy)

new_room-IsTidy : (now minutes : ℕ) → IsTidy (new_room now minutes)
unfolding get
new_room-IsTidy now minutes = record { under_way = λ k c h. cc; cleaned = λ h. cc }

-- However joins, ends, sweeps and cleanups interleave, some of which fail: once a classroom is marked
-- as cleaned, it is not live, no join is in flight and it has no guest.
pub room_run-cleaned :
    (now minutes : ℕ) (es : List RoomEvent)
    → is_some (room_run es (new_room now minutes)).cleaned_at ≡ true
    → (is_classroom_live (room_run es (new_room now minutes)) ≡ false)
      × ((room_run es (new_room now minutes)).in_flight_joins ≡ [])
      × ((room_run es (new_room now minutes)).guests ≡ [])
room_run-cleaned now minutes es h =
    (room_run-IsTidy es (new_room now minutes) (new_room-IsTidy now minutes)).cleaned h

cleanup_classroom-go_on :
    (k : ℕ) (c : Cleanup) (r : Room)
    → get k r.cleanups ≡ some c
    → cleanup_classroom k r ≡ go_on k c r
unfolding cleanup_classroom
cleanup_classroom-go_on k c r h =
    ap (λ (o : Option Cleanup). elim o [ none ↦ r | some d ↦ go_on k d r ]) h

-- Whether some steps of a cleanup mark the classroom.
abbrev marks : ℕ → ℕ → Room → Bool
marks k steps r = is_some (room_run (replicate steps (continues k)) r).cleaned_at

marks-suc :
    (k steps : ℕ) (c : Cleanup) (r : Room)
    → get k r.cleanups ≡ some c
    → marks k (suc steps) r ≡ marks k steps (go_on k c r)
unfolding room_run room_step
marks-suc k steps c r h = ap (marks k steps) (cleanup_classroom-go_on k c r h)

deleting_ends :
    (k : ℕ) (users : List ℕ) (r : Room)
    → get k r.cleanups ≡ some (deleting users)
    → marks k (suc (length users)) r ≡ true
unfolding go_on mark_classroom_cleaned room_run
deleting_ends k [] r h = marks-suc k 0 (deleting []) r h
deleting_ends k (user ∷ rest) r h =
    marks-suc k (suc (length rest)) (deleting (user ∷ rest)) r h
    ∙ deleting_ends k rest
        (put_cleanup k (deleting rest) (record r { guests = remove user r.guests }))
        (get-put k k (deleting rest) r.cleanups ∙ if-true _ (==-same k))

-- A cleanup that waits, where no join is in flight, marks the classroom as cleaned after as many
-- steps of its own as there are guests, and two more, unless it fails.
pub cleanup_classroom-ends :
    (k : ℕ) (r : Room)
    → get k r.cleanups ≡ some settling
    → r.in_flight_joins ≡ []
    → is_some (room_run (replicate (suc (suc (length r.guests))) (continues k)) r).cleaned_at ≡ true
unfolding go_on settled_or_waits
cleanup_classroom-ends k r h alone =
    marks-suc k (suc (length r.guests)) settling r h
    ∙ ap (λ (waiting : List ℕ). marks k (suc (length r.guests)) (settled_or_waits k waiting r))
        alone
    ∙ deleting_ends k r.guests (put_cleanup k (deleting r.guests) r)
        (get-put k k (deleting r.guests) r.cleanups ∙ if-true _ (==-same k))
