-- ===== src/Reservation/Tests.antt =====
-- Runs of the reservation code at concrete inputs, and the theorems at inputs that meet their
-- hypotheses.
use sovereign_engine.Prelude.{
  ℕ, ◌≡◌, refl, String, true, false, Option, none, some, List, [], ◌∷◌, arith, ◌==◌, if◌then◌else◌,
  All, ◌⊎◌, is_some, Pairwise,
}
use sovereign_engine.Reservation.{
  Reservation, World, Env, Status, pending, approved, active, approve_overlap, activate_update,
  created, blocks, conflict, active_entry, notify,
}
use sovereign_engine.Reservation.Requests.{
  CreateReservationRequest, create, create_checked, new_row,
}
use sovereign_engine.Reservation.Admin.{approve, force_activate}
use sovereign_engine.Reservation.Tick.{tick_reservations}
use sovereign_engine.Reservation.Rows.{IsSound}
use sovereign_engine.Reservation.Overlap.{ReadsOverlap, clash_in, run-Pairwise_apart}
use sovereign_engine.Reservation.Coherence.{Inv, Reliable}
use sovereign_engine.Reservation.History.{run-Inv}
use sovereign_engine.Reservation.Booking.{Accepted, create-created, create_accepts}
use sovereign_engine.Reservation.Ticks.{NoneStarted, tick_settles, tick_activates_ended}
use sovereign_engine.Reservation.Steps.{
  Call, creates, approves, ticks, activates, restarts, run, step,
}

abbrev row : String → String → Status → String → String → Reservation
row id user status start finish = record {
  id = id;
  user_id = user;
  status = status;
  start_time = start;
  end_time = finish;
  reason = "";
  admin_note = "";
  approved_by = none;
  created_at = "";
  updated_at = "";
}

abbrev ten : String
ten = "2026-01-05T10:00:00"

abbrev eleven : String
eleven = "2026-01-05T11:00:00"

abbrev noon : String
noon = "2026-01-05T12:00:00"

abbrev one_pm : String
one_pm = "2026-01-05T13:00:00"

abbrev waiting : Reservation
waiting = row "p" "ann" pending ten noon

abbrev first_hour : Reservation
first_hour = row "a" "bob" approved ten eleven

abbrev second_hour : Reservation
second_hour = row "b" "ann" approved eleven noon

abbrev running : Reservation
running = row "r" "ann" active ten noon

abbrev world_of : List Reservation → World
world_of rows = record { rows = rows; users = []; cache = none; notices = 0 }

abbrev healthy : Env
healthy = record { fails = λ _. false; stamp = "now" }

-- Only the overlap query of `approve` fails.
abbrev blind : Env
blind = record { fails = elim [ approve_overlap ↦ true | _ ↦ false ]; stamp = "now" }

-- Only the UPDATE of `force_activate` fails.
abbrev mute : Env
mute = record { fails = elim [ activate_update ↦ true | _ ↦ false ]; stamp = "now" }

abbrev parse_sample : String → Option ℕ
parse_sample s =
    if s == ten
    then some 36000
    else if s == eleven
    then some 39600
    else if s == noon
    then some 43200
    else none

abbrev morning : CreateReservationRequest
morning = record { start_time = ten; end_time = noon; reason = none }

abbrev booked : World
booked = world_of (waiting ∷ second_hour ∷ [])

booked-Inv : Inv booked
booked-Inv = record { sound = (((refl, refl), tt), (tt, tt)); coherent = refl }

healthy-ReadsOverlap : ReadsOverlap healthy
healthy-ReadsOverlap = record { times = refl; overlap = refl }

healthy-Reliable : Reliable healthy
healthy-Reliable = record {
  reads = healthy-ReadsOverlap;
  activate = refl;
  tick_marks = refl;
  status_read = refl;
  recovers = refl;
}

mute-ReadsOverlap : ReadsOverlap mute
mute-ReadsOverlap = record { times = refl; overlap = refl }

abbrev day : List (Env × Call)
day =
    (
      healthy,
      creates 30000 "q" "cat" (record { start_time = ten; end_time = eleven; reason = none }),
    )
    ∷ (healthy, approves "root" "q" none)
    ∷ (healthy, ticks ten)
    ∷ (healthy, restarts)
    ∷ (healthy, ticks eleven)
    ∷ []

run-Inv_example : Inv (run parse_sample day booked)
run-Inv_example =
    run-Inv parse_sample day booked
      (
        healthy-Reliable,
        (healthy-Reliable, (healthy-Reliable, (healthy-Reliable, (healthy-Reliable, tt)))),
      )
      booked-Inv

abbrev rough_day : List (Env × Call)
rough_day = (mute, approves "root" "p" none) ∷ (mute, activates "b") ∷ (mute, ticks noon) ∷ []

abbrev seconds_of : String → ℕ
seconds_of s = if s == ten then 36000 else if s == eleven then 39600 else 43200

run-Pairwise_apart_example :
    Pairwise (λ r q. clash_in seconds_of r q ≡ false) (run parse_sample rough_day booked).rows
unfolding run step tick_reservations force_activate approve
run-Pairwise_apart_example =
    run-Pairwise_apart parse_sample rough_day booked seconds_of
      (mute-ReadsOverlap, (mute-ReadsOverlap, (mute-ReadsOverlap, tt))) booked-Inv.sound
      (((refl, refl), tt), (tt, tt))

-- The parser of times takes a month without its zero, which stands behind all padded months as a text.
unpadded_test :
    blocks "2026-09-05T10:00:00" "2026-09-05T11:00:00"
      (record first_hour { start_time = "2026-9-05T10:00:00"; end_time = "2026-9-05T11:00:00" })
    ≡ false
unpadded_test = refl

abbrev pub held_world : World
held_world = record {
  rows = running ∷ [];
  users = [];
  cache = some (active_entry [] running);
  notices = 0;
}

create-morning :
    (create parse_sample healthy 30000 "n" "ann" morning (world_of [])).1 ≡ created "n" "pending"
unfolding create create_checked
create-morning = refl

create-created_example :
    (start : ℕ) × (finish : ℕ) × (parse_sample ten ≡ some start)
    × (parse_sample noon ≡ some finish)
    × Accepted healthy 30000 "n" morning (world_of []) start finish
    × ((create parse_sample healthy 30000 "n" "ann" morning (world_of [])).0
        ≡ notify (world_of (new_row healthy "n" "ann" morning ∷ [])))
create-created_example =
    create-created parse_sample healthy 30000 "n" "ann" morning (world_of []) "n" "pending"
      create-morning

create_accepts_example :
    create parse_sample healthy 30000 "n" "ann" morning (world_of [])
    ≡ (notify (world_of (new_row healthy "n" "ann" morning ∷ [])), created "n" "pending")
unfolding create_checked
create_accepts_example =
    create_accepts parse_sample healthy 30000 "n" "ann" morning (world_of []) 36000 43200 refl refl
      refl refl (omega arith) (omega arith) (omega arith) refl refl refl

tick_settles_example :
    All (NoneStarted pending noon) (tick_reservations healthy noon booked).rows
    × ((is_some (tick_reservations healthy noon booked).cache ≡ true)
        ⊎ All (NoneStarted approved noon) (tick_reservations healthy noon booked).rows)
tick_settles_example = tick_settles healthy noon booked refl refl

tick_activates_ended_example :
    (tick_reservations healthy one_pm booked).cache ≡ some (active_entry [] second_hour)
unfolding tick_reservations
tick_activates_ended_example =
    tick_activates_ended healthy one_pm booked second_hour refl refl refl refl refl

-- Without its overlap query an approval makes two rows overlap.
approve-blind_overlaps : ¬ IsSound (approve blind "root" "p" none booked).0.rows
unfolding approve
approve-blind_overlaps s = cc (s.0.0.1)

-- With the query in place the approval is refused.
approve_conflict :
    (approve healthy "root" "p" none booked).1
    ≡ conflict "Approving would create an overlap with another approved/active reservation"
unfolding approve
approve_conflict = refl
