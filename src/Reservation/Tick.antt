-- ===== src/Reservation/Tick.antt =====
-- tick_reservations and recover_active_reservation of proxy/src/scheduler/reservation.rs. `now` is
-- the text of the current time in the format of the time columns.
use sovereign_engine.Prelude.{
  String, Bool, true, false, ◌&&◌, ◌||◌, Option, none, some, List, [], ◌∷◌, eqb, text_lt, text_le,
  is_some, if◌then◌else◌,
}
use sovereign_engine.Prelude.Table.{find_first, update, count}
use sovereign_engine.Reservation.{
  Reservation, World, Env, completed, cancelled, tick_complete, tick_lookup, tick_activate,
  tick_cancel, recover_lookup, is_pending, is_approved, is_active, set_status, notify,
  set_active_reservation, active_entry,
}
use sovereign_engine.Reservation.Admin.{mark_active}

-- status = 'active' AND end_time <= now
abbrev pub is_expired : String → Reservation → Bool
is_expired now r = is_active r.status && text_le r.end_time now

-- status = 'approved' AND start_time <= now
abbrev pub is_due : String → Reservation → Bool
is_due now r = is_approved r.status && text_le r.start_time now

-- status = 'pending' AND start_time <= now
abbrev pub is_stale : String → Reservation → Bool
is_stale now r = is_pending r.status && text_le r.start_time now

abbrev pub set_auto_cancelled : Env → Reservation → Reservation
set_auto_cancelled env r = record r {
  status = cancelled;
  admin_note = "Auto-cancelled: start time passed without approval";
  updated_at = env.stamp;
}

-- The earlier of a row and the best of the rows behind it; the first wins a tie.
abbrev pub earlier : Reservation → Option Reservation → Reservation
earlier r none = r
earlier r (some q) = if text_lt q.start_time r.start_time then q else r

-- ORDER BY r.start_time ASC LIMIT 1
unfoldable pub first_due : String → List Reservation → Option Reservation
first_due now [] = none
first_due now (r ∷ rows) =
    let rest = first_due now rows in if is_due now r then some (earlier r rest) else rest

-- Step 1, with the flag `changed`.
unfoldable pub complete_expired : Env → String → World → World × Bool
complete_expired env now w =
    if env.fails tick_complete || eqb (count (is_expired now) w.rows) 0 then (w, false) else (
      set_active_reservation none
          (record w { rows = update (is_expired now) (set_status completed env.stamp) w.rows }),
      true,
    )

-- Step 2.
unfoldable pub activate_due : Env → String → World → World × Bool
unfolding first_due
activate_due env now w =
    if is_some w.cache || env.fails tick_lookup then (w, false) else elim (first_due now w.rows) [
      | none ↦ (w, false)
      | some r ↦ (
        set_active_reservation (some (active_entry w.users r))
            (record w { rows = mark_active (env.fails tick_activate) env.stamp r.id w.rows }),
        true,
      )
    ]

-- Step 3.
unfoldable pub cancel_stale : Env → String → World → World × Bool
cancel_stale env now w =
    if env.fails tick_cancel || eqb (count (is_stale now) w.rows) 0
    then (w, false)
    else (record w { rows = update (is_stale now) (set_auto_cancelled env) w.rows }, true)

-- tick_reservations
unfoldable pub tick_reservations : Env → String → World → World
unfolding complete_expired activate_due cancel_stale
tick_reservations env now w =
    let (w1, c1) = complete_expired env now w in
    let (w2, c2) = activate_due env now w1 in
    let (w3, c3) = cancel_stale env now w2 in if c1 || (c2 || c3) then notify w3 else w3

-- recover_active_reservation, on a fresh scheduler.
unfoldable pub recover_active_reservation : Env → World → World
recover_active_reservation env w =
    if env.fails recover_lookup
    then w
    else elim (find_first (λ (r : Reservation). is_active r.status) w.rows) [
      | none ↦ w
      | some r ↦ set_active_reservation (some (active_entry w.users r)) w
    ]
