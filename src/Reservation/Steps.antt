-- ===== src/Reservation/Steps.antt =====
-- The operations of the reservation subsystem as the steps of one machine: the handlers of
-- proxy/src/api/reservation.rs, the tick, and a restart of the proxy, in any order. Each step
-- brings its own failing statements and time stamp.
use sovereign_engine.Prelude.{ℕ, String, Option, none, List, [], ◌∷◌}
use sovereign_engine.Reservation.{World, Env, set_active_reservation}
use sovereign_engine.Reservation.Requests.{CreateReservationRequest, create, cancel_own}
use sovereign_engine.Reservation.Admin.{
  approve, reject, force_activate, force_deactivate, admin_delete,
}
use sovereign_engine.Reservation.Tick.{tick_reservations, recover_active_reservation}

pub data Call : Type 0 where
  creates : ℕ → String → String → CreateReservationRequest → Call
  cancels_own : String → String → Call
  approves : String → String → Option String → Call
  rejects_one : String → Option String → Call
  activates deactivates deletes ticks : String → Call
  restarts : Call

unfoldable pub step : (String → Option ℕ) → Env → Call → World → World
step parse env (creates now id user req) w = (create parse env now id user req w).0
step parse env (cancels_own user id) w = (cancel_own env user id w).0
step parse env (approves admin id note) w = (approve env admin id note w).0
step parse env (rejects_one id note) w = (reject env id note w).0
step parse env (activates id) w = (force_activate env id w).0
step parse env (deactivates id) w = (force_deactivate env id w).0
step parse env (deletes id) w = (admin_delete env id w).0
step parse env (ticks now) w = tick_reservations env now w
step parse env restarts w = recover_active_reservation env (set_active_reservation none w)

unfoldable pub run : (String → Option ℕ) → List (Env × Call) → World → World
run parse [] w = w
run parse ((env, c) ∷ cs) w = run parse cs (step parse env c w)
