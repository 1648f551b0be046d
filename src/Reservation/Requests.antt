-- ===== src/Reservation/Requests.antt =====
-- The user's handlers of proxy/src/api/reservation.rs. `parse_iso_time` is chrono's parser: it
-- gives the seconds from chrono's first instant, in which a minute has 60 seconds and an hour 60
-- minutes. Each handler runs alone: the steps of two requests are not interleaved.
use sovereign_engine.Prelude.{
  ℕ, ◌-◌, ◌/◌, ◌%◌, String, Bool, false, not, ◌&&◌, ◌||◌, Option, none, some, List, ◌∷◌, ltb, leb,
  eqb, ◌==◌, is_some, unwrap_or, if◌then◌else◌,
}
use sovereign_engine.Prelude.Table.{find_first, select, update, count}
use sovereign_engine.Reservation.{
  Reservation, World, Env, Response, ActiveReservation, pending, cancelled, create_overlap,
  create_insert, list_query, cancel_update, bad_request, not_found, conflict, internal_error,
  created, status_is, is_cancellable, has_id, blocks, set_status, notify, max_description,
  validate_len, holds_slot, is_pending,
}

pub record CreateReservationRequest : Type 0 where
  pub start_time : String
  pub end_time : String
  pub reason : Option String

abbrev pub minute : ℕ → ℕ
minute t = t / 60 % 60

abbrev pub second : ℕ → ℕ
second t = t % 60

unfoldable pub is_30min_boundary : ℕ → Bool
is_30min_boundary t = (eqb (minute t) 0 || eqb (minute t) 30) && eqb (second t) 0

-- The row that the INSERT adds: the other columns take the defaults of the schema.
abbrev pub new_row : Env → String → String → CreateReservationRequest → Reservation
new_row env id user req = record {
  id = id;
  user_id = user;
  status = pending;
  start_time = req.start_time;
  end_time = req.end_time;
  reason = unwrap_or req.reason "";
  admin_note = "";
  approved_by = none;
  created_at = env.stamp;
  updated_at = env.stamp;
}

-- The overlap query, under `unwrap_or(None)`.
unfoldable pub create_overlaps : Env → CreateReservationRequest → World → Option Reservation
create_overlaps env req w =
    if env.fails create_overlap
    then none
    else find_first (blocks req.start_time req.end_time) w.rows

-- The INSERT fails on its own account, or on the primary key.
unfoldable pub insert_row : Env → Reservation → World → World × Response
insert_row env row w =
    if env.fails create_insert || is_some (find_first (has_id row.id) w.rows)
    then (w, internal_error "reservation:create")
    else (notify (record w { rows = row ∷ w.rows }), created row.id "pending")

-- The second half of `create`, after both times are parsed.
unfoldable pub create_checked :
    Env → ℕ → String → String → CreateReservationRequest → ℕ → ℕ → World → World × Response
unfolding is_30min_boundary create_overlaps insert_row
create_checked env now id user req start finish w =
    if not (is_30min_boundary start) || not (is_30min_boundary finish)
    then (w, bad_request "Times must be on 30-minute boundaries (minute 0 or 30, seconds 0)")
    else if leb finish start
    then (w, bad_request "end_time must be after start_time")
    else if ltb (finish - start) 1800
    then (w, bad_request "Minimum reservation duration is 30 minutes")
    else if leb start now
    then (w, bad_request "start_time must be in the future")
    else if is_some (create_overlaps env req w)
    then (w, conflict "Time slot overlaps with an existing approved or active reservation")
    else elim (validate_len "reason" (unwrap_or req.reason "") max_description) [
      | some r ↦ (w, r)
      | none ↦ insert_row env (new_row env id user req) w
    ]

-- POST /api/user/reservations
unfoldable pub create :
    (String → Option ℕ)
    → Env
    → ℕ
    → String
    → String
    → CreateReservationRequest
    → World
    → World × Response
create parse_iso_time env now id user req w = elim (parse_iso_time req.start_time) [
  | none ↦ (w, bad_request "Invalid start_time format (expected YYYY-MM-DDTHH:MM:SS)")
  | some start ↦ elim (parse_iso_time req.end_time) [
    | none ↦ (w, bad_request "Invalid end_time format (expected YYYY-MM-DDTHH:MM:SS)")
    | some finish ↦ create_checked env now id user req start finish w
  ]
]

-- The condition of the UPDATE of `cancel_own`.
abbrev pub cancels : String → String → Reservation → Bool
cancels id user r = r.id == id && (r.user_id == user && is_cancellable r.status)

-- POST /api/user/reservations/:id/cancel
unfoldable pub cancel_own : Env → String → String → World → World × Response
cancel_own env user id w =
    if env.fails cancel_update
    then (w, internal_error "reservation:cancel")
    else if eqb (count (cancels id user) w.rows) 0
    then (w, not_found "Reservation not found or not cancellable")
    else (
      notify (record w { rows = update (cancels id user) (set_status cancelled env.stamp) w.rows }),
      status_is "cancelled",
    )

-- GET /api/user/reservations, with the rows that it sends; their order is not modelled.
unfoldable pub list_own : Env → String → World → Option (List Reservation)
list_own env user w =
    if env.fails list_query
    then none
    else some (select (λ (r : Reservation). r.user_id == user) w.rows)

-- GET /api/user/reservations/active
unfoldable pub get_active : World → Option ActiveReservation
get_active w = w.cache

-- GET /api/user/reservations/calendar: the rows that it sends, in no order.
unfoldable pub calendar : Env → World → Option (List Reservation)
calendar env w =
    if env.fails list_query
    then none
    else some (select (λ (r : Reservation). holds_slot r.status || is_pending r.status) w.rows)

-- The check with which `user_start_container` and `user_stop_container` begin.
unfoldable pub holds_active_reservation : World → String → Bool
holds_active_reservation w user = elim w.cache [ none ↦ false | some a ↦ a.user_id == user ]
