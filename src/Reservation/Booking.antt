-- ===== src/Reservation/Booking.antt =====
-- What `create` of proxy/src/api/reservation.rs accepts.
use Prim.Native.String.{len}
use sovereign_engine.Prelude.{
  ℕ, ◌+◌, ◌%◌, ◌≤◌, ◌<◌, ◌≡◌, ◌≢◌, refl, ◌⊎◌, inl, inr, String, true, false, ne_of_test, Option,
  none, some, ◌∷◌, arith, unwrap_or, Bool-cases, Option-cases, All, All-map, text_lt, List,
}
use sovereign_engine.Prelude.Table.{find_first, find_first-none-All}
use sovereign_engine.Reservation.{
  Reservation, approved, active, holds_slot, World, Env, create_overlap, create_insert, created,
  bad_request, has_id, blocks, notify, max_description,
}
use sovereign_engine.Reservation.Requests.{
  CreateReservationRequest, create, create_checked, new_row, is_30min_boundary,
}

-- A boundary is a whole number of half hours.
boundary_multiple : (t : ℕ) → is_30min_boundary t ≡ true → t % 1800 ≡ 0
unfolding is_30min_boundary
boundary_multiple t h = ground arith

-- The row is not approved and not active, or it starts at the end of these times or later, or ends at
-- their start or earlier; times compare as texts.
abbrev pub IsClear : String → String → Reservation → Type 0
IsClear start finish r =
    ((r.status ≢ approved) × (r.status ≢ active))
    ⊎ ((text_lt r.start_time finish ≡ false) ⊎ (text_lt start r.end_time ≡ false))

unblocked :
    (start finish : String) (r : Reservation)
    → blocks start finish r ≡ false
    → IsClear start finish r
unblocked start finish r h = elim (Bool-cases (holds_slot r.status)) [
  | inr e ↦ inl (λ k. absurd (ground arith), λ k. absurd (ground arith))
  | inl e ↦ elim (Bool-cases (text_lt r.start_time finish)) [
    | inr f ↦ inr (inl f)
    | inl f ↦ inr (inr (ground arith))
  ]
]

All-IsClear :
    (start finish : String) (rows : List Reservation)
    → find_first (blocks start finish) rows ≡ none
    → All (IsClear start finish) rows
All-IsClear start finish rows h =
    All-map (λ r. blocks start finish r ≡ false) (IsClear start finish) (unblocked start finish)
      rows (find_first-none-All (blocks start finish) rows h)

-- What is known of a request that was accepted, with its parsed times.
pub record Accepted (env : Env) (now : ℕ) (id : String) (req : CreateReservationRequest) (w : World)
    (start finish : ℕ) : Type 0 where
  pub start_boundary : start % 1800 ≡ 0
  pub finish_boundary : finish % 1800 ≡ 0
  pub in_future : now < start
  pub long_enough : start + 1800 ≤ finish
  pub reason_fits : len (unwrap_or req.reason "") ≤ max_description
  pub no_overlap :
      env.fails create_overlap ≡ true ⊎ All (IsClear req.start_time req.end_time) w.rows
  pub fresh : find_first (has_id id) w.rows ≡ none

create_checked-created :
    (env : Env) (now : ℕ) (id user : String) (req : CreateReservationRequest) (start finish : ℕ)
    (w : World) (i s : String)
    → (create_checked env now id user req start finish w).1 ≡ created i s
    → Accepted env now id req w start finish
unfolding create_checked
create_checked-created env now id user req start finish w i s h = record {
  start_boundary = boundary_multiple start (ground arith);
  finish_boundary = boundary_multiple finish (ground arith);
  in_future = ground arith;
  long_enough = ground arith;
  reason_fits = ground arith;
  no_overlap = elim (Bool-cases (env.fails create_overlap)) [
    | inl e ↦ inl e
    | inr e ↦ inr (All-IsClear req.start_time req.end_time w.rows (ground arith))
  ];
  fresh = ground arith;
}

create_checked-world :
    (env : Env) (now : ℕ) (id user : String) (req : CreateReservationRequest) (start finish : ℕ)
    (w : World) (i s : String)
    → (create_checked env now id user req start finish w).1 ≡ created i s
    → (create_checked env now id user req start finish w).0
      ≡ notify (record w { rows = new_row env id user req ∷ w.rows })
unfolding create_checked
create_checked-world env now id user req start finish w i s h = ground arith

-- A request that is answered by 201 has times that parse to half-hour boundaries, the start after
-- `now` and the end at least half an hour later, a reason within the limit, an id that is new, and
-- no overlap with an approved or active row, where times compare as texts, unless that query failed; and what changes is that one
-- pending row is added and subscribers are notified.
pub create-created :
    (parse : String → Option ℕ) (env : Env) (now : ℕ) (id user : String)
    (req : CreateReservationRequest) (w : World) (i s : String)
    → (create parse env now id user req w).1 ≡ created i s
    → (start : ℕ) × (finish : ℕ) × (parse req.start_time ≡ some start)
      × (parse req.end_time ≡ some finish)
      × Accepted env now id req w start finish
      × ((create parse env now id user req w).0
          ≡ notify (record w { rows = new_row env id user req ∷ w.rows }))
unfolding create
create-created parse env now id user req w i s h = elim (Option-cases (parse req.start_time)) [
  | inl e ↦ ground arith
  | inr (start, e) ↦ elim (Option-cases (parse req.end_time)) [
    | inl e2 ↦ ground arith
    | inr (finish, e2) ↦ (
      start,
      finish,
      e,
      e2,
      ground (arith, create_checked-created env now id user req start finish w i s),
      ground (arith, create_checked-world env now id user req start finish w i s),
    )
  ]
]

-- And each request that meets these conditions is accepted, if the database takes the row.
pub create_accepts :
    (parse : String → Option ℕ) (env : Env) (now : ℕ) (id user : String)
    (req : CreateReservationRequest) (w : World) (start finish : ℕ)
    → parse req.start_time ≡ some start
    → parse req.end_time ≡ some finish
    → is_30min_boundary start ≡ true
    → is_30min_boundary finish ≡ true
    → now < start
    → start < finish
    → len (unwrap_or req.reason "") ≤ max_description
    → find_first (blocks req.start_time req.end_time) w.rows ≡ none
    → find_first (has_id id) w.rows ≡ none
    → env.fails create_insert ≡ false
    → create parse env now id user req w
      ≡ (notify (record w { rows = new_row env id user req ∷ w.rows }), created id "pending")
unfolding create create_checked
create_accepts parse env now id user req w start finish p q bs bf future longer fits free fresh ok =
    ground (arith, boundary_multiple start bs, boundary_multiple finish bf)

abbrev too_short : String
too_short = "Minimum reservation duration is 30 minutes"

create_checked-ne-too_short :
    (env : Env) (now : ℕ) (id user : String) (req : CreateReservationRequest) (start finish : ℕ)
    (w : World)
    → (create_checked env now id user req start finish w).1 ≢ bad_request too_short
unfolding create_checked
create_checked-ne-too_short env now id user req start finish w h = ground (
  arith,
  boundary_multiple start,
  boundary_multiple finish,
  ne_of_test "Times must be on 30-minute boundaries (minute 0 or 30, seconds 0)" too_short refl,
  ne_of_test "end_time must be after start_time" too_short refl,
  ne_of_test "start_time must be in the future" too_short refl,
)

-- No request is refused for being shorter than 30 minutes: the tests above that one exclude it.
pub create-ne-too_short :
    (parse : String → Option ℕ) (env : Env) (now : ℕ) (id user : String)
    (req : CreateReservationRequest) (w : World)
    → (create parse env now id user req w).1
      ≢ bad_request "Minimum reservation duration is 30 minutes"
unfolding create
create-ne-too_short parse env now id user req w h = elim (Option-cases (parse req.start_time)) [
  | inl e ↦
      ground (
        arith,
        ne_of_test "Invalid start_time format (expected YYYY-MM-DDTHH:MM:SS)" too_short refl,
      )
  | inr (start, e) ↦ elim (Option-cases (parse req.end_time)) [
    | inl e2 ↦
        ground (
          arith,
          ne_of_test "Invalid end_time format (expected YYYY-MM-DDTHH:MM:SS)" too_short refl,
        )
    | inr (finish, e2) ↦
        ground (arith, create_checked-ne-too_short env now id user req start finish w)
  ]
]
