-- ===== src/Reservation/Admin.antt =====
-- The admin's handlers of proxy/src/api/reservation.rs. Each runs alone.
use Prim.Native.String.{◌++◌ as append_text}
use sovereign_engine.Prelude.{
  String, Bool, false, not, ◌&&◌, Option, none, some, List, eqb, ◌==◌, is_some, unwrap_or,
  if◌then◌else◌,
}
use sovereign_engine.Prelude.Table.{find_first, update, delete, count}
use sovereign_engine.Reservation.{
  Reservation, World, Env, Response, approved, rejected, active, completed, approve_status,
  approve_times, approve_overlap, approve_update, reject_update, activate_lookup, activate_update,
  deactivate_update, delete_status, delete_row, bad_request, not_found, conflict, internal_error,
  status_is, is_pending, is_approved, is_active, status_text, has_id, blocks, set_status, notify,
  set_active_reservation, active_entry, max_description, validate_len,
}

-- A query for one row, under `unwrap_or(None)`.
abbrev pub lookup_or_none : Bool → String → World → Option Reservation
lookup_or_none failed id w = if failed then none else find_first (has_id id) w.rows

-- The condition of the overlap query of `approve`.
abbrev pub blocks_other : String → String → String → Reservation → Bool
blocks_other id start finish r = not (r.id == id) && blocks start finish r

-- The overlap check of `approve`, which is skipped where the times cannot be read.
unfoldable pub approve_overlaps : Env → String → World → Bool
approve_overlaps env id w = elim (lookup_or_none (env.fails approve_times) id w) [
  | none ↦ false
  | some r ↦ is_some (
      if env.fails approve_overlap
      then none
      else find_first (blocks_other id r.start_time r.end_time) w.rows)
]

abbrev pub set_approved : Env → String → String → Reservation → Reservation
set_approved env admin note r = record r {
  status = approved;
  admin_note = note;
  approved_by = some admin;
  updated_at = env.stamp;
}

-- The part of `approve` behind the check of the status.
unfoldable pub approve_pending : Env → String → String → String → World → World × Response
approve_pending env admin id note w =
    if approve_overlaps env id w
    then (w, conflict "Approving would create an overlap with another approved/active reservation")
    else if env.fails approve_update
    then (w, internal_error "reservation:approve")
    else (
      notify (record w { rows = update (has_id id) (set_approved env admin note) w.rows }),
      status_is "approved",
    )

-- POST /api/admin/reservations/:id/approve
unfoldable pub approve : Env → String → String → Option String → World → World × Response
unfolding approve_pending approve_overlaps
approve env admin id note w = elim (validate_len "note" (unwrap_or note "") max_description) [
  | some r ↦ (w, r)
  | none ↦ elim (lookup_or_none (env.fails approve_status) id w) [
    | none ↦ (w, not_found "Reservation not found")
    | some r ↦
        if not (is_pending r.status)
        then (
          w,
          bad_request (
              append_text "Cannot approve reservation with status '"
                (append_text (status_text r.status) "'")),
        )
        else approve_pending env admin id (unwrap_or note "") w
  ]
]

abbrev pub rejects : String → Reservation → Bool
rejects id r = r.id == id && is_pending r.status

abbrev pub set_rejected : Env → String → Reservation → Reservation
set_rejected env note r = record r { status = rejected; admin_note = note; updated_at = env.stamp }

-- POST /api/admin/reservations/:id/reject
unfoldable pub reject : Env → String → Option String → World → World × Response
reject env id note w = elim (validate_len "note" (unwrap_or note "") max_description) [
  | some r ↦ (w, r)
  | none ↦
      if env.fails reject_update
      then (w, internal_error "reservation:reject")
      else if eqb (count (rejects id) w.rows) 0
      then (w, not_found "Reservation not found or not pending")
      else (
        notify
            (record w { rows = update (rejects id) (set_rejected env (unwrap_or note "")) w.rows }),
        status_is "rejected",
      )
]

-- WHERE r.id = ? AND r.status = 'approved'
abbrev pub is_approved_row : String → Reservation → Bool
is_approved_row id r = r.id == id && is_approved r.status

-- `let _ = UPDATE reservations SET status = 'active' … WHERE id = ?`: an error is dropped.
abbrev pub mark_active : Bool → String → String → List Reservation → List Reservation
mark_active failed stamp id rows =
    if failed then rows else update (has_id id) (set_status active stamp) rows

-- POST /api/admin/reservations/:id/activate
unfoldable pub force_activate : Env → String → World → World × Response
force_activate env id w =
    if is_some w.cache
    then (w, conflict "Another reservation is already active")
    else if env.fails activate_lookup
    then (w, internal_error "reservation:force_activate:lookup")
    else elim (find_first (is_approved_row id) w.rows) [
      | none ↦ (w, not_found "Reservation not found or not approved")
      | some r ↦ (
        notify (
            set_active_reservation (some (active_entry w.users r))
              (record w { rows = mark_active (env.fails activate_update) env.stamp r.id w.rows })),
        status_is "active",
      )
    ]

abbrev pub is_active_row : String → Reservation → Bool
is_active_row id r = r.id == id && is_active r.status

abbrev pub set_ended : Env → Reservation → Reservation
set_ended env r = record r {
  status = completed;
  admin_note = "Ended early by admin";
  updated_at = env.stamp;
}

-- POST /api/admin/reservations/:id/deactivate
unfoldable pub force_deactivate : Env → String → World → World × Response
force_deactivate env id w =
    if env.fails deactivate_update
    then (w, internal_error "reservation:deactivate")
    else if eqb (count (is_active_row id) w.rows) 0
    then (w, not_found "Reservation not found or not active")
    else (
      notify (
          set_active_reservation none
            (record w { rows = update (is_active_row id) (set_ended env) w.rows })),
      status_is "completed",
    )

-- The guard of `admin_delete`: a status that cannot be read is no reason to refuse.
abbrev pub delete_refused : Env → String → World → Bool
delete_refused env id w = elim (lookup_or_none (env.fails delete_status) id w) [
  | none ↦ false
  | some r ↦ is_active r.status
]

-- DELETE /api/admin/reservations/:id
unfoldable pub admin_delete : Env → String → World → World × Response
admin_delete env id w =
    if delete_refused env id w
    then (w, bad_request "Cannot delete an active reservation — deactivate it first")
    else if env.fails delete_row
    then (w, internal_error "reservation:delete")
    else if eqb (count (has_id id) w.rows) 0
    then (w, not_found "Reservation not found")
    else (notify (record w { rows = delete (has_id id) w.rows }), status_is "deleted")
