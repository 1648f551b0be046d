-- ===== src/Reservation/Cases.antt =====
-- One rule for each operation on the table: what holds of the world after it follows from the
-- world before it and from the world that its statement writes.
use sovereign_engine.Prelude.{
  ℕ, ◌≡◌, ◌≢◌, inl, inr, String, true, false, Option, none, some, ◌∷◌, arith, unwrap_or,
  Option-cases,
}
use sovereign_engine.Prelude.Table.{find_first, update, delete, count}
use sovereign_engine.Reservation.{
  Reservation, World, Env, cancelled, completed, has_id, set_status, notify, set_active_reservation,
  active_entry, approve_times, approve_overlap, approve_status, activate_update, tick_activate,
  is_pending,
}
use sovereign_engine.Reservation.Requests.{
  CreateReservationRequest, create, create_checked, insert_row, new_row, cancel_own, cancels,
}
use sovereign_engine.Reservation.Admin.{
  approve, approve_pending, approve_overlaps, set_approved, blocks_other, reject, rejects,
  set_rejected, force_activate, is_approved_row, mark_active, force_deactivate, is_active_row,
  set_ended, admin_delete, delete_refused, lookup_or_none,
}
use sovereign_engine.Reservation.Tick.{
  complete_expired, is_expired, activate_due, first_due, cancel_stale, is_stale, set_auto_cancelled,
}

module _ (P : World → Type 0) (env : Env) (w : World) (same : P w) where
  insert_row_cases :
      (row : Reservation)
      → (find_first (has_id row.id) w.rows ≡ none → P (notify (record w { rows = row ∷ w.rows })))
      → P (insert_row env row w).0
  unfolding insert_row
  insert_row_cases row step = ground arith

  pub create_cases :
      (parse : String → Option ℕ) (now : ℕ) (id user : String) (req : CreateReservationRequest)
      → (find_first (has_id id) w.rows ≡ none
          → P (notify (record w { rows = new_row env id user req ∷ w.rows })))
      → P (create parse env now id user req w).0
  unfolding create create_checked
  create_cases parse now id user req step =
      ground (arith, insert_row_cases (new_row env id user req) step)

  pub cancel_own_cases :
      (user id : String)
      → P (
          notify
            (record w { rows = update (cancels id user) (set_status cancelled env.stamp) w.rows }))
      → P (cancel_own env user id w).0
  unfolding cancel_own
  cancel_own_cases user id step = ground arith

  pub approve_overlaps-none :
      (id : String) (r : Reservation)
      → env.fails approve_times ≡ false
      → env.fails approve_overlap ≡ false
      → find_first (has_id id) w.rows ≡ some r
      → approve_overlaps env id w ≡ false
      → find_first (blocks_other id r.start_time r.end_time) w.rows ≡ none
  unfolding approve_overlaps
  approve_overlaps-none id r ft fo found free = ground arith

  pub approve_cases :
      (admin id : String) (remark : Option String)
      → ((r : Reservation)
          → find_first (has_id id) w.rows ≡ some r
          → is_pending r.status ≡ true
          → approve_overlaps env id w ≡ false
          → P (
              notify (record w {
                rows = update (has_id id) (set_approved env admin (unwrap_or remark "")) w.rows;
              })))
      → P (approve env admin id remark w).0
  unfolding approve approve_pending
  approve_cases admin id remark step =
      elim (Option-cases (lookup_or_none (env.fails approve_status) id w)) [
        | inl e ↦ ground arith
        | inr (r, e) ↦ ground (arith, step r)
      ]

  pub reject_cases :
      (id : String) (remark : Option String)
      → P (
          notify (record w {
            rows = update (rejects id) (set_rejected env (unwrap_or remark "")) w.rows;
          }))
      → P (reject env id remark w).0
  unfolding reject
  reject_cases id remark step = ground arith

  pub force_activate_cases :
      (id : String)
      → ((r : Reservation)
          → w.cache ≡ none
          → find_first (is_approved_row id) w.rows ≡ some r
          → P (
              notify (
                set_active_reservation (some (active_entry w.users r)) (record w {
                  rows = mark_active (env.fails activate_update) env.stamp r.id w.rows;
                }))))
      → P (force_activate env id w).0
  unfolding force_activate
  force_activate_cases id step = elim (Option-cases (find_first (is_approved_row id) w.rows)) [
    | inl e ↦ ground arith
    | inr (r, e) ↦ ground (arith, step r)
  ]

  pub force_deactivate_cases :
      (id : String)
      → (count (is_active_row id) w.rows ≢ 0
          → P (
              notify (
                set_active_reservation none
                  (record w { rows = update (is_active_row id) (set_ended env) w.rows }))))
      → P (force_deactivate env id w).0
  unfolding force_deactivate
  force_deactivate_cases id step = ground arith

  pub admin_delete_cases :
      (id : String)
      → (delete_refused env id w ≡ false
          → P (notify (record w { rows = delete (has_id id) w.rows })))
      → P (admin_delete env id w).0
  unfolding admin_delete
  admin_delete_cases id step = ground arith

  pub complete_expired_cases :
      (now : String)
      → (count (is_expired now) w.rows ≢ 0
          → P (
              set_active_reservation none (record w {
                rows = update (is_expired now) (set_status completed env.stamp) w.rows;
              })))
      → P (complete_expired env now w).0
  unfolding complete_expired
  complete_expired_cases now step = ground arith

  pub activate_due_cases :
      (now : String)
      → ((r : Reservation)
          → w.cache ≡ none
          → first_due now w.rows ≡ some r
          → P (
              set_active_reservation
                (some (active_entry w.users r))
                (record w { rows = mark_active (env.fails tick_activate) env.stamp r.id w.rows })))
      → P (activate_due env now w).0
  unfolding activate_due
  activate_due_cases now step = elim (Option-cases (first_due now w.rows)) [
    | inl e ↦ ground arith
    | inr (r, e) ↦ ground (arith, step r)
  ]

  pub cancel_stale_cases :
      (now : String)
      → P (record w { rows = update (is_stale now) (set_auto_cancelled env) w.rows })
      → P (cancel_stale env now w).0
  unfolding cancel_stale
  cancel_stale_cases now step = ground arith
