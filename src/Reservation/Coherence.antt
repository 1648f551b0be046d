-- ===== src/Reservation/Coherence.antt =====
-- The scheduler's cache is the active row of the table, after any history.
use sovereign_engine.Prelude.{
  ◌≡◌, ◌≢◌, refl, inl, inr, String, Bool, true, false, none, some, List, arith, All, All-of,
  All-map, In, Option-cases,
}
use sovereign_engine.Prelude.Table.{
  find_first, update, delete, count, find_first-none-All, select-none, select-some,
}
use sovereign_engine.Reservation.{
  Reservation, World, Env, completed, activate_update, tick_activate, delete_status, recover_lookup,
  is_active, is_pending, has_id, set_status, set_active_reservation, active_entry,
}
use sovereign_engine.Reservation.Admin.{mark_active, set_approved, delete_refused}
use sovereign_engine.Reservation.Tick.{
  complete_expired, activate_due, cancel_stale, is_expired, is_stale, set_auto_cancelled,
  recover_active_reservation,
}
use sovereign_engine.Reservation.Rows.{IsSound, Only, find_first-Only}
use sovereign_engine.Reservation.Overlap.{ReadsOverlap, first_due-In}
use sovereign_engine.Reservation.Cache.{
  IsCoherent, actives, has_active_status, actives-update, actives-delete, actives-activate,
  actives-no_cache, actives-end, length-actives-le,
}
use sovereign_engine.Reservation.Cases.{
  complete_expired_cases, activate_due_cases, cancel_stale_cases,
}

-- The statements whose failure the code drops succeed.
pub record Reliable (env : Env) : Type 0 where
  pub reads : ReadsOverlap env
  pub activate : env.fails activate_update ≡ false
  pub tick_marks : env.fails tick_activate ≡ false
  pub status_read : env.fails delete_status ≡ false
  pub recovers : env.fails recover_lookup ≡ false

pub record Inv (w : World) : Type 0 where
  pub sound : IsSound w.rows
  pub coherent : IsCoherent w

-- The condition `p` does not take the row, if it is active.
abbrev pub Idle : (Reservation → Bool) → Reservation → Type 0
Idle p r = p r ≡ true → is_active r.status ≡ false

module _ (env : Env) (w : World) (v : Inv w) where
  rewritten :
      (rows : List Reservation)
      → actives rows ≡ actives w.rows
      → IsCoherent (record w { rows = rows })
  rewritten rows e = rw e v.coherent

  -- A statement that leaves the active rows alone.
  pub untouched :
      (p : Reservation → Bool) (f : Reservation → Reservation)
      → ((r : Reservation) → is_active (f r).status ≡ false)
      → All (Idle p) w.rows
      → IsCoherent (record w { rows = update p f w.rows })
  untouched p f off h = rewritten (update p f w.rows) (actives-update p f off w.rows h)

  pub activate-IsCoherent :
      (failed : Bool) (r : Reservation)
      → failed ≡ false
      → w.cache ≡ none
      → In r w.rows
      → IsCoherent (
          set_active_reservation
            (some (active_entry w.users r))
            (record w { rows = mark_active failed env.stamp r.id w.rows }))
  activate-IsCoherent failed r ok empty m =
      let e = actives-activate env.stamp r w.rows v.sound m (actives-no_cache w v.coherent empty) in
      rw (ok, e)

  pub end-IsCoherent :
      (p : Reservation → Bool) (f : Reservation → Reservation)
      → ((r : Reservation) → p r ≡ true → is_active r.status ≡ true)
      → ((r : Reservation) → is_active (f r).status ≡ false)
      → count p w.rows ≢ 0
      → IsCoherent (set_active_reservation none (record w { rows = update p f w.rows }))
  end-IsCoherent p f on off some_row = rw (actives-end w p f v.coherent on off some_row)

  pub complete_expired-IsCoherent : (now : String) → IsCoherent (complete_expired env now w).0
  complete_expired-IsCoherent now =
      complete_expired_cases IsCoherent env w v.coherent now λ some_row.
        end-IsCoherent (is_expired now) (set_status completed env.stamp) (λ r h. ground arith)
          (λ r. refl) some_row

  pub activate_due-IsCoherent :
      (now : String) → env.fails tick_activate ≡ false → IsCoherent (activate_due env now w).0
  activate_due-IsCoherent now ok = activate_due_cases IsCoherent env w v.coherent now λ r empty e.
      activate-IsCoherent (env.fails tick_activate) r ok empty (first_due-In now w.rows r e).0

  pub cancel_stale-IsCoherent : (now : String) → IsCoherent (cancel_stale env now w).0
  cancel_stale-IsCoherent now = cancel_stale_cases IsCoherent env w v.coherent now (
      untouched (is_stale now) (set_auto_cancelled env) (λ r. refl)
        (All-of (Idle (is_stale now)) (λ r h. ground arith) w.rows))

  pub recover-IsCoherent :
      env.fails recover_lookup ≡ false
      → IsCoherent (recover_active_reservation env (set_active_reservation none w))
  unfolding recover_active_reservation
  recover-IsCoherent ok = elim (Option-cases (find_first has_active_status w.rows)) [
    | inl e ↦ ground (arith, select-none has_active_status w.rows)
    | inr (r, e) ↦
        ground (arith, select-some has_active_status w.rows r, length-actives-le w v.coherent)
  ]

  -- The rows that a delete takes are not active.
  deletes-Idle :
      (id : String)
      → env.fails delete_status ≡ false
      → delete_refused env id w ≡ false
      → All (Idle (has_id id)) w.rows
  deletes-Idle id ok kept = elim (Option-cases (find_first (has_id id) w.rows)) [
    | inl e ↦
        All-map (λ r. has_id id r ≡ false) (Idle (has_id id)) (λ r a h. cc) w.rows
          (find_first-none-All (has_id id) w.rows e)
    | inr (q, e) ↦
        All-map (Only id q) (Idle (has_id id)) (λ r same h. ground arith) w.rows
          (find_first-Only id q w.rows v.sound e)
  ]

  pub delete-IsCoherent :
      (id : String)
      → env.fails delete_status ≡ false
      → delete_refused env id w ≡ false
      → IsCoherent (record w { rows = delete (has_id id) w.rows })
  delete-IsCoherent id ok kept =
      rewritten (delete (has_id id) w.rows)
        (actives-delete (has_id id) w.rows (deletes-Idle id ok kept))

  pub approve-IsCoherent :
      (id admin note : String) (r : Reservation)
      → find_first (has_id id) w.rows ≡ some r
      → is_pending r.status ≡ true
      → IsCoherent (record w { rows = update (has_id id) (set_approved env admin note) w.rows })
  approve-IsCoherent id admin note r found waiting =
      untouched (has_id id) (set_approved env admin note) (λ q. refl)
        (All-map (Only id r) (Idle (has_id id)) (λ q same h. ground arith) w.rows
          (find_first-Only id r w.rows v.sound found))
