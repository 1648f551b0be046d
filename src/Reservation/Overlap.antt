-- ===== src/Reservation/Overlap.antt =====
-- No history of the reservation subsystem makes two slot holders overlap.
use sovereign_engine.Prelude.{
  ℕ, ◌≡◌, refl, ◌⊎◌, inl, inr, String, true, false, Option, none, some, List, [], ◌∷◌, arith,
  unwrap_or, All, In, if◌then◌else◌, Bool, ◌&&◌, ltb, text_lt, Pairwise,
}
use sovereign_engine.Prelude.Table.{Pairwise-delete, find_first-In, find_first-some}
use sovereign_engine.Reservation.{
  Reservation, World, Env, completed, cancelled, approve_times, approve_overlap, activate_update,
  tick_activate, has_id, holds_slot, set_status, set_active_reservation,
}
use sovereign_engine.Reservation.Requests.{new_row, cancels}
use sovereign_engine.Reservation.Admin.{
  rejects, set_rejected, is_approved_row, is_active_row, set_ended,
}
use sovereign_engine.Reservation.Tick.{
  tick_reservations, complete_expired, activate_due, cancel_stale, first_due, is_expired, is_due,
  is_stale, set_auto_cancelled, earlier, recover_active_reservation,
}
use sovereign_engine.Reservation.Rows.{
  IsSound, Apart, update-IsSound, approve-rows-IsSound, insert-IsSound, mark_active-IsSound,
}
use sovereign_engine.Reservation.Cases.{
  create_cases, cancel_own_cases, approve_cases, approve_overlaps-none, reject_cases,
  force_activate_cases, force_deactivate_cases, admin_delete_cases, complete_expired_cases,
  activate_due_cases, cancel_stale_cases,
}
use sovereign_engine.Reservation.Steps.{
  Call, creates, cancels_own, approves, rejects_one, activates, deactivates, deletes, ticks,
  restarts, step, run,
}

abbrev Sound : World → Type 0
Sound w = IsSound w.rows

-- The two queries on which the check of `approve` rests succeed.
pub record ReadsOverlap (env : Env) : Type 0 where
  pub times : env.fails approve_times ≡ false
  pub overlap : env.fails approve_overlap ≡ false

approved_holds :
    (id : String) (r : Reservation) → is_approved_row id r ≡ true → holds_slot r.status ≡ true
approved_holds id r h = ground arith

pub complete_expired-IsSound :
    (env : Env) (now : String) (w : World) → Sound w → Sound (complete_expired env now w).0
complete_expired-IsSound env now w s = complete_expired_cases Sound env w s now λ _.
    update-IsSound (is_expired now) (set_status completed env.stamp) w.rows
      (λ r. (refl, refl, refl, λ _ _. refl)) s

cancel_stale-IsSound :
    (env : Env) (now : String) (w : World) → Sound w → Sound (cancel_stale env now w).0
cancel_stale-IsSound env now w s = cancel_stale_cases Sound env w s now (
    update-IsSound (is_stale now) (set_auto_cancelled env) w.rows
      (λ r. (refl, refl, refl, λ _ _. refl)) s)

first_due-cons :
    (now : String) (x r : Reservation) (rest : Option Reservation)
    → (if is_due now x then some (earlier x rest) else rest) ≡ some r
    → ((r ≡ x) × (is_due now x ≡ true)) ⊎ (rest ≡ some r)
first_due-cons now x r none e = ground arith
first_due-cons now x r (some q) e = ground arith

pub first_due-In :
    (now : String) (rows : List Reservation) (r : Reservation)
    → first_due now rows ≡ some r
    → In r rows × (is_due now r ≡ true)
unfolding first_due
first_due-In now [] r e = cc
first_due-In now (x ∷ xs) r e = elim (first_due-cons now x r (first_due now xs) e) [
  | inl (same, due) ↦ (inl same, rw same due)
  | inr later ↦ let (m, due) = first_due-In now xs r later in (inr m, due)
]

pub due_holds : (now : String) (r : Reservation) → is_due now r ≡ true → holds_slot r.status ≡ true
due_holds now r h = ground arith

pub activate_due-IsSound :
    (env : Env) (now : String) (w : World) → Sound w → Sound (activate_due env now w).0
activate_due-IsSound env now w s = activate_due_cases Sound env w s now λ r _ e.
    let (m, due) = first_due-In now w.rows r e in
    mark_active-IsSound (env.fails tick_activate) env.stamp r w.rows m (due_holds now r due) s

tick-IsSound :
    (env : Env) (now : String) (w : World) → Sound w → Sound (tick_reservations env now w)
unfolding tick_reservations
tick-IsSound env now w s =
    let s1 = complete_expired-IsSound env now w s in
    let s2 = activate_due-IsSound env now (complete_expired env now w).0 s1 in
    ground (
      arith,
      cancel_stale-IsSound env now (activate_due env now (complete_expired env now w).0).0 s2,
    )

restart-IsSound :
    (env : Env) (w : World)
    → Sound w
    → Sound (recover_active_reservation env (set_active_reservation none w))
unfolding recover_active_reservation
restart-IsSound env w s = ground arith

-- Whatever statements fail beside the two that the check of `approve` reads, and whoever calls
-- what in whatever order: if no two rows share an id and no two approved or active rows overlap,
-- this stays so after each operation, each tick and each restart.
pub step-IsSound :
    (parse : String → Option ℕ) (env : Env) (c : Call) (w : World)
    → ReadsOverlap env
    → IsSound w.rows
    → IsSound (step parse env c w).rows
unfolding step
step-IsSound parse env (creates now id user req) w ok s =
    create_cases Sound env w s parse now id user req
      (λ fresh. insert-IsSound (new_row env id user req) w.rows refl fresh s)
step-IsSound parse env (cancels_own user id) w ok s = cancel_own_cases Sound env w s user id (
    update-IsSound (cancels id user) (set_status cancelled env.stamp) w.rows
      (λ r. (refl, refl, refl, λ _ _. refl)) s)
step-IsSound parse env (approves admin id note) w ok s =
    approve_cases Sound env w s admin id note λ r found _ free.
      approve-rows-IsSound env admin (unwrap_or note "") id r w.rows found
        (approve_overlaps-none Sound env w s id r ok.times ok.overlap found free) s
step-IsSound parse env (rejects_one id note) w ok s = reject_cases Sound env w s id note (
    update-IsSound (rejects id) (set_rejected env (unwrap_or note "")) w.rows
      (λ r. (refl, refl, refl, λ _ _. refl)) s)
step-IsSound parse env (activates id) w ok s = force_activate_cases Sound env w s id λ r _ found.
    mark_active-IsSound (env.fails activate_update) env.stamp r w.rows
      (find_first-In (is_approved_row id) w.rows r found)
      (approved_holds id r (find_first-some (is_approved_row id) w.rows r found)) s
step-IsSound parse env (deactivates id) w ok s = force_deactivate_cases Sound env w s id λ _.
    update-IsSound (is_active_row id) (set_ended env) w.rows (λ r. (refl, refl, refl, λ _ _. refl))
      s
step-IsSound parse env (deletes id) w ok s =
    admin_delete_cases Sound env w s id λ _. Pairwise-delete Apart (has_id id) w.rows s
step-IsSound parse env (ticks now) w ok s = tick-IsSound env now w s
step-IsSound parse env restarts w ok s = restart-IsSound env w s

-- In every history of requests, ticks and restarts in which the overlap queries succeed, a table
-- whose ids are a key and in which no two approved or active rows overlap as texts stays such a
-- table.
pub run-IsSound :
    (parse : String → Option ℕ) (calls : List (Env × Call)) (w : World)
    → All (λ (c : Env × Call). ReadsOverlap c.0) calls
    → IsSound w.rows
    → IsSound (run parse calls w).rows
unfolding run
run-IsSound parse [] w ok s = s
run-IsSound parse ((env, c) ∷ cs) w ok s =
    run-IsSound parse cs (step parse env c w) ok.1 (step-IsSound parse env c w ok.0 s)

-- Both rows hold their slot, and their times overlap in seconds.
abbrev pub clash_in : (String → ℕ) → Reservation → Reservation → Bool
clash_in seconds r q =
    holds_slot r.status
    && (holds_slot q.status
        && (ltb (seconds r.start_time) (seconds q.end_time)
            && ltb (seconds q.start_time) (seconds r.end_time)))

-- The texts of two rows stand in the order of the times that they say, as padded ones do.
abbrev pub IsOrdered : (String → ℕ) → Reservation → Reservation → Type 0
IsOrdered seconds r q =
    (text_lt r.start_time q.end_time ≡ ltb (seconds r.start_time) (seconds q.end_time))
    × (text_lt q.start_time r.end_time ≡ ltb (seconds q.start_time) (seconds r.end_time))

Apart-seconds :
    (seconds : String → ℕ) (r : Reservation) (rows : List Reservation)
    → All (Apart r) rows
    → All (IsOrdered seconds r) rows
    → All (λ q. clash_in seconds r q ≡ false) rows
Apart-seconds seconds r [] a o = tt
Apart-seconds seconds r (q ∷ rows) a o =
    (ground (arith, a.0.1, o.0.0, o.0.1), Apart-seconds seconds r rows a.1 o.1)

IsSound-seconds :
    (seconds : String → ℕ) (rows : List Reservation)
    → IsSound rows
    → Pairwise (IsOrdered seconds) rows
    → Pairwise (λ r q. clash_in seconds r q ≡ false) rows
IsSound-seconds seconds [] s o = tt
IsSound-seconds seconds (r ∷ rows) s o =
    (Apart-seconds seconds r rows s.0 o.0, IsSound-seconds seconds rows s.1 o.1)

-- In every history of requests, ticks and restarts in which the overlap queries succeed, from a
-- table whose ids are a key and in which no two approved or active rows overlap as texts: where the
-- texts of the resulting rows stand in the order of their times, no two approved or active rows
-- overlap in time.
pub run-Pairwise_apart :
    (parse : String → Option ℕ) (calls : List (Env × Call)) (w : World) (seconds : String → ℕ)
    → All (λ (c : Env × Call). ReadsOverlap c.0) calls
    → IsSound w.rows
    → Pairwise (IsOrdered seconds) (run parse calls w).rows
    → Pairwise (λ r q. clash_in seconds r q ≡ false) (run parse calls w).rows
run-Pairwise_apart parse calls w seconds ok s o =
    IsSound-seconds seconds (run parse calls w).rows (run-IsSound parse calls w ok s) o
