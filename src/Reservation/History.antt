-- ===== src/Reservation/History.antt =====
-- The invariant of the reservation subsystem over any history of calls, ticks and restarts.
use sovereign_engine.Prelude.{ℕ, refl, String, Option, List, [], ◌∷◌, arith, All, All-of, unwrap_or}
use sovereign_engine.Prelude.Table.{find_first-In}
use sovereign_engine.Reservation.{World, Env, cancelled, set_status, activate_update}
use sovereign_engine.Reservation.Requests.{cancels}
use sovereign_engine.Reservation.Admin.{
  rejects, set_rejected, is_approved_row, is_active_row, set_ended,
}
use sovereign_engine.Reservation.Tick.{tick_reservations, complete_expired, activate_due}
use sovereign_engine.Reservation.Overlap.{
  step-IsSound, complete_expired-IsSound, activate_due-IsSound,
}
use sovereign_engine.Reservation.Cache.{IsCoherent}
use sovereign_engine.Reservation.Coherence.{
  Reliable, Inv, untouched, activate-IsCoherent, end-IsCoherent, complete_expired-IsCoherent,
  activate_due-IsCoherent, cancel_stale-IsCoherent, recover-IsCoherent, delete-IsCoherent,
  approve-IsCoherent, Idle,
}
use sovereign_engine.Reservation.Cases.{
  create_cases, cancel_own_cases, approve_cases, reject_cases, force_activate_cases,
  force_deactivate_cases, admin_delete_cases,
}
use sovereign_engine.Reservation.Steps.{
  Call, creates, cancels_own, approves, rejects_one, activates, deactivates, deletes, ticks,
  restarts, step, run,
}

tick-IsCoherent :
    (env : Env) (now : String) (w : World)
    → Reliable env
    → Inv w
    → IsCoherent (tick_reservations env now w)
unfolding tick_reservations
tick-IsCoherent env now w ok v =
    let w1 = (complete_expired env now w).0 in
    let v1 : Inv w1 = record {
      sound = complete_expired-IsSound env now w v.sound;
      coherent = complete_expired-IsCoherent env w v now;
    } in
    let w2 = (activate_due env now w1).0 in
    let v2 : Inv w2 = record {
      sound = activate_due-IsSound env now w1 v1.sound;
      coherent = activate_due-IsCoherent env w1 v1 now ok.tick_marks;
    } in
    ground (arith, cancel_stale-IsCoherent env w2 v2 now)

step-IsCoherent :
    (parse : String → Option ℕ) (env : Env) (c : Call) (w : World)
    → Reliable env
    → Inv w
    → IsCoherent (step parse env c w)
unfolding step
step-IsCoherent parse env (creates now id user req) w ok v =
    create_cases IsCoherent env w v.coherent parse now id user req λ _. v.coherent
step-IsCoherent parse env (cancels_own user id) w ok v =
    cancel_own_cases IsCoherent env w v.coherent user id (
      untouched env w v (cancels id user) (set_status cancelled env.stamp) (λ r. refl)
        (All-of (Idle (cancels id user)) (λ r h. ground arith) w.rows))
step-IsCoherent parse env (approves admin id note) w ok v =
    approve_cases IsCoherent env w v.coherent admin id note
      λ r found waiting _. approve-IsCoherent env w v id admin (unwrap_or note "") r found waiting
step-IsCoherent parse env (rejects_one id note) w ok v =
    reject_cases IsCoherent env w v.coherent id note (
      untouched env w v (rejects id) (set_rejected env (unwrap_or note "")) (λ r. refl)
        (All-of (Idle (rejects id)) (λ r h. ground arith) w.rows))
step-IsCoherent parse env (activates id) w ok v =
    force_activate_cases IsCoherent env w v.coherent id λ r empty found.
      activate-IsCoherent env w v (env.fails activate_update) r ok.activate empty
        (find_first-In (is_approved_row id) w.rows r found)
step-IsCoherent parse env (deactivates id) w ok v =
    force_deactivate_cases IsCoherent env w v.coherent id λ some_row.
      end-IsCoherent env w v (is_active_row id) (set_ended env) (λ r h. ground arith) (λ r. refl)
        some_row
step-IsCoherent parse env (deletes id) w ok v =
    admin_delete_cases IsCoherent env w v.coherent id
      λ kept. delete-IsCoherent env w v id ok.status_read kept
step-IsCoherent parse env (ticks now) w ok v = tick-IsCoherent env now w ok v
step-IsCoherent parse env restarts w ok v = recover-IsCoherent env w v ok.recovers

-- If the statements whose failure the code drops succeed, then in any order of operations, ticks
-- and restarts: ids stay a key, no two approved or active rows overlap, and the scheduler's cache
-- holds the entries of the active rows, which are at most one.
pub step-Inv :
    (parse : String → Option ℕ) (env : Env) (c : Call) (w : World)
    → Reliable env
    → Inv w
    → Inv (step parse env c w)
step-Inv parse env c w ok v = record {
  sound = step-IsSound parse env c w ok.reads v.sound;
  coherent = step-IsCoherent parse env c w ok v;
}

-- In every history in which the statements whose errors the code drops succeed, the table stays
-- sound, and the scheduler holds as active exactly what the one active row of the table says, or
-- nothing where no row is active.
pub run-Inv :
    (parse : String → Option ℕ) (calls : List (Env × Call)) (w : World)
    → All (λ (c : Env × Call). Reliable c.0) calls
    → Inv w
    → Inv (run parse calls w)
unfolding run
run-Inv parse [] w ok v = v
run-Inv parse ((env, c) ∷ cs) w ok v =
    run-Inv parse cs (step parse env c w) ok.1 (step-Inv parse env c w ok.0 v)
