-- ===== src/Supervisor/Holder.antt =====
-- The container handlers for the holder of the active reservation: user_start_container and
-- user_stop_container of proxy/src/api/reservation.rs.
use sovereign_engine.Prelude.{
  String, ◌≡◌, refl, ◌==◌, Bool-cases, inl, inr, if◌then◌else◌, Result, ok, err, cat,
}
use sovereign_engine.Reservation.{World}
use sovereign_engine.Reservation.Requests.{holds_active_reservation}
use sovereign_engine.Reservation.Cache.{IsCoherent}
use sovereign_engine.Reservation.Access.{OwnsActive, holds_active_reservation_iff}
use sovereign_engine.Supervisor.Store.{App, Env}
use sovereign_engine.Supervisor.Lifecycle.{lookup_backend_type, post_stop_cleanup}
use sovereign_engine.Supervisor.Start.{StartContainerParams, Started, start_container_core}

pub data Answer : Type 0 where
  not_holder stopped stop_failed : Answer
  started_with : Started → Answer

-- POST /api/user/reservations/containers/start
unfoldable pub user_start_container :
    Env → World → String → StartContainerParams → App → App × Answer
user_start_container env w user params a =
    if holds_active_reservation w user
    then (let (b, s) = start_container_core env params a in (b, started_with s))
    else (a, not_holder)

-- DockerManager::stop_backend, with what Docker answers to the stop of the container.
abbrev pub stop_backend : Result Unit → String → Result Unit
stop_backend stop_llamacpp backend =
    if backend == "llamacpp" then stop_llamacpp else err (cat "Unknown backend type: " backend)

-- What follows the answer of Docker.
abbrev pub after_stop : Env → String → Result Unit → App → App × Answer
after_stop env id (ok _) a = (post_stop_cleanup env id a, stopped)
after_stop env id (err _) a = (a, stop_failed)

-- POST /api/user/reservations/containers/stop
unfoldable pub user_stop_container :
    Env → Result Unit → World → String → String → App → App × Answer
user_stop_container env stop_llamacpp w user id a =
    if holds_active_reservation w user
    then after_stop env id (stop_backend stop_llamacpp (lookup_backend_type env id a)) a
    else (a, not_holder)

-- Where the scheduler's cache agrees with the table, a user without an active row there neither
-- starts nor stops a container: both requests are refused, and nothing changes.
pub only_holder :
    (env : Env) (stop_llamacpp : Result Unit) (w : World) (user id : String)
    (params : StartContainerParams) (a : App)
    → IsCoherent w
    → ¬ OwnsActive user w.rows
    → (user_start_container env w user params a ≡ (a, not_holder))
      × (user_stop_container env stop_llamacpp w user id a ≡ (a, not_holder))
unfolding user_start_container user_stop_container
only_holder env stop_llamacpp w user id params a coherent none_active =
    elim (Bool-cases (holds_active_reservation w user)) [
      | inl e ↦ absurd (none_active ((holds_active_reservation_iff w user coherent).0 e))
      | inr e ↦ (rw e refl, rw e refl)
    ]
