-- ===== src/Supervisor/Panics.antt =====
-- A container that is started with a backend type of the request's, while the row of its model has
-- another: start_container_core of proxy/src/api/common.rs, and the next handle_kick of
-- proxy/src/supervisor/mod.rs.
use sovereign_engine.Prelude.{
  ℕ, String, Bool, true, false, ◌||◌, Option, none, some, List, [], ◌∷◌, ◌≡◌, refl, arith, ◌==◌,
  eq_refl, eq_iff, ◌∙◌, if◌then◌else◌, Result, ok, err,
}
use sovereign_engine.Prelude.Dict
use sovereign_engine.Prelude.Dict.{get-insert}
use sovereign_engine.Prelude.Table.{find_first, update}
use sovereign_engine.Runtime.{WrappedRuntimeJson}
use sovereign_engine.Supervisor.{BackendState, starting, fresh, is_terminal}
use sovereign_engine.Supervisor.Store.{
  Model, App, Env, is_model, read_backend_type, write_overrides, set_loaded, clear_worked,
  erase_quarantine,
}
use sovereign_engine.Supervisor.Lifecycle.{
  lookup_backend_type, arm_supervision_starting, clear_quarantine,
}
use sovereign_engine.Supervisor.Start.{
  StartContainerParams, after_start, persist_launch, persist_secrets, write_launch,
}
use sovereign_engine.Supervisor.Kick.{handle_kick, is_paused}

-- The backend type in the first row with an id.
abbrev backend_of : String → List Model → Option String
backend_of id ms = elim (find_first (is_model id) ms) [ none ↦ none | some m ↦ some m.backend_type ]

backend_of-update :
    (failed : Bool) (id : String) (f : Model → Model) (ms : List Model)
    → ((m : Model) → (f m).id ≡ m.id)
    → ((m : Model) → (f m).backend_type ≡ m.backend_type)
    → backend_of id (if failed then ms else update (is_model id) f ms) ≡ backend_of id ms
backend_of-update true id f ms h k = refl
backend_of-update false id f [] h k = refl
backend_of-update false id f (m ∷ ms) h k =
    ground (arith, backend_of-update false id f ms h k, h m, k m, eq_iff m.id id)

backend_of-write_launch :
    (env : Env) (id : String) (r : Result String) (a : App)
    → backend_of id (write_launch env id r a).models ≡ backend_of id a.models
backend_of-write_launch env id (err e) a = refl
backend_of-write_launch env id (ok blob) a =
    backend_of-update (env.fails write_overrides) id (λ r. record r { runtime_overrides = blob })
      a.models (λ r. refl) (λ r. refl)

backend_of-after_start :
    (env : Env) (m : Model) (params : StartContainerParams) (w : WrappedRuntimeJson) (uid : ℕ)
    (a : App)
    → backend_of m.id (after_start env m params w uid a).models ≡ backend_of m.id a.models
unfolding after_start persist_launch persist_secrets arm_supervision_starting clear_quarantine
backend_of-after_start env m params w uid a =
    let b = persist_launch env m params w a in
    let loads = λ (r : Model). record r { loaded = true } in
    let c = if env.fails set_loaded then b.models else update (is_model m.id) loads b.models in
    let idles = λ (r : Model). record r { worked = false } in
    let d = if env.fails clear_worked then c else update (is_model m.id) idles c in
    backend_of-update (env.fails erase_quarantine) m.id
      (λ r. record r { quarantined_at = none; quarantine_reason = none }) d (λ r. refl) (λ r. refl)
    ∙ backend_of-update (env.fails clear_worked) m.id idles c (λ r. refl) (λ r. refl)
    ∙ backend_of-update (env.fails set_loaded) m.id loads b.models (λ r. refl) (λ r. refl)
    ∙ backend_of-write_launch env m.id _ a

lookup_backend_type-of :
    (env : Env) (id : String) (a : App) (b : String)
    → env.fails read_backend_type ≡ false
    → backend_of id a.models ≡ some b
    → lookup_backend_type env id a ≡ b
unfolding lookup_backend_type
lookup_backend_type-of env id a b reads h = ground arith

kick_panics :
    (env : Env) (id : String) (a : App) (prev : BackendState) (backend : String)
    → Dict.get id a.supervisor_map ≡ some prev
    → (is_paused env.received_at prev || is_terminal prev.fsm) ≡ false
    → lookup_backend_type env id a ≡ backend
    → (backend == "llamacpp") ≡ false
    → handle_kick env id a ≡ none
unfolding handle_kick
kick_panics env id a prev backend h awake e other = ground arith

armed :
    (env : Env) (m : Model) (params : StartContainerParams) (w : WrappedRuntimeJson) (uid : ℕ)
    (a : App)
    → Dict.get m.id (after_start env m params w uid a).supervisor_map
      ≡ some (fresh starting env.started_at none)
unfolding after_start arm_supervision_starting
armed env m params w uid a =
    get-insert m.id m.id (fresh starting env.started_at none) _ ∙ rw (eq_refl m.id) refl

-- After a start whose request names the backend type, a probe of a model whose row has a type other
-- than llamacpp ends the task of the supervisor by a panic, if it can read the row.
pub start_then_kick_panics :
    (env env2 : Env) (m : Model) (params : StartContainerParams) (w : WrappedRuntimeJson) (uid : ℕ)
    (a : App) (backend : String)
    → backend_of m.id a.models ≡ some backend
    → (backend == "llamacpp") ≡ false
    → env2.fails read_backend_type ≡ false
    → handle_kick env2 m.id (after_start env m params w uid a) ≡ none
start_then_kick_panics env env2 m params w uid a backend h other reads =
    kick_panics env2 m.id (after_start env m params w uid a) (fresh starting env.started_at none)
      backend (armed env m params w uid a) refl
      (lookup_backend_type-of env2 m.id (after_start env m params w uid a) backend reads
        (backend_of-after_start env m params w uid a ∙ h))
      other
