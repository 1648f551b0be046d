-- ===== src/Supervisor/Crash.antt =====
-- What a crash of a backend leads to: handle_kick of proxy/src/supervisor/mod.rs from the capture
-- on.
use sovereign_engine.Prelude.{
  String, Bool, true, false, Option, none, some, ◌∷◌, ◌≡◌, refl, ◌⊎◌, inl, inr, arith, eq_refl, ok,
  as_u32, at_least_one, Bool-cases, Option-cases, Result-cases, cat,
}
use sovereign_engine.Prelude.Dict
use sovereign_engine.Prelude.Dict.{get-remove, get-insert}
use sovereign_engine.Runtime.{LlamacppConfig, WrappedRuntimeJson, parse}
use sovereign_engine.Supervisor.Config.{rebuild_llamacpp_config}
use sovereign_engine.Scheduler.Gate.{register, unregister}
use sovereign_engine.Supervisor.{BackendState, BackendFsmState, healthy, quarantined, fresh}
use sovereign_engine.Supervisor.Store.{Model, Secrets, App, Env, read_worked_row}
use sovereign_engine.Supervisor.Lifecycle.{read_worked, reconcile_state, find_model}
use sovereign_engine.Supervisor.Kick.{
  handle_crash, reconcile_dead_backend_with_capture, restart_after_crash, after_restart,
  plan_restart, quarantine_model, fetched, capture_crash_state,
}

-- The supervisor's state of a model.
abbrev pub fsm_of : String → App → Option BackendFsmState
fsm_of id a = elim (Dict.get id a.supervisor_map) [ none ↦ none | some s ↦ some s.fsm ]

-- The gate is open with the slots of the secrets, nothing is known to have worked, and the
-- supervisor takes the backend for healthy.
abbrev pub IsServing : String → Secrets → App → Type 0
IsServing id s a =
    (Dict.get id a.gate
      ≡ some (record { max_slots = as_u32 (at_least_one s.parallel_slots); in_flight = 0 }))
    × (Dict.get id a.worked_map ≡ some false)
    × (fsm_of id a ≡ some healthy)

abbrev pub IsOut : String → App → Type 0
IsOut id a =
    (Dict.get id a.gate ≡ none)
    × (Dict.get id a.worked_map ≡ none)
    × (fsm_of id a ≡ some quarantined)

after_restart-IsServing :
    (env : Env) (id : String) (s : Secrets) (a : App) → IsServing id s (after_restart env id s a)
unfolding after_restart register
after_restart-IsServing env id s a = ground (
  arith,
  get-insert id id (record { max_slots = as_u32 (at_least_one s.parallel_slots); in_flight = 0 })
      a.gate,
  get-insert id id false a.worked_map,
  get-insert id id (fresh healthy env.started_at none) a.supervisor_map,
  eq_refl id,
)

quarantine-IsOut :
    (env : Env) (id reason : String) (a : App) (s : BackendState)
    → Dict.get id a.supervisor_map ≡ some s
    → Dict.get id a.gate ≡ none
    → Dict.get id a.worked_map ≡ none
    → IsOut id (quarantine_model env id reason a)
unfolding quarantine_model
quarantine-IsOut env id reason a s h g w =
    ground (arith, get-insert id id (record s { fsm = quarantined }) a.supervisor_map, eq_refl id)

fetched_ok :
    {A : Type 0} (failed : Bool) (what missing : String) (o : Option A) (a : A)
    → fetched failed what missing o ≡ ok a
    → o ≡ some a
fetched_ok true what missing o a h = ground arith
fetched_ok false what missing none a h = ground arith
fetched_ok false what missing (some b) a h = ground arith

-- The configuration has the key and the user id of the secrets.
abbrev HasSecrets : Secrets → LlamacppConfig → Type 0
HasSecrets s c = (c.api_key ≡ s.api_key) × (c.uid ≡ as_u32 s.container_uid)

rebuilt_secrets :
    (m : Model) (s : Secrets) (w : WrappedRuntimeJson) (c : LlamacppConfig)
    → rebuild_llamacpp_config m s w ≡ ok c
    → HasSecrets s c
unfolding rebuild_llamacpp_config
rebuilt_secrets m s w c h = ground arith

-- The secrets that a restart uses are the stored ones, and the configuration has their key and
-- their user id.
planned_secrets :
    (env : Env) (id : String) (a : App) (c : LlamacppConfig) (s : Secrets)
    → plan_restart env id a ≡ ok (c, s)
    → (Dict.get id a.secrets ≡ some s) × HasSecrets s c
unfolding plan_restart
planned_secrets env id a c s h = elim (Option-cases (find_model false id a)) [
  | inl e ↦ ground arith
  | inr (m, e) ↦ elim (Option-cases (Dict.get id a.secrets)) [
    | inl e2 ↦ ground arith
    | inr (t, e2) ↦ elim (Result-cases (parse env.json m.runtime_overrides)) [
      | inl (x, e3) ↦ ground arith
      | inr (w, e3) ↦ elim (Result-cases (rebuild_llamacpp_config m t w)) [
        | inl (x, e4) ↦ ground arith
        | inr (d, e4) ↦ ground (arith, rebuilt_secrets m t w d e4)
      ]
    ]
  ]
]

-- A restart that is reported as one.
abbrev pub IsRestarted : String → App → App → Type 0
IsRestarted id a b =
    (s : Secrets) × (config : LlamacppConfig) × (Dict.get id a.secrets ≡ some s)
    × (config.api_key ≡ s.api_key)
    × (config.uid ≡ as_u32 s.container_uid)
    × (b.launched ≡ config ∷ a.launched)
    × IsServing id s b

-- The state of the proxy when the decision after a crash is taken.
abbrev pub reconciled : Env → String → App → App
reconciled env id a =
    reconcile_dead_backend_with_capture env id (capture_crash_state env.inspect_crashed)
      "supervisor_probe_failure" a

abbrev with_launch : LlamacppConfig → App → App
with_launch config a = record a { launched = config ∷ a.launched }

-- The ways in which the handling of a crash ends.
handle_crash_cases :
    (P : App → Type 0) (env : Env) (id : String) (a : App)
    → ((reason : String) → P (quarantine_model env id reason (reconciled env id a)))
    → ((config : LlamacppConfig) (reason : String)
        → P (quarantine_model env id reason (with_launch config (reconciled env id a))))
    → ((config : LlamacppConfig) (s : Secrets)
        → plan_restart env id (reconciled env id a) ≡ ok (config, s)
        → P (after_restart env id s (with_launch config (reconciled env id a))))
    → P (handle_crash env id a)
unfolding handle_crash restart_after_crash
handle_crash_cases P env id a f g k = elim (Bool-cases (read_worked env id (reconciled env id a))) [
  | inl w ↦ elim (Result-cases (plan_restart env id (reconciled env id a))) [
    | inl (e, h) ↦ ground (arith, f e)
    | inr ((config, s), h) ↦ elim (Result-cases (env.start_llamacpp config)) [
      | inl (e, h2) ↦ ground (arith, g config (cat "start_llamacpp failed: " e))
      | inr (name, h2) ↦ ground (arith, k config s h)
    ]
  ]
  | inr w ↦ ground (arith, f "no successful response since start")
]

reconciled_gate :
    (env : Env) (id : String) (a : App) → Dict.get id (reconciled env id a).gate ≡ none
unfolding reconcile_dead_backend_with_capture reconcile_state unregister
reconciled_gate env id a = ground (arith, get-remove id id a.gate, eq_refl id)

reconciled_worked_map :
    (env : Env) (id : String) (a : App) → Dict.get id (reconciled env id a).worked_map ≡ none
unfolding reconcile_dead_backend_with_capture reconcile_state
reconciled_worked_map env id a = ground (arith, get-remove id id a.worked_map, eq_refl id)

-- As the decision finds it, the supervisor's entry is still that of the crash.
quarantined_after :
    (env : Env) (id reason : String) (a : App) (s : BackendState)
    → Dict.get id a.supervisor_map ≡ some s
    → IsOut id (quarantine_model env id reason (reconciled env id a))
unfolding reconcile_dead_backend_with_capture reconcile_state
quarantined_after env id reason a s h =
    quarantine-IsOut env id reason (reconciled env id a) s h (reconciled_gate env id a)
      (reconciled_worked_map env id a)

-- A crash of a backend that the supervisor tracks ends in one of two ways. Either its container is
-- launched with the API key and the user id that the secrets hold, its gate is open with their
-- slots, its worked flag is false and the supervisor takes it for healthy; or it has no gate and no
-- worked flag, and the supervisor holds it as quarantined.
pub crash_settles :
    (env : Env) (id : String) (a : App) (s : BackendState)
    → Dict.get id a.supervisor_map ≡ some s
    → IsRestarted id a (handle_crash env id a) ⊎ IsOut id (handle_crash env id a)
unfolding reconcile_dead_backend_with_capture reconcile_state unregister after_restart
crash_settles env id a s h =
    handle_crash_cases (λ b. IsRestarted id a b ⊎ IsOut id b) env id a
      (λ reason. inr (quarantined_after env id reason a s h))
      (λ config reason. inr (
        quarantine-IsOut env id reason (with_launch config (reconciled env id a)) s h
          (reconciled_gate env id a) (reconciled_worked_map env id a)))
      (λ config t e.
        let (stored, same) = planned_secrets env id (reconciled env id a) config t e in
        inl (
          t,
          config,
          stored,
          same.0,
          same.1,
          refl,
          after_restart-IsServing env id t (with_launch config (reconciled env id a)),
        ))

-- The decision after a crash does not look at the worked flag in memory, which reconciling the
-- backend has dropped: a backend that has served a request, by that flag, is quarantined if the row
-- of the model cannot be read.
pub crash_forgets_memory :
    (env : Env) (id : String) (a : App) (s : BackendState)
    → Dict.get id a.supervisor_map ≡ some s
    → Dict.get id a.worked_map ≡ some true
    → env.fails read_worked_row ≡ true
    → IsOut id (handle_crash env id a)
unfolding handle_crash reconcile_dead_backend_with_capture reconcile_state unregister read_worked
crash_forgets_memory env id a s h worked unread =
    rw dropped (quarantined_after env id "no successful response since start" a s h)
  where
    dropped : read_worked env id (reconciled env id a) ≡ false
    dropped = ground (arith, reconciled_worked_map env id a)
