-- ===== src/Supervisor/Lifecycle.antt =====
-- The start, stop and reconciliation of a container: proxy/src/api/common.rs, and the pause and
-- the worked flag of proxy/src/supervisor/mod.rs and proxy/src/proxy/streaming.rs. Each function is
-- one step; what other tasks do between its statements is not modelled.
use sovereign_engine.Prelude.{
  ℕ, ◌+◌, String, Bool, true, false, not, Option, none, some, ◌∷◌, ltb, leb, ◌&&◌, unwrap_or,
  if◌then◌else◌,
}
use sovereign_engine.Prelude.Dict
use sovereign_engine.Prelude.Dict.{Dict}
use sovereign_engine.Prelude.Table.{find_first}
use sovereign_engine.Scheduler.Gate.{unregister}
use sovereign_engine.Supervisor.{BackendState, starting, fresh}
use sovereign_engine.Supervisor.Store.{
  Model, CrashRow, App, Env, read_worked_row, read_backend_type, clear_loaded, set_worked,
  delete_secrets, insert_crash, erase_quarantine, is_model, update_model,
}

-- A row of `models`, where the query succeeds.
abbrev pub find_model : Bool → String → App → Option Model
find_model failed id a = if failed then none else find_first (is_model id) a.models

unfoldable pub lookup_backend_type : Env → String → App → String
lookup_backend_type env id a = elim (find_model (env.fails read_backend_type) id a) [
  | none ↦ "llamacpp"
  | some m ↦ m.backend_type
]

unfoldable pub read_worked : Env → String → App → Bool
read_worked env id a = elim (Dict.get id a.worked_map) [
  | some w ↦ w
  | none ↦ elim (find_model (env.fails read_worked_row) id a) [ none ↦ false | some m ↦ m.worked ]
]

-- record_worked of proxy/src/proxy/streaming.rs, with the UPDATE that it spawns.
unfoldable pub record_worked : Env → String → ℕ → App → App
record_worked env id status a =
    if not (leb 200 status && ltb status 300)
    then a
    else if unwrap_or (Dict.get id a.worked_map) false
    then a
    else update_model (env.fails set_worked) id (λ m. record m { worked = true })
        (record a { worked_map = Dict.insert id true a.worked_map })

-- The entry that `pause_supervision` leaves.
abbrev pub paused : ℕ → ℕ → Option BackendState → BackendState
paused now until none = fresh starting now (some until)
paused now until (some s) = record s { pause_until = some until }

unfoldable pub pause_supervision : ℕ → ℕ → String → App → App
pause_supervision now duration id a =
    let entry = paused now (now + duration) (Dict.get id a.supervisor_map) in
    record a { supervisor_map = Dict.insert id entry a.supervisor_map }

unfoldable pub arm_supervision_starting : ℕ → String → App → App
arm_supervision_starting now id a = record a {
  supervisor_map = Dict.insert id (fresh starting now none) a.supervisor_map;
}

unfoldable pub clear_quarantine : Env → String → App → App
clear_quarantine env id a =
    update_model (env.fails erase_quarantine) id
      (λ m. record m { quarantined_at = none; quarantine_reason = none }) a

unfoldable pub post_stop_cleanup : Env → String → App → App
post_stop_cleanup env id a =
    update_model (env.fails clear_loaded) id (λ m. record m { loaded = false })
      (record a {
        gate = unregister id a.gate;
        supervisor_map = Dict.remove id a.supervisor_map;
        worked_map = Dict.remove id a.worked_map;
        secrets = if env.fails delete_secrets then a.secrets else Dict.remove id a.secrets;
      })

unfoldable pub reconcile_state : Env → String → App → App
reconcile_state env id a =
    let b = update_model (env.fails clear_loaded) id (λ m. record m { loaded = false }) a in
    record b { gate = unregister id b.gate; worked_map = Dict.remove id b.worked_map }

abbrev pub add_crash : Bool → CrashRow → App → App
add_crash failed row a = record a { crash_log = if failed then a.crash_log else row ∷ a.crash_log }

unfoldable pub reconcile_dead_backend : Env → String → Option String → String → App → App
unfolding reconcile_state
reconcile_dead_backend env id container reason a =
    add_crash (env.fails insert_crash)
      (record {
        model_id = id;
        container_id = container;
        exit_code = none;
        oom_killed = false;
        signal = some reason;
        log_path = none;
      })
      (reconcile_state env id a)
