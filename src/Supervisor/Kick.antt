-- ===== src/Supervisor/Kick.antt =====
-- One probe of a backend and what follows a crash: handle_kick of proxy/src/supervisor/mod.rs with
-- restart_after_crash and quarantine_model of proxy/src/supervisor/restart.rs. The supervisor
-- handles one kick after the other; what handlers do meanwhile is not modelled.
use sovereign_engine.Prelude.{
  ℕ, String, Bool, true, false, ◌&&◌, ◌||◌, Option, none, some, ◌∷◌, ◌==◌, ltb, leb, eqb, unwrap_or,
  if◌then◌else◌, Result, ok, err, ◌>>=◌, map_err, ℤ, as_u32, at_least_one, cat,
}
use sovereign_engine.Prelude.Dict
use sovereign_engine.Runtime.{LlamacppConfig, parse}
use sovereign_engine.Scheduler.Gate.{register}
use sovereign_engine.Supervisor.{
  BackendState, ProbeOutcome, healthy, quarantined, healthy_ok, loading_503, transport_failure,
  other_failure, container_stopped, transition, is_terminal, is_crashed, fresh,
}
use sovereign_engine.Supervisor.Store.{
  Secrets, App, Env, CrashRow, Inspection, read_model, read_secrets, set_loaded, clear_worked,
  insert_crash, write_quarantine, update_model,
}
use sovereign_engine.Supervisor.Config.{ok_or, rebuild_llamacpp_config}
use sovereign_engine.Supervisor.Lifecycle.{
  find_model, lookup_backend_type, read_worked, reconcile_state, add_crash,
}

unfoldable pub classify_probe : Option ℕ → ProbeOutcome
classify_probe none = transport_failure
classify_probe (some status) =
    if leb 200 status && ltb status 300
    then healthy_ok
    else if eqb status 503
    then loading_503
    else other_failure

-- info.state.as_ref().and_then(|s| s.running).unwrap_or(false)
abbrev pub is_running : Inspection → Bool
is_running i = elim i.state [ none ↦ false | some s ↦ unwrap_or s.running false ]

-- What the probe's outcome becomes when Docker is asked about the container.
unfoldable pub confirm : Option Inspection → ProbeOutcome → ProbeOutcome
confirm i healthy_ok = healthy_ok
confirm none transport_failure = container_stopped
confirm none o = o
confirm (some i) o = if is_running i then o else container_stopped

abbrev pub container_name : String → String
container_name id = cat "sovereign-llamacpp-" id

abbrev pub not_empty : Option String → Option String
not_empty none = none
not_empty (some s) = if s == "" then none else some s

-- The fields of CrashCapture that the row of the crash log is made of.
pub record CrashCapture : Type 0 where
  pub container_id : Option String
  pub exit_code : Option ℤ
  pub oom_killed : Bool
  pub signal : Option String

-- The inspection of capture_crash_state; the log is not modelled.
unfoldable pub capture_crash_state : Option Inspection → CrashCapture
capture_crash_state none = record {
  container_id = none;
  exit_code = none;
  oom_killed = false;
  signal = none;
}
capture_crash_state (some i) = elim i.state [
  | none ↦ record { container_id = i.id; exit_code = none; oom_killed = false; signal = none }
  | some s ↦ record {
    container_id = i.id;
    exit_code = s.exit_code;
    oom_killed = unwrap_or s.oom_killed false;
    signal = not_empty s.error;
  }
]

-- The row of the crash log.
abbrev pub crash_row : String → CrashCapture → Option String → String → CrashRow
crash_row id c log_path reason = record {
  model_id = id;
  container_id = c.container_id;
  exit_code = c.exit_code;
  oom_killed = c.oom_killed;
  signal = some (unwrap_or c.signal reason);
  log_path = log_path;
}

unfoldable pub reconcile_dead_backend_with_capture :
    Env → String → CrashCapture → String → App → App
reconcile_dead_backend_with_capture env id c reason a =
    add_crash (env.fails insert_crash) (crash_row id c env.log_path reason)
      (reconcile_state env id a)

-- The entry of the supervisor's map, if there is one, is quarantined.
abbrev pub quarantine_entry : String → Option BackendState → App → App
quarantine_entry id none a = a
quarantine_entry id (some s) a = record a {
  supervisor_map = Dict.insert id (record s { fsm = quarantined }) a.supervisor_map;
}

unfoldable pub quarantine_model : Env → String → String → App → App
quarantine_model env id reason a = quarantine_entry id (Dict.get id a.supervisor_map) (
    update_model (env.fails write_quarantine) id
      (λ m. record m { quarantined_at = some env.rfc3339; quarantine_reason = some reason }) a)

-- A query for one row; the text is what the error of a missing row says.
abbrev pub fetched : {A : Type 0} → Bool → String → String → Option A → Result A
fetched true what missing o = err what
fetched false what missing o = ok_or o missing

-- The part of `restart_after_crash` before the launch.
unfoldable pub plan_restart : Env → String → App → Result (LlamacppConfig × Secrets)
plan_restart env id a = do
  m ←
      fetched (env.fails read_model) "DB error fetching model row"
        (cat "missing persisted state for restart: model " (cat id " not found"))
        (find_model false id a)
  s ←
      fetched (env.fails read_secrets) "DB error fetching container_secrets"
        (cat "missing persisted state for restart: container_secrets row missing for " id)
        (Dict.get id a.secrets)
  wrapped ←
      map_err (cat (cat "failed to parse runtime_overrides for " (cat id ": ")))
        (parse env.json m.runtime_overrides)
  _ ← supported m.backend_type
  config ← rebuild_llamacpp_config m s wrapped
  ok (config, s)
  where
    supported : String → Result Unit
    supported backend =
        if backend == "llamacpp"
        then ok tt
        else err (cat "unsupported backend_type for restart: " backend)

-- The bookkeeping behind the launch.
unfoldable pub after_restart : Env → String → Secrets → App → App
after_restart env id s a =
    let b = record a { worked_map = Dict.insert id false a.worked_map } in
    let c = update_model (env.fails clear_worked) id (λ m. record m { worked = false }) b in
    let d = record c { gate = register id (as_u32 (at_least_one s.parallel_slots)) c.gate } in
    let e = update_model (env.fails set_loaded) id (λ m. record m { loaded = true }) d in
    record e {
      supervisor_map = Dict.insert id (fresh healthy env.started_at none) e.supervisor_map;
    }

unfoldable pub restart_after_crash : Env → String → App → App × Result Unit
unfolding plan_restart after_restart
restart_after_crash env id a = elim (plan_restart env id a) [
  | err e ↦ (a, err e)
  | ok (config, s) ↦
      let b = record a { launched = config ∷ a.launched } in
      elim (env.start_llamacpp config) [
        | err e ↦ (b, err (cat "start_llamacpp failed: " e))
        | ok name ↦ (after_restart env id s b, ok tt)
      ]
]

-- What follows the crash, from the capture on.
unfoldable pub handle_crash : Env → String → App → App
unfolding reconcile_dead_backend_with_capture restart_after_crash
handle_crash env id a =
    let c = capture_crash_state env.inspect_crashed in
    let b = reconcile_dead_backend_with_capture env id c "supervisor_probe_failure" a in
    if read_worked env id b
    then (let (d, r) = restart_after_crash env id b in
        elim r [ ok _ ↦ d | err reason ↦ quarantine_model env id reason d ])
    else quarantine_model env id "no successful response since start" b

-- until > now
abbrev pub is_paused : ℕ → BackendState → Bool
is_paused now s = elim s.pause_until [ none ↦ false | some until ↦ ltb now until ]

-- The probe, where the backend is to be probed.
unfoldable pub probe : Env → String → BackendState → App → App
unfolding handle_crash
probe env id prev a =
    let outcome = confirm (env.inspect (container_name id)) (classify_probe env.http) in
    let next = transition env.probed_at prev outcome in
    let b = record a { supervisor_map = Dict.insert id next a.supervisor_map } in
    if is_crashed next.fsm then handle_crash env id b else b

-- handle_kick. `backend_base_url` panics on a backend type other than "llamacpp": the result is
-- then none, and the task of the supervisor ends.
unfoldable pub handle_kick : Env → String → App → Option App
unfolding probe
handle_kick env id a = elim (Dict.get id a.supervisor_map) [
  | none ↦ some a
  | some prev ↦
      if is_paused env.received_at prev || is_terminal prev.fsm
      then some a
      else if lookup_backend_type env id a == "llamacpp"
      then some (probe env id prev a)
      else none
]
