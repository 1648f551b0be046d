-- ===== src/Supervisor/Start.antt =====
-- start_container_core of proxy/src/api/common.rs.
use sovereign_engine.Prelude.{
  ℕ, String, true, false, Option, none, some, ◌∷◌, ◌==◌, unwrap_or, if◌then◌else◌, Result, ok, err,
  ℤ, pos, as_u32, max_one, cat,
}
use sovereign_engine.Prelude.Dict
use sovereign_engine.Runtime.{
  WrappedRuntimeJson, LlamacppConfig, gpu_type_from_str, to_cli_args, parse, default_wrapped,
}
use sovereign_engine.Scheduler.Gate.{register}
use sovereign_engine.Supervisor.Store.{
  Model, Secrets, App, Env, read_model, set_loaded, clear_worked, write_overrides, write_secrets,
  update_model,
}
use sovereign_engine.Supervisor.Config.{repo_path, mmproj_path}
use sovereign_engine.Supervisor.Lifecycle.{
  find_model, pause_supervision, arm_supervision_starting, clear_quarantine,
}

pub record StartContainerParams : Type 0 where
  pub model_id : String
  pub backend_type : Option String
  pub gpu_type : Option String
  pub gpu_layers : Option ℕ
  pub parallel : Option ℕ

-- The answers of `start_container_core`.
pub data Started : Type 0 where
  started : String → String → Started
  model_not_found no_context_length no_filename : Started
  unknown_backend internal_error : String → Started

abbrev pub pause_duration : ℕ
pause_duration = 60000000000

-- llamacpp_base_url
abbrev pub llamacpp_base_url : String → String
llamacpp_base_url id = cat "http://" (cat "sovereign-llamacpp-" (cat id ":8080"))

abbrev pub wrapped_or_default : Result WrappedRuntimeJson → WrappedRuntimeJson
wrapped_or_default (ok w) = w
wrapped_or_default (err _) = default_wrapped

abbrev pub start_config :
    Model → StartContainerParams → WrappedRuntimeJson → ℤ → String → ℕ → String → LlamacppConfig
start_config m params wrapped context_length filename uid api_key = record {
  model_id = m.id;
  gguf_path = repo_path m.hf_repo filename;
  mmproj_path = mmproj_path m;
  gpu_type = gpu_type_from_str (unwrap_or params.gpu_type "none");
  gpu_layers = unwrap_or params.gpu_layers 99;
  context_size = as_u32 context_length;
  parallel = max_one (unwrap_or params.parallel 1);
  extra_args = to_cli_args wrapped.cli;
  uid = uid;
  api_key = api_key;
}

-- The write-back of what the container was launched with.
abbrev pub write_launch : Env → String → Result String → App → App
write_launch env id (err _) a = a
write_launch env id (ok blob) a =
    update_model (env.fails write_overrides) id (λ r. record r { runtime_overrides = blob }) a

unfoldable pub persist_launch : Env → Model → StartContainerParams → WrappedRuntimeJson → App → App
persist_launch env m params wrapped a =
    let new_wrapped : WrappedRuntimeJson = record {
      cli = wrapped.cli;
      launch = record {
        gpu_type = params.gpu_type;
        gpu_layers = params.gpu_layers;
        parallel = params.parallel;
      };
    } in
    write_launch env m.id (env.json.to_json new_wrapped) a

-- INSERT OR REPLACE INTO container_secrets
unfoldable pub persist_secrets : Env → String → Secrets → App → App
persist_secrets env id s a = record a {
  secrets = if env.fails write_secrets then a.secrets else Dict.insert id s a.secrets;
}

-- What follows a container that Docker has started.
unfoldable pub after_start : Env → Model → StartContainerParams → WrappedRuntimeJson → ℕ → App → App
unfolding persist_launch persist_secrets
after_start env m params wrapped uid a =
    let slots = max_one (unwrap_or params.parallel 1) in
    let b = persist_launch env m params wrapped a in
    let c =
      persist_secrets env m.id
        (record { container_uid = pos uid; api_key = env.api_key; parallel_slots = pos slots }) b in
    let d = record c { gate = register m.id slots c.gate } in
    let e = update_model (env.fails set_loaded) m.id (λ r. record r { loaded = true }) d in
    let f = record e { worked_map = Dict.insert m.id false e.worked_map } in
    let g = update_model (env.fails clear_worked) m.id (λ r. record r { worked = false }) f in
    arm_supervision_starting env.started_at m.id (clear_quarantine env m.id g)

-- The launch itself, with the pause in place.
unfoldable pub launch :
    Env → Model → StartContainerParams → WrappedRuntimeJson → ℤ → ℕ → App → App × Started
unfolding after_start
launch env m params wrapped context_length uid a = elim m.filename [
  | none ↦ (a, no_filename)
  | some filename ↦
      let config = start_config m params wrapped context_length filename uid env.api_key in
      let b = record a { launched = config ∷ a.launched } in
      elim (env.start_llamacpp config) [
        | err _ ↦ (b, internal_error "start_container")
        | ok name ↦ (after_start env m params wrapped uid b, started name (llamacpp_base_url m.id))
      ]
]

unfoldable pub start_container_core : Env → StartContainerParams → App → App × Started
unfolding launch
start_container_core env params a =
    if env.fails read_model
    then (a, internal_error "start_container:lookup")
    else elim (find_model false params.model_id a) [
      | none ↦ (a, model_not_found)
      | some m ↦ elim m.context_length [
        | none ↦ (a, no_context_length)
        | some context_length ↦ elim env.allocate_uid [
          | err _ ↦ (a, internal_error "start_container:allocate_uid")
          | ok uid ↦
              let wrapped = wrapped_or_default (parse env.json m.runtime_overrides) in
              let b = pause_supervision env.received_at pause_duration m.id a in
              let backend_type = unwrap_or params.backend_type m.backend_type in
              if backend_type == "llamacpp"
              then launch env m params wrapped context_length uid b
              else (b, unknown_backend backend_type)
        ]
      ]
    ]
