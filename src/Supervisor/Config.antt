-- ===== src/Supervisor/Config.antt =====
-- The configuration that a container is started with: rebuild_llamacpp_config of
-- proxy/src/supervisor/restart.rs.
use sovereign_engine.Prelude.{
  String, Bool, ◌&&◌, Option, none, some, not, is_some, unwrap_or, if◌then◌else◌, Result, ok, err,
  ◌>>=◌, ℤ, as_u32, max_one, cat, replace_slash,
}
use sovereign_engine.Runtime.{
  WrappedRuntimeJson, PersistedLaunchConfig, LlamacppConfig, gpu_type_from_str, to_cli_args,
}
use sovereign_engine.Supervisor.Store.{Model, Secrets}

-- ok_or_else
abbrev pub ok_or : {A : Type 0} → Option A → String → Result A
ok_or none e = err e
ok_or (some a) e = ok a

-- format!("{safe_repo}/{filename}")
abbrev pub repo_path : String → String → String
repo_path repo file = cat (replace_slash repo) (cat "/" file)

abbrev pub mmproj_path : Model → Option String
mmproj_path m = elim m.mmproj_filename [ none ↦ none | some f ↦ some (repo_path m.hf_repo f) ]

abbrev pub is_default_launch : PersistedLaunchConfig → Bool
is_default_launch l =
    not (is_some l.gpu_type) && (not (is_some l.gpu_layers) && not (is_some l.parallel))

-- The configuration, where the file and the context length are known.
abbrev pub launch_config : Model → Secrets → WrappedRuntimeJson → String → ℤ → LlamacppConfig
launch_config m s wrapped filename context_length = record {
  model_id = m.id;
  gguf_path = repo_path m.hf_repo filename;
  mmproj_path = mmproj_path m;
  gpu_type = gpu_type_from_str (unwrap_or wrapped.launch.gpu_type "none");
  gpu_layers = unwrap_or wrapped.launch.gpu_layers 99;
  context_size = as_u32 context_length;
  parallel = max_one (unwrap_or wrapped.launch.parallel 1);
  extra_args = to_cli_args wrapped.cli;
  uid = as_u32 s.container_uid;
  api_key = s.api_key;
}

abbrev pub refuse_legacy : Model → PersistedLaunchConfig → Result Unit
refuse_legacy m launch =
    if is_default_launch launch
    then err
        (cat "legacy runtime_overrides for model " (cat m.id " — operator must restart manually"))
    else ok tt

unfoldable pub rebuild_llamacpp_config :
    Model → Secrets → WrappedRuntimeJson → Result LlamacppConfig
rebuild_llamacpp_config m s wrapped = do
  filename ←
      ok_or m.filename
        (cat "model " (cat m.id " has no filename recorded — cannot determine GGUF path"))
  context_length ←
      ok_or m.context_length
        (cat "model " (cat m.id " has no context_length recorded — cannot restart"))
  _ ← refuse_legacy m wrapped.launch
  ok (launch_config m s wrapped filename context_length)
