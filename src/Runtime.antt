-- ===== src/Runtime.antt =====
-- proxy/src/docker/runtime_overrides.rs, and the configuration of a container in
-- proxy/src/docker/llamacpp.rs. The JSON parser and printer are parameters.
pub mod Laws
pub mod Tests
use text.Mathlib.Text.{starts_with}
use sovereign_engine.Prelude.{
  ℕ, ◌+◌, String, Bool, true, false, ◌&&◌, ◌||◌, Option, none, some, List, [], ◌∷◌, ◌++◌, ltb, leb,
  eqb, ◌==◌, if◌then◌else◌, Result, ok, err, ◌>>=◌, decimal_text, cat, lower_is,
}

pub record ModelRuntimeOverrides : Type 0 where
  pub cache_ram_mib : Option ℕ
  pub swa_full : Option Bool
  pub ctx_checkpoints : Option ℕ
  pub cache_reuse : Option ℕ
  pub extra : List String

pub record PersistedLaunchConfig : Type 0 where
  pub gpu_type : Option String
  pub gpu_layers : Option ℕ
  pub parallel : Option ℕ

pub record WrappedRuntimeJson : Type 0 where
  pub cli : ModelRuntimeOverrides
  pub launch : PersistedLaunchConfig

abbrev pub default_overrides : ModelRuntimeOverrides
default_overrides = record {
  cache_ram_mib = none;
  swa_full = none;
  ctx_checkpoints = none;
  cache_reuse = none;
  extra = [];
}

abbrev pub default_launch : PersistedLaunchConfig
default_launch = record { gpu_type = none; gpu_layers = none; parallel = none }

abbrev pub default_wrapped : WrappedRuntimeJson
default_wrapped = record { cli = default_overrides; launch = default_launch }

abbrev pub forbidden_extra_prefixes : List String
forbidden_extra_prefixes =
    "--model" ∷ "--host" ∷ "--port" ∷ "--api-key" ∷ "-ngl" ∷ "-c" ∷ "-np" ∷ []

abbrev pub max_cache_ram_mib : ℕ
max_cache_ram_mib = 16384

abbrev pub max_ctx_checkpoints : ℕ
max_ctx_checkpoints = 128

abbrev pub max_cache_reuse : ℕ
max_cache_reuse = 8192

-- A flag with its number, where there is one.
abbrev pub numbered : String → Option ℕ → List String
numbered flag none = []
numbered flag (some n) = flag ∷ decimal_text n ∷ []

abbrev pub swa_flag : Option Bool → List String
swa_flag (some true) = "--swa-full" ∷ []
swa_flag _ = []

-- ModelRuntimeOverrides::to_cli_args
unfoldable pub to_cli_args : ModelRuntimeOverrides → List String
to_cli_args o =
    numbered "--cache-ram" o.cache_ram_mib
    ++ swa_flag o.swa_full
    ++ numbered "-ctxcp" o.ctx_checkpoints
    ++ numbered "--cache-reuse" o.cache_reuse
    ++ o.extra

-- The entry is the flag, or the flag with "=value".
abbrev pub is_flag : String → String → Bool
is_flag entry flag = (entry == flag) || starts_with entry (cat flag "=")

unfoldable pub is_reserved : List String → String → Bool
is_reserved [] entry = false
is_reserved (flag ∷ flags) entry = is_flag entry flag || is_reserved flags entry

-- The test that `validate` makes of each extra argument.
unfoldable pub is_forbidden : String → Bool
unfolding is_reserved
is_forbidden entry = is_reserved forbidden_extra_prefixes entry

unfoldable pub check_extra : List String → Result Unit
check_extra [] = ok tt
check_extra (entry ∷ extra) =
    if is_forbidden entry
    then err (cat "extra argument '" (cat entry "' is reserved by the proxy"))
    else check_extra extra

-- A number over its maximum is refused.
abbrev pub check_max : String → ℕ → Option ℕ → Result Unit
check_max field max none = ok tt
check_max field max (some n) =
    if ltb max n
    then err
        (cat field (cat " " (cat (decimal_text n) (cat " exceeds maximum " (decimal_text max)))))
    else ok tt

-- ModelRuntimeOverrides::validate
unfoldable pub validate : ModelRuntimeOverrides → Result Unit
unfolding check_extra
validate o = do
  _ ← check_max "cache_ram_mib" max_cache_ram_mib o.cache_ram_mib
  _ ← check_max "ctx_checkpoints" max_ctx_checkpoints o.ctx_checkpoints
  _ ← check_max "cache_reuse" max_cache_reuse o.cache_reuse
  check_extra o.extra

-- serde_json's readers and writer for the two shapes.
pub record Json : Type 0 where
  pub from_wrapped : String → Result WrappedRuntimeJson
  pub from_overrides : String → Result ModelRuntimeOverrides
  pub to_json : WrappedRuntimeJson → Result String

-- WrappedRuntimeJson::parse
unfoldable pub parse : Json → String → Result WrappedRuntimeJson
parse json blob = elim (json.from_wrapped blob) [
  | ok wrapped ↦ ok wrapped
  | err _ ↦ do cli ← json.from_overrides blob; ok (record { cli = cli; launch = default_launch })
]

pub data GpuType : Type 0 where
  no_gpu vulkan : GpuType

-- GpuType::from_str
unfoldable pub gpu_type_from_str : String → GpuType
gpu_type_from_str s = if lower_is "vulkan" s then vulkan else no_gpu

pub record LlamacppConfig : Type 0 where
  pub model_id : String
  pub gguf_path : String
  pub mmproj_path : Option String
  pub gpu_type : GpuType
  pub gpu_layers : ℕ
  pub context_size : ℕ
  pub parallel : ℕ
  pub extra_args : List String
  pub uid : ℕ
  pub api_key : String
