-- ===== src/Supervisor/Store.antt =====
-- What the supervisor and the container handlers share: the tables `models`, `container_secrets`
-- and `backend_crash_log`, the maps of AppState, and the containers that were launched.
use sovereign_engine.Prelude.{ℕ, String, Bool, Option, List, Result, ℤ, ◌==◌, if◌then◌else◌}
use sovereign_engine.Prelude.Dict.{Dict}
use sovereign_engine.Prelude.Table.{update}
use sovereign_engine.Runtime.{LlamacppConfig, Json}
use sovereign_engine.Scheduler.Gate.{Gate}
use sovereign_engine.Supervisor.{BackendState}

-- The columns of `models` that this code reads or writes.
pub record Model : Type 0 where
  pub id : String
  pub hf_repo : String
  pub filename : Option String
  pub backend_type : String
  pub context_length : Option ℤ
  pub runtime_overrides : String
  pub mmproj_filename : Option String
  pub loaded : Bool
  pub worked : Bool
  pub quarantined_at : Option String
  pub quarantine_reason : Option String

pub record Secrets : Type 0 where
  pub container_uid : ℤ
  pub api_key : String
  pub parallel_slots : ℤ

pub record CrashRow : Type 0 where
  pub model_id : String
  pub container_id : Option String
  pub exit_code : Option ℤ
  pub oom_killed : Bool
  pub signal : Option String
  pub log_path : Option String

-- `launched` has the configurations that Docker was asked to start, the latest first.
pub record App : Type 0 where
  pub models : List Model
  pub secrets : Dict Secrets
  pub crash_log : List CrashRow
  pub supervisor_map : Dict BackendState
  pub worked_map : Dict Bool
  pub gate : Gate
  pub launched : List LlamacppConfig

-- The statements that the code sends; each may fail on its own.
pub data Query : Type 0 where
  read_worked_row read_backend_type read_model read_secrets read_loaded : Query
  set_loaded clear_loaded set_worked clear_worked write_overrides : Query
  write_secrets delete_secrets insert_crash write_quarantine erase_quarantine : Query

-- What `docker inspect` says of a container.
pub record ContainerState : Type 0 where
  pub running : Option Bool
  pub exit_code : Option ℤ
  pub oom_killed : Option Bool
  pub error : Option String

pub record Inspection : Type 0 where
  pub id : Option String
  pub state : Option ContainerState

-- What a step meets outside the process. `http` is the status of GET /health, or none where no
-- response came; `inspect` what Docker says when the probe asks, `inspect_crashed` when the crash
-- is recorded; `log_path` the file that the log was written to. The clock is read three times.
pub record Env : Type 0 where
  pub fails : Query → Bool
  pub json : Json
  pub http : Option ℕ
  pub inspect : String → Option Inspection
  pub inspect_crashed : Option Inspection
  pub log_path : Option String
  pub start_llamacpp : LlamacppConfig → Result String
  pub allocate_uid : Result ℕ
  pub api_key : String
  pub rfc3339 : String
  pub received_at : ℕ
  pub probed_at : ℕ
  pub started_at : ℕ

abbrev pub is_model : String → Model → Bool
is_model i m = m.id == i

-- UPDATE models SET … WHERE id = ?, whose error is at most logged.
abbrev pub update_model : Bool → String → (Model → Model) → App → App
update_model failed id f a = record a {
  models = if failed then a.models else update (is_model id) f a.models;
}
