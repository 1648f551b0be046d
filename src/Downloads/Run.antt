-- ===== src/Downloads/Run.antt =====
-- The task of a download: run_download of proxy/src/api/hf.rs, with all that it calls.
use sovereign_engine.Prelude.{
  ℕ, ◌+◌, String, Bool, true, false, not, ◌||◌, ◌&&◌, Option, none, some, List, [], ◌∷◌, leb,
  unwrap_or, if◌then◌else◌, Result, ok, err, cat, replace_slash,
}
use sovereign_engine.Gguf.Metadata.{GgufMetadata, no_metadata}
use sovereign_engine.Gguf.Estimate.{compute_kv_aggregates, auto_runtime_overrides}
use sovereign_engine.Downloads.{
  DownloadState, DownloadRequest, Downloads, DiskUsage, complete, change, set_download_error,
  is_download_cancelled, Act, acted, sum_u64, validate_disk_space,
}
use sovereign_engine.Downloads.Files.{
  HfFileEntry, contains, starts_with, ends_with, list_downloadable_files, detect_primary_file,
  detect_mmproj_file,
}

-- How far a part of the task comes: it waits for a piece that never comes, as the client has no
-- timeout, or it ends with Err(()), or with a number of bytes.
pub data Got : Type 0 where
  waits stops : Got
  got : ℕ → Got

-- A piece of a body: what others do before it arrives, its length or an error of the stream, or none
-- where it never arrives, and whether writing it fails.
pub record Chunk : Type 0 where
  pub before : List Act
  pub arrives : Option (Result ℕ)
  pub write_fails : Bool

abbrev pub with_progress : ℕ → DownloadState → DownloadState
with_progress n d = record d { progress_bytes = n }

-- What others do while the task waits for ever is not in the state that it leaves.
unfoldable pub stream_chunks : String → ℕ → List Chunk → ℕ → Downloads → Downloads × Got
unfolding acted is_download_cancelled set_download_error change
stream_chunks id offset [] done ds = (ds, got done)
stream_chunks id offset (c ∷ cs) done ds = elim c.arrives [
  | none ↦ (ds, waits)
  | some piece ↦
      let now = acted c.before ds in
      if is_download_cancelled id now then (now, stops) else elim piece [
        | err e ↦ (set_download_error id (cat "Stream error: " e) now, stops)
        | ok n ↦ elim c.write_fails [
          | true ↦ (set_download_error id "Write error" now, stops)
          | false ↦
              stream_chunks id offset cs (done + n)
                (change id (with_progress (offset + (done + n))) now)
        ]
      ]
]

-- What a file meets: what others do before it, whether its folder can be made, the status of the
-- answer or an error, or none where no answer comes, whether the file can be created, and the body.
pub record Transfer : Type 0 where
  pub before : List Act
  pub folder_fails : Bool
  pub answer : Option (Result ℕ)
  pub create_fails : Bool
  pub body : List Chunk

unfoldable pub stream_response_to_file : String → ℕ → Transfer → Downloads → Downloads × Got
unfolding stream_chunks set_download_error
stream_response_to_file id offset t ds =
    if t.create_fails
    then (set_download_error id "Failed to create file" ds, stops)
    else stream_chunks id offset t.body 0 ds

unfoldable pub is_unsafe : String → Bool
unfolding contains starts_with
is_unsafe path = contains path ".." || starts_with path "/"

unfoldable pub download_single_file : String → ℕ → String → Transfer → Downloads → Downloads × Got
unfolding is_unsafe stream_response_to_file set_download_error
download_single_file id offset path t ds =
    if is_unsafe path
    then (set_download_error id "Refusing file with unsafe path" ds, stops)
    else if t.folder_fails
    then (set_download_error id "Failed to create directory" ds, stops)
    else elim t.answer [
      | none ↦ (ds, waits)
      | some (err e) ↦ (set_download_error id (cat "Failed to download: " e) ds, stops)
      | some (ok status) ↦
          if leb 200 status && leb status 299
          then stream_response_to_file id offset t ds
          else (set_download_error id "Download returned an HTTP error" ds, stops)
    ]

unfoldable pub download_files :
    (String → Transfer) → String → List HfFileEntry → ℕ → Downloads → Downloads × Got
unfolding acted is_download_cancelled download_single_file
download_files transfer id [] total ds = (ds, got total)
download_files transfer id (f ∷ fs) total ds =
    let now = acted (transfer f.path).before ds in
    if is_download_cancelled id now
    then (now, stops)
    else let out = download_single_file id total f.path (transfer f.path) now in
      elim out.1 [
        | waits ↦ (out.0, waits)
        | stops ↦ (out.0, stops)
        | got n ↦ download_files transfer id fs (total + n) out.0
      ]

unfoldable pub download_files_to_disk :
    Bool → (String → Transfer) → String → List HfFileEntry → Downloads → Downloads × Got
unfolding download_files set_download_error
download_files_to_disk folder_fails transfer id fs ds =
    if folder_fails
    then (set_download_error id "Failed to create directory" ds, stops)
    else download_files transfer id fs 0 ds

pub record DownloadedModelRow : Type 0 where
  pub model_id : String
  pub hf_repo : String
  pub primary_filename : Option String
  pub mmproj_filename : Option String
  pub size_bytes : ℕ
  pub category_id : Option String
  pub backend_type : String
  pub model_metadata : Option String
  pub gguf_meta : GgufMetadata
  pub kv_bpt_global : Option ℕ
  pub kv_bpt_swa : Option ℕ
  pub runtime_overrides_json : String

-- What a task meets: the client, the listing of the repository, or none where no answer comes, the
-- disk, the transfers by path, the tokenizer's configuration, or none where the fetch of it never ends,
-- the headers of files by path, the id that is drawn, what others do
-- before the end, and whether the INSERT fails.
pub record RunEnv : Type 0 where
  pub client : Result Unit
  pub listing : Option (Result (List HfFileEntry))
  pub reaches : ℕ → ℕ → Bool
  pub disk : Option DiskUsage
  pub model_path : String
  pub folder_fails : Bool
  pub transfer : String → Transfer
  pub tokenizer : Option (Option String)
  pub header : String → Result GgufMetadata
  pub model_id : String
  pub before_end : List Act
  pub insert_fails : Bool
  pub lower : String → String
  pub sort : List String → List String

unfoldable pub total_size : List HfFileEntry → ℕ
total_size [] = 0
total_size (f ∷ fs) = sum_u64 (unwrap_or f.size 0) (total_size fs)

-- The first file with a header that can be read.
abbrev pub first_header : (String → Result GgufMetadata) → String → List HfFileEntry → GgufMetadata
unfolding ends_with
first_header header dir [] = no_metadata
first_header header dir (f ∷ fs) =
    let rest = first_header header dir fs in
    if ends_with f.path ".gguf"
    then elim (header (cat dir (cat "/" f.path))) [ ok m ↦ m | err e ↦ rest ]
    else rest

unfoldable pub row_of :
    RunEnv → DownloadRequest → List HfFileEntry → ℕ → Option String → DownloadedModelRow
unfolding detect_primary_file detect_mmproj_file compute_kv_aggregates auto_runtime_overrides
    first_header replace_slash
row_of env req fs size tokenizer =
    let meta =
      first_header env.header (cat env.model_path (cat "/" (replace_slash req.hf_repo))) fs in
    record {
      model_id = env.model_id;
      hf_repo = req.hf_repo;
      primary_filename = detect_primary_file fs;
      mmproj_filename = detect_mmproj_file env.lower env.sort fs;
      size_bytes = size;
      category_id = req.category_id;
      backend_type = unwrap_or req.backend_type "llamacpp";
      model_metadata = tokenizer;
      gguf_meta = meta;
      kv_bpt_global = (compute_kv_aggregates meta).0;
      kv_bpt_swa = (compute_kv_aggregates meta).1;
      runtime_overrides_json = auto_runtime_overrides meta;
    }

abbrev pub completed : ℕ → DownloadState → DownloadState
completed n d = record d { status = complete; progress_bytes = n }

-- The task waits for ever, or it returns, with the row of the model that it inserted.
pub data Outcome : Type 0 where
  waiting : Outcome
  returned : Option DownloadedModelRow → Outcome

-- The steps from the insertion of the model on.
unfoldable pub store_model :
    RunEnv
    → DownloadRequest
    → String
    → List HfFileEntry
    → ℕ
    → Option String
    → Downloads
    → Downloads × Outcome
unfolding row_of set_download_error change
store_model env req id fs size tokenizer ds =
    if env.insert_fails
    then (set_download_error id "Download complete but DB registration failed" ds, returned none)
    else (change id (completed size) ds, returned (some (row_of env req fs size tokenizer)))

abbrev pub with_total : ℕ → DownloadState → DownloadState
with_total n d = record d { total_bytes = n }

unfoldable pub fetch :
    RunEnv → DownloadRequest → String → List HfFileEntry → Downloads → Downloads × Outcome
unfolding total_size change validate_disk_space download_files_to_disk store_model acted
fetch env req id fs ds =
    let checked =
      validate_disk_space env.reaches env.disk id (total_size fs)
        (change id (with_total (total_size fs)) ds) in
    if not checked.1
    then (checked.0, returned none)
    else let out = download_files_to_disk env.folder_fails env.transfer id fs checked.0 in
      elim out.1 [
        | waits ↦ (out.0, waiting)
        | stops ↦ (out.0, returned none)
        | got size ↦ elim env.tokenizer [
          | none ↦ (out.0, waiting)
          | some tokenizer ↦ store_model env req id fs size tokenizer (acted env.before_end out.0)
        ]
      ]

unfoldable pub run_download : RunEnv → DownloadRequest → String → Downloads → Downloads × Outcome
unfolding list_downloadable_files fetch set_download_error
run_download env req id ds = elim env.client [
  | err e ↦ (set_download_error id e ds, returned none)
  | ok u ↦ elim env.listing [
    | none ↦ (ds, waiting)
    | some listing ↦ elim (list_downloadable_files listing req.files) [
      | err e ↦ (set_download_error id e ds, returned none)
      | ok fs ↦ fetch env req id fs ds
    ]
  ]
]
