-- ===== src/Downloads.antt =====
-- Downloads from Hugging Face: proxy/src/api/hf.rs. The map of downloads is the state; a task reads
-- what the network and the disk give it from lists, each with what other tasks do before.
pub mod Files
pub mod Run
pub mod Kept
pub mod Ends
pub mod Variants
pub mod Tests
use sovereign_engine.Prelude.{
  ℕ, ◌+◌, ◌-◌, ◌%◌, ◌^◌, String, Bool, true, false, not, ◌&&◌, ◌||◌, Option, none, some, List, [],
  ◌∷◌, ◌==◌, ltb, is_some, unwrap_or, if◌then◌else◌, Result, ok, err, cat,
}
use sovereign_engine.Prelude.Dict
use sovereign_engine.Prelude.Dict.{Dict, get, insert}

pub data DownloadStatus : Type 0 where
  downloading complete failed cancelled : DownloadStatus

pub record DownloadState : Type 0 where
  pub hf_repo : String
  pub progress_bytes : ℕ
  pub total_bytes : ℕ
  pub status : DownloadStatus
  pub error : Option String
  pub category_id : Option String
  pub backend_type : String

-- The key is the id of the download.
abbrev pub Downloads : Type 0
Downloads = Dict DownloadState

abbrev pub is_downloading : DownloadStatus → Bool
is_downloading downloading = true
is_downloading complete = false
is_downloading failed = false
is_downloading cancelled = false

abbrev pub is_cancelled : DownloadStatus → Bool
is_cancelled cancelled = true
is_cancelled downloading = false
is_cancelled complete = false
is_cancelled failed = false

-- get_mut
unfoldable pub change : String → (DownloadState → DownloadState) → Downloads → Downloads
unfolding get insert
change id f ds = elim (get id ds) [ none ↦ ds | some d ↦ insert id (f d) ds ]

abbrev pub failed_by : String → DownloadState → DownloadState
failed_by msg d = record d { status = failed; error = some msg }

unfoldable pub set_download_error : String → String → Downloads → Downloads
unfolding change
set_download_error id msg ds = change id (failed_by msg) ds

unfoldable pub is_download_cancelled : String → Downloads → Bool
unfolding get
is_download_cancelled id ds = elim (get id ds) [ none ↦ false | some d ↦ is_cancelled d.status ]

-- With the status of the answer.
unfoldable pub cancel_download : String → Downloads → Downloads × ℕ
unfolding get insert
cancel_download id ds = elim (get id ds) [
  | none ↦ (ds, 404)
  | some d ↦
      if is_downloading d.status
      then (insert id (record d { status = cancelled }) ds, 200)
      else (ds, 409)
]

pub record DiskUsage : Type 0 where
  pub total_bytes : ℕ
  pub used_bytes : ℕ
  pub free_bytes : ℕ

-- `reaches u t` is `u as f64 / t as f64 * 100.0 >= 95.0`.
abbrev pub is_full : (ℕ → ℕ → Bool) → ℕ → DiskUsage → Bool
is_full reaches used d = if ltb 0 d.total_bytes then reaches used d.total_bytes else false

pub record DownloadRequest : Type 0 where
  pub hf_repo : String
  pub files : Option (List String)
  pub category_id : Option String
  pub backend_type : Option String

-- The first lock of start_download: is the repository being downloaded?
unfoldable pub in_progress : String → Downloads → Bool
in_progress repo [] = false
in_progress repo ((i, d) ∷ ds) =
    let rest = in_progress repo ds in d.hf_repo == repo && is_downloading d.status || rest

abbrev pub new_download : DownloadRequest → DownloadState
new_download req = record {
  hf_repo = req.hf_repo;
  progress_bytes = 0;
  total_bytes = 0;
  status = downloading;
  error = none;
  category_id = req.category_id;
  backend_type = unwrap_or req.backend_type "llamacpp";
}

-- The flag says that the name of the repository is valid; `df` can fail. A task is spawned for 202.
unfoldable pub start_download :
    Bool → (ℕ → ℕ → Bool) → Option DiskUsage → String → DownloadRequest → Downloads → Downloads × ℕ
unfolding in_progress insert
start_download valid reaches disk id req ds =
    if not valid
    then (ds, 400)
    else if elim disk [ none ↦ false | some d ↦ is_full reaches d.used_bytes d ]
    then (ds, 507)
    else if in_progress req.hf_repo ds
    then (ds, 409)
    else (insert id (new_download req) ds, 202)

-- What other tasks do to the map: a cancellation of any download, or a write of another's entry.
pub data Act : Type 0 where
  cancels : String → Act
  writes : String → DownloadState → Act

unfoldable pub acted : List Act → Downloads → Downloads
unfolding cancel_download insert
acted [] ds = ds
acted (cancels i ∷ more) ds = acted more (cancel_download i ds).0
acted (writes i d ∷ more) ds = acted more (insert i d ds)

abbrev pub sum_u64 : ℕ → ℕ → ℕ
sum_u64 a b = (a + b) % 2 ^ 64

-- The bytes that the other downloads still want. Sums of a u64 wrap, as in a release build.
unfoldable pub other_inflight : String → Downloads → ℕ
other_inflight id [] = 0
other_inflight id ((i, d) ∷ ds) =
    sum_u64
      (if not (i == id) && is_downloading d.status then d.total_bytes - d.progress_bytes else 0)
      (other_inflight id ds)

-- The result says whether the download may go on. The texts of the errors are shortened.
unfoldable pub validate_disk_space :
    (ℕ → ℕ → Bool) → Option DiskUsage → String → ℕ → Downloads → Downloads × Bool
unfolding other_inflight set_download_error
validate_disk_space reaches none id total ds = (ds, true)
validate_disk_space reaches (some disk) id total ds =
    let required = sum_u64 total (other_inflight id ds) in
    if ltb disk.free_bytes required
    then (set_download_error id "Not enough disk space" ds, false)
    else if is_full reaches (sum_u64 disk.used_bytes required) disk
    then (set_download_error id "Download would push disk above 95%" ds, false)
    else (ds, true)
