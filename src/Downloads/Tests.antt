-- ===== src/Downloads/Tests.antt =====
-- Runs of the downloads of proxy/src/api/hf.rs at concrete requests.
use sovereign_engine.Prelude.{
  ℕ, zero, suc, arith, String, Bool, true, false, none, some, List, [], ◌∷◌, ok, ◌≡◌, refl, is_some,
}
use sovereign_engine.Prelude.Dict.{get}
use sovereign_engine.Gguf.Metadata.{no_metadata}
use sovereign_engine.Downloads.{DownloadRequest, Downloads, start_download, new_download, cancels}
use sovereign_engine.Downloads.Files.{
  HfFileEntry, validate_hf_repo, detect_primary_file, detect_mmproj_file, backfill_mmproj,
}
use sovereign_engine.Downloads.Run.{Transfer, RunEnv, waiting, run_download}
use sovereign_engine.Downloads.Kept.{is_complete, is_ended}
use sovereign_engine.Downloads.Ends.{run_download-ends}
use sovereign_engine.Downloads.Variants.{Same, is_name, root_names, backfill_mmproj-detect}
use sovereign_engine.Prelude.Table.{count}

abbrev plain : String → String
plain s = s

abbrev as_is : List String → List String
as_is ss = ss

abbrev files : List HfFileEntry
files =
    record { file_type = "file"; path = "model-q4.gguf"; size = some 5 }
    ∷ record { file_type = "file"; path = "mmproj-bf16.gguf"; size = some 1 }
    ∷ record { file_type = "file"; path = "mmproj-f16.gguf"; size = some 1 }
    ∷ record { file_type = "file"; path = "old/mmproj-f16.gguf"; size = none }
    ∷ []

names_test : validate_hf_repo "org/..model" ≡ false
unfolding validate_hf_repo
names_test = refl

primary_test : detect_primary_file files ≡ some "model-q4.gguf"
unfolding detect_primary_file
primary_test = refl

mmproj_test : detect_mmproj_file plain as_is files ≡ some "mmproj-f16.gguf"
unfolding detect_mmproj_file
mmproj_test = refl

abbrev copies : ℕ → String → List String → List String
copies zero n ns = ns
copies (suc k) n ns = n ∷ copies k n ns

-- Sorting by counting, for two names.
abbrev counted : List String → List String
counted ns =
    copies (count (is_name "mmproj-bf16.gguf") ns) "mmproj-bf16.gguf"
      (copies (count (is_name "mmproj-f16.gguf") ns) "mmproj-f16.gguf" [])

counted-Same : (xs ys : List String) → Same xs ys → counted xs ≡ counted ys
counted-Same xs ys h = rw (h "mmproj-bf16.gguf", h "mmproj-f16.gguf") refl

-- The order in which the folder is read is another one.
abbrev folder : List String
folder = "mmproj-f16.gguf" ∷ "model-q4.gguf" ∷ "mmproj-bf16.gguf" ∷ []

folder-Same : Same folder (root_names files)
unfolding root_names
folder-Same n = omega arith

backfill_mmproj-detect_example :
    backfill_mmproj plain counted folder ≡ detect_mmproj_file plain counted files
backfill_mmproj-detect_example =
    backfill_mmproj-detect plain counted counted-Same files folder folder-Same

abbrev request : DownloadRequest
request = record {
  hf_repo = "org/model";
  files = some ("model-q4.gguf" ∷ []);
  category_id = none;
  backend_type = none;
}

abbrev never : ℕ → ℕ → Bool
never a b = false

abbrev started : Downloads
started = ("d1", new_download request) ∷ []

repeat_test : (start_download true never none "d2" request started).1 ≡ 409
unfolding start_download
repeat_test = refl

abbrev transfer : String → Transfer
transfer path = record {
  before = [];
  folder_fails = false;
  answer = some (ok 200);
  create_fails = false;
  body = record { before = []; arrives = some (ok 5); write_fails = false } ∷ [];
}

-- The client cancels after the last piece has arrived.
abbrev late : RunEnv
late = record {
  client = ok tt;
  listing = some (ok files);
  reaches = never;
  disk = none;
  model_path = "/models";
  folder_fails = false;
  transfer = transfer;
  tokenizer = some none;
  header = λ path. ok no_metadata;
  model_id = "m1";
  before_end = cancels "d1" ∷ [];
  insert_fails = false;
  lower = plain;
  sort = as_is;
}

late_test : is_complete (get "d1" (run_download late request "d1" started).0) ≡ true
unfolding run_download get
late_test = refl

-- The client has no timeout: where a piece never arrives, the entry stays as it is.
abbrev stalled : RunEnv
stalled = record late {
  transfer = λ path. record (transfer path) {
    body = record { before = []; arrives = none; write_fails = false } ∷ [];
  };
}

stalled_test :
    (is_some (get "d1" (run_download stalled request "d1" started).0) ≡ true)
    × ((run_download stalled request "d1" started).1 ≡ waiting)
unfolding run_download get
stalled_test = (refl, refl)

run_download-ends_example :
    is_ended
      (get "d1" (run_download late request "d1" started).0)
      (run_download late request "d1" started).1
    ≡ true
unfolding get
run_download-ends_example =
    run_download-ends late request "d1" started refl (λ p. (refl, (refl, tt))) refl
      (λ p. (tt, (tt, tt))) (tt, tt) refl
