-- ===== src/Downloads/Ends.antt =====
-- Every download comes to an end: run_download of proxy/src/api/hf.rs with what others do meanwhile.
use sovereign_engine.Prelude.{
  ℕ, ◌+◌, String, true, List, [], ◌∷◌, is_some, if◌then◌else◌, cat, ◌≡◌, arith, All, Bool-cases,
  Option-cases, Result-cases, inl, inr, Option, some, ok, err, ◌⊎◌, ◌∙◌, ap,
}
use sovereign_engine.Prelude.Dict.{get}
use sovereign_engine.Downloads.{
  Downloads, change, is_download_cancelled, acted, validate_disk_space, DownloadRequest,
}
use sovereign_engine.Downloads.Files.{HfFileEntry, list_downloadable_files}
use sovereign_engine.Downloads.Run.{
  Chunk, stream_chunks, Transfer, stream_response_to_file, download_single_file, download_files,
  download_files_to_disk, RunEnv, store_model, fetch, run_download, completed, with_progress,
  with_total, total_size, is_unsafe,
}
use sovereign_engine.Downloads.Kept.{
  is_stopped, is_ended, IsForeign, IsForeignTransfer, is_open, change-some, change-kept,
  error-stopped, cancelled-stopped, acted-kept, Answers, Got-cases,
}

module _ (id : String) where
  stream_chunks-open :
      (offset : ℕ) (cs : List Chunk) (done : ℕ) (ds : Downloads)
      → All (λ (c : Chunk). All (IsForeign id) c.before) cs
      → All (λ (c : Chunk). is_some c.arrives ≡ true) cs
      → is_some (get id ds) ≡ true
      → let out = stream_chunks id offset cs done ds in is_open (get id out.0) out.1 ≡ true
  unfolding stream_chunks
  stream_chunks-open offset [] done ds h a k = k
  stream_chunks-open offset (c ∷ cs) done ds h a k =
      let now = acted c.before ds in
      let here = acted-kept id c.before ds h.0 k in
      elim (Option-cases c.arrives) [
        | inl never ↦ absurd (ground (arith, a.0))
        | inr (piece, came) ↦ elim (Bool-cases (is_download_cancelled id now)) [
          | inl e ↦ rw (came, e) (cancelled-stopped id now e)
          | inr e ↦ elim (Result-cases piece) [
            | inl (x, f) ↦
                ground (arith, came, e, f, error-stopped id (cat "Stream error: " x) now here)
            | inr (n, f) ↦ elim (Bool-cases c.write_fails) [
              | inl g ↦ ground (arith, came, e, f, g, error-stopped id "Write error" now here)
              | inr g ↦
                  let moved = change id (with_progress (offset + (done + n))) now in
                  ground (
                    arith,
                    came,
                    e,
                    f,
                    g,
                    stream_chunks-open offset cs (done + n) moved h.1 a.1
                        (change-kept id (with_progress (offset + (done + n))) now here),
                  )
            ]
          ]
        ]
      ]

  answer-cases :
      (t : Transfer)
      → is_some t.answer ≡ true
      → ((x : String) × (t.answer ≡ some (err x))) ⊎ ((n : ℕ) × (t.answer ≡ some (ok n)))
  answer-cases t a = elim (Option-cases t.answer) [
    | inl e ↦ absurd (ground arith)
    | inr (r, e) ↦ elim (Result-cases r) [
      | inl (x, f) ↦ inl (x, e ∙ ap some f)
      | inr (n, f) ↦ inr (n, e ∙ ap some f)
    ]
  ]

  download_single_file-open :
      (offset : ℕ) (path : String) (t : Transfer) (ds : Downloads)
      → IsForeignTransfer id t
      → Answers t
      → is_some (get id ds) ≡ true
      → let out = download_single_file id offset path t ds in is_open (get id out.0) out.1 ≡ true
  unfolding download_single_file stream_response_to_file
  download_single_file-open offset path t ds h a k = elim (Bool-cases (is_unsafe path)) [
    | inl e ↦ ground (arith, e, error-stopped id "Refusing file with unsafe path" ds k)
    | inr e ↦ elim (Bool-cases t.folder_fails) [
      | inl f ↦ ground (arith, e, f, error-stopped id "Failed to create directory" ds k)
      | inr f ↦ elim (answer-cases t a.0) [
        | inl (x, g) ↦ ground (arith, e, f, g, error-stopped id (cat "Failed to download: " x) ds k)
        | inr (n, g) ↦ ground (
          arith,
          e,
          f,
          g,
          error-stopped id "Download returned an HTTP error" ds k,
          error-stopped id "Failed to create file" ds k,
          stream_chunks-open offset t.body 0 ds h.1 a.1 k,
        )
      ]
    ]
  ]

  download_files-open :
      (transfer : String → Transfer) (fs : List HfFileEntry) (total : ℕ) (ds : Downloads)
      → ((p : String) → IsForeignTransfer id (transfer p))
      → ((p : String) → Answers (transfer p))
      → is_some (get id ds) ≡ true
      → let out = download_files transfer id fs total ds in is_open (get id out.0) out.1 ≡ true
  unfolding download_files
  download_files-open transfer [] total ds h a k = k
  download_files-open transfer (f ∷ fs) total ds h a k =
      let now = acted (transfer f.path).before ds in
      let here = acted-kept id (transfer f.path).before ds (h f.path).0 k in
      let out = download_single_file id total f.path (transfer f.path) now in
      let one =
        download_single_file-open total f.path (transfer f.path) now (h f.path) (a f.path) here in
      elim (Bool-cases (is_download_cancelled id now)) [
        | inl e ↦ ground (arith, e, cancelled-stopped id now e)
        | inr e ↦ elim (Got-cases out.1) [
          | inl g ↦ absurd (ground (arith, g, one))
          | inr (inl g) ↦ ground (arith, e, g, one)
          | inr (inr (n, g)) ↦
              let there : is_some (get id out.0) ≡ true = ground (arith, g, one) in
              ground (arith, e, g, download_files-open transfer fs (total + n) out.0 h a there)
        ]
      ]

  validate_disk_space-open :
      (env : RunEnv) (total : ℕ) (ds : Downloads)
      → is_some (get id ds) ≡ true
      → let out = validate_disk_space env.reaches env.disk id total ds in
        (if out.1 then is_some (get id out.0) else is_stopped (get id out.0)) ≡ true
  unfolding validate_disk_space
  validate_disk_space-open env total ds k = elim (Option-cases env.disk) [
    | inl e ↦ ground (arith, e, k)
    | inr (d, e) ↦ ground (
      arith,
      e,
      k,
      error-stopped id "Not enough disk space" ds k,
      error-stopped id "Download would push disk above 95%" ds k,
    )
  ]

  store_model-ended :
      (env : RunEnv) (req : DownloadRequest) (fs : List HfFileEntry) (size : ℕ)
      (tokenizer : Option String) (ds : Downloads)
      → is_some (get id ds) ≡ true
      → let out = store_model env req id fs size tokenizer ds in
        is_ended (get id out.0) out.1 ≡ true
  unfolding store_model
  store_model-ended env req fs size tokenizer ds k =
      let c = change-some id (completed size) ds k in
      elim (Bool-cases env.insert_fails) [
        | inl e ↦
            ground (arith, e, error-stopped id "Download complete but DB registration failed" ds k)
        | inr e ↦ ground (arith, e, c.1)
      ]

  fetch-ended :
      (env : RunEnv) (req : DownloadRequest) (fs : List HfFileEntry) (ds : Downloads)
      → ((p : String) → IsForeignTransfer id (env.transfer p))
      → ((p : String) → Answers (env.transfer p))
      → is_some env.tokenizer ≡ true
      → All (IsForeign id) env.before_end
      → is_some (get id ds) ≡ true
      → let out = fetch env req id fs ds in is_ended (get id out.0) out.1 ≡ true
  unfolding fetch download_files_to_disk
  fetch-ended env req fs ds h a tk b k =
      let sized = change id (with_total (total_size fs)) ds in
      let checked = validate_disk_space env.reaches env.disk id (total_size fs) sized in
      let c =
        validate_disk_space-open env (total_size fs) sized
          (change-kept id (with_total (total_size fs)) ds k) in
      elim (Bool-cases checked.1) [
        | inr e ↦ ground (arith, e, c)
        | inl e ↦
            let here : is_some (get id checked.0) ≡ true = ground (arith, e, c) in
            elim (Bool-cases env.folder_fails) [
              | inl f ↦
                  ground (arith, e, f, error-stopped id "Failed to create directory" checked.0 here)
              | inr f ↦
                  let out = download_files env.transfer id fs 0 checked.0 in
                  let o = download_files-open env.transfer fs 0 checked.0 h a here in
                  elim (Got-cases out.1) [
                    | inl g ↦ absurd (ground (arith, g, o))
                    | inr (inl g) ↦ ground (arith, e, f, g, o)
                    | inr (inr (size, g)) ↦ elim (Option-cases env.tokenizer) [
                      | inl n ↦ absurd (ground arith)
                      | inr (t, n) ↦
                          let there : is_some (get id out.0) ≡ true = ground (arith, g, o) in
                          ground (
                            arith,
                            e,
                            f,
                            g,
                            n,
                            store_model-ended env req fs size t (acted env.before_end out.0)
                                (acted-kept id env.before_end out.0 b there),
                          )
                    ]
                  ]
            ]
      ]

-- Where each request of the task is answered or fails, each piece of a body arrives or is an error, and
-- the fetch of the tokenizer's configuration ends: whatever the network, the disk and the database do
-- beside that, and whatever cancellations and writes of other downloads come in between, the task of
-- a download whose entry is in the map returns, and the entry is then no longer downloading. It is
-- complete if a model was inserted, and failed or cancelled if none was.
pub run_download-ends :
    (env : RunEnv) (req : DownloadRequest) (id : String) (ds : Downloads)
    → is_some env.listing ≡ true
    → ((p : String) → Answers (env.transfer p))
    → is_some env.tokenizer ≡ true
    → ((p : String) → IsForeignTransfer id (env.transfer p))
    → All (IsForeign id) env.before_end
    → is_some (get id ds) ≡ true
    → let out = run_download env req id ds in is_ended (get id out.0) out.1 ≡ true
unfolding run_download
run_download-ends env req id ds l a t h b k = elim (Result-cases env.client) [
  | inl (x, e) ↦ ground (arith, e, error-stopped id x ds k)
  | inr (u, e) ↦ elim (Option-cases env.listing) [
    | inl n ↦ absurd (ground arith)
    | inr (listing, n) ↦ elim (Result-cases (list_downloadable_files listing req.files)) [
      | inl (x, f) ↦ ground (arith, e, n, f, error-stopped id x ds k)
      | inr (fs, f) ↦ ground (arith, e, n, f, fetch-ended id env req fs ds h a t b k)
    ]
  ]
]
