-- ===== src/Downloads/Kept.antt =====
-- The entry of a download under the steps of its task and of others, of proxy/src/api/hf.rs.
use sovereign_engine.Prelude.{
  ℕ, String, Bool, true, false, Option, none, some, List, [], ◌∷◌, ◌==◌, is_some, ◌≡◌, refl, arith,
  All, Option-cases, inl, inr, eq_refl, ◌⊎◌,
}
use sovereign_engine.Prelude.Dict.{get, insert, get-insert}
use sovereign_engine.Downloads.{
  DownloadState, Downloads, downloading, complete, failed, cancelled, change, set_download_error,
  is_download_cancelled, cancel_download, Act, cancels, writes, acted, failed_by,
}
use sovereign_engine.Downloads.Run.{
  Chunk, Transfer, Got, waits, stops, got, Outcome, waiting, returned,
}

-- Failed or cancelled.
abbrev pub is_stopped : Option DownloadState → Bool
is_stopped none = false
is_stopped (some d) = elim d.status [
  | downloading ↦ false
  | complete ↦ false
  | failed ↦ true
  | cancelled ↦ true
]

abbrev pub is_complete : Option DownloadState → Bool
is_complete none = false
is_complete (some d) = elim d.status [
  | downloading ↦ false
  | complete ↦ true
  | failed ↦ false
  | cancelled ↦ false
]

-- The task has returned, and the entry is complete with a model that was inserted, or failed or
-- cancelled without one.
abbrev pub is_ended : Option DownloadState → Outcome → Bool
is_ended d waiting = false
is_ended d (returned none) = is_stopped d
is_ended d (returned (some row)) = is_complete d

abbrev pub IsForeign : String → Act → Type 0
IsForeign id (cancels i) = Unit
IsForeign id (writes i d) = (i == id) ≡ false

abbrev pub IsForeignTransfer : String → Transfer → Type 0
IsForeignTransfer id t =
    All (IsForeign id) t.before × All (λ (c : Chunk). All (IsForeign id) c.before) t.body

-- The server answers, and each piece of the body arrives or is an error.
abbrev pub Answers : Transfer → Type 0
Answers t = (is_some t.answer ≡ true) × All (λ (c : Chunk). is_some c.arrives ≡ true) t.body

-- After a part of the task: stopped, or still there.
abbrev pub is_open : Option DownloadState → Got → Bool
is_open d waits = false
is_open d stops = is_stopped d
is_open d (got n) = is_some d

pub Got-cases : (g : Got) → (g ≡ waits) ⊎ ((g ≡ stops) ⊎ ((n : ℕ) × (g ≡ got n)))
Got-cases waits = inl refl
Got-cases stops = inr (inl refl)
Got-cases (got n) = inr (inr (n, refl))

module _ (id : String) where
  pub change-some :
      (f : DownloadState → DownloadState) (ds : Downloads)
      → is_some (get id ds) ≡ true
      → (d : DownloadState) × (get id (change id f ds) ≡ some (f d))
  unfolding change
  change-some f ds h = elim (Option-cases (get id ds)) [
    | inl e ↦ absurd (ground arith)
    | inr (d, e) ↦ (d, ground (arith, e, get-insert id id (f d) ds, eq_refl id))
  ]

  pub change-kept :
      (f : DownloadState → DownloadState) (ds : Downloads)
      → is_some (get id ds) ≡ true
      → is_some (get id (change id f ds)) ≡ true
  change-kept f ds h = let c = change-some f ds h in rw (c.1) refl

  pub error-stopped :
      (msg : String) (ds : Downloads)
      → is_some (get id ds) ≡ true
      → is_stopped (get id (set_download_error id msg ds)) ≡ true
  unfolding set_download_error
  error-stopped msg ds h = let c = change-some (failed_by msg) ds h in rw (c.1) refl

  pub cancelled-stopped :
      (ds : Downloads) → is_download_cancelled id ds ≡ true → is_stopped (get id ds) ≡ true
  unfolding is_download_cancelled
  cancelled-stopped ds h = ground arith

  cancel-kept :
      (i : String) (ds : Downloads)
      → is_some (get id ds) ≡ true
      → is_some (get id (cancel_download i ds).0) ≡ true
  unfolding cancel_download
  cancel-kept i ds h = elim (Option-cases (get i ds)) [
    | inl e ↦ ground (arith, e, h)
    | inr (d, e) ↦ ground (arith, e, get-insert i id (record d { status = cancelled }) ds)
  ]

  pub acted-kept :
      (xs : List Act) (ds : Downloads)
      → All (IsForeign id) xs
      → is_some (get id ds) ≡ true
      → is_some (get id (acted xs ds)) ≡ true
  unfolding acted
  acted-kept [] ds h k = k
  acted-kept (cancels i ∷ xs) ds h k =
      acted-kept xs (cancel_download i ds).0 h.1 (cancel-kept i ds k)
  acted-kept (writes i d ∷ xs) ds h k =
      acted-kept xs (insert i d ds) h.1 (ground (arith, get-insert i id d ds, h.0))
