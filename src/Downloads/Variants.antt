-- ===== src/Downloads/Variants.antt =====
-- The projector that a download of proxy/src/api/hf.rs takes, and the one that the backfill of
-- proxy/src/main.rs finds.
use sovereign_engine.Prelude.{
  String, Bool, not, List, [], ◌∷◌, ◌==◌, map, ◌≡◌, refl, arith, ap, ◌∙◌, if◌then◌else◌, Bool-cases,
  inl, inr, eq_iff, eq_refl,
}
use sovereign_engine.Prelude.Table.{select, count}
use sovereign_engine.Downloads.Files.{
  HfFileEntry, contains, is_mmproj_name, is_mmproj_filename, picked, backfilled,
  pick_mmproj_variant, detect_mmproj_file, backfill_mmproj,
}

-- The files that a download writes into the folder itself.
unfoldable pub root_names : List HfFileEntry → List String
unfolding contains
root_names fs =
    map (λ (f : HfFileEntry). f.path) (select (λ (f : HfFileEntry). not (contains f.path "/")) fs)

abbrev pub is_name : String → String → Bool
is_name n s = s == n

-- The same names, in whatever order.
abbrev pub Same : List String → List String → Type 0
Same xs ys = (n : String) → count (is_name n) xs ≡ count (is_name n) ys

count-select :
    (p : String → Bool) (n : String) (xs : List String)
    → count (is_name n) (select p xs) ≡ (if p n then count (is_name n) xs else 0)
count-select p n [] = ground arith
count-select p n (x ∷ xs) = elim (Bool-cases (x == n)) [
  | inl e ↦ ground (arith, count-select p n xs, ap p ((eq_iff x n).0 e))
  | inr e ↦ ground (arith, count-select p n xs)
]

select-Same :
    (p : String → Bool) (xs ys : List String) → Same xs ys → Same (select p xs) (select p ys)
select-Same p xs ys h n = rw (count-select p n xs, count-select p n ys, h n) refl

module _ (lower : String → String) (sort : List String → List String) where
  select-root :
      (fs : List HfFileEntry)
      → select is_mmproj_name (root_names fs)
        ≡ map
            (λ (f : HfFileEntry). f.path)
            (select (λ (f : HfFileEntry). is_mmproj_filename f.path) fs)
  unfolding root_names is_mmproj_filename
  select-root [] = refl
  select-root (f ∷ fs) = ground (arith, select-root fs)

  picked-backfilled : (cs : List String) → backfilled lower sort cs ≡ picked lower sort cs
  unfolding backfilled picked pick_mmproj_variant
  picked-backfilled [] = refl
  picked-backfilled (c ∷ cs) = ground arith

  backfilled-Same :
      ((xs ys : List String) → Same xs ys → sort xs ≡ sort ys)
      → (xs ys : List String) → Same xs ys
      → backfilled lower sort xs ≡ backfilled lower sort ys
  unfolding backfilled
  backfilled-Same sorts [] [] h = refl
  backfilled-Same sorts [] (y ∷ ys) h = absurd (ground (arith, h y, eq_refl y))
  backfilled-Same sorts (x ∷ xs) [] h = absurd (ground (arith, h x, eq_refl x))
  backfilled-Same sorts (x ∷ xs) (y ∷ ys) h =
      ap (pick_mmproj_variant lower sort) (sorts (x ∷ xs) (y ∷ ys) h)

  -- Where sorting depends on the names only and not on their order: the projector that a download
  -- records for its files is the one that the backfill at start finds among the same names in the
  -- folder, in whatever order the folder is read.
  pub backfill_mmproj-detect :
      ((xs ys : List String) → Same xs ys → sort xs ≡ sort ys)
      → (fs : List HfFileEntry) (names : List String) → Same names (root_names fs)
      → backfill_mmproj lower sort names ≡ detect_mmproj_file lower sort fs
  unfolding backfill_mmproj detect_mmproj_file
  backfill_mmproj-detect sorts fs names h =
      backfilled-Same sorts (select is_mmproj_name names) (select is_mmproj_name (root_names fs))
        (select-Same is_mmproj_name names (root_names fs) h)
      ∙ ap (backfilled lower sort) (select-root fs)
      ∙ picked-backfilled (
          map (λ (f : HfFileEntry). f.path)
            (select (λ (f : HfFileEntry). is_mmproj_filename f.path) fs))
