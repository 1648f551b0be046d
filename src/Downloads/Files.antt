-- ===== src/Downloads/Files.antt =====
-- Which files of a repository are taken, and which of them are the model and its projector:
-- proxy/src/api/hf.rs, validate_hf_repo of proxy/src/api/error.rs and pick_mmproj_variant of
-- proxy/src/main.rs. Lower case and sorting are parameters.
use Prim.Native.Char.{code}
use sovereign_engine.Prelude.{
  ℕ, String, Bool, true, false, not, ◌&&◌, ◌||◌, Option, none, some, List, [], ◌∷◌, ◌==◌, ltb, leb,
  eqb, is_some, unwrap_or, if◌then◌else◌, Result, ok, err, strip_prefix, map,
}
use sovereign_engine.Prelude.Table.{find_first, select}

unfoldable pub contains : String → String → Bool
unfolding strip_prefix
contains String.[] p = is_some (strip_prefix p "")
contains (String.◌∷◌ c s) p = is_some (strip_prefix p (String.◌∷◌ c s)) || contains s p

unfoldable pub starts_with : String → String → Bool
unfolding strip_prefix
starts_with s p = is_some (strip_prefix p s)

unfoldable pub ends_with : String → String → Bool
ends_with String.[] p = "" == p
ends_with (String.◌∷◌ c s) p = String.◌∷◌ c s == p || ends_with s p

abbrev pub is_safe_char : ℕ → Bool
is_safe_char n =
    leb 48 n && leb n 57
    || leb 65 n && leb n 90
    || leb 97 n && leb n 122
    || leb 45 n && leb n 47
    || eqb n 95

abbrev pub all_safe : String → Bool
all_safe String.[] = true
all_safe (String.◌∷◌ c s) = is_safe_char (code c) && all_safe s

-- It says that the name is valid.
unfoldable pub validate_hf_repo : String → Bool
unfolding contains
validate_hf_repo value = contains value "/" && (not (contains value "..") && all_safe value)

pub record HfFileEntry : Type 0 where
  pub file_type : String
  pub path : String
  pub size : Option ℕ

abbrev pub is_mmproj_name : String → Bool
unfolding starts_with ends_with
is_mmproj_name s = (starts_with s "mmproj-" || starts_with s "mmproj_") && ends_with s ".gguf"

unfoldable pub is_mmproj_filename : String → Bool
unfolding contains is_mmproj_name
is_mmproj_filename path = if contains path "/" then false else is_mmproj_name path

abbrev pub is_listed : String → List String → Bool
is_listed path [] = false
is_listed path (p ∷ ps) = p == path || is_listed path ps

unfoldable pub should_include : String → Option (List String) → Bool
unfolding is_mmproj_filename
should_include path none = true
should_include path (some ps) = is_mmproj_filename path || is_listed path ps

-- ".gitattributes" and ".gitignore" start with ".git", too.
abbrev pub is_downloadable : Option (List String) → HfFileEntry → Bool
unfolding should_include starts_with
is_downloadable only f =
    f.file_type == "file" && (not (starts_with f.path ".git") && should_include f.path only)

-- The answer of Hugging Face, or an error on the way to it.
unfoldable pub list_downloadable_files :
    Result (List HfFileEntry) → Option (List String) → Result (List HfFileEntry)
unfolding is_downloadable
list_downloadable_files (err e) only = err e
list_downloadable_files (ok files) only = elim (select (is_downloadable only) files) [
  | [] ↦ err "No files found in repository"
  | f ∷ fs ↦ ok (f ∷ fs)
]

abbrev pub is_better : Option (String × ℕ) → ℕ → Bool
is_better none n = true
is_better (some (p, m)) n = ltb m n

abbrev pub primary_from :
    List HfFileEntry → Option (String × ℕ) → Option (String × ℕ) → Option String
unfolding ends_with
primary_from [] (some (p, n)) t = some p
primary_from [] none (some (p, n)) = some p
primary_from [] none none = none
primary_from (f ∷ fs) g t =
    let size = unwrap_or f.size 0 in
    let takes = ends_with f.path ".gguf" && is_better g size in
    primary_from fs (if takes then some (f.path, size) else g) (
      if not takes && (ends_with f.path ".safetensors" && is_better t size)
      then some (f.path, size)
      else t)

unfoldable pub detect_primary_file : List HfFileEntry → Option String
unfolding primary_from
detect_primary_file fs = primary_from fs none none

module _ (lower : String → String) (sort : List String → List String) where
  abbrev pub is_f16 : String → Bool
  unfolding contains
  is_f16 n = contains (lower n) "f16" && not (contains (lower n) "bf16")

  abbrev pub has_tag : String → String → Bool
  unfolding contains
  has_tag tag n = contains (lower n) tag

  abbrev pub or_else : Option String → Option String → Option String
  or_else none d = d
  or_else (some s) d = some s

  abbrev pub first_of : List String → Option String
  first_of [] = none
  first_of (n ∷ ns) = some n

  -- none for an empty list, where it panics
  unfoldable pub pick_mmproj_variant : List String → Option String
  unfolding is_f16 has_tag
  pick_mmproj_variant names = or_else (find_first is_f16 names) (
      or_else (find_first (has_tag "bf16") names)
        (or_else (find_first (has_tag "f32") names) (first_of names)))

  unfoldable pub picked : List String → Option String
  unfolding is_f16 has_tag
  picked [] = none
  picked (c ∷ cs) = elim (find_first is_f16 (sort (c ∷ cs))) [
    | some n ↦ some n
    | none ↦ elim (find_first (has_tag "bf16") (sort (c ∷ cs))) [
      | some n ↦ some n
      | none ↦ elim (find_first (has_tag "f32") (sort (c ∷ cs))) [
        | some n ↦ some n
        | none ↦ first_of (sort (c ∷ cs))
      ]
    ]
  ]

  unfoldable pub detect_mmproj_file : List HfFileEntry → Option String
  unfolding picked is_mmproj_filename
  detect_mmproj_file fs = picked (
      map (λ (f : HfFileEntry). f.path)
        (select (λ (f : HfFileEntry). is_mmproj_filename f.path) fs))

  unfoldable pub backfilled : List String → Option String
  unfolding pick_mmproj_variant
  backfilled [] = none
  backfilled (c ∷ cs) = pick_mmproj_variant (sort (c ∷ cs))

  -- What a row without a projector gets, with the names of the files in the model's folder; none
  -- leaves it as it is.
  unfoldable pub backfill_mmproj : List String → Option String
  unfolding backfilled is_mmproj_name
  backfill_mmproj names = backfilled (select is_mmproj_name names)
