-- ===== src/Scheduler/Resolver.antt =====
-- proxy/src/scheduler/resolver.rs: which model serves a request. A failing query is the error of
-- the whole call.
pub mod Scope
pub mod Tests
use sovereign_engine.Prelude.{
  ℕ, String, Bool, true, false, ◌&&◌, ◌||◌, Option, none, some, List, [], ◌∷◌, ◌==◌, text_lt,
  if◌then◌else◌, Result, ok, err, ◌>>=◌, ℤ, cat,
}
use sovereign_engine.Prelude.Table.{find_first}

-- The columns that the queries read; `last_used_at` only orders them.
pub record ResolvedModel : Type 0 where
  pub id : String
  pub hf_repo : String
  pub backend_port : Option ℤ
  pub loaded : Bool
  pub category_id : Option String
  pub backend_type : String
  pub last_used_at : Option String

pub record Category : Type 0 where
  pub id : String
  pub name : String
  pub preferred_model_id : Option String

pub record Catalog : Type 0 where
  pub models : List ResolvedModel
  pub categories : List Category

pub data Query : Type 0 where
  specific direct preferred fallback category_name : Query

-- Equal, where a column may be NULL.
abbrev pub column_is : Option String → String → Bool
column_is none s = false
column_is (some t) s = t == s

-- An earlier time of last use; NULL is the earliest.
abbrev pub used_before : Option String → Option String → Bool
used_before none none = false
used_before none (some t) = true
used_before (some s) none = false
used_before (some s) (some t) = text_lt s t

-- The later used of a row and the best of the rows behind it; the first wins a tie.
abbrev pub later_used : ResolvedModel → Option ResolvedModel → ResolvedModel
later_used m none = m
later_used m (some n) = if used_before m.last_used_at n.last_used_at then n else m

abbrev pub is_fallback : String → ResolvedModel → Bool
is_fallback c m = column_is m.category_id c && m.loaded

-- WHERE category_id = ? AND loaded = 1 ORDER BY last_used_at DESC LIMIT 1
unfoldable pub latest_loaded : String → List ResolvedModel → Option ResolvedModel
latest_loaded c [] = none
latest_loaded c (m ∷ ms) =
    let rest = latest_loaded c ms in if is_fallback c m then some (later_used m rest) else rest

abbrev pub model_by_id : String → List ResolvedModel → Option ResolvedModel
model_by_id i ms = find_first (λ (m : ResolvedModel). m.id == i) ms

-- model_categories c JOIN models m ON m.id = c.preferred_model_id WHERE c.id = ?
unfoldable pub preferred_model : String → Catalog → Option ResolvedModel
preferred_model c db = elim (find_first (λ (k : Category). k.id == c) db.categories) [
  | none ↦ none
  | some k ↦ elim k.preferred_model_id [ none ↦ none | some i ↦ model_by_id i db.models ]
]

-- A query, or its error.
abbrev pub ask : {A : Type 0} → Bool → A → Result A
ask true a = err "database error"
ask false a = ok a

abbrev pub is_loaded_row : Option ResolvedModel → Bool
is_loaded_row none = false
is_loaded_row (some m) = m.loaded

abbrev pub or_else : Option ResolvedModel → Option ResolvedModel → Option ResolvedModel
or_else none d = d
or_else (some m) d = some m

unfoldable pub resolve_from_category_id :
    (Query → Bool) → String → Catalog → Result (Option ResolvedModel)
resolve_from_category_id fails c db =
    if fails preferred
    then err "database error"
    else if is_loaded_row (preferred_model c db)
    then ok (preferred_model c db)
    else if fails fallback
    then err "database error"
    else ok (or_else (latest_loaded c db.models) (preferred_model c db))

unfoldable pub resolve_from_category_name :
    (Query → Bool) → String → Catalog → Result (Option ResolvedModel)
unfolding resolve_from_category_id
resolve_from_category_name fails name db =
    if fails category_name
    then err "database error"
    else elim (find_first (λ (k : Category). k.name == name) db.categories) [
      | none ↦ ok none
      | some k ↦ resolve_from_category_id fails k.id db
    ]

-- The row, or the error of a call without one.
abbrev pub or_fail : String → Result (Option ResolvedModel) → Result ResolvedModel
or_fail e (ok (some m)) = ok m
or_fail e (ok none) = err e
or_fail e (err x) = err x

unfoldable pub resolve_specific_model : (Query → Bool) → String → Catalog → Result ResolvedModel
resolve_specific_model fails i db =
    or_fail (cat "Specific model '" (cat i "' not found. It may have been removed."))
      (ask (fails specific) (model_by_id i db.models))

unfoldable pub resolve_by_id_or_repo :
    (Query → Bool) → String → Catalog → Result (Option ResolvedModel)
resolve_by_id_or_repo fails name db =
    ask (fails direct)
      (find_first (λ (m : ResolvedModel). m.id == name || m.hf_repo == name) db.models)

-- The part of `resolve_model` for a token that is bound to nothing.
unfoldable pub resolve_by_name : (Query → Bool) → String → Catalog → Result ResolvedModel
unfolding resolve_by_id_or_repo resolve_from_category_name
resolve_by_name fails name db = elim (resolve_by_id_or_repo fails name db) [
  | err e ↦ err e
  | ok (some m) ↦ ok m
  | ok none ↦
      or_fail
        (cat "Model '" (
          cat name
            "' not found. Provide a valid model ID, HuggingFace repo name, or category name. Use GET /v1/models to list available models."))
        (resolve_from_category_name fails name db)
]

unfoldable pub resolve_model :
    (Query → Bool) → Catalog → String → Option String → Option String → Result ResolvedModel
unfolding resolve_specific_model resolve_by_name resolve_from_category_id
resolve_model fails db name category (some i) = resolve_specific_model fails i db
resolve_model fails db name (some c) none =
    or_fail
      (cat "No models available in category '"
        (cat c "'. The token is scoped to this category and cannot access models outside it."))
      (resolve_from_category_id fails c db)
resolve_model fails db name none none = resolve_by_name fails name db
