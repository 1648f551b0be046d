-- ===== src/Scheduler/Resolver/Scope.antt =====
-- What a token that is bound to a category can reach: resolve_model of
-- proxy/src/scheduler/resolver.rs.
use sovereign_engine.Prelude.{
  String, Bool, true, false, none, some, List, [], ◌∷◌, ◌≡◌, refl, sym, subst, inl, inr, ◌⊎◌, arith,
  eq_iff, In, Bool-cases, Option-cases, ok,
}
use sovereign_engine.Scheduler.Resolver.{
  ResolvedModel, Catalog, Query, preferred, resolve_model, resolve_from_category_id, latest_loaded,
  preferred_model, is_fallback, later_used, used_before, is_loaded_row,
}

-- A loaded model of the category.
abbrev pub IsMember : String → List ResolvedModel → ResolvedModel → Type 0
IsMember c ms m = In m ms × (m.category_id ≡ some c) × (m.loaded ≡ true)

later_used-cases : (m n : ResolvedModel) → (later_used m (some n) ≡ m) ⊎ (later_used m (some n) ≡ n)
later_used-cases m n = elim (Bool-cases (used_before m.last_used_at n.last_used_at)) [
  | inl e ↦ inr (rw e refl)
  | inr e ↦ inl (rw e refl)
]

fallback-IsMember :
    (c : String) (m : ResolvedModel) (ms : List ResolvedModel)
    → is_fallback c m ≡ true
    → IsMember c (m ∷ ms) m
fallback-IsMember c m ms h = elim (Option-cases m.category_id) [
  | inl e ↦ absurd (ground arith)
  | inr (t, e) ↦ (inl refl, ground (arith, eq_iff t c), ground arith)
]

chosen-IsMember :
    (c : String) (m n : ResolvedModel) (ms : List ResolvedModel)
    → m ≡ n
    → is_fallback c n ≡ true
    → IsMember c (n ∷ ms) m
chosen-IsMember c m n ms e h =
    subst (λ x. IsMember c (n ∷ ms) x) (sym e) (fallback-IsMember c n ms h)

later-IsMember :
    (c : String) (n m : ResolvedModel) (ms : List ResolvedModel)
    → IsMember c ms m
    → IsMember c (n ∷ ms) m
later-IsMember c n m ms (i, h, k) = (inr i, h, k)

latest_loaded-IsMember :
    (c : String) (ms : List ResolvedModel) (m : ResolvedModel)
    → latest_loaded c ms ≡ some m
    → IsMember c ms m
unfolding latest_loaded
latest_loaded-IsMember c [] m h = ground arith
latest_loaded-IsMember c (n ∷ ms) m h = elim (Bool-cases (is_fallback c n)) [
  | inl f ↦ elim (Option-cases (latest_loaded c ms)) [
    | inl e ↦ chosen-IsMember c m n ms (ground arith) f
    | inr (k, e) ↦ elim (later_used-cases n k) [
      | inl l ↦ chosen-IsMember c m n ms (ground arith) f
      | inr l ↦ later-IsMember c n m ms (latest_loaded-IsMember c ms m (ground arith))
    ]
  ]
  | inr f ↦ later-IsMember c n m ms (latest_loaded-IsMember c ms m (ground arith))
]

-- A model that a token bound to a category resolves to is the model that the category prefers, or
-- a loaded model of the category.
pub resolve_scoped :
    (fails : Query → Bool) (db : Catalog) (name c : String) (m : ResolvedModel)
    → resolve_model fails db name (some c) none ≡ ok m
    → (preferred_model c db ≡ some m) ⊎ IsMember c db.models m
unfolding resolve_model resolve_from_category_id
resolve_scoped fails db name c m h = elim (Option-cases (latest_loaded c db.models)) [
  | inl e ↦ inl (ground arith)
  | inr (k, e) ↦ elim (Bool-cases (is_loaded_row (preferred_model c db))) [
    | inl l ↦ inl (ground arith)
    | inr l ↦ inr (latest_loaded-IsMember c db.models m (ground arith))
  ]
]

-- The preferred model need not be of the category: when it is loaded, a token bound to the category
-- resolves to it, whatever category it has itself.
pub resolve_scoped_outside :
    (fails : Query → Bool) (db : Catalog) (name c : String) (m : ResolvedModel)
    → fails preferred ≡ false
    → preferred_model c db ≡ some m
    → m.loaded ≡ true
    → resolve_model fails db name (some c) none ≡ ok m
unfolding resolve_model resolve_from_category_id
resolve_scoped_outside fails db name c m reads h loaded = ground arith
