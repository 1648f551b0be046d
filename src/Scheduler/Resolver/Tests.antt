-- ===== src/Scheduler/Resolver/Tests.antt =====
-- Examples for the resolver: a category that prefers a model of another category.
use sovereign_engine.Prelude.{Bool, true, false, none, some, [], ◌∷◌, ◌≡◌, refl, ◌⊎◌}
use sovereign_engine.Scheduler.Resolver.{
  ResolvedModel, Catalog, Query, resolve_model, resolve_from_category_id, preferred_model,
}
use sovereign_engine.Scheduler.Resolver.Scope.{IsMember, resolve_scoped}

abbrev coder : ResolvedModel
coder = record {
  id = "m1";
  hf_repo = "org/coder";
  backend_port = none;
  loaded = true;
  category_id = some "code";
  backend_type = "llamacpp";
  last_used_at = none;
}

abbrev catalog : Catalog
catalog = record {
  models = coder ∷ [];
  categories = record { id = "chat"; name = "Chat"; preferred_model_id = some "m1" } ∷ [];
}

abbrev no_failure : Query → Bool
no_failure q = false

resolve_scoped_example :
    (preferred_model "chat" catalog ≡ some coder) ⊎ IsMember "chat" catalog.models coder
unfolding resolve_model preferred_model resolve_from_category_id
resolve_scoped_example = resolve_scoped no_failure catalog "any" "chat" coder refl
