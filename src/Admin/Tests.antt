-- ===== src/Admin/Tests.antt =====
-- Deletions of a model at concrete tables: delete_model of proxy/src/api/admin.rs.
use sovereign_engine.Prelude.{
  Bool, true, false, String, none, some, List, [], ◌∷◌, ◌++◌, ◌≡◌, refl, ◌⊎◌, arith,
}
use sovereign_engine.Auth.{Token, auth_user, validate_token}
use sovereign_engine.Auth.Tests.{same_text, read_date, ann}
use sovereign_engine.Supervisor.Tests.{chat, proxy_state, good}
use sovereign_engine.Admin.{TokenRow, AdminState, Meets, Stage, deleted, conflict, delete_model}
use sovereign_engine.Admin.Narrow.{IsValid}
use sovereign_engine.Admin.Scope.{delete_model-scope}
use sovereign_engine.Admin.Widened.{delete_model-widens}
use sovereign_engine.Admin.Settled.{IsSettled, delete_model-IsSettled}

abbrev token_of : String → Token
token_of i = record {
  id = i;
  user_id = "ann";
  name = "laptop";
  token_hash = i;
  category_id = none;
  specific_model_id = some "chat";
  expires_at = some "2026-03-01 00:00:00";
  revoked = false;
  internal = false;
  meta = false;
}

abbrev pinned_row : TokenRow
pinned_row = record { token = token_of "t1"; deleted = false }

abbrev free_row : TokenRow
free_row = record {
  token = record (token_of "t2") { specific_model_id = some "other" };
  deleted = false;
}

abbrev tables : List TokenRow → AdminState
tables ts = record {
  app = proxy_state;
  tokens = ts;
  categories = record { id = "c"; name = "general"; preferred_model_id = some "chat" } ∷ [];
  usage_log = "chat" ∷ [];
  folders = "/models/org--chat" ∷ [];
}

abbrev no_stage : Stage → Bool
no_stage s = false

abbrev meets : List TokenRow → Meets
meets created = record {
  fails = no_stage;
  revoke_fails = λ i. false;
  created = created;
  env = good;
  model_path = "/models";
}

abbrev both : AdminState
both = tables (pinned_row ∷ free_row ∷ [])

conflict_test : delete_model (meets []) false "chat" both ≡ (both, conflict ("t1" ∷ []))
unfolding delete_model
conflict_test = refl

override_test :
    ((delete_model (meets []) true "chat" both).1 ≡ deleted 1)
    × ((delete_model (meets []) true "chat" both).0.folders ≡ [])
unfolding delete_model
override_test = (refl, refl)

delete_model-scope_example :
    IsValid same_text read_date 900 "t2" (ann ∷ []) (auth_user free_row.token ann) both.tokens
    ⊎ IsValid same_text read_date 900 "t2"
        (ann ∷ [])
        (auth_user free_row.token ann)
        ((meets (free_row ∷ [])).created ++ both.tokens)
unfolding delete_model validate_token
delete_model-scope_example =
    delete_model-scope same_text read_date 900 "t2" (ann ∷ []) (auth_user free_row.token ann)
      (meets (free_row ∷ [])) true "chat" both (λ h. h, (λ h. h, tt)) (refl, tt) refl

delete_model-widens_example :
    ((delete_model (meets (pinned_row ∷ [])) false "chat" (tables [])).1 ≡ deleted 0)
    × IsValid same_text read_date 900 "t1"
        (ann ∷ [])
        (auth_user pinned_row.token ann)
        ((meets (pinned_row ∷ [])).created ++ (tables []).tokens)
    × IsValid same_text read_date 900 "t1"
        (ann ∷ [])
        (record (auth_user pinned_row.token ann) { specific_model_id = none })
        (delete_model (meets (pinned_row ∷ [])) false "chat" (tables [])).0.tokens
delete_model-widens_example =
    delete_model-widens same_text read_date 900 "t1" "2026-03-01 00:00:00" (ann ∷ []) ann
      (meets (pinned_row ∷ [])) false "chat" (tables []) chat pinned_row 1000 (λ s. refl) refl refl
      refl refl refl refl refl refl refl (omega arith)

delete_model-IsSettled_example :
    IsSettled (meets []) "chat" both (delete_model (meets []) true "chat" both)
delete_model-IsSettled_example = delete_model-IsSettled (meets []) true "chat" both
