-- ===== src/Admin.antt =====
-- The deletion of a model: delete_model of proxy/src/api/admin.rs. Foreign keys are on, as the
-- driver sets them: a row of `models` takes its rows of `backend_crash_log` with it.
pub mod Narrow
pub mod Scope
pub mod Widened
pub mod Settled
pub mod Tests
use sovereign_engine.Prelude.{
  ℕ, String, Bool, true, false, not, ◌&&◌, ◌||◌, Option, none, some, List, [], ◌∷◌, ◌++◌, map, ◌==◌,
  if◌then◌else◌, cat, length, replace_slash,
}
use sovereign_engine.Prelude.Dict
use sovereign_engine.Prelude.Table.{find_first, select, update, delete}
use sovereign_engine.Auth.{Token}
use sovereign_engine.Scheduler.Resolver.{Category, column_is}
use sovereign_engine.Supervisor.Store.{Model, CrashRow, App, Env, is_model}
use sovereign_engine.Supervisor.Lifecycle.{post_stop_cleanup}

-- A row of `tokens`; the flag says that deleted_at is set.
pub record TokenRow : Type 0 where
  pub token : Token
  pub deleted : Bool

-- `folders` are the directories that exist. A category has the model that it prefers, and
-- `usage_log` is the column model_id of that table; no foreign key is on either.
pub record AdminState : Type 0 where
  pub app : App
  pub tokens : List TokenRow
  pub categories : List Category
  pub usage_log : List String
  pub folders : List String

pub data Stage : Type 0 where
  lookup blockers tx_begin null_pins container_secrets db tx_commit files : Stage

-- What a deletion meets: which steps fail, and for which tokens the UPDATE; the tokens that other
-- requests insert after the blockers were read; what the cleanup meets.
pub record Meets : Type 0 where
  pub fails : Stage → Bool
  pub revoke_fails : String → Bool
  pub created : List TokenRow
  pub env : Env
  pub model_path : String

pub data Answer : Type 0 where
  internal_error : String → Answer
  not_found : Answer
  conflict : List String → Answer
  deleted : ℕ → Answer

abbrev pub is_pinned : String → TokenRow → Bool
is_pinned i r = column_is r.token.specific_model_id i

abbrev pub is_blocker : String → TokenRow → Bool
is_blocker i r = is_pinned i r && (not r.token.revoked && not r.deleted)

abbrev pub soft_deleted : TokenRow → TokenRow
soft_deleted r = record { token = record r.token { revoked = true }; deleted = true }

abbrev pub unpinned : TokenRow → TokenRow
unpinned r = record r { token = record r.token { specific_model_id = none } }

abbrev pub has_row_id : String → TokenRow → Bool
has_row_id i r = r.token.id == i

-- The override: each blocker, until one fails.
unfoldable pub revoke_all : Meets → List TokenRow → List TokenRow → List TokenRow × Bool
revoke_all e [] ts = (ts, true)
revoke_all e (b ∷ bs) ts =
    let rest = revoke_all e bs (update (has_row_id b.token.id) soft_deleted ts) in
    if e.revoke_fails b.token.id then (ts, false) else rest

-- The tables after the commit.
abbrev pub cleaned : String → AdminState → AdminState
cleaned i p = record p {
  tokens = update (is_pinned i) unpinned p.tokens;
  app = record p.app {
    secrets = Dict.remove i p.app.secrets;
    models = delete (is_model i) p.app.models;
    crash_log = delete (λ (c : CrashRow). c.model_id == i) p.app.crash_log;
  };
}

-- A transaction that is not committed leaves the tables as they are; the text is the failed step.
unfoldable pub transaction : Meets → String → AdminState → AdminState × Option String
transaction e i p =
    if e.fails tx_begin
    then (p, some "delete_model:tx_begin")
    else if e.fails null_pins
    then (p, some "delete_model:null_pins")
    else if e.fails container_secrets
    then (p, some "delete_model:container_secrets")
    else if e.fails db
    then (p, some "delete_model:db")
    else if e.fails tx_commit
    then (p, some "delete_model:tx_commit")
    else (cleaned i p, none)

abbrev pub is_folder : String → List String → Bool
is_folder d [] = false
is_folder d (f ∷ fs) = f == d || is_folder d fs

abbrev pub folder_of : Meets → Model → String
folder_of e m = cat e.model_path (cat "/" (replace_slash m.hf_repo))

unfoldable pub remove_files : Meets → Model → ℕ → AdminState → AdminState × Answer
unfolding replace_slash
remove_files e m n p =
    if not (is_folder (folder_of e m) p.folders)
    then (p, deleted n)
    else if e.fails files
    then (p, internal_error "delete_model:files")
    else (record p { folders = delete (λ (f : String). f == folder_of e m) p.folders }, deleted n)

-- What Docker answers to the stop is only logged.
unfoldable pub stopped : Meets → Model → AdminState → AdminState
unfolding post_stop_cleanup
stopped e m p = record p { app = if m.loaded then post_stop_cleanup e.env m.id p.app else p.app }

abbrev pub committed : Meets → Model → ℕ → AdminState × Option String → AdminState × Answer
unfolding remove_files
committed e m n (p, some failed) = (p, internal_error failed)
committed e m n (p, none) = remove_files e m n p

abbrev pub with_created : Meets → AdminState → AdminState
with_created e p = record p { tokens = e.created ++ p.tokens }

unfoldable pub finish : Meets → Model → ℕ → AdminState → AdminState × Answer
unfolding transaction remove_files stopped
finish e m n p = committed e m n (transaction e m.id (stopped e m (with_created e p)))

abbrev pub has_any : List TokenRow → Bool
has_any [] = false
has_any (r ∷ rs) = true

-- From the check of the blockers on.
unfoldable pub delete_checked :
    Meets → Bool → Model → List TokenRow → AdminState → AdminState × Answer
unfolding revoke_all finish
delete_checked e override m bs p =
    if has_any bs && not override
    then (p, conflict (map (λ (b : TokenRow). b.token.id) bs))
    else let revoked = revoke_all e bs p.tokens in
      if revoked.1
      then finish e m (length bs) (record p { tokens = revoked.0 })
      else (record p { tokens = revoked.0 }, internal_error "delete_model:soft_delete_token")

-- DELETE /api/admin/models/:id
unfoldable pub delete_model : Meets → Bool → String → AdminState → AdminState × Answer
unfolding delete_checked
delete_model e override id p =
    if e.fails lookup
    then (p, internal_error "delete_model:lookup")
    else elim (find_first (is_model id) p.app.models) [
      | none ↦ (p, not_found)
      | some m ↦
          if e.fails blockers
          then (p, internal_error "delete_model:blockers")
          else delete_checked e override m (select (is_blocker m.id) p.tokens) p
    ]
