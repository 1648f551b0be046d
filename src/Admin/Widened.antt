-- ===== src/Admin/Widened.antt =====
-- A token that is created while delete_model of proxy/src/api/admin.rs runs.
use sovereign_engine.Prelude.{
  ℕ, ◌≤◌, String, Bool, true, false, Option, some, none, List, [], ◌∷◌, ◌++◌, ◌≡◌, arith, eq_iff,
  subst, sym, ap, ◌∙◌,
}
use sovereign_engine.Prelude.Table.{find_first, find_first-some, select, update}
use sovereign_engine.Auth.{User, auth_user, find_user, has_hash, validate_token}
use sovereign_engine.Supervisor.Store.{Model, is_model}
use sovereign_engine.Admin.{
  TokenRow, AdminState, Meets, Stage, deleted, is_pinned, is_blocker, unpinned, cleaned,
  with_created, revoke_all, transaction, remove_files, stopped, finish, delete_checked,
  delete_model,
}
use sovereign_engine.Admin.Narrow.{IsValid}

remove_files-deleted :
    (e : Meets) (m : Model) (n : ℕ) (p : AdminState)
    → ((x : Stage) → e.fails x ≡ false)
    → ((remove_files e m n p).1 ≡ deleted n) × ((remove_files e m n p).0.tokens ≡ p.tokens)
unfolding remove_files
remove_files-deleted e m n p fine = ground (arith, fine Stage.files)

-- Without failures and blockers, a registered model is deleted, and no token stays bound to it.
delete_model-fine :
    (e : Meets) (override : Bool) (id : String) (p : AdminState) (m : Model)
    → ((x : Stage) → e.fails x ≡ false)
    → find_first (is_model id) p.app.models ≡ some m
    → select (is_blocker id) p.tokens ≡ []
    → ((delete_model e override id p).1 ≡ deleted 0)
      × ((delete_model e override id p).0.tokens
          ≡ update (is_pinned id) unpinned (e.created ++ p.tokens))
unfolding delete_model delete_checked revoke_all finish transaction stopped
delete_model-fine e override id p m fine found none_yet =
    let same : m.id ≡ id =
      ground (arith, find_first-some (is_model id) p.app.models m found, eq_iff m.id id) in
    let blockers : select (is_blocker m.id) p.tokens ≡ [] =
      subst (λ i. select (is_blocker i) p.tokens ≡ []) (sym same) none_yet in
    let done = remove_files-deleted e m 0 (cleaned m.id (stopped e m (with_created e p))) fine in
    rw
      (
        fine Stage.lookup,
        found,
        fine Stage.blockers,
        blockers,
        fine Stage.tx_begin,
        fine Stage.null_pins,
        fine Stage.container_secrets,
        fine Stage.db,
        fine Stage.tx_commit,
      )
      (done.0, done.1 ∙ ap (λ i. update (is_pinned i) unpinned (e.created ++ p.tokens)) same)

-- Where no step fails and no token that can be used is bound to the model: a token for the model
-- that a user makes after the blockers were read is not revoked. The model is deleted, and the token,
-- which was valid for it alone, is then valid without a binding.
pub delete_model-widens :
    (hash : String → String) (parse : String → Option ℕ) (now : ℕ) (token text : String)
    (us : List User) (owner : User) (e : Meets) (override : Bool) (id : String) (p : AdminState)
    (m : Model) (r : TokenRow) (expires : ℕ)
    → ((x : Stage) → e.fails x ≡ false)
    → find_first (is_model id) p.app.models ≡ some m
    → select (is_blocker id) p.tokens ≡ []
    → e.created ≡ r ∷ []
    → has_hash (hash token) r.token ≡ true
    → r.token.revoked ≡ false
    → is_pinned id r ≡ true
    → find_user r.token.user_id us ≡ some owner
    → r.token.expires_at ≡ some text
    → parse text ≡ some expires
    → now ≤ expires
    → ((delete_model e override id p).1 ≡ deleted 0)
      × IsValid hash parse now token us (auth_user r.token owner) (e.created ++ p.tokens)
      × IsValid hash parse now token us
          (record (auth_user r.token owner) { specific_model_id = none })
          (delete_model e override id p).0.tokens
unfolding validate_token
delete_model-widens hash parse now token text us owner e override id p m r expires fine found
      none_yet made hit live pinned known reads parsed early =
    let (gone, tokens) = delete_model-fine e override id p m fine found none_yet in
    (gone, rw made (ground (arith, hit)), rw (tokens, made) (ground (arith, hit, pinned)))
