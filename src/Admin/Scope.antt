-- ===== src/Admin/Scope.antt =====
-- Whom a token lets in before and after delete_model of proxy/src/api/admin.rs.
use sovereign_engine.Prelude.{
  ℕ, String, Bool, true, false, not, ◌&&◌, Option, none, some, List, [], ◌∷◌, ◌++◌, ◌≡◌, refl, ◌⊎◌,
  inl, inr, arith, All, All-map, ap, subst, ◌∙◌, if◌then◌else◌, Bool-cases, Option-cases, is_some,
  eq_iff, length,
}
use sovereign_engine.Prelude.Table.{find_first, select, find_first-some}
use sovereign_engine.Auth.{User, AuthUser}
use sovereign_engine.Supervisor.Store.{Model, is_model}
use sovereign_engine.Admin.{
  TokenRow, AdminState, Meets, blockers, lookup, is_pinned, is_blocker, unpinned, cleaned, tx_begin,
  null_pins, container_secrets, db, tx_commit, revoke_all, transaction, remove_files, stopped,
  with_created, committed, finish, has_any, delete_checked, delete_model,
}
use sovereign_engine.Admin.Narrow.{
  update-IsValid, IsValid, revoke_all-IsValid, is_spent, revoke_all-spent, IsKept, blockers-cover,
  unpinned-Narrow,
}

module _ (i : String) (p : AdminState) where
  -- A transaction fails and changes nothing, or it is committed.
  abbrev pub IsOutcome : AdminState × Option String → Type 0
  IsOutcome q = (q.0 ≡ p) × (is_some q.1 ≡ true) ⊎ (q ≡ (cleaned i p, none))

  step-IsOutcome :
      (b : Bool) (x : String) (rest : AdminState × Option String)
      → IsOutcome rest
      → IsOutcome (if b then (p, some x) else rest)
  step-IsOutcome true x rest h = inl (refl, refl)
  step-IsOutcome false x rest h = h

  pub transaction-IsOutcome : (e : Meets) → IsOutcome (transaction e i p)
  unfolding transaction
  transaction-IsOutcome e = step-IsOutcome (e.fails tx_begin) _ _ (
      step-IsOutcome (e.fails null_pins) _ _ (
        step-IsOutcome (e.fails container_secrets) _ _
          (step-IsOutcome (e.fails db) _ _ (step-IsOutcome (e.fails tx_commit) _ _ (inr refl)))))

pub All-append :
    {A : Type 0} (P : A → Type 0) (xs ys : List A) → All P xs → All P ys → All P (xs ++ ys)
All-append P [] ys h k = k
All-append P (x ∷ xs) ys h k = (h.0, All-append P xs ys h.1 k)

remove_files-tokens :
    (e : Meets) (m : Model) (n : ℕ) (p : AdminState) → (remove_files e m n p).0.tokens ≡ p.tokens
unfolding remove_files
remove_files-tokens e m n p = ground arith

module _ (hash : String → String) (parse : String → Option ℕ) (now : ℕ) (token : String)
    (us : List User) (u : AuthUser) where
  finish-IsValid :
      (e : Meets) (m : Model) (n : ℕ) (p : AdminState)
      → All (λ r. is_spent m.id r ≡ true) (e.created ++ p.tokens)
      → IsValid hash parse now token us u (finish e m n p).0.tokens
      → IsValid hash parse now token us u (e.created ++ p.tokens)
  unfolding finish stopped
  finish-IsValid e m n p spent valid =
      after (transaction e m.id q) (transaction-IsOutcome m.id q e) valid
    where
      q : AdminState
      q = stopped e m (with_created e p)

      after :
          (r : AdminState × Option String)
          → IsOutcome m.id q r
          → IsValid hash parse now token us u (committed e m n r).0.tokens
          → IsValid hash parse now token us u (e.created ++ p.tokens)
      after (s, some x) (inl (same, _)) v =
          subst (λ (k : AdminState). IsValid hash parse now token us u k.tokens) same v
      after (s, some x) (inr same) v = absurd (ground arith)
      after (s, none) (inl (_, some_failed)) v = absurd (ground arith)
      after (s, none) (inr same) v =
          update-IsValid hash parse now token us u (is_pinned m.id) unpinned []
            (e.created ++ p.tokens) (unpinned-Narrow m.id (e.created ++ p.tokens) spent)
            (subst (λ (k : List TokenRow). IsValid hash parse now token us u k)
              (remove_files-tokens e m n s
                ∙ ap (λ (k : AdminState × Option String). k.0.tokens) same)
              v)

-- Where deleted_at is set only with revoked, and no token is created for the model in the meantime:
-- what a token gives after a deletion, however it ends, the same token gave before it, or gave with
-- the tokens that were created in the meantime. So a valid token loses no binding.
pub delete_model-scope :
    (hash : String → String) (parse : String → Option ℕ) (now : ℕ) (token : String) (us : List User)
    (u : AuthUser) (e : Meets) (override : Bool) (id : String) (p : AdminState)
    → All IsKept p.tokens
    → All (λ r. is_pinned id r ≡ false) e.created
    → IsValid hash parse now token us u (delete_model e override id p).0.tokens
    → IsValid hash parse now token us u p.tokens
      ⊎ IsValid hash parse now token us u (e.created ++ p.tokens)
unfolding delete_model delete_checked
delete_model-scope hash parse now token us u e override id p kept free valid =
    elim (Bool-cases (e.fails lookup)) [
      | inl x ↦ inl (ground arith)
      | inr x ↦ elim (Option-cases (find_first (is_model id) p.app.models)) [
        | inl r ↦ inl (ground arith)
        | inr (m, r) ↦ elim (Bool-cases (e.fails blockers)) [
          | inl y ↦ inl (ground arith)
          | inr y ↦
              checked m
                (ground (arith, find_first-some (is_model id) p.app.models m r, eq_iff m.id id))
                (ground arith)
        ]
      ]
    ]
  where
    checked :
        (m : Model)
        → m.id ≡ id
        → IsValid hash parse now token us u
            (delete_checked e override m (select (is_blocker m.id) p.tokens) p).0.tokens
        → IsValid hash parse now token us u p.tokens
          ⊎ IsValid hash parse now token us u (e.created ++ p.tokens)
    checked m same v = elim (Bool-cases (has_any bs && not override)) [
      | inl x ↦ inl (ground arith)
      | inr x ↦ elim (Bool-cases (revoke_all e bs p.tokens).1) [
        | inl y ↦ inr (
            revoke_all-IsValid hash parse now token us u e bs e.created p.tokens (
              finish-IsValid hash parse now token us u e m (length bs)
                (record p { tokens = (revoke_all e bs p.tokens).0 })
                (All-append (λ r. is_spent m.id r ≡ true) e.created (revoke_all e bs p.tokens).0
                  (All-map (λ r. is_pinned id r ≡ false) (λ r. is_spent m.id r ≡ true)
                    (λ r h. ground (arith, same)) e.created free)
                  (revoke_all-spent e m.id bs p.tokens
                    (blockers-cover m.id p.tokens p.tokens kept (λ r n. n)) y))
                (ground arith)))
        | inr y ↦ inl (revoke_all-IsValid hash parse now token us u e bs [] p.tokens (ground arith))
      ]
    ]
      where
        bs : List TokenRow
        bs = select (is_blocker m.id) p.tokens
