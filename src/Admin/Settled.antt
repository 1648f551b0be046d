-- ===== src/Admin/Settled.antt =====
-- What delete_model of proxy/src/api/admin.rs leaves behind each of its answers.
use sovereign_engine.Prelude.{
  ℕ, String, Bool, true, false, Option, some, none, List, [], ◌∷◌, ◌++◌, ◌≡◌, refl, arith, ◌==◌,
  eq_iff, eq_refl, sym, subst, ap, ◌∙◌, ◌⊎◌, inl, inr, map, All, Bool-cases, Option-cases, is_some,
  not, ◌&&◌, length,
}
use sovereign_engine.Prelude.Dict
use sovereign_engine.Prelude.Dict.{get-remove}
use sovereign_engine.Prelude.Table.{
  find_first, find_first-some, select, update, delete, update-clears,
}
use sovereign_engine.Supervisor.Store.{Model, CrashRow, is_model}
use sovereign_engine.Supervisor.Lifecycle.{post_stop_cleanup}
use sovereign_engine.Admin.{
  TokenRow, AdminState, Meets, Answer, internal_error, not_found, conflict, deleted, lookup,
  blockers, files, is_pinned, is_blocker, unpinned, has_row_id, soft_deleted, revoke_all, cleaned,
  transaction, is_folder, folder_of, remove_files, stopped, committed, with_created, finish,
  has_any, delete_checked, delete_model,
}
use sovereign_engine.Admin.Scope.{IsOutcome, transaction-IsOutcome}

abbrev pub pins : List TokenRow → List (Option String)
pins ts = map (λ (r : TokenRow). r.token.specific_model_id) ts

abbrev pub has_model : String → AdminState → Bool
has_model i p = is_some (find_first (is_model i) p.app.models)

-- The model keeps its row and its folder, and each token what it is bound to.
abbrev pub Stays : Meets → String → AdminState → AdminState → Type 0
Stays e i p q =
    (has_model i q ≡ has_model i p)
    × (q.folders ≡ p.folders)
    × ((pins q.tokens ≡ pins p.tokens) ⊎ (pins q.tokens ≡ pins (e.created ++ p.tokens)))

-- The model has no row, no token is bound to it, and it has no secrets and no crashes; but a category
-- that prefers it still does, and the usage that was logged for it still has its id.
abbrev pub IsGone : String → AdminState → AdminState → Type 0
IsGone i p q =
    (has_model i q ≡ false)
    × All (λ r. is_pinned i r ≡ false) q.tokens
    × (Dict.get i q.app.secrets ≡ none)
    × All (λ (c : CrashRow). (c.model_id == i) ≡ false) q.app.crash_log
    × (q.categories ≡ p.categories)
    × (q.usage_log ≡ p.usage_log)

abbrev pub IsSettled : Meets → String → AdminState → AdminState × Answer → Type 0
IsSettled e i p (q, not_found) = (q ≡ p) × (has_model i p ≡ false)
IsSettled e i p (q, conflict ids) = (q ≡ p) × (has_model i p ≡ true)
IsSettled e i p (q, internal_error at) =
    Stays e i p q ⊎ (IsGone i p q × (at ≡ "delete_model:files") × (q.folders ≡ p.folders))
IsSettled e i p (q, deleted n) =
    IsGone i p q
    × ((m : Model) × (find_first (is_model i) p.app.models ≡ some m)
        × (is_folder (folder_of e m) q.folders ≡ false))

find_first-delete : {A : Type 0} (p : A → Bool) (xs : List A) → find_first p (delete p xs) ≡ none
find_first-delete p [] = refl
find_first-delete p (x ∷ xs) = ground (arith, find_first-delete p xs)

delete-All : {A : Type 0} (p : A → Bool) (xs : List A) → All (λ x. p x ≡ false) (delete p xs)
delete-All p [] = tt
delete-All p (x ∷ xs) = elim (Bool-cases (p x)) [
  | inl e ↦ rw e (delete-All p xs)
  | inr e ↦ rw e (e, delete-All p xs)
]

cleaned-IsGone : (i : String) (p : AdminState) → IsGone i p (cleaned i p)
cleaned-IsGone i p = (
  ap is_some (find_first-delete (is_model i) p.app.models),
  update-clears (is_pinned i) unpinned (λ r. refl) p.tokens,
  get-remove i i p.app.secrets ∙ rw (eq_refl i) refl,
  delete-All (λ (c : CrashRow). c.model_id == i) p.app.crash_log,
  refl,
  refl,
)

is_folder-delete :
    (d : String) (fs : List String) → is_folder d (delete (λ (f : String). f == d) fs) ≡ false
is_folder-delete d [] = refl
is_folder-delete d (f ∷ fs) = ground (arith, is_folder-delete d fs)

has_model-loaded :
    (i : String) (ms : List Model)
    → is_some (find_first (is_model i) (update (is_model i) (λ m. record m { loaded = false }) ms))
      ≡ is_some (find_first (is_model i) ms)
has_model-loaded i [] = refl
has_model-loaded i (m ∷ ms) = ground (arith, has_model-loaded i ms)

stopped-has_model :
    (e : Meets) (m : Model) (p : AdminState) → has_model m.id (stopped e m p) ≡ has_model m.id p
unfolding stopped post_stop_cleanup
stopped-has_model e m p = ground (arith, has_model-loaded m.id p.app.models)

update-pins :
    (i : String) (ts : List TokenRow) → pins (update (has_row_id i) soft_deleted ts) ≡ pins ts
update-pins i [] = refl
update-pins i (r ∷ ts) = ground (arith, update-pins i ts)

revoke_all-pins : (e : Meets) (bs ts : List TokenRow) → pins (revoke_all e bs ts).0 ≡ pins ts
unfolding revoke_all
revoke_all-pins e [] ts = refl
revoke_all-pins e (b ∷ bs) ts = elim (Bool-cases (e.revoke_fails b.token.id)) [
  | inl x ↦ rw x refl
  | inr x ↦ rw x (
      revoke_all-pins e bs (update (has_row_id b.token.id) soft_deleted ts)
      ∙ update-pins b.token.id ts)
]

pins-append : (cs ts us : List TokenRow) → pins ts ≡ pins us → pins (cs ++ ts) ≡ pins (cs ++ us)
pins-append [] ts us h = h
pins-append (c ∷ cs) ts us h = ap (λ ps. c.token.specific_model_id ∷ ps) (pins-append cs ts us h)

-- A row of the model and the rows of tokens that the override left.
revoked_rows : Meets → List TokenRow → AdminState → AdminState
revoked_rows e bs p = record p { tokens = (revoke_all e bs p.tokens).0 }

remove_files-IsSettled :
    (e : Meets) (m : Model) (n : ℕ) (p q : AdminState)
    → find_first (is_model m.id) p.app.models ≡ some m
    → IsGone m.id p q
    → q.folders ≡ p.folders
    → IsSettled e m.id p (remove_files e m n q)
unfolding remove_files
remove_files-IsSettled e m n p q found gone same =
    elim (Bool-cases (is_folder (folder_of e m) q.folders)) [
      | inl x ↦ elim (Bool-cases (e.fails files)) [
        | inl y ↦ rw (x, y) (inr (gone, refl, same))
        | inr y ↦ rw (x, y) (gone, (m, found, is_folder-delete (folder_of e m) q.folders))
      ]
      | inr x ↦ rw x (gone, (m, found, x))
    ]

finish-IsSettled :
    (e : Meets) (m : Model) (bs : List TokenRow) (p : AdminState)
    → find_first (is_model m.id) p.app.models ≡ some m
    → IsSettled e m.id p (finish e m (length bs) (revoked_rows e bs p))
unfolding finish stopped revoked_rows
finish-IsSettled e m bs p found = after (transaction e m.id q) (transaction-IsOutcome m.id q e)
  where
    q : AdminState
    q = stopped e m (with_created e (revoked_rows e bs p))

    after :
        (r : AdminState × Option String)
        → IsOutcome m.id q r
        → IsSettled e m.id p (committed e m (length bs) r)
    after (s, some x) (inl (same, some_failed)) =
        subst (λ (k : AdminState). IsSettled e m.id p (k, internal_error x)) (sym same)
          (inl (
            stopped-has_model e m (with_created e (revoked_rows e bs p)),
            refl,
            inr (
                pins-append e.created (revoke_all e bs p.tokens).0 p.tokens
                  (revoke_all-pins e bs p.tokens)),
          ))
    after (s, some x) (inr same) = absurd (ground arith)
    after (s, none) (inl (_, some_failed)) = absurd (ground arith)
    after (s, none) (inr same) =
        subst (λ (k : AdminState). IsSettled e m.id p (remove_files e m (length bs) k))
          (sym (ap (λ (k : AdminState × Option String). k.0) same))
          (remove_files-IsSettled e m (length bs) p (cleaned m.id q) found (cleaned-IsGone m.id q)
            refl)

checked-IsSettled :
    (e : Meets) (override : Bool) (m : Model) (bs : List TokenRow) (p : AdminState)
    → find_first (is_model m.id) p.app.models ≡ some m
    → IsSettled e m.id p (delete_checked e override m bs p)
unfolding delete_checked revoked_rows
checked-IsSettled e override m bs p found = elim (Bool-cases (has_any bs && not override)) [
  | inl x ↦ rw x (refl, ap is_some found)
  | inr x ↦ elim (Bool-cases (revoke_all e bs p.tokens).1) [
    | inl y ↦ rw (x, y) (finish-IsSettled e m bs p found)
    | inr y ↦ rw (x, y) (inl (refl, refl, inl (revoke_all-pins e bs p.tokens)))
  ]
]

-- Behind the answer that the model is not known, and behind a conflict, nothing has changed. After
-- an error the model keeps its row and its folder, and each token what it is bound to; only where
-- the folder could not be removed, the folders are as before and the tables without the model.
-- After a deletion the model has no row, no secrets, no crashes and no folder, and no token is bound
-- to it; a category that prefers it still does, and its logged usage stays.
pub delete_model-IsSettled :
    (e : Meets) (override : Bool) (id : String) (p : AdminState)
    → IsSettled e id p (delete_model e override id p)
unfolding delete_model
delete_model-IsSettled e override id p = elim (Bool-cases (e.fails lookup)) [
  | inl x ↦ rw x (inl (refl, refl, inl refl))
  | inr x ↦ elim (Option-cases (find_first (is_model id) p.app.models)) [
    | inl r ↦ rw (x, r) (refl, ap is_some r)
    | inr (m, r) ↦ elim (Bool-cases (e.fails blockers)) [
      | inl y ↦ rw (x, r, y) (inl (refl, refl, inl refl))
      | inr y ↦
          rw (x, r, y)
            (subst
              (λ i.
                IsSettled e i p (delete_checked e override m (select (is_blocker m.id) p.tokens) p))
              ((eq_iff m.id id).0 (find_first-some (is_model id) p.app.models m r))
              (checked-IsSettled e override m (select (is_blocker m.id) p.tokens) p (
                subst (λ i. find_first (is_model i) p.app.models ≡ some m)
                  (sym ((eq_iff m.id id).0 (find_first-some (is_model id) p.app.models m r))) r)))
    ]
  ]
]
