-- ===== src/Auth.antt =====
-- API tokens: proxy/src/auth/tokens.rs. The hash of a token, the date that lies a number of days
-- ahead and the reader of dates are parameters.
pub mod Lifecycle
pub mod Tests
use sovereign_engine.Prelude.{
  ℕ, String, Bool, true, false, not, ◌&&◌, ◌||◌, Option, none, some, List, ◌∷◌, ltb, eqb, ◌==◌,
  is_some, unwrap_or, if◌then◌else◌, Result, ok, err, ℤ, pos, negsuc, cat,
}
use sovereign_engine.Prelude.Table.{find_first, update, count}

-- A row of `tokens`.
pub record Token : Type 0 where
  pub id : String
  pub user_id : String
  pub name : String
  pub token_hash : String
  pub category_id : Option String
  pub specific_model_id : Option String
  pub expires_at : Option String
  pub revoked : Bool
  pub internal : Bool
  pub meta : Bool

pub record User : Type 0 where
  pub id : String
  pub is_admin : Bool

pub record Db : Type 0 where
  pub tokens : List Token
  pub users : List User

pub record AuthUser : Type 0 where
  pub user_id : String
  pub token_id : String
  pub category_id : Option String
  pub specific_model_id : Option String
  pub is_admin : Bool
  pub is_internal : Bool

-- What the caller of `create_token` asks for.
pub record NewToken : Type 0 where
  pub name : String
  pub category_id : Option String
  pub specific_model_id : Option String
  pub expires_in_days : Option ℤ

-- clamp(1, 365)
abbrev pub clamp_days : ℤ → ℕ
clamp_days (negsuc n) = 1
clamp_days (pos n) = if ltb n 1 then 1 else if ltb 365 n then 365 else n

abbrev pub days_of : NewToken → ℕ
days_of req = clamp_days (unwrap_or req.expires_in_days (pos 90))

abbrev pub has_token_id : String → Token → Bool
has_token_id i t = t.id == i

abbrev pub has_hash : String → Token → Bool
has_hash h t = t.token_hash == h

abbrev pub find_user : String → List User → Option User
find_user i us = find_first (λ (u : User). u.id == i) us

-- The row that `create_token` inserts.
abbrev pub new_row : (String → String) → (ℕ → String) → String → String → String → NewToken → Token
new_row hash_token in_days id token user req = record {
  id = id;
  user_id = user;
  name = req.name;
  token_hash = hash_token token;
  category_id = req.category_id;
  specific_model_id = req.specific_model_id;
  expires_at = some (in_days (days_of req));
  revoked = false;
  internal = false;
  meta = false;
}

-- `id` and `token` are the new ones that the function draws. The INSERT fails on its own account,
-- foreign keys included, or because the id or the hash is there.
unfoldable pub create_token :
    (String → String)
    → (ℕ → String)
    → Bool
    → String
    → String
    → String
    → NewToken
    → Db
    → Db × Result String
create_token hash_token in_days failed id token user req db =
    if failed
      || (is_some (find_first (has_token_id id) db.tokens)
          || is_some (find_first (has_hash (hash_token token)) db.tokens))
    then (db, err "Failed to create token")
    else (record db { tokens = new_row hash_token in_days id token user req ∷ db.tokens }, ok token)

-- The check of the expiry, before the answer.
abbrev pub check_expiry : (String → Option ℕ) → ℕ → Option String → AuthUser → Result AuthUser
check_expiry parse now none user = ok user
check_expiry parse now (some text) user = elim (parse text) [
  | none ↦ err "Invalid expires_at"
  | some expires ↦ if ltb expires now then err "Token has expired" else ok user
]

abbrev pub auth_user : Token → User → AuthUser
auth_user t u = record {
  user_id = t.user_id;
  token_id = t.id;
  category_id = t.category_id;
  specific_model_id = t.specific_model_id;
  is_admin = u.is_admin;
  is_internal = t.internal;
}

unfoldable pub validate_token :
    (String → String) → (String → Option ℕ) → Bool → ℕ → String → Db → Result AuthUser
validate_token hash_token parse failed now token db =
    if failed
    then err "Failed to query token"
    else elim (find_first (has_hash (hash_token token)) db.tokens) [
      | none ↦ err "Invalid token"
      | some t ↦ elim (find_user t.user_id db.users) [
        | none ↦ err "Invalid token"
        | some u ↦
            if t.revoked
            then err "Token has been revoked"
            else check_expiry parse now t.expires_at (auth_user t u)
      ]
    ]

abbrev pub is_own : String → String → Token → Bool
is_own i user t = t.id == i && t.user_id == user

unfoldable pub revoke_token : Bool → String → String → Db → Db × Result Unit
revoke_token failed i user db =
    if failed
    then (db, err "Failed to revoke token")
    else if eqb (count (is_own i user) db.tokens) 0
    then (db, err "Token not found or not owned by user")
    else (
      record db {
        tokens = update (is_own i user) (λ (t : Token). record t { revoked = true }) db.tokens;
      },
      ok tt,
    )

abbrev pub is_meta_of : String → Token → Bool
is_meta_of user t = t.user_id == user && (t.meta && not t.revoked)

-- The row that `ensure_meta_token` inserts, with the hash of a token that nobody has.
abbrev pub meta_row : (String → String) → String → String → String → Token
meta_row hash_token id dummy user = record {
  id = id;
  user_id = user;
  name = "Open WebUI";
  token_hash = hash_token dummy;
  category_id = none;
  specific_model_id = none;
  expires_at = none;
  revoked = false;
  internal = false;
  meta = true;
}

unfoldable pub ensure_meta_token :
    (String → String) → Bool → Bool → String → String → String → Db → Db × Result String
ensure_meta_token hash_token unread failed id dummy user db =
    if unread
    then (db, err "Failed to check existing meta token")
    else elim (find_first (is_meta_of user) db.tokens) [
      | some t ↦ (db, ok t.id)
      | none ↦
          if failed
            || (is_some (find_first (has_token_id id) db.tokens)
                || is_some (find_first (has_hash (hash_token dummy)) db.tokens))
          then (db, err "Failed to create meta token")
          else (record db { tokens = meta_row hash_token id dummy user ∷ db.tokens }, ok id)
    ]
