-- ===== src/Session/Oidc/Callback.antt =====
-- The return from the provider: callback and upsert_user of proxy/src/auth/oidc.rs.
use sovereign_engine.Prelude.{
  ℕ, String, Bool, Option, none, some, ◌∷◌, ◌==◌, ◌&&◌, ◌||◌, not, eqb, is_some, if◌then◌else◌,
  Result, ok, err, cat, ◌⊎◌, inl, inr,
}
use sovereign_engine.Prelude.Table.{find_first, update, count}
use sovereign_engine.Secrets.{Cipher}
use sovereign_engine.Session.{Account, Accounts, account_of, create_session, build_cookie}
use sovereign_engine.Session.Oidc.{
  AuthState, OidcDb, OidcClient, Claims, Openid, OidcConfig, api_external_url, load_idp,
  build_oidc_client, load_auth_state, delete_auth_state,
}

-- Which statements fail, and the id that is drawn.
pub record UpsertEnv : Type 0 where
  pub lookup_fails : Bool
  pub update_fails : Bool
  pub count_fails : Bool
  pub insert_fails : Bool
  pub id : String

abbrev pub coalesce : Option String → Option String → Option String
coalesce none d = d
coalesce (some s) d = some s

abbrev pub is_user_of : String → String → Account → Bool
is_user_of idp subject u = u.idp_id == idp && u.subject == subject

abbrev pub not_bootstrap : Account → Bool
not_bootstrap u = not (u.idp_id == "bootstrap")

abbrev pub has_id : String → Account → Bool
has_id i u = u.id == i

abbrev pub renewed : Option String → Option String → Account → Account
renewed email name u = record u {
  email = coalesce email u.email;
  display_name = coalesce name u.display_name;
}

abbrev pub new_user :
    UpsertEnv → String → String → Option String → Option String → Accounts → Account
new_user env idp subject email name db = record {
  id = env.id;
  idp_id = idp;
  subject = subject;
  email = email;
  display_name = name;
  is_admin = eqb (count not_bootstrap db.users) 0;
}

unfoldable pub upsert_user :
    UpsertEnv
    → String
    → String
    → Option String
    → Option String
    → Accounts
    → Accounts × Result String
upsert_user env idp subject email name db =
    if env.lookup_fails
    then (db, err "database error")
    else elim (find_first (is_user_of idp subject) db.users) [
      | some u ↦
          if env.update_fails
          then (db, err "database error")
          else (record db { users = update (has_id u.id) (renewed email name) db.users }, ok u.id)
      | none ↦
          if env.count_fails
          then (db, err "database error")
          else if env.insert_fails || is_some (account_of env.id db.users)
          then (db, err "database error")
          else (record db { users = new_user env idp subject email name db ∷ db.users }, ok env.id)
    ]

pub record CallbackEnv : Type 0 where
  -- datetime('now'), and 24 hours later
  pub now : String
  pub expires : String
  pub state_fails : Bool
  pub idp_fails : Bool
  pub upsert : UpsertEnv
  pub session_fails : Bool
  pub session_id : String
  pub session_token : String
  pub delete_fails : Bool

-- A redirect with its cookie, or a status with an error.
pub data CallbackReply : Type 0 where
  logged_in : String → String → CallbackReply
  login_failed : ℕ → String → CallbackReply

unfoldable pub verified :
    {Meta : Type 0} → Openid Meta → OidcClient Meta → String → AuthState → (ℕ × String) ⊎ Claims
verified lib client code a =
    if not (lib.has_token_endpoint client)
    then inl (500, "Token endpoint not configured")
    else elim (lib.exchange client code a.pkce_verifier) [
      | none ↦ inl (500, "Token exchange failed")
      | some none ↦ inl (500, "No ID token in response")
      | some (some token) ↦ elim (lib.claims client token a.nonce) [
        | none ↦ inl (400, "Token verification failed")
        | some claims ↦ inr claims
      ]
    ]

-- The session and the cookie for a user.
unfoldable pub open_session :
    (String → String)
    → OidcConfig
    → CallbackEnv
    → String
    → OidcDb
    → Accounts × Result String
    → OidcDb × CallbackReply
unfolding create_session delete_auth_state build_cookie api_external_url
open_session hash config env csrf db (accounts, err e) =
    (record db { accounts = accounts }, login_failed 500 "Failed to create user record")
open_session hash config env csrf db (accounts, ok user) =
    let made =
      create_session hash env.session_fails env.expires env.session_id env.session_token user
        accounts in
    elim made.1 [
      | err e ↦ (record db { accounts = made.0 }, login_failed 500 "Failed to create session")
      | ok token ↦ (
        delete_auth_state env.delete_fails csrf (record db { accounts = made.0 }),
        logged_in
            (build_cookie token 86400 config.cookies.secure_cookies config.cookies.cookie_domain)
            (cat (api_external_url config) "/portal/"),
      )
    ]

unfoldable pub callback :
    {Byte Meta : Type 0}
    → Cipher Byte
    → Openid Meta
    → (String → String)
    → OidcConfig
    → CallbackEnv
    → String
    → String
    → OidcDb
    → OidcDb × CallbackReply
unfolding load_auth_state load_idp build_oidc_client api_external_url verified upsert_user
    open_session
callback c lib hash config env code csrf db =
    elim (load_auth_state env.state_fails env.now csrf db) [
      | err e ↦ (db, login_failed 400 "Invalid or expired login state")
      | ok a ↦ elim (load_idp env.idp_fails a.idp_id db.idps) [
        | err e ↦ (db, login_failed 500 "OIDC configuration error")
        | ok idp ↦
            elim (build_oidc_client c lib idp (api_external_url config) config.db_encryption_key) [
              | err e ↦ (db, login_failed 500 "OIDC configuration error")
              | ok client ↦ elim (verified lib client code a) [
                | inl refusal ↦ (db, login_failed refusal.0 refusal.1)
                | inr claims ↦ open_session hash config env csrf db (
                    upsert_user env.upsert a.idp_id claims.subject claims.email
                      (coalesce claims.preferred_username claims.email) db.accounts)
              ]
            ]
      ]
    ]
