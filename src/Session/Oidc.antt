-- ===== src/Session/Oidc.antt =====
-- The login by OIDC: proxy/src/auth/oidc.rs. What the library openidconnect does, over the network
-- or not, is a record of functions, and so are the ciphers of the client secret.
pub mod Callback
pub mod Users
pub mod Opened
pub mod Whose
pub mod Tests
use Prim.Native.Char.{Char, code}
use sovereign_engine.Prelude.{
  ℕ, String, Bool, true, false, Option, none, some, List, [], ◌∷◌, ◌==◌, ◌&&◌, ◌||◌, not, text_lt,
  eqb, is_some, if◌then◌else◌, Result, ok, err, cat, map, is_whitespace, behind,
}
use sovereign_engine.Prelude.Table.{find_first, select, update, delete, count}
use sovereign_engine.Secrets.{Cipher, decrypt}
use sovereign_engine.Session.{
  Account, Accounts, SessionUser, account_of, create_session, build_cookie, BootstrapConfig,
  is_bootstrap_active,
}
use sovereign_engine.Session.Login.{CookieConfig}

-- A row of `idp_configs`.
pub record IdpConfig : Type 0 where
  pub id : String
  pub name : String
  pub issuer : String
  pub client_id : String
  pub client_secret_enc : String
  pub scopes : String
  pub enabled : Bool

-- A row of `oidc_auth_state`.
pub record AuthState : Type 0 where
  pub csrf_token : String
  pub nonce : String
  pub idp_id : String
  pub pkce_verifier : String
  pub expires_at : String

pub record OidcDb : Type 0 where
  pub idps : List IdpConfig
  pub auth_states : List AuthState
  pub accounts : Accounts

pub record OidcClient (Meta : Type 0) : Type 0 where
  pub metadata : Meta
  pub client_id : String
  pub client_secret : String
  pub redirect_url : String

pub record Claims : Type 0 where
  pub subject : String
  pub email : Option String
  pub preferred_username : Option String

-- IssuerUrl::new, RedirectUrl::new, discover_async, PkceCodeChallenge, authorize_url, exchange_code,
-- request_async with the ID token of its response, and claims.
pub record Openid (Meta : Type 0) : Type 0 where
  pub is_issuer : String → Bool
  pub is_redirect : String → Bool
  pub discover : String → Option Meta
  pub challenge : String → String
  pub authorize_url : OidcClient Meta → String → String → String → List String → String
  pub has_token_endpoint : OidcClient Meta → Bool
  pub exchange : OidcClient Meta → String → String → Option (Option String)
  pub claims : OidcClient Meta → String → String → Option Claims

-- The parts of AppConfig that the login uses.
pub record OidcConfig : Type 0 where
  pub api_hostname : String
  pub db_encryption_key : Option String
  pub cookies : CookieConfig

unfoldable pub api_external_url : OidcConfig → String
api_external_url c =
    cat (if c.cookies.secure_cookies then "https" else "http") (cat "://" c.api_hostname)

unfoldable pub list_providers :
    BootstrapConfig → Bool → List IdpConfig → Result (List (String × String) × Bool)
unfolding is_bootstrap_active
list_providers config failed idps =
    if failed
    then err "Internal server error"
    else ok (
      map (λ (i : IdpConfig). (i.id, i.name)) (select (λ (i : IdpConfig). i.enabled) idps),
      is_bootstrap_active config,
    )

abbrev pub is_enabled_idp : String → IdpConfig → Bool
is_enabled_idp name i = i.id == name && i.enabled

unfoldable pub load_idp : Bool → String → List IdpConfig → Result IdpConfig
load_idp failed name idps =
    if failed then err "database error" else elim (find_first (is_enabled_idp name) idps) [
      | none ↦ err "IdP not found or disabled"
      | some i ↦ ok i
    ]

unfoldable pub client_secret :
    {Byte : Type 0} → Cipher Byte → Option String → String → Result String
unfolding decrypt
client_secret c none secret = ok secret
client_secret c (some key) secret = elim (decrypt c secret key) [
  | err e ↦ err "Failed to decrypt IdP client secret"
  | ok s ↦ ok s
]

unfoldable pub build_oidc_client :
    {Byte Meta : Type 0}
    → Cipher Byte
    → Openid Meta
    → IdpConfig
    → String
    → Option String
    → Result (OidcClient Meta)
unfolding client_secret
build_oidc_client c lib idp api_url key =
    if not (lib.is_issuer idp.issuer)
    then err "Invalid issuer URL"
    else elim (lib.discover idp.issuer) [
      | none ↦ err "OIDC discovery failed"
      | some m ↦
          if not (lib.is_redirect (cat api_url "/auth/callback"))
          then err "Invalid redirect URL"
          else elim (client_secret c key idp.client_secret_enc) [
            | err e ↦ err e
            | ok s ↦ ok (record {
              metadata = m;
              client_id = idp.client_id;
              client_secret = s;
              redirect_url = cat api_url "/auth/callback";
            })
          ]
    ]

abbrev pub has_csrf : String → AuthState → Bool
has_csrf token a = a.csrf_token == token

-- `expires` is datetime('now', '+10 minutes'); the token is the primary key.
unfoldable pub store_auth_state :
    Bool → String → String → String → String → String → OidcDb → OidcDb × Result Unit
store_auth_state failed expires csrf nonce idp verifier db =
    if failed || is_some (find_first (has_csrf csrf) db.auth_states)
    then (db, err "Failed to initiate login")
    else (
      record db {
        auth_states =
            record {
              csrf_token = csrf;
              nonce = nonce;
              idp_id = idp;
              pkce_verifier = verifier;
              expires_at = expires;
            }
            ∷ db.auth_states;
      },
      ok tt,
    )

abbrev pub is_live : String → String → AuthState → Bool
is_live now token a = has_csrf token a && text_lt now a.expires_at

unfoldable pub load_auth_state : Bool → String → String → OidcDb → Result AuthState
load_auth_state failed now csrf db =
    if failed then err "database error" else elim (find_first (is_live now csrf) db.auth_states) [
      | none ↦ err "Invalid or expired auth state"
      | some a ↦ ok a
    ]

-- Its error is dropped by the one caller.
unfoldable pub delete_auth_state : Bool → String → OidcDb → OidcDb
delete_auth_state failed csrf db =
    if failed then db else record db { auth_states = delete (has_csrf csrf) db.auth_states }

-- A character that is not white space starts the first piece or goes in front of it.
abbrev pub word_behind : Char → List String → List String
word_behind c [] = behind c "" ∷ []
word_behind c (w ∷ ws) = behind c w ∷ ws

abbrev pub pieces : String → List String
pieces String.[] = "" ∷ []
pieces (String.◌∷◌ c s) =
    let rest = pieces s in if is_whitespace c then "" ∷ rest else word_behind c rest

unfoldable pub split_whitespace : String → List String
split_whitespace s = delete (λ (w : String). w == "") (pieces s)

-- What is drawn for a login, and which statements fail.
pub record OidcLoginEnv : Type 0 where
  pub load_fails : Bool
  pub store_fails : Bool
  pub csrf : String
  pub nonce : String
  pub verifier : String
  pub expires : String

-- A redirect, or a status with an error.
pub data OidcReply : Type 0 where
  to : String → OidcReply
  failed_with : ℕ → String → OidcReply

abbrev pub stored_reply : String → Result Unit → OidcReply
stored_reply url (ok u) = to url
stored_reply url (err e) = failed_with 500 e

unfoldable pub login :
    {Byte Meta : Type 0}
    → Cipher Byte
    → Openid Meta
    → OidcConfig
    → OidcLoginEnv
    → String
    → OidcDb
    → OidcDb × OidcReply
unfolding load_idp build_oidc_client api_external_url split_whitespace store_auth_state
login c lib config env name db = elim (load_idp env.load_fails name db.idps) [
  | err e ↦ (db, failed_with 400 e)
  | ok idp ↦ elim (build_oidc_client c lib idp (api_external_url config) config.db_encryption_key) [
    | err e ↦ (db, failed_with 500 "OIDC provider configuration error")
    | ok client ↦
        let stored =
          store_auth_state env.store_fails env.expires env.csrf env.nonce name env.verifier db in
        let url =
          lib.authorize_url client env.csrf env.nonce (lib.challenge env.verifier)
            (split_whitespace idp.scopes) in
        (stored.0, stored_reply url stored.1)
  ]
]
