-- ===== src/Session.antt =====
-- Sessions of the portal and the checks before a request: proxy/src/auth/sessions.rs,
-- proxy/src/auth/bootstrap.rs, proxy/src/auth/mod.rs and the headers of proxy/src/proxy/webui.rs.
-- The hash of a token and the database's clock are parameters; times of the database are texts.
pub mod Cookies
pub mod Gate
pub mod Headers
pub mod Login
pub mod Oidc
pub mod Tests
use sovereign_engine.Prelude.{
  ℕ, suc, String, Bool, true, false, not, ◌&&◌, ◌||◌, Option, none, some, List, [], ◌∷◌, ◌++◌, ◌==◌,
  text_lt, is_some, unwrap_or, if◌then◌else◌, Result, ok, err, ◌>>=◌, cat, decimal_text,
}
use sovereign_engine.Prelude.Table.{find_first, delete, count}

-- A row of `sessions`.
pub record SessionRow : Type 0 where
  pub id : String
  pub user_id : String
  pub token_hash : String
  pub expires_at : String

-- A row of `users`.
pub record Account : Type 0 where
  pub id : String
  pub idp_id : String
  pub subject : String
  pub email : Option String
  pub display_name : Option String
  pub is_admin : Bool

pub record Accounts : Type 0 where
  pub sessions : List SessionRow
  pub users : List Account
  pub idp_configs : List String

pub record SessionUser : Type 0 where
  pub session_id : String
  pub user_id : String
  pub is_admin : Bool
  pub email : Option String
  pub display_name : Option String

abbrev pub account_of : String → List Account → Option Account
account_of i us = find_first (λ (u : Account). u.id == i) us

abbrev pub has_session_hash : String → SessionRow → Bool
has_session_hash h s = s.token_hash == h

-- The token and the id are drawn, `expires` is datetime('now', '+24 hours'). The INSERT fails on its
-- own account or because the id or the hash is there.
unfoldable pub create_session :
    (String → String)
    → Bool
    → String
    → String
    → String
    → String
    → Accounts
    → Accounts × Result String
create_session hash failed expires id token user db =
    if failed
      || (is_some (find_first (λ (s : SessionRow). s.id == id) db.sessions)
          || is_some (find_first (has_session_hash (hash token)) db.sessions))
    then (db, err "Failed to create session")
    else (
      record db {
        sessions =
            record { id = id; user_id = user; token_hash = hash token; expires_at = expires }
            ∷ db.sessions;
      },
      ok token,
    )

-- WHERE s.token_hash = ? AND s.expires_at > datetime('now'), with a user to join.
abbrev pub is_valid_session : String → String → List Account → SessionRow → Bool
is_valid_session h now us s =
    s.token_hash == h && (text_lt now s.expires_at && is_some (account_of s.user_id us))

abbrev pub session_user : SessionRow → Option Account → Result SessionUser
session_user s none = err "Invalid or expired session"
session_user s (some u) = ok (record {
  session_id = s.id;
  user_id = s.user_id;
  is_admin = u.is_admin;
  email = u.email;
  display_name = u.display_name;
})

unfoldable pub validate_session :
    (String → String) → Bool → String → String → Accounts → Result SessionUser
validate_session hash failed now token db =
    if failed
    then err "Failed to query session"
    else elim (find_first (is_valid_session (hash token) now db.users) db.sessions) [
      | none ↦ err "Invalid or expired session"
      | some s ↦ session_user s (account_of s.user_id db.users)
    ]

unfoldable pub delete_session :
    (String → String) → Bool → String → Accounts → Accounts × Result Unit
delete_session hash failed token db =
    if failed
    then (db, err "Failed to delete session")
    else (record db { sessions = delete (has_session_hash (hash token)) db.sessions }, ok tt)

-- With the number of rows deleted.
unfoldable pub cleanup_expired : Bool → String → Accounts → Accounts × Result ℕ
cleanup_expired failed now db = if failed then (db, err "Failed to clean up sessions") else (
  record db { sessions = delete (λ (s : SessionRow). text_lt s.expires_at now) db.sessions },
  ok (count (λ (s : SessionRow). text_lt s.expires_at now) db.sessions),
)

abbrev pub secure_flag : Bool → String
secure_flag secure = if secure then "; Secure" else ""

abbrev pub domain_attr : Option String → String
domain_attr none = ""
domain_attr (some d) = cat "; Domain=" d

-- `max_age` is at most a u32 here.
unfoldable pub build_cookie : String → ℕ → Bool → Option String → String
unfolding decimal_text
build_cookie token max_age secure domain = cat "se_session=" (
    cat token (
      cat "; Path=/; HttpOnly; SameSite=Lax; Max-Age="
        (cat (decimal_text max_age) (cat (secure_flag secure) (domain_attr domain)))))

unfoldable pub clear_cookie : Bool → Option String → String
clear_cookie secure domain =
    cat "se_session=; Path=/; HttpOnly; SameSite=Lax; Max-Age=0"
      (cat (secure_flag secure) (domain_attr domain))

-- The parts of AppConfig that the bootstrap credentials use.
pub record BootstrapConfig : Type 0 where
  pub bootstrap_user : Option String
  pub bootstrap_password : Option String
  pub break_glass : Bool

unfoldable pub has_bootstrap_creds : BootstrapConfig → Bool
has_bootstrap_creds c = is_some c.bootstrap_user && is_some c.bootstrap_password

abbrev pub matches : Option String → String → Bool
matches none s = false
matches (some t) s = t == s

unfoldable pub validate_bootstrap_creds : BootstrapConfig → String → String → Bool
validate_bootstrap_creds c user password =
    matches c.bootstrap_user user && matches c.bootstrap_password password

unfoldable pub is_bootstrap_active : BootstrapConfig → Bool
unfolding has_bootstrap_creds
is_bootstrap_active c = c.break_glass && has_bootstrap_creds c

-- Which statements fail.
pub record BootstrapFails : Type 0 where
  pub lookup : Bool
  pub insert_idp : Bool
  pub insert_user : Bool

abbrev pub is_bootstrap_user : String → Account → Bool
is_bootstrap_user name u = u.subject == name && u.idp_id == "bootstrap"

-- INSERT OR IGNORE
abbrev pub with_bootstrap_idp : List String → List String
with_bootstrap_idp is =
    if is_some (find_first (λ (i : String). i == "bootstrap") is) then is else "bootstrap" ∷ is

unfoldable pub ensure_bootstrap_user :
    BootstrapFails → String → String → Accounts → Accounts × Result String
ensure_bootstrap_user fails id name db =
    if fails.lookup
    then (db, err "database error")
    else elim (find_first (is_bootstrap_user name) db.users) [
      | some u ↦ (db, ok u.id)
      | none ↦
          if fails.insert_idp
          then (db, err "database error")
          else if fails.insert_user || is_some (account_of id db.users)
          then (record db { idp_configs = with_bootstrap_idp db.idp_configs }, err "database error")
          else (
            record db {
              idp_configs = with_bootstrap_idp db.idp_configs;
              users =
                  record {
                    id = id;
                    idp_id = "bootstrap";
                    subject = name;
                    email = none;
                    display_name = some name;
                    is_admin = true;
                  }
                  ∷ db.users;
            },
            ok id,
          )
    ]

unfoldable pub validate_bootstrap :
    BootstrapFails
    → BootstrapConfig
    → String
    → String
    → String
    → Accounts
    → Accounts × Result String
unfolding is_bootstrap_active validate_bootstrap_creds ensure_bootstrap_user
validate_bootstrap fails c id name password db =
    if not (is_bootstrap_active c)
    then (db, err "Bootstrap authentication is not active")
    else if not (validate_bootstrap_creds c name password)
    then (db, err "Invalid bootstrap credentials")
    else ensure_bootstrap_user fails id name db
