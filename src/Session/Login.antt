-- ===== src/Session/Login.antt =====
-- The login with the bootstrap credentials and its limit of attempts, and the end of a session:
-- check_rate_limit, bootstrap_login, me and logout of proxy/src/auth/oidc.rs.
pub mod Limit
use Prim.Native.Char.{Char, code}
use sovereign_engine.Prelude.{
  ℕ, ◌+◌, ◌-◌, ◌/◌, String, Bool, true, false, not, Option, none, some, List, [], ◌∷◌, ◌==◌, ltb,
  leb, eqb, if◌then◌else◌, unwrap_or, Result, ok, err, trim, behind,
}
use sovereign_engine.Prelude.Dict.{Dict, get, insert}
use sovereign_engine.Session.{
  Accounts, SessionUser, create_session, delete_session, build_cookie, clear_cookie,
  BootstrapConfig, BootstrapFails, is_bootstrap_active, validate_bootstrap,
}
use sovereign_engine.Session.Cookies.{extract_session_tokens, validate_any_session}

-- An entry of BOOTSTRAP_RATE_LIMIT.
pub record Attempts : Type 0 where
  pub count : ℕ
  pub window_start : ℕ

-- split(',').next()
unfoldable pub before_comma : String → String
before_comma String.[] = ""
before_comma (String.◌∷◌ c s) =
    let rest = before_comma s in if eqb (code c) 44 then "" else behind c rest

abbrev pub or_global : String → String
or_global s = if s == "" then "global" else s

-- The header X-Forwarded-For, if there is one that is text.
unfoldable pub extract_client_ip : Option String → String
unfolding trim before_comma
extract_client_ip none = "global"
extract_client_ip (some v) = or_global (trim (before_comma v))

abbrev pub window_secs : ℕ
window_secs = 60

abbrev pub max_attempts : ℕ
max_attempts = 5

-- duration_since, which is 0 for a later start, in whole seconds.
abbrev pub seconds_since : ℕ → ℕ → ℕ
seconds_since start now = (now - start) / 1000000000

-- The entry after an attempt, and whether the attempt is allowed.
abbrev pub attempt : ℕ → Attempts → Attempts × Bool
attempt now a =
    if leb window_secs (seconds_since a.window_start now)
    then (record { count = 1; window_start = now }, true)
    else if ltb a.count max_attempts
    then (record a { count = a.count + 1 }, true)
    else (a, false)

unfoldable pub check_rate_limit : ℕ → String → Dict Attempts → Dict Attempts × Bool
unfolding get insert
check_rate_limit now key limits =
    let after =
      attempt now (unwrap_or (get key limits) (record { count = 0; window_start = now })) in
    (insert key after.0 limits, after.1)

-- What a login meets: its time, which statements fail, the ids and the token that are drawn, and
-- datetime('now', '+24 hours').
pub record LoginEnv : Type 0 where
  pub now : ℕ
  pub fails : BootstrapFails
  pub insert_fails : Bool
  pub user_id : String
  pub session_id : String
  pub session_token : String
  pub expires : String

pub record LoginRequest : Type 0 where
  pub forwarded_for : Option String
  pub user : String
  pub pass : String

pub record CookieConfig : Type 0 where
  pub secure_cookies : Bool
  pub cookie_domain : Option String

pub record LoginState : Type 0 where
  pub limits : Dict Attempts
  pub db : Accounts

-- The status of an answer, and its Set-Cookie header.
pub record LoginReply : Type 0 where
  pub status : ℕ
  pub set_cookie : Option String

abbrev pub refused : ℕ → LoginReply
refused n = record { status = n; set_cookie = none }

unfoldable pub minted : CookieConfig → Result String → LoginReply
unfolding build_cookie
minted c (err e) = refused 500
minted c (ok token) = record {
  status = 204;
  set_cookie = some (build_cookie token 86400 c.secure_cookies c.cookie_domain);
}

unfoldable pub mint :
    (String → String) → LoginEnv → CookieConfig → Accounts × Result String → Accounts × LoginReply
unfolding create_session minted
mint hash env c (db, err e) = (db, refused 401)
mint hash env c (db, ok user) =
    let made =
      create_session hash env.insert_fails env.expires env.session_id env.session_token user db in
    (made.0, minted c made.1)

unfoldable pub bootstrap_login :
    (String → String)
    → BootstrapConfig
    → CookieConfig
    → LoginEnv
    → LoginRequest
    → LoginState
    → LoginState × LoginReply
unfolding is_bootstrap_active extract_client_ip check_rate_limit validate_bootstrap mint
bootstrap_login hash config cookies env req s =
    if not (is_bootstrap_active config)
    then (s, refused 404)
    else let checked = check_rate_limit env.now (extract_client_ip req.forwarded_for) s.limits in
      if not checked.1
      then (record s { limits = checked.0 }, refused 429)
      else let done =
          mint hash env cookies
            (validate_bootstrap env.fails config env.user_id req.user req.pass s.db) in
        (record { limits = checked.0; db = done.0 }, done.1)

-- The user of the session, or none for the status 401. The answer has the URL of the chat besides.
unfoldable pub me :
    (String → String) → Bool → String → Option String → Accounts → Option SessionUser
unfolding validate_any_session
me hash failed now cookie db = validate_any_session hash failed now (unwrap_or cookie "") db

-- An error of a DELETE is dropped.
unfoldable pub delete_sessions : (String → String) → Bool → List String → Accounts → Accounts
unfolding delete_session
delete_sessions hash failed [] db = db
delete_sessions hash failed (t ∷ ts) db =
    delete_sessions hash failed ts (delete_session hash failed t db).0

-- The tables, and the Set-Cookie header of the answer.
unfoldable pub logout :
    (String → String) → Bool → CookieConfig → Option String → Accounts → Accounts × String
unfolding delete_sessions extract_session_tokens clear_cookie
logout hash failed c cookie db = (
  delete_sessions hash failed (extract_session_tokens (unwrap_or cookie "")) db,
  clear_cookie c.secure_cookies c.cookie_domain,
)
