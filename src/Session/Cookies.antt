-- ===== src/Session/Cookies.antt =====
-- Session tokens in the Cookie header, and the middleware that reads them: proxy/src/auth/mod.rs.
use Prim.Native.Char.{Char, code}
use sovereign_engine.Prelude.{
  ℕ, String, Bool, not, Option, none, some, List, [], ◌∷◌, eqb, if◌then◌else◌, unwrap_or, ok, err,
  trim, strip_prefix, behind, cat,
}
use sovereign_engine.Auth.{AuthUser, Db, validate_token}
use sovereign_engine.Session.{Accounts, SessionUser, validate_session}

abbrev pub behind_first : Char → List String → List String
behind_first c [] = behind c "" ∷ []
behind_first c (s ∷ ss) = behind c s ∷ ss

-- split(';')
unfoldable pub split_semicolons : String → List String
split_semicolons String.[] = "" ∷ []
split_semicolons (String.◌∷◌ c s) =
    let rest = split_semicolons s in if eqb (code c) 59 then "" ∷ rest else behind_first c rest

abbrev pub keep_some : Option String → List String → List String
keep_some none ss = ss
keep_some (some s) ss = s ∷ ss

unfoldable pub session_values : List String → List String
unfolding trim strip_prefix
session_values [] = []
session_values (c ∷ cs) = keep_some (strip_prefix "se_session=" (trim c)) (session_values cs)

unfoldable pub extract_session_tokens : String → List String
unfolding split_semicolons session_values
extract_session_tokens header = session_values (split_semicolons header)

-- A failing query counts as a token that is not valid.
unfoldable pub first_valid :
    (String → String) → Bool → String → List String → Accounts → Option SessionUser
unfolding validate_session
first_valid hash failed now [] db = none
first_valid hash failed now (t ∷ ts) db = elim (validate_session hash failed now t db) [
  | ok u ↦ some u
  | err e ↦ first_valid hash failed now ts db
]

unfoldable pub validate_any_session :
    (String → String) → Bool → String → String → Accounts → Option SessionUser
unfolding extract_session_tokens first_valid
validate_any_session hash failed now header db =
    first_valid hash failed now (extract_session_tokens header) db

-- What a handler finds in the extensions of a request.
pub record SessionAuth : Type 0 where
  pub user_id : String
  pub is_admin : Bool
  pub email : Option String
  pub display_name : Option String

-- A request goes on with what it is extended by, or is answered: with a status, or by a redirect.
pub data Verdict (A : Type 0) : Type 0 where
  goes_on : A → Verdict A
  answered : ℕ → Verdict A
  redirected : String → Verdict A

abbrev pub auth_of : SessionUser → SessionAuth
auth_of u = record {
  user_id = u.user_id;
  is_admin = u.is_admin;
  email = u.email;
  display_name = u.display_name;
}

-- The Cookie header of a request, if it has one that is text.
unfoldable pub session_auth_middleware :
    (String → String) → Bool → String → Option String → Accounts → Verdict SessionAuth
unfolding validate_any_session
session_auth_middleware hash failed now cookie db =
    elim (validate_any_session hash failed now (unwrap_or cookie "") db) [
      | none ↦ answered 401
      | some u ↦ goes_on (auth_of u)
    ]

-- The flag says that the Accept header has text/html.
abbrev pub unauth_response : Bool → String → Verdict SessionAuth
unauth_response accepts_html portal_url =
    if accepts_html then redirected portal_url else answered 401

unfoldable pub session_auth_redirect_middleware :
    (String → String)
    → Bool
    → String
    → Bool
    → String
    → Option String
    → Accounts
    → Verdict SessionAuth
unfolding validate_any_session
session_auth_redirect_middleware hash failed now accepts_html api_url cookie db =
    elim (validate_any_session hash failed now (unwrap_or cookie "") db) [
      | none ↦ unauth_response accepts_html (cat api_url "/portal/")
      | some u ↦ goes_on (auth_of u)
    ]

-- It stands behind session_auth_middleware.
unfoldable pub admin_only_middleware : Option SessionAuth → Verdict SessionAuth
admin_only_middleware none = answered 401
admin_only_middleware (some s) = if not s.is_admin then answered 403 else goes_on s

unfoldable pub admin_route :
    (String → String) → Bool → String → Option String → Accounts → Verdict SessionAuth
unfolding session_auth_middleware admin_only_middleware
admin_route hash failed now cookie db = elim (session_auth_middleware hash failed now cookie db) [
  | goes_on s ↦ admin_only_middleware (some s)
  | answered n ↦ answered n
  | redirected u ↦ redirected u
]

abbrev pub or_key : Option String → Option String → Option String
or_key none d = d
or_key (some s) d = some s

abbrev pub bearer_of : Option String → Option String
bearer_of none = none
bearer_of (some h) = strip_prefix "Bearer " h

-- The headers Authorization and X-Api-Key, where they are text.
unfoldable pub bearer_auth_middleware :
    (String → String)
    → (String → Option ℕ)
    → Bool
    → ℕ
    → Option String
    → Option String
    → Db
    → Verdict AuthUser
unfolding strip_prefix validate_token
bearer_auth_middleware hash parse failed now authorization api_key db =
    elim (or_key (bearer_of authorization) api_key) [
      | none ↦ answered 401
      | some token ↦ elim (validate_token hash parse failed now token db) [
        | err e ↦ answered 401
        | ok user ↦ goes_on user
      ]
    ]
