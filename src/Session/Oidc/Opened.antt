-- ===== src/Session/Oidc/Opened.antt =====
-- The session that callback of proxy/src/auth/oidc.rs opens.
use sovereign_engine.Prelude.{
  String, Bool, ◌∷◌, ◌==◌, ◌||◌, subst, is_some, Result, ok, err, inl, inr, ◌≡◌, refl, ap, sym,
  arith, In, Bool-cases,
}
use sovereign_engine.Prelude.Table.{find_first}
use sovereign_engine.Session.{SessionRow, Accounts, has_session_hash, create_session, build_cookie}
use sovereign_engine.Session.Oidc.{OidcDb, OidcConfig, delete_auth_state}
use sovereign_engine.Session.Oidc.Callback.{CallbackEnv, logged_in, open_session}

-- A session for the user with this id, and the cookie with its token.
abbrev pub IsOpened : (String → String) → OidcConfig → String → Accounts → String → Type 0
unfolding build_cookie
IsOpened hash config user db cookie =
    (row : SessionRow) × (token : String) × In row db.sessions
    × (row.user_id ≡ user)
    × (row.token_hash ≡ hash token)
    × (cookie ≡ build_cookie token 86400 config.cookies.secure_cookies config.cookies.cookie_domain)

abbrev minted_row : (String → String) → CallbackEnv → String → SessionRow
minted_row hash env user = record {
  id = env.session_id;
  user_id = user;
  token_hash = hash env.session_token;
  expires_at = env.expires;
}

abbrev is_taken : (String → String) → CallbackEnv → Accounts → Bool
is_taken hash env db =
    env.session_fails
    || (is_some (find_first (λ (s : SessionRow). s.id == env.session_id) db.sessions)
        || is_some (find_first (has_session_hash (hash env.session_token)) db.sessions))

pub open_session-IsOpened :
    (hash : String → String) (config : OidcConfig) (env : CallbackEnv) (csrf : String) (db : OidcDb)
    (r : Accounts × Result String) (cookie url : String)
    → (open_session hash config env csrf db r).1 ≡ logged_in cookie url
    → (user : String) × (r.1 ≡ ok user)
      × ((open_session hash config env csrf db r).0.accounts.users ≡ r.0.users)
      × IsOpened hash config user (open_session hash config env csrf db r).0.accounts cookie
unfolding open_session create_session delete_auth_state
open_session-IsOpened hash config env csrf db (accounts, err e) cookie url h = absurd (ground arith)
open_session-IsOpened hash config env csrf db (accounts, ok user) cookie url h =
    elim (Bool-cases (is_taken hash env accounts)) [
      | inl e ↦ absurd (ground arith)
      | inr e ↦
          let made : (open_session hash config env csrf db (accounts, ok user)).0.accounts
              ≡ record accounts { sessions = minted_row hash env user ∷ accounts.sessions } =
            elim (Bool-cases env.delete_fails) [ inl f ↦ ground arith | inr f ↦ ground arith ] in
          (
            user,
            refl,
            ap (λ a. a.users) made,
            (
              minted_row hash env user,
              env.session_token,
              subst (In (minted_row hash env user)) (sym (ap (λ a. a.sessions) made)) (inl refl),
              refl,
              refl,
              ground arith,
            ),
          )
    ]
