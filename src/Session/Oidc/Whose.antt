-- ===== src/Session/Oidc/Whose.antt =====
-- Whose session a login by OIDC opens: callback of proxy/src/auth/oidc.rs.
use sovereign_engine.Prelude.{
  text_lt, eq_iff, Bool-cases, some, none, ℕ, String, Bool, true, List, subst, Result, ok, ◌⊎◌, inl,
  inr, ◌≡◌, refl, sym, arith, In, Option-cases, Result-cases,
}
use sovereign_engine.Prelude.Table.{find_first, find_first-some, find_first-In}
use sovereign_engine.Secrets.{Cipher}
use sovereign_engine.Session.{Account, Accounts}
use sovereign_engine.Session.Oidc.{
  IdpConfig, AuthState, OidcDb, OidcClient, Claims, Openid, OidcConfig, api_external_url, load_idp,
  build_oidc_client, load_auth_state, is_enabled_idp, is_live,
}
use sovereign_engine.Session.Oidc.Callback.{
  coalesce, upsert_user, CallbackEnv, CallbackReply, logged_in, verified, open_session, callback,
}
use sovereign_engine.Session.Oidc.Users.{IsUser, upsert_user-IsUser}
use sovereign_engine.Session.Oidc.Opened.{IsOpened, open_session-IsOpened}

load_auth_state-In :
    (failed : Bool) (now csrf : String) (db : OidcDb) (a : AuthState)
    → load_auth_state failed now csrf db ≡ ok a
    → In a db.auth_states × (is_live now csrf a ≡ true)
unfolding load_auth_state
load_auth_state-In failed now csrf db a h =
    elim (Option-cases (find_first (is_live now csrf) db.auth_states)) [
      | inl e ↦ absurd (ground arith)
      | inr (b, e) ↦
          let same : b ≡ a = ground arith in
          subst (λ x. In x db.auth_states × (is_live now csrf x ≡ true)) same
            (
              find_first-In (is_live now csrf) db.auth_states b e,
              find_first-some (is_live now csrf) db.auth_states b e,
            )
    ]

load_idp-In :
    (failed : Bool) (name : String) (idps : List IdpConfig) (i : IdpConfig)
    → load_idp failed name idps ≡ ok i
    → In i idps × (is_enabled_idp name i ≡ true)
unfolding load_idp
load_idp-In failed name idps i h = elim (Option-cases (find_first (is_enabled_idp name) idps)) [
  | inl e ↦ absurd (ground arith)
  | inr (j, e) ↦
      let same : j ≡ i = ground arith in
      subst (λ x. In x idps × (is_enabled_idp name x ≡ true)) same
        (
          find_first-In (is_enabled_idp name) idps j e,
          find_first-some (is_enabled_idp name) idps j e,
        )
]

sum_cases :
    {A B : Type 0} (s : A ⊎ B)
    → ((a : A) × (Path (A ⊎ B) s (inl a))) ⊎ ((b : B) × (Path (A ⊎ B) s (inr b)))
sum_cases (inl a) = inl (a, refl)
sum_cases (inr b) = inr (b, refl)

-- The provider has answered the code and the login's verifier with a token, which has these claims
-- for the login's nonce.
abbrev pub IsVerified :
    {Meta : Type 0} → Openid Meta → OidcClient Meta → String → AuthState → Claims → Type 0
IsVerified lib client code a claims =
    (token : String) × (lib.exchange client code a.pkce_verifier ≡ some (some token))
    × (lib.claims client token a.nonce ≡ some claims)

verified-IsVerified :
    {Meta : Type 0} (lib : Openid Meta) (client : OidcClient Meta) (code : String) (a : AuthState)
    (claims : Claims)
    → Path ((ℕ × String) ⊎ Claims) (verified lib client code a) (inr claims)
    → IsVerified lib client code a claims
unfolding verified
verified-IsVerified lib client code a claims h = elim (Bool-cases (lib.has_token_endpoint client)) [
  | inr e ↦ absurd (ground arith)
  | inl e ↦ elim (Option-cases (lib.exchange client code a.pkce_verifier)) [
    | inl f ↦ absurd (ground arith)
    | inr (none, f) ↦ absurd (ground arith)
    | inr (some token, f) ↦ elim (Option-cases (lib.claims client token a.nonce)) [
      | inl g ↦ absurd (ground arith)
      | inr (x, g) ↦ (token, f, ground arith)
    ]
  ]
]

-- A login under the state `csrf` that was begun here and has not expired, at a provider that is
-- enabled and that answers the code and the verifier of the login with a token for its nonce; and in
-- the accounts `after` a new session, with its cookie, of the subject's user at this provider.
abbrev pub IsLoginOf :
    {Byte Meta : Type 0}
    → Cipher Byte
    → Openid Meta
    → (String → String)
    → OidcConfig
    → String
    → String
    → String
    → OidcDb
    → Accounts
    → String
    → Type 0
IsLoginOf {Byte} {Meta} c lib hash config now code csrf db after cookie =
    (a : AuthState) × (idp : IdpConfig) × (client : OidcClient Meta) × (claims : Claims)
    × (u : Account) × In a db.auth_states
    × (a.csrf_token ≡ csrf)
    × (text_lt now a.expires_at ≡ true)
    × In idp db.idps
    × (idp.id ≡ a.idp_id)
    × (idp.enabled ≡ true)
    × (Path (Result (OidcClient Meta))
        (build_oidc_client c lib idp (api_external_url config) config.db_encryption_key)
        (ok client))
    × IsVerified lib client code a claims
    × In u after.users
    × IsUser u.id a.idp_id claims.subject db.accounts u
    × IsOpened hash config u.id after cookie

-- If a callback logs a client in, then its state is of a login begun here that has not expired, at a
-- provider that is enabled, which answered the code and the verifier of this login with a token for
-- this login's nonce; the cookie is that of a session in the table; and the session is that of the
-- account which this provider's subject has. The account was there with its role, or it is new, and
-- then it is an admin's just if no account but those of bootstrap was there.
pub callback-IsLoginOf :
    {Byte Meta : Type 0} (c : Cipher Byte) (lib : Openid Meta) (hash : String → String)
    (config : OidcConfig) (env : CallbackEnv) (code csrf : String) (db : OidcDb)
    (cookie url : String)
    → (callback c lib hash config env code csrf db).1 ≡ logged_in cookie url
    → IsLoginOf c lib hash config env.now code csrf db
        (callback c lib hash config env code csrf db).0.accounts
        cookie
unfolding callback load_auth_state load_idp
callback-IsLoginOf c lib hash config env code csrf db cookie url h =
    elim (Result-cases (load_auth_state env.state_fails env.now csrf db)) [
      | inl (x, e) ↦ absurd (ground arith)
      | inr (a, e) ↦ elim (Result-cases (load_idp env.idp_fails a.idp_id db.idps)) [
        | inl (x, f) ↦ absurd (ground arith)
        | inr (idp, f) ↦
            elim (Result-cases
              (build_oidc_client c lib idp (api_external_url config) config.db_encryption_key)) [
                | inl (x, g) ↦ absurd (ground arith)
                | inr (client, g) ↦ elim (sum_cases (verified lib client code a)) [
                  | inl (x, k) ↦ absurd (ground arith)
                  | inr (claims, k) ↦
                      let r =
                        upsert_user env.upsert a.idp_id claims.subject claims.email
                          (coalesce claims.preferred_username claims.email) db.accounts in
                      let same : callback c lib hash config env code csrf db
                          ≡ open_session hash config env csrf db r =
                        ground arith in
                      let o = open_session-IsOpened hash config env csrf db r cookie url (
                        subst (λ (p : OidcDb × CallbackReply). p.1 ≡ logged_in cookie url) same
                          h) in
                      let user = o.0 in
                      let found =
                        upsert_user-IsUser env.upsert a.idp_id claims.subject claims.email
                          (coalesce claims.preferred_username claims.email) db.accounts user o.1 in
                      let u = found.0 in
                      let isu : IsUser user a.idp_id claims.subject db.accounts u = found.2 in
                      let live = load_auth_state-In env.state_fails env.now csrf db a e in
                      let on = load_idp-In env.idp_fails a.idp_id db.idps idp f in
                      (
                        a,
                        idp,
                        client,
                        claims,
                        u,
                        live.0,
                        ground (arith, eq_iff a.csrf_token csrf, live.1),
                        ground (arith, live.1),
                        on.0,
                        ground (arith, eq_iff idp.id a.idp_id, on.1),
                        ground (arith, on.1),
                        g,
                        verified-IsVerified lib client code a claims k,
                        subst (λ (p : OidcDb × CallbackReply). In u p.0.accounts.users) (sym same)
                            (subst (In u) (sym o.2) found.1),
                        subst (λ i. IsUser i a.idp_id claims.subject db.accounts u) (sym isu.0) isu,
                        subst
                            (λ (p : OidcDb × CallbackReply).
                              IsOpened hash config u.id p.0.accounts cookie)
                            (sym same)
                            (subst
                              (λ i.
                                IsOpened hash config i
                                  (open_session hash config env csrf db r).0.accounts cookie)
                              (sym isu.0) o.3),
                      )
                ]
              ]
      ]
    ]
