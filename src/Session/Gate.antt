-- ===== src/Session/Gate.antt =====
-- Who passes the checks of proxy/src/auth/mod.rs, and the life of a session of
-- proxy/src/auth/sessions.rs.
use sovereign_engine.Prelude.{
  String, Bool, true, false, Option, some, List, [], ◌∷◌, text_lt, unwrap_or, Result, ok, err, ◌≡◌,
  refl, ap, inl, inr, arith, In, eq_iff, Option-cases, Result-cases,
}
use sovereign_engine.Prelude.Table.{find_first, find_first-some, find_first-In}
use sovereign_engine.Session.{
  SessionRow, Account, Accounts, SessionUser, account_of, is_valid_session, validate_session,
}
use sovereign_engine.Session.Cookies.{
  SessionAuth, goes_on, extract_session_tokens, first_valid, validate_any_session,
  session_auth_middleware, admin_only_middleware, admin_route,
}

-- A session row, not expired, of a token of the cookie, with the user of that row.
abbrev pub IsLogin : (String → String) → String → Accounts → List String → SessionUser → Type 0
IsLogin hash now db tokens a =
    (token : String) × (row : SessionRow) × (u : Account) × In token tokens
    × In row db.sessions
    × (row.token_hash ≡ hash token)
    × (text_lt now row.expires_at ≡ true)
    × (account_of row.user_id db.users ≡ some u)
    × (a.user_id ≡ row.user_id)
    × (a.is_admin ≡ u.is_admin)

pub ok-inj : {A : Type 0} (a b : A) → Path (Result A) (ok a) (ok b) → a ≡ b
ok-inj a b h = ap (λ r. elim r [ ok x ↦ x | err e ↦ a ]) h

validate_session-IsLogin :
    (hash : String → String) (failed : Bool) (now token : String) (ts : List String) (db : Accounts)
    (a : SessionUser)
    → validate_session hash failed now token db ≡ ok a
    → IsLogin hash now db (token ∷ ts) a
unfolding validate_session
validate_session-IsLogin hash true now token ts db a h = absurd (ground arith)
validate_session-IsLogin hash false now token ts db a h =
    elim (Option-cases (find_first (is_valid_session (hash token) now db.users) db.sessions)) [
      | inl e ↦ absurd (ground arith)
      | inr (row, e) ↦ elim (Option-cases (account_of row.user_id db.users)) [
        | inl f ↦ absurd (ground arith)
        | inr (u, f) ↦
            let v : is_valid_session (hash token) now db.users row ≡ true =
              find_first-some (is_valid_session (hash token) now db.users) db.sessions row e in
            (
              token,
              row,
              u,
              inl refl,
              find_first-In (is_valid_session (hash token) now db.users) db.sessions row e,
              ground (arith, eq_iff row.token_hash (hash token)),
              ground arith,
              f,
              ground arith,
              ground arith,
            )
      ]
    ]

first_valid-IsLogin :
    (hash : String → String) (failed : Bool) (now : String) (ts : List String) (db : Accounts)
    (a : SessionUser)
    → first_valid hash failed now ts db ≡ some a
    → IsLogin hash now db ts a
unfolding first_valid
first_valid-IsLogin hash failed now [] db a h = absurd (ground arith)
first_valid-IsLogin hash failed now (t ∷ ts) db a h =
    elim (Result-cases (validate_session hash failed now t db)) [
      | inl (x, e) ↦
          let (token, row, u, i, m, hh, ex, ac, us, ad) =
            first_valid-IsLogin hash failed now ts db a (ground arith) in
          (token, row, u, inr i, m, hh, ex, ac, us, ad)
      | inr (b, e) ↦ validate_session-IsLogin hash failed now t ts db a (ground arith)
    ]

-- A request reaches a handler of the admin only if its Cookie header has a session token whose row
-- exists and has not expired, and the user of that row exists and is an admin; the handler is told
-- this user.
pub admin_route-admits :
    (hash : String → String) (failed : Bool) (now : String) (cookie : Option String) (db : Accounts)
    (s : SessionAuth)
    → admin_route hash failed now cookie db ≡ goes_on s
    → (a : SessionUser) × IsLogin hash now db (extract_session_tokens (unwrap_or cookie "")) a
      × (s.user_id ≡ a.user_id)
      × (a.is_admin ≡ true)
unfolding admin_route session_auth_middleware validate_any_session admin_only_middleware
admin_route-admits hash failed now cookie db s h =
    elim (Option-cases
      (first_valid hash failed now (extract_session_tokens (unwrap_or cookie "")) db)) [
        | inl e ↦ absurd (ground arith)
        | inr (a, e) ↦ (
          a,
          first_valid-IsLogin hash failed now (extract_session_tokens (unwrap_or cookie "")) db a e,
          ground arith,
          ground arith,
        )
      ]
