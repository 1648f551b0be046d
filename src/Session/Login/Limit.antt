-- ===== src/Session/Login/Limit.antt =====
-- How many logins the limit of proxy/src/auth/oidc.rs lets through in a minute.
use sovereign_engine.Prelude.{
  ℕ, ◌+◌, ◌-◌, ◌/◌, ◌≤◌, ◌<◌, String, false, not, Option, none, some, List, [], ◌∷◌, ◌==◌, ◌&&◌,
  ◌||◌, leb, eqb, if◌then◌else◌, unwrap_or, ◌≡◌, inl, inr, arith, All, Bool-cases, eq_iff,
}
use sovereign_engine.Prelude.Dict.{Dict, get, get-remove}
use sovereign_engine.Session.{Accounts, BootstrapConfig, is_bootstrap_active}
use sovereign_engine.Session.Login.{
  Attempts, extract_client_ip, attempt, check_rate_limit, LoginEnv, LoginRequest, CookieConfig,
  LoginState, LoginReply, bootstrap_login,
}

-- A client's answers that tell it whether its credentials are right: not 404 and not 429.
abbrev pub tells : String → LoginRequest → LoginReply → ℕ
tells key req r =
    if extract_client_ip req.forwarded_for == key && not (eqb r.status 404 || eqb r.status 429)
    then 1
    else 0

-- How many of the answers to a sequence of requests tell a client about its credentials.
unfoldable pub told :
    (String → String)
    → BootstrapConfig
    → CookieConfig
    → String
    → List (LoginEnv × LoginRequest)
    → LoginState
    → ℕ
unfolding bootstrap_login
told hash config cookies key [] s = 0
told hash config cookies key ((env, req) ∷ rest) s =
    let after = bootstrap_login hash config cookies env req s in
    tells key req after.1 + told hash config cookies key rest after.0

-- The state after a sequence of requests.
unfoldable pub ran :
    (String → String)
    → BootstrapConfig
    → CookieConfig
    → List (LoginEnv × LoginRequest)
    → LoginState
    → LoginState
unfolding bootstrap_login
ran hash config cookies [] s = s
ran hash config cookies ((env, req) ∷ rest) s =
    ran hash config cookies rest (bootstrap_login hash config cookies env req s).0

-- An entry counts the attempt that made it.
abbrev Counted : Option Attempts → Type 0
Counted none = Unit
Counted (some a) = 1 ≤ a.count

-- What a client has left in the minute that starts at `from`.
abbrev room : ℕ → Option Attempts → ℕ
room from none = 5
room from (some a) = if leb from a.window_start then 5 - a.count else 5 + (5 - a.count)

abbrev Within : ℕ → LoginEnv × LoginRequest → Type 0
Within from e = (from ≤ e.0.now) × (e.0.now < from + 60000000000)

same_minute :
    (from start now : ℕ)
    → from ≤ start
    → now < from + 60000000000
    → leb 60 ((now - start) / 1000000000) ≡ false
same_minute from start now h k = ground arith

attempt-room :
    (from now : ℕ) (o : Option Attempts)
    → from ≤ now
    → now < from + 60000000000
    → let after = attempt now (unwrap_or o (record { count = 0; window_start = now })) in
      (if after.1 then 1 else 0) + room from (some after.0) ≤ room from o
attempt-room from now none h k = ground (arith, same_minute now now now)
attempt-room from now (some a) h k = elim (Bool-cases (leb from a.window_start)) [
  | inl e ↦ ground (arith, same_minute from a.window_start now)
  | inr e ↦ ground arith
]

-- An attempt of another client leaves this one's room as it is.
check_rate_limit-room :
    (from now : ℕ) (key client : String) (limits : Dict Attempts)
    → from ≤ now
    → now < from + 60000000000
    → let after = check_rate_limit now client limits in
      (if client == key && after.1 then 1 else 0) + room from (get key after.0)
      ≤ room from (get key limits)
unfolding check_rate_limit
check_rate_limit-room from now key client limits h k = elim (Bool-cases (client == key)) [
  | inl e ↦
      let same : client ≡ key = (eq_iff client key).0 e in
      ground (arith, same, attempt-room from now (get client limits) h k)
  | inr e ↦ ground (arith, get-remove client key limits)
]

bootstrap_login-room :
    (hash : String → String) (config : BootstrapConfig) (cookies : CookieConfig) (key : String)
    (from : ℕ) (env : LoginEnv) (req : LoginRequest) (s : LoginState)
    → Within from (env, req)
    → let after = bootstrap_login hash config cookies env req s in
      tells key req after.1 + room from (get key after.0.limits) ≤ room from (get key s.limits)
unfolding bootstrap_login
bootstrap_login-room hash config cookies key from env req s w =
    let b =
      check_rate_limit-room from env.now key (extract_client_ip req.forwarded_for) s.limits w.0
        w.1 in
    elim (Bool-cases (is_bootstrap_active config)) [
      | inr e ↦ ground arith
      | inl e ↦
          elim (Bool-cases
            (check_rate_limit env.now (extract_client_ip req.forwarded_for) s.limits).1) [
              | inl f ↦ ground arith
              | inr f ↦ ground arith
            ]
    ]

room_nine : (from : ℕ) (o : Option Attempts) → Counted o → room from o ≤ 9
room_nine from none c = omega arith
room_nine from (some a) c = ground arith

told-room :
    (hash : String → String) (config : BootstrapConfig) (cookies : CookieConfig) (key : String)
    (from : ℕ) (rs : List (LoginEnv × LoginRequest)) (s : LoginState)
    → All (Within from) rs
    → told hash config cookies key rs s ≤ room from (get key s.limits)
unfolding told
told-room hash config cookies key from [] s w = omega arith
told-room hash config cookies key from ((env, req) ∷ rest) s w =
    let b = bootstrap_login-room hash config cookies key from env req s w.0 in
    let c =
      told-room hash config cookies key from rest (bootstrap_login hash config cookies env req s).0
        w.1 in
    omega arith

attempt-Counted : (now : ℕ) (a : Attempts) → Counted (some (attempt now a).0)
attempt-Counted now a = ground arith

check_rate_limit-Counted :
    (now : ℕ) (key client : String) (limits : Dict Attempts)
    → Counted (get key limits)
    → Counted (get key (check_rate_limit now client limits).0)
unfolding check_rate_limit
check_rate_limit-Counted now key client limits c = elim (Bool-cases (client == key)) [
  | inl e ↦ rw e (
      attempt-Counted now
        (unwrap_or (get client limits) (record { count = 0; window_start = now })))
  | inr e ↦ rw (get-remove client key limits) (rw e c)
]

bootstrap_login-Counted :
    (hash : String → String) (config : BootstrapConfig) (cookies : CookieConfig) (key : String)
    (env : LoginEnv) (req : LoginRequest) (s : LoginState)
    → Counted (get key s.limits)
    → Counted (get key (bootstrap_login hash config cookies env req s).0.limits)
unfolding bootstrap_login
bootstrap_login-Counted hash config cookies key env req s c =
    let b = check_rate_limit-Counted env.now key (extract_client_ip req.forwarded_for) s.limits c in
    elim (Bool-cases (is_bootstrap_active config)) [
      | inr e ↦ rw e c
      | inl e ↦
          elim (Bool-cases
            (check_rate_limit env.now (extract_client_ip req.forwarded_for) s.limits).1) [
              | inl f ↦ rw (e, f) b
              | inr f ↦ rw (e, f) b
            ]
    ]

ran-Counted :
    (hash : String → String) (config : BootstrapConfig) (cookies : CookieConfig) (key : String)
    (rs : List (LoginEnv × LoginRequest)) (s : LoginState)
    → Counted (get key s.limits)
    → Counted (get key (ran hash config cookies rs s).limits)
unfolding ran
ran-Counted hash config cookies key [] s c = c
ran-Counted hash config cookies key ((env, req) ∷ rest) s c =
    ran-Counted hash config cookies key rest (bootstrap_login hash config cookies env req s).0
      (bootstrap_login-Counted hash config cookies key env req s c)

-- Since the proxy was started, with no attempt counted: of the logins that come within any 60
-- seconds, in whatever order they read the clock, whatever logins came earlier and however those of
-- others stand between them, a client gets at most 9 answers other than 404 and 429.
pub bootstrap_login-bound :
    (hash : String → String) (config : BootstrapConfig) (cookies : CookieConfig) (key : String)
    (from : ℕ) (earlier rs : List (LoginEnv × LoginRequest)) (db : Accounts)
    → All (Within from) rs
    → told hash config cookies key rs
        (ran hash config cookies earlier (record { limits = []; db = db }))
      ≤ 9
unfolding get
bootstrap_login-bound hash config cookies key from earlier rs db w =
    let s = ran hash config cookies earlier (record { limits = []; db = db }) in
    let b = told-room hash config cookies key from rs s w in
    let c =
      room_nine from (get key s.limits)
        (ran-Counted hash config cookies key earlier (record { limits = []; db = db }) tt) in
    omega arith
