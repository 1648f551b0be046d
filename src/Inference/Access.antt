-- ===== src/Inference/Access.antt =====
-- Who is served by a backend through proxy/src/api/openai.rs.
use Prim.Native.Nat.{Ordering}
use sovereign_engine.Prelude.{
  ℕ, ℤ, String, Bool, true, false, Option, none, some, ◌==◌, ok, ◌≡◌, refl, ap, subst, ◌∙◌, ◌⊎◌,
  inl, inr, arith, eq_iff, Bool-cases, Option-cases, Result-cases,
}
use sovereign_engine.Auth.{AuthUser, validate_token}
use sovereign_engine.Reservation.{ActiveReservation}
use sovereign_engine.Scheduler.Resolver.{ResolvedModel, resolve_model}
use sovereign_engine.Session.Cookies.{bearer_auth_middleware, or_key, bearer_of}
use sovereign_engine.Inference.{
  Proxy, Meets, forwarded, Admission, denied, granted, reserved_for_other, admit, serve_granted,
  serve, ProxyResult, proxy_completion, ChatCompletionRequest, replied, completions, or_email,
}

-- The model that the user's token resolves to is loaded, and the system is not reserved for another
-- user, unless the token is internal.
abbrev pub IsAdmitted :
    {Priority Body : Type 0}
    → Meets Priority Body
    → AuthUser
    → String
    → Proxy Priority
    → ResolvedModel
    → Type 0
IsAdmitted e u name p m =
    (resolve_model e.model_fails p.catalog name u.category_id u.specific_model_id ≡ ok m)
    × (m.loaded ≡ true)
    × ((u.is_internal ≡ true)
        ⊎ ((p.cache ≡ none)
            ⊎ ((a : ActiveReservation) × (p.cache ≡ some a) × (a.user_id ≡ u.user_id))))

not_reserved :
    (u : AuthUser) (c : Option ActiveReservation)
    → reserved_for_other u c ≡ false
    → (u.is_internal ≡ true)
      ⊎ ((c ≡ none) ⊎ ((a : ActiveReservation) × (c ≡ some a) × (a.user_id ≡ u.user_id)))
not_reserved u none h = inr (inl refl)
not_reserved u (some a) h = elim (Bool-cases u.is_internal) [
  | inl e ↦ inl e
  | inr e ↦ inr (inr (a, refl, ground (arith, eq_iff a.user_id u.user_id)))
]

module _ {Priority Body : Type 0} (cmp : Priority → Priority → Option Ordering)
    (hash : String → String) (usage_of : Body → ℤ × ℤ) where
  pub admit-IsAdmitted :
      (e : Meets Priority Body) (u : AuthUser) (name : String) (p : Proxy Priority)
      (m : ResolvedModel)
      → (admit cmp hash usage_of e u name p).1 ≡ granted m
      → IsAdmitted e u name p m
  unfolding admit
  admit-IsAdmitted e u name p m h =
      elim (Result-cases
        (resolve_model e.model_fails p.catalog name u.category_id u.specific_model_id)) [
          | inl (x, r) ↦ absurd (ground arith)
          | inr (n, r) ↦ elim (Bool-cases n.loaded) [
            | inl l ↦ elim (Bool-cases (reserved_for_other u p.cache)) [
              | inl s ↦ absurd (ground arith)
              | inr s ↦
                  let same : n ≡ m = ground arith in
                  (
                    r ∙ ap ok same,
                    subst (λ (k : ResolvedModel). k.loaded ≡ true) same l,
                    not_reserved u p.cache s,
                  )
            ]
            | inr l ↦ absurd (ground arith)
          ]
        ]

  serve-model :
      (e : Meets Priority Body) (u : AuthUser) (n : ResolvedModel) (streaming : Bool)
      (email : Option String) (p : Proxy Priority) (m : ResolvedModel) (key : Option String)
      (r : ProxyResult Body)
      → (serve cmp hash usage_of e u n streaming email p).1 ≡ forwarded m key r
      → n ≡ m
  unfolding serve
  serve-model e u n streaming email p m key r h = elim (Bool-cases (n.backend_type == "llamacpp")) [
    | inl b ↦ ground arith
    | inr b ↦ absurd (ground arith)
  ]

  proxy_completion-IsAdmitted :
      (e : Meets Priority Body) (u : AuthUser) (name : String) (streaming : Bool)
      (email : Option String) (p : Proxy Priority) (m : ResolvedModel) (key : Option String)
      (r : ProxyResult Body)
      → (proxy_completion cmp hash usage_of e u name streaming email p).1 ≡ forwarded m key r
      → IsAdmitted e u name p m
  unfolding proxy_completion
  proxy_completion-IsAdmitted e u name streaming email p m key r h =
      by_admission (admit cmp hash usage_of e u name p).1 refl h
    where
      by_admission :
          (a : Admission)
          → (admit cmp hash usage_of e u name p).1 ≡ a
          → (serve_granted cmp hash usage_of e u streaming email
              (admit cmp hash usage_of e u name p).0
              a).1
            ≡ forwarded m key r
          → IsAdmitted e u name p m
      by_admission (denied x) f g = absurd (ground arith)
      by_admission (granted n) f g = admit-IsAdmitted e u name p m (
          f
          ∙ ap granted
              (serve-model e u n streaming email (admit cmp hash usage_of e u name p).0 m key r g))

  -- A request to /v1 reaches a backend only if, when it arrived, its token was valid, the model was one
  -- that this token resolved to and loaded, and the system was not reserved for another user, unless the
  -- token is internal. What others change while it waits for a slot is not looked at.
  pub completions-IsAdmitted :
      (parse_time : String → Option ℕ) (e : Meets Priority Body) (failed : Bool) (now : ℕ)
      (authorization key header_email : Option String) (req : ChatCompletionRequest)
      (p : Proxy Priority) (m : ResolvedModel) (api_key : Option String) (r : ProxyResult Body)
      → (completions cmp hash usage_of parse_time e failed now authorization key header_email
          (some req)
          p).1
        ≡ replied (forwarded m api_key r)
      → (token : String) × (u : AuthUser) × (or_key (bearer_of authorization) key ≡ some token)
        × (validate_token hash parse_time failed now token p.auth ≡ ok u)
        × IsAdmitted e u req.model p m
  unfolding completions bearer_auth_middleware
  completions-IsAdmitted parse_time e failed now authorization key header_email req p m api_key r
        h =
      elim (Option-cases (or_key (bearer_of authorization) key)) [
        | inl f ↦ absurd (ground arith)
        | inr (token, f) ↦
            elim (Result-cases (validate_token hash parse_time failed now token p.auth)) [
              | inl (x, v) ↦ absurd (ground arith)
              | inr (u, v) ↦ (
                token,
                u,
                f,
                v,
                proxy_completion-IsAdmitted e u req.model req.stream
                    (or_email header_email req.user) p m api_key r (ground arith),
              )
            ]
      ]
