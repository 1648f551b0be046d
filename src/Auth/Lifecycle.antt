-- ===== src/Auth/Lifecycle.antt =====
-- The life of an API token: proxy/src/auth/tokens.rs.
use sovereign_engine.Prelude.{
  ℕ, ◌≤◌, ◌<◌, ◌≡◌, String, true, false, Option, some, List, [], ◌∷◌, arith, ◌==◌, eq_refl, ok, err,
  Bool-cases, inl, inr,
}
use sovereign_engine.Prelude.Table.{find_first, update}
use sovereign_engine.Auth.{
  Token, User, Db, NewToken, create_token, validate_token, revoke_token, days_of, find_user,
  has_hash, is_own,
}

-- A created token is valid for its user, with the scope that was asked for, up to the instant at
-- which it expires and no longer; and from its revocation by that user on it is refused as revoked.
pub token_life :
    (hash : String → String) (in_days : ℕ → String) (parse : String → Option ℕ)
    (id token user : String) (req : NewToken) (db : Db) (u : User) (expires now : ℕ)
    → (create_token hash in_days false id token user req db).1 ≡ ok token
    → find_user user db.users ≡ some u
    → parse (in_days (days_of req)) ≡ some expires
    → (now ≤ expires
        → validate_token hash parse false now token
            (create_token hash in_days false id token user req db).0
          ≡ ok (record {
            user_id = user;
            token_id = id;
            category_id = req.category_id;
            specific_model_id = req.specific_model_id;
            is_admin = u.is_admin;
            is_internal = false;
          }))
      × (expires < now
          → validate_token hash parse false now token
              (create_token hash in_days false id token user req db).0
            ≡ err "Token has expired")
      × (validate_token hash parse false now token
            (revoke_token false id user (create_token hash in_days false id token user req db).0).0
          ≡ err "Token has been revoked")
unfolding create_token validate_token revoke_token
token_life hash in_days parse id token user req db u expires now made known reads = (
  λ before. ground (arith, eq_refl (hash token)),
  λ after. ground (arith, eq_refl (hash token)),
  ground (arith, eq_refl (hash token), eq_refl id, eq_refl user),
)

find_first-revoked :
    (h i user : String) (ts : List Token) (t : Token)
    → find_first (has_hash h) ts ≡ some t
    → (t.id == i) ≡ false
    → find_first (has_hash h) (update (is_own i user) (λ r. record r { revoked = true }) ts)
      ≡ some t
find_first-revoked h i user [] t f ne = ground arith
find_first-revoked h i user (r ∷ ts) t f ne = elim (Bool-cases (r.token_hash == h)) [
  | inl e ↦ ground arith
  | inr e ↦ ground (arith, find_first-revoked h i user ts t)
]

-- Revoking one token changes the answer for no token with another id.
pub revoke_token-others :
    (hash : String → String) (parse : String → Option ℕ) (i user token : String) (now : ℕ) (db : Db)
    (t : Token)
    → find_first (has_hash (hash token)) db.tokens ≡ some t
    → (t.id == i) ≡ false
    → validate_token hash parse false now token (revoke_token false i user db).0
      ≡ validate_token hash parse false now token db
unfolding validate_token revoke_token
revoke_token-others hash parse i user token now db t found other =
    ground (arith, find_first-revoked (hash token) i user db.tokens t found other)
