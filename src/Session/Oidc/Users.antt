-- ===== src/Session/Oidc/Users.antt =====
-- The account that upsert_user of proxy/src/auth/oidc.rs finds or makes.
use sovereign_engine.Prelude.{
  String, Bool, true, Option, none, List, [], ◌∷◌, ◌||◌, eqb, eq_refl, subst, is_some,
  if◌then◌else◌, ok, ◌⊎◌, inl, inr, ◌≡◌, refl, ap, sym, arith, In, eq_iff, Bool-cases, Option-cases,
}
use sovereign_engine.Prelude.Table.{find_first, update, count, find_first-some, find_first-In}
use sovereign_engine.Session.{Account, Accounts, account_of}
use sovereign_engine.Session.Oidc.Callback.{
  UpsertEnv, is_user_of, has_id, renewed, new_user, not_bootstrap, upsert_user,
}

In-update :
    {A : Type 0} (p : A → Bool) (f : A → A) (xs : List A) (x : A)
    → In x xs
    → In (if p x then f x else x) (update p f xs)
In-update p f [] x h = h
In-update p f (y ∷ ys) x (inl e) = inl (ap (λ z. if p z then f z else z) e)
In-update p f (y ∷ ys) x (inr h) = inr (In-update p f ys x h)

-- The row of a user at a provider. It was there with this id and this role, or it is new, and an
-- admin's if no row of another provider than bootstrap was there.
abbrev pub IsUser : String → String → String → Accounts → Account → Type 0
IsUser id idp subject db u =
    (u.id ≡ id)
    × (u.idp_id ≡ idp)
    × (u.subject ≡ subject)
    × (((v : Account) × In v db.users × (v.id ≡ id) × (v.is_admin ≡ u.is_admin))
        ⊎ ((account_of id db.users ≡ none) × (u.is_admin ≡ eqb (count not_bootstrap db.users) 0)))

renewed-IsUser :
    (idp subject : String) (email name : Option String) (db : Accounts) (u : Account)
    → In u db.users
    → is_user_of idp subject u ≡ true
    → IsUser u.id idp subject db (renewed email name u)
renewed-IsUser idp subject email name db u i h = (
  refl,
  ground (arith, eq_iff u.idp_id idp),
  ground (arith, eq_iff u.subject subject),
  inl (u, i, refl, refl),
)

updated-In :
    (email name : Option String) (u : Account) (us : List Account)
    → In u us
    → In (renewed email name u) (update (has_id u.id) (renewed email name) us)
updated-In email name u us h =
    subst
      (λ b.
        In (if b then renewed email name u else u) (update (has_id u.id) (renewed email name) us))
      (eq_refl u.id) (In-update (has_id u.id) (renewed email name) us u h)

pub upsert_user-IsUser :
    (env : UpsertEnv) (idp subject : String) (email name : Option String) (db : Accounts)
    (id : String)
    → (upsert_user env idp subject email name db).1 ≡ ok id
    → (u : Account) × In u (upsert_user env idp subject email name db).0.users
      × IsUser id idp subject db u
unfolding upsert_user
upsert_user-IsUser env idp subject email name db id h = elim (Bool-cases env.lookup_fails) [
  | inl e ↦ absurd (ground arith)
  | inr e ↦ elim (Option-cases (find_first (is_user_of idp subject) db.users)) [
    | inr (u, f) ↦ elim (Bool-cases env.update_fails) [
      | inl g ↦ absurd (ground arith)
      | inr g ↦
          let rows : (upsert_user env idp subject email name db).0.users
              ≡ update (has_id u.id) (renewed email name) db.users =
            ground arith in
          let there = find_first-In (is_user_of idp subject) db.users u f in
          (
            renewed email name u,
            subst (In (renewed email name u)) (sym rows) (updated-In email name u db.users there),
            subst (λ i. IsUser i idp subject db (renewed email name u)) (ground arith)
                (renewed-IsUser idp subject email name db u there
                  (find_first-some (is_user_of idp subject) db.users u f)),
          )
    ]
    | inl f ↦ elim (Bool-cases env.count_fails) [
      | inl g ↦ absurd (ground arith)
      | inr g ↦ elim (Bool-cases (env.insert_fails || is_some (account_of env.id db.users))) [
        | inl k ↦ absurd (ground arith)
        | inr k ↦
            let rows : (upsert_user env idp subject email name db).0.users
                ≡ new_user env idp subject email name db ∷ db.users =
              ground arith in
            (
              new_user env idp subject email name db,
              subst (In (new_user env idp subject email name db)) (sym rows) (inl refl),
              (ground arith, refl, refl, inr (ground arith, refl)),
            )
      ]
    ]
  ]
]
