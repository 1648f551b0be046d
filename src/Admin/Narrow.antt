-- ===== src/Admin/Narrow.antt =====
-- The statements of delete_model of proxy/src/api/admin.rs on the table of tokens: what they leave of
-- a row.
use sovereign_engine.Prelude.{
  ℕ, String, Bool, true, false, not, ◌||◌, Option, some, List, [], ◌∷◌, ◌++◌, ◌≡◌, refl, inl, inr,
  arith, map, ok, All, All-map, In, ap, subst, ◌∙◌, ◌==◌, if◌then◌else◌, Bool-cases, Option-cases,
  eq_refl,
}
use sovereign_engine.Prelude.Table.{find_first, update, select, select-In, All-update}
use sovereign_engine.Auth.{Token, User, Db, AuthUser, validate_token, has_hash}
use sovereign_engine.Admin.{
  TokenRow, Meets, is_pinned, is_blocker, soft_deleted, unpinned, has_row_id, revoke_all,
}

-- What validate_token sees of these rows.
abbrev pub db_of : List User → List TokenRow → Db
db_of us ts = record { tokens = map (λ (r : TokenRow). r.token) ts; users = us }

-- A new row has the hash of the old one, and is the old one if it is not revoked.
abbrev pub Narrow : TokenRow → TokenRow → Type 0
Narrow a b = (b.token.token_hash ≡ a.token.token_hash) × (b.token.revoked ≡ false → b ≡ a)

abbrev pub step_of : (TokenRow → Bool) → (TokenRow → TokenRow) → TokenRow → TokenRow
step_of p f r = if p r then f r else r

found-head :
    (h : String) (r s : TokenRow) (t : Token) (ts : List Token)
    → Narrow r s
    → (s.token.token_hash == h) ≡ true
    → s.token ≡ t
    → t.revoked ≡ false
    → find_first (has_hash h) (r.token ∷ ts) ≡ some t
found-head h r s t ts n hit same live =
    let back : s ≡ r = n.1 (ap (λ (k : Token). k.revoked) same ∙ live) in
    subst (λ (k : TokenRow). find_first (has_hash h) (k.token ∷ ts) ≡ some t) back (ground arith)

found-update :
    (h : String) (p : TokenRow → Bool) (f : TokenRow → TokenRow) (ts : List TokenRow) (t : Token)
    → All (λ r. Narrow r (step_of p f r)) ts
    → find_first (has_hash h) (map (λ (r : TokenRow). r.token) (update p f ts)) ≡ some t
    → t.revoked ≡ false
    → find_first (has_hash h) (map (λ (r : TokenRow). r.token) ts) ≡ some t
found-update h p f [] t n found live = found
found-update h p f (r ∷ ts) t n found live =
    elim (Bool-cases ((step_of p f r).token.token_hash == h)) [
      | inl e ↦
          found-head h r (step_of p f r) t (map (λ (x : TokenRow). x.token) ts) n.0 e (ground arith)
            live
      | inr e ↦ ground (arith, n.0.0, found-update h p f ts t n.1)
    ]

found-behind :
    (h : String) (p : TokenRow → Bool) (f : TokenRow → TokenRow) (cs ts : List TokenRow) (t : Token)
    → All (λ r. Narrow r (step_of p f r)) ts
    → find_first (has_hash h) (map (λ (r : TokenRow). r.token) (cs ++ update p f ts)) ≡ some t
    → t.revoked ≡ false
    → find_first (has_hash h) (map (λ (r : TokenRow). r.token) (cs ++ ts)) ≡ some t
found-behind h p f [] ts t n found live = found-update h p f ts t n found live
found-behind h p f (c ∷ cs) ts t n found live = ground (arith, found-behind h p f cs ts t n)

-- A statement that only narrows rows makes no token valid, and changes no scope, whatever rows
-- stand before these.
pub update-IsValid :
    (hash : String → String) (parse : String → Option ℕ) (now : ℕ) (token : String) (us : List User)
    (u : AuthUser) (p : TokenRow → Bool) (f : TokenRow → TokenRow) (cs ts : List TokenRow)
    → All (λ r. Narrow r (step_of p f r)) ts
    → validate_token hash parse false now token (db_of us (cs ++ update p f ts)) ≡ ok u
    → validate_token hash parse false now token (db_of us (cs ++ ts)) ≡ ok u
unfolding validate_token
update-IsValid hash parse now token us u p f cs ts n valid =
    elim (Option-cases (
      find_first (has_hash (hash token)) (map (λ (r : TokenRow). r.token) (cs ++ update p f ts)))) [
        | inl e ↦ absurd (ground arith)
        | inr (t, e) ↦ elim (Bool-cases t.revoked) [
          | inl spent ↦ absurd (ground arith)
          | inr live ↦ ground (arith, found-behind (hash token) p f cs ts t n e live)
        ]
      ]

soft_deleted-Narrow :
    (i : String) (ts : List TokenRow)
    → All (λ r. Narrow r (step_of (has_row_id i) soft_deleted r)) ts
soft_deleted-Narrow i [] = tt
soft_deleted-Narrow i (r ∷ ts) = elim (Bool-cases (r.token.id == i)) [
  | inl e ↦ (rw e (refl, λ live. absurd (ground arith)), soft_deleted-Narrow i ts)
  | inr e ↦ (rw e (refl, λ live. refl), soft_deleted-Narrow i ts)
]

module _ (hash : String → String) (parse : String → Option ℕ) (now : ℕ) (token : String)
    (us : List User) (u : AuthUser) where
  -- The token is valid with these rows, and this is what it gives.
  abbrev pub IsValid : List TokenRow → Type 0
  IsValid ts = validate_token hash parse false now token (db_of us ts) ≡ ok u

  pub revoke_all-IsValid :
      (e : Meets) (bs cs ts : List TokenRow)
      → IsValid (cs ++ (revoke_all e bs ts).0)
      → IsValid (cs ++ ts)
  unfolding revoke_all
  revoke_all-IsValid e [] cs ts valid = valid
  revoke_all-IsValid e (b ∷ bs) cs ts valid = elim (Bool-cases (e.revoke_fails b.token.id)) [
    | inl x ↦ ground arith
    | inr x ↦
        update-IsValid hash parse now token us u (has_row_id b.token.id) soft_deleted cs ts
          (soft_deleted-Narrow b.token.id ts)
          (revoke_all-IsValid e bs cs (update (has_row_id b.token.id) soft_deleted ts)
            (ground arith))
  ]

-- A row that the deletion may unpin: it is not bound to the model, or nobody can use it.
abbrev pub is_spent : String → TokenRow → Bool
is_spent i r = not (is_pinned i r) || r.token.revoked

abbrev pub is_among : String → List TokenRow → Bool
is_among i [] = false
is_among i (b ∷ bs) = i == b.token.id || is_among i bs

abbrev pub IsCovered : String → List TokenRow → TokenRow → Type 0
IsCovered i bs r = (is_spent i r || is_among r.token.id bs) ≡ true

or_false : (b : Bool) → (b || false) ≡ true → b ≡ true
or_false true h = refl
or_false false h = ground arith

step_of-IsCovered :
    (i : String) (b : TokenRow) (bs : List TokenRow) (r : TokenRow)
    → IsCovered i (b ∷ bs) r
    → IsCovered i bs (step_of (has_row_id b.token.id) soft_deleted r)
step_of-IsCovered i b bs r c = elim (Bool-cases (r.token.id == b.token.id)) [
  | inl e ↦ ground arith
  | inr e ↦ ground arith
]

pub revoke_all-spent :
    (e : Meets) (i : String) (bs ts : List TokenRow)
    → All (IsCovered i bs) ts
    → (revoke_all e bs ts).1 ≡ true
    → All (λ r. is_spent i r ≡ true) (revoke_all e bs ts).0
unfolding revoke_all
revoke_all-spent e i [] ts c done =
    All-map (IsCovered i []) (λ r. is_spent i r ≡ true) (λ r h. or_false (is_spent i r) h) ts c
revoke_all-spent e i (b ∷ bs) ts c done = elim (Bool-cases (e.revoke_fails b.token.id)) [
  | inl x ↦ absurd (ground arith)
  | inr x ↦ rw x (
      revoke_all-spent e i bs (update (has_row_id b.token.id) soft_deleted ts)
        (All-update (IsCovered i (b ∷ bs)) (IsCovered i bs) (has_row_id b.token.id) soft_deleted
          (λ r. step_of-IsCovered i b bs r) ts c)
        (ground arith))
]

is_among-In : (r : TokenRow) (bs : List TokenRow) → In r bs → is_among r.token.id bs ≡ true
is_among-In r [] m = absurd m
is_among-In r (b ∷ bs) (inl e) =
    ground (arith, eq_refl b.token.id, ap (λ (k : TokenRow). k.token.id) e)
is_among-In r (b ∷ bs) (inr m) = ground (arith, is_among-In r bs m)

-- deleted_at is only set with revoked.
abbrev pub IsKept : TokenRow → Type 0
IsKept r = r.deleted ≡ true → r.token.revoked ≡ true

pub blockers-cover :
    (i : String) (all ts : List TokenRow)
    → All IsKept ts
    → ((r : TokenRow) → In r ts → In r all)
    → All (IsCovered i (select (is_blocker i) all)) ts
blockers-cover i all [] k inside = tt
blockers-cover i all (r ∷ ts) k inside =
    let covered : IsCovered i (select (is_blocker i) all) r = elim (Bool-cases (is_blocker i r)) [
      | inl e ↦ ground (
        arith,
        is_among-In r (select (is_blocker i) all)
            (select-In (is_blocker i) r all (inside r (inl refl)) e),
      )
      | inr e ↦ ground (arith, k.0)
    ] in
    (covered, blockers-cover i all ts k.1 (λ x m. inside x (inr m)))

pub unpinned-Narrow :
    (i : String) (ts : List TokenRow)
    → All (λ r. is_spent i r ≡ true) ts
    → All (λ r. Narrow r (step_of (is_pinned i) unpinned r)) ts
unpinned-Narrow i [] h = tt
unpinned-Narrow i (r ∷ ts) h = elim (Bool-cases (is_pinned i r)) [
  | inl e ↦ (rw e (refl, λ live. absurd (ground arith)), unpinned-Narrow i ts h.1)
  | inr e ↦ (rw e (refl, λ live. refl), unpinned-Narrow i ts h.1)
]
