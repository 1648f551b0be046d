-- ===== src/Secrets/Migration.antt =====
-- Round trip of a secret, and what its migration leaves: proxy/src/db/crypto.rs.
use sovereign_engine.Prelude.{
  ℕ, zero, suc, ◌+◌, String, Bool, true, false, Option, none, some, List, [], ◌∷◌, ◌++◌, ◌==◌,
  length, ◌⊎◌, inl, inr, unwrap_or, Result, ok, err, ◌≡◌, refl, subst, ap, arith, Option-cases,
  Result-cases, Bool-cases, Pairwise, All, eq_iff,
}
use sovereign_engine.Prelude.Dict
use sovereign_engine.Prelude.Dict.{Dict, get-insert}
use sovereign_engine.Secrets.{
  Cipher, IsCipher, split_at, encrypt, decrypt, decrypt_with_key, decrypt_combined, recover,
  other_keys, migrate_row, Draws, migrate_rows, migrate_plaintext_secrets,
}

length-append : {Byte : Type 0} → (xs ys : List Byte) → length (xs ++ ys) ≡ length xs + length ys
length-append [] ys = omega arith
length-append (x ∷ xs) ys = omega (arith, length-append xs ys)

split_at-append :
    {Byte : Type 0} → (n : ℕ) (xs ys : List Byte) → length xs ≡ n → split_at n (xs ++ ys) ≡ (xs, ys)
unfolding split_at
split_at-append zero [] ys h = refl
split_at-append zero (x ∷ xs) ys h = absurd (omega arith)
split_at-append (suc n) [] ys h = absurd (omega arith)
split_at-append (suc n) (x ∷ xs) ys h = rw (split_at-append n xs ys (omega arith)) refl

-- The combined text of a nonce of twelve bytes and what was encrypted with it.
decrypt_own :
    {Byte : Type 0}
    → (c : Cipher Byte) (laws : IsCipher c) (key nonce ct : List Byte) (plaintext : String)
    → length nonce ≡ 12
    → c.aes_encrypt key nonce (c.as_bytes plaintext) ≡ some ct
    → decrypt_with_key c key (c.encode_base64 (nonce ++ ct)) ≡ ok plaintext
unfolding decrypt_with_key decrypt_combined
decrypt_own c laws key nonce ct plaintext twelve e = ground (
  arith,
  laws.decodes (nonce ++ ct),
  length-append nonce ct,
  split_at-append 12 nonce ct twelve,
  laws.decrypts key nonce (c.as_bytes plaintext) ct e,
  laws.reads plaintext,
)

-- A secret that was encrypted decrypts under the same key to what it was.
pub decrypt-encrypt :
    {Byte : Type 0}
    → (c : Cipher Byte) (laws : IsCipher c) (nonce : List Byte) (plaintext key encrypted : String)
    → length nonce ≡ 12
    → encrypt c nonce plaintext key ≡ ok encrypted
    → decrypt c encrypted key ≡ ok plaintext
unfolding encrypt decrypt
decrypt-encrypt c laws nonce plaintext key encrypted twelve e =
    elim (Option-cases (c.aes_encrypt (c.hkdf_key key) nonce (c.as_bytes plaintext))) [
      | inl f ↦ absurd (ground arith)
      | inr (ct, f) ↦
          subst (λ z. decrypt_with_key c (c.hkdf_key key) z ≡ ok plaintext) (ground arith)
            (decrypt_own c laws (c.hkdf_key key) nonce ct plaintext twelve f)
    ]

-- What the first key that opens a secret makes of it.
unfoldable pub opened : {Byte : Type 0} → Cipher Byte → List (List Byte) → String → Option String
unfolding decrypt_with_key
opened c [] secret = none
opened c (k ∷ ks) secret = elim (decrypt_with_key c k secret) [
  | err e ↦ opened c ks secret
  | ok plaintext ↦ some plaintext
]

-- The current key, the old one, both as they were derived before, and the empty key.
abbrev pub all_keys : {Byte : Type 0} → Cipher Byte → String → Option String → List (List Byte)
all_keys c key none = c.hkdf_key key ∷ c.sha_key key ∷ c.hkdf_key "" ∷ []
all_keys c key (some old) =
    c.hkdf_key key ∷ c.hkdf_key old ∷ c.sha_key key ∷ c.sha_key old ∷ c.hkdf_key "" ∷ []

-- The secret that a row stands for: what the first of these keys that opens it makes of it, else the
-- text itself.
unfoldable pub secret_of : {Byte : Type 0} → Cipher Byte → String → Option String → String → String
secret_of c key old secret = unwrap_or (opened c (all_keys c key old) secret) secret

recover-opened :
    {Byte : Type 0}
    → (c : Cipher Byte) (ks : List (List Byte)) (secret : String)
    → recover c ks secret ≡ opened c ks secret
unfolding recover opened
recover-opened c [] secret = refl
recover-opened c (k ∷ ks) secret = ground (arith, recover-opened c ks secret)

-- The code leaves the empty key out where the current key is empty and has failed.
secret_of-recover :
    {Byte : Type 0}
    → (c : Cipher Byte) (key : String) (old : Option String) (secret e : String)
    → decrypt_with_key c (c.hkdf_key key) secret ≡ err e
    → unwrap_or (recover c (other_keys c key old) secret) secret ≡ secret_of c key old secret
unfolding other_keys recover opened secret_of
secret_of-recover c key none secret e h = elim (Bool-cases (key == "")) [
  | inl f ↦ ground (arith, ap c.hkdf_key ((eq_iff key "").0 f))
  | inr f ↦ ground arith
]
secret_of-recover c key (some old) secret e h = elim (Bool-cases (key == "")) [
  | inl f ↦ ground (arith, ap c.hkdf_key ((eq_iff key "").0 f))
  | inr f ↦ ground arith
]

-- A row that decrypts under the current key to the secret that another text stood for.
abbrev pub Holds : {Byte : Type 0} → Cipher Byte → String → Option String → String → String → Type 0
Holds c key old secret column = decrypt c column key ≡ ok (secret_of c key old secret)

migrate_row-Holds_left :
    {Byte : Type 0}
    → (c : Cipher Byte) (nonce : List Byte) (key : String) (old : Option String) (secret : String)
    → migrate_row c nonce key old secret ≡ none
    → Holds c key old secret secret
unfolding migrate_row decrypt secret_of opened
migrate_row-Holds_left c nonce key old secret h =
    elim (Result-cases (decrypt_with_key c (c.hkdf_key key) secret)) [
      | inl (e, f) ↦ absurd (ground arith)
      | inr (p, f) ↦ ground arith
    ]

migrate_row-Holds_written :
    {Byte : Type 0}
    → (c : Cipher Byte) (laws : IsCipher c) (nonce : List Byte) (key : String) (old : Option String)
      (secret encrypted : String)
    → length nonce ≡ 12
    → migrate_row c nonce key old secret ≡ some (ok encrypted)
    → Holds c key old secret encrypted
unfolding migrate_row decrypt
migrate_row-Holds_written c laws nonce key old secret encrypted twelve h =
    elim (Result-cases (decrypt_with_key c (c.hkdf_key key) secret)) [
      | inl (e, f) ↦ ground (
        arith,
        decrypt-encrypt c laws nonce (unwrap_or (recover c (other_keys c key old) secret) secret)
            key encrypted twelve (ground arith),
        secret_of-recover c key old secret e f,
      )
      | inr (p, f) ↦ absurd (ground arith)
    ]

-- No row of the list has the id.
abbrev Lacks : String → Dict String → Type 0
Lacks i rows = All (λ (r : String × String). (r.0 == i) ≡ false) rows

-- The rows have different ids: a primary key.
abbrev pub IsKeyed : Dict String → Type 0
IsKeyed rows = Pairwise (λ (r q : String × String). (q.0 == r.0) ≡ false) rows

row-cases :
    (o : Option (Result String))
    → (o ≡ none) ⊎ (((e : String) × (o ≡ some (err e))) ⊎ ((x : String) × (o ≡ some (ok x))))
row-cases none = inl refl
row-cases (some (err e)) = inr (inl (e, refl))
row-cases (some (ok x)) = inr (inr (x, refl))

migrate_rows-others :
    {Byte : Type 0}
    → (c : Cipher Byte) (d : Draws Byte) (key : String) (old : Option String) (i : String)
      (rows db : Dict String)
    → Lacks i rows
    → Dict.get i (migrate_rows c d key old rows db).0 ≡ Dict.get i db
unfolding migrate_rows
migrate_rows-others c d key old i [] db h = refl
migrate_rows-others c d key old i ((j, s) ∷ rows) db h =
    elim (row-cases (migrate_row c (d.nonce j) key old s)) [
      | inl e ↦ ground (arith, migrate_rows-others c d key old i rows db h.1)
      | inr (inl (x, e)) ↦ ground arith
      | inr (inr (x, e)) ↦ ground (
        arith,
        h.0,
        get-insert j i x db,
        migrate_rows-others c d key old i rows (Dict.insert j x db) h.1,
      )
    ]

-- What a successful run leaves for each row that it was given.
migrate_rows-Holds :
    {Byte : Type 0}
    → (c : Cipher Byte) (laws : IsCipher c) (d : Draws Byte) (key : String) (old : Option String)
    → ((i : String) → length (d.nonce i) ≡ 12)
    → (rows db : Dict String) → IsKeyed rows
    → (migrate_rows c d key old rows db).1 ≡ ok tt
    → (i s : String) → Dict.get i rows ≡ some s
    → Dict.get i db ≡ some s
    → (column : String) × (Dict.get i (migrate_rows c d key old rows db).0 ≡ some column)
      × Holds c key old s column
unfolding migrate_rows Dict.get
migrate_rows-Holds c laws d key old twelve [] db keyed done i s g k = absurd (ground arith)
migrate_rows-Holds c laws d key old twelve ((j, t) ∷ rows) db keyed done i s g k =
    elim (Bool-cases (j == i)) [
      | inl hit ↦ elim (row-cases (migrate_row c (d.nonce j) key old t)) [
        | inl e ↦ (
          s,
          ground (arith, rest hit db),
          ground (
            arith,
            ap (λ z. migrate_row c (d.nonce j) key old z) (same hit),
            migrate_row-Holds_left c (d.nonce j) key old s,
          ),
        )
        | inr (inl (x, e)) ↦ absurd (ground arith)
        | inr (inr (x, e)) ↦ (
          x,
          ground (arith, rest hit (Dict.insert j x db), get-insert j i x db),
          ground (
            arith,
            ap (λ z. migrate_row c (d.nonce j) key old z) (same hit),
            migrate_row-Holds_written c laws (d.nonce j) key old s x (twelve j),
          ),
        )
      ]
      | inr miss ↦ elim (row-cases (migrate_row c (d.nonce j) key old t)) [
        | inl e ↦
            rw (e, migrate_rows)
              (migrate_rows-Holds c laws d key old twelve rows db keyed.1 (ground arith) i s
                (ground arith) k)
        | inr (inl (x, e)) ↦ absurd (ground arith)
        | inr (inr (x, e)) ↦
            let f : d.fails j ≡ false = ground arith in
            rw (e, f, migrate_rows)
              (migrate_rows-Holds c laws d key old twelve rows (Dict.insert j x db) keyed.1
                (ground arith) i s (ground arith) (ground (arith, get-insert j i x db)))
      ]
    ]
  where
    same : (j == i) ≡ true → t ≡ s
    same hit = ground arith

    rest :
        (j == i) ≡ true
        → (db' : Dict String) → Dict.get i (migrate_rows c d key old rows db').0 ≡ Dict.get i db'
    rest hit db' =
        migrate_rows-others c d key old i rows db'
          (subst (λ z. Lacks z rows) ((eq_iff j i).0 hit) keyed.0)

-- Where the rows have different ids: after a run without an error, each row holds, encrypted under the
-- current key, what the first key that opened it before made of it, of the current key, the old one,
-- both as they were derived before, and the empty key; or its text, if none of them opened it.
pub migrate_plaintext_secrets-Holds :
    {Byte : Type 0}
    → (c : Cipher Byte) (laws : IsCipher c) (d : Draws Byte) (unread : Bool) (key : String)
      (old : Option String) (db : Dict String) (i secret : String)
    → ((i : String) → length (d.nonce i) ≡ 12)
    → IsKeyed db
    → (migrate_plaintext_secrets c d unread key old db).1 ≡ ok tt
    → Dict.get i db ≡ some secret
    → (column : String) × (Dict.get i (migrate_plaintext_secrets c d unread key old db).0
        ≡ some column)
      × Holds c key old secret column
unfolding migrate_plaintext_secrets
migrate_plaintext_secrets-Holds c laws d true key old db i secret twelve keyed done g =
    absurd (ground arith)
migrate_plaintext_secrets-Holds c laws d false key old db i secret twelve keyed done g =
    migrate_rows-Holds c laws d key old twelve db db keyed done i secret g g
