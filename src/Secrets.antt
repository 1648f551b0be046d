-- ===== src/Secrets.antt =====
-- Client secrets of identity providers at rest: proxy/src/db/crypto.rs. AES-GCM, HKDF, SHA-256,
-- base64 and UTF-8 are code of libraries: a Cipher has their functions.
pub mod Migration
pub mod Tests
use sovereign_engine.Prelude.{
  ℕ, zero, suc, String, Bool, true, false, Option, none, some, List, [], ◌∷◌, ◌++◌, ltb, ◌==◌,
  length, if◌then◌else◌, unwrap_or, Result, ok, err, ◌≡◌, is_some,
}
use sovereign_engine.Prelude.Dict
use sovereign_engine.Prelude.Dict.{Dict}

pub record Cipher (Byte : Type 0) : Type 0 where
  -- derive_key and derive_key_legacy
  pub hkdf_key : String → (List Byte)
  pub sha_key : String → (List Byte)
  -- key, nonce, text
  pub aes_encrypt : (List Byte) → (List Byte) → (List Byte) → Option (List Byte)
  pub aes_decrypt : (List Byte) → (List Byte) → (List Byte) → Option (List Byte)
  pub encode_base64 : (List Byte) → String
  pub decode_base64 : String → Option (List Byte)
  pub as_bytes : String → (List Byte)
  pub from_utf8 : (List Byte) → Option String

-- What is documented of these functions.
pub record IsCipher {Byte : Type 0} (c : Cipher Byte) : Type 0 where
  pub decrypts :
      (key nonce p ct : List Byte)
      → c.aes_encrypt key nonce p ≡ some ct
      → c.aes_decrypt key nonce ct ≡ some p
  pub decodes : (bs : List Byte) → c.decode_base64 (c.encode_base64 bs) ≡ some bs
  pub reads : (s : String) → c.from_utf8 (c.as_bytes s) ≡ some s

unfoldable pub split_at : {Byte : Type 0} → ℕ → (List Byte) → (List Byte) × (List Byte)
split_at zero bs = ([], bs)
split_at (suc n) [] = ([], [])
split_at (suc n) (b ∷ bs) = let rest = split_at n bs in (b ∷ rest.0, rest.1)

-- encrypt, with the nonce that it draws.
unfoldable pub encrypt :
    {Byte : Type 0} → Cipher Byte → (List Byte) → String → String → Result String
encrypt c nonce plaintext key_str =
    elim (c.aes_encrypt (c.hkdf_key key_str) nonce (c.as_bytes plaintext)) [
      | none ↦ err "encryption failed"
      | some ct ↦ ok (c.encode_base64 (nonce ++ ct))
    ]

abbrev pub utf8_or : Option String → Result String
utf8_or none = err "decrypted value is not valid UTF-8"
utf8_or (some s) = ok s

unfoldable pub decrypt_combined :
    {Byte : Type 0} → Cipher Byte → (List Byte) → (List Byte) → Result String
unfolding split_at
decrypt_combined c key combined =
    if ltb (length combined) 12
    then err "ciphertext too short"
    else elim (c.aes_decrypt key (split_at 12 combined).0 (split_at 12 combined).1) [
      | none ↦ err "decryption failed — wrong key or corrupted data"
      | some p ↦ utf8_or (c.from_utf8 p)
    ]

unfoldable pub decrypt_with_key :
    {Byte : Type 0} → Cipher Byte → (List Byte) → String → Result String
unfolding decrypt_combined
decrypt_with_key c key encrypted = elim (c.decode_base64 encrypted) [
  | none ↦ err "invalid base64"
  | some combined ↦ decrypt_combined c key combined
]

unfoldable pub decrypt : {Byte : Type 0} → Cipher Byte → String → String → Result String
unfolding decrypt_with_key
decrypt c encrypted key_str = decrypt_with_key c (c.hkdf_key key_str) encrypted

-- The keys that a secret may be under besides the current one, in the order of the cases 2 to 5.
abbrev pub old_keys : {Byte : Type 0} → (String → (List Byte)) → Option String → List (List Byte)
old_keys f none = []
old_keys f (some old) = f old ∷ []

unfoldable pub other_keys :
    {Byte : Type 0} → Cipher Byte → String → Option String → List (List Byte)
other_keys c key old =
    old_keys c.hkdf_key old
    ++ c.sha_key key ∷ old_keys c.sha_key old
    ++ (if key == "" then [] else c.hkdf_key "" ∷ [])

-- What the first key that fits makes of a secret.
unfoldable pub recover : {Byte : Type 0} → Cipher Byte → List (List Byte) → String → Option String
unfolding decrypt_with_key
recover c [] secret = none
recover c (k ∷ ks) secret = elim (decrypt_with_key c k secret) [
  | ok plaintext ↦ some plaintext
  | err e ↦ recover c ks secret
]

-- The new column of a row: none where it is left, else what encrypt makes of the secret.
unfoldable pub migrate_row :
    {Byte : Type 0}
    → Cipher Byte
    → (List Byte)
    → String
    → Option String
    → String
    → Option (Result String)
unfolding decrypt_with_key recover other_keys encrypt
migrate_row c nonce key old secret = elim (decrypt_with_key c (c.hkdf_key key) secret) [
  | ok plaintext ↦ none
  | err e ↦ some (encrypt c nonce (unwrap_or (recover c (other_keys c key old) secret) secret) key)
]

-- What a run meets: the nonce drawn for a row, and the rows whose UPDATE fails.
pub record Draws (Byte : Type 0) : Type 0 where
  pub nonce : String → (List Byte)
  pub fails : String → Bool

-- The loop over the rows that were read; `db` is the column client_secret_enc by the id of the row.
unfoldable pub migrate_rows :
    {Byte : Type 0}
    → Cipher Byte
    → Draws Byte
    → String
    → Option String
    → Dict String
    → Dict String
    → Dict String × Result Unit
unfolding migrate_row
migrate_rows c d key old [] db = (db, ok tt)
migrate_rows c d key old ((id, secret) ∷ rows) db =
    elim (migrate_row c (d.nonce id) key old secret) [
      | none ↦ migrate_rows c d key old rows db
      | some (err e) ↦ (db, err "Failed to encrypt client secret")
      | some (ok encrypted) ↦
          let next = migrate_rows c d key old rows (Dict.insert id encrypted db) in
          if d.fails id then (db, err "Failed to update encrypted client secret") else next
    ]

unfoldable pub migrate_plaintext_secrets :
    {Byte : Type 0}
    → Cipher Byte
    → Draws Byte
    → Bool
    → String
    → Option String
    → Dict String
    → Dict String × Result Unit
unfolding migrate_rows
migrate_plaintext_secrets c d unread key old db =
    if unread
    then (db, err "Failed to query IdP configs for encryption migration")
    else migrate_rows c d key old db db
