-- ===== src/Secrets/Tests.antt =====
-- Runs of proxy/src/db/crypto.rs at a concrete cipher.
use Prim.Native.Char.{Char, code}
use sovereign_engine.Prelude.{
  String, false, Option, none, some, List, [], ◌∷◌, ◌++◌, eqb, if◌then◌else◌, ◌≡◌, refl, ap, subst,
  behind, unwrap_or, arith,
}
use sovereign_engine.Prelude.Dict
use sovereign_engine.Prelude.Dict.{Dict}
use sovereign_engine.Secrets.{Cipher, IsCipher, Draws, migrate_plaintext_secrets}
use sovereign_engine.Secrets.Migration.{Holds, migrate_plaintext_secrets-Holds}

unfoldable pub to_list : String → List Char
to_list String.[] = []
to_list (String.◌∷◌ c s) = c ∷ to_list s

unfoldable pub of_list : List Char → String
of_list [] = ""
of_list (c ∷ cs) = behind c (of_list cs)

to_list-of_list : (cs : List Char) → to_list (of_list cs) ≡ cs
unfolding to_list of_list
to_list-of_list [] = refl
to_list-of_list (c ∷ cs) = ap (λ ds. c ∷ ds) (to_list-of_list cs)

of_list-to_list : (s : String) → of_list (to_list s) ≡ s
unfolding to_list of_list
of_list-to_list String.[] = refl
of_list-to_list (String.◌∷◌ c s) = ap (behind c) (of_list-to_list s)

-- A text behind its key is the encrypted text: what stands behind a key, if it is there.
unfoldable behind_key : List Char → List Char → Option (List Char)
behind_key [] cs = some cs
behind_key (k ∷ ks) [] = none
behind_key (k ∷ ks) (c ∷ cs) =
    let rest = behind_key ks cs in if eqb (code k) (code c) then rest else none

behind_key-append : (key p : List Char) → behind_key key (key ++ p) ≡ some p
unfolding behind_key
behind_key-append [] p = refl
behind_key-append (k ∷ ks) p = ground (arith, behind_key-append ks p)

abbrev tag : String → List Char
tag s = to_list s ++ to_list "|"

abbrev toy : Cipher Char
toy = record {
  hkdf_key = tag;
  sha_key = λ s. to_list "sha" ++ tag s;
  aes_encrypt = λ key nonce p. some (key ++ p);
  aes_decrypt = λ key nonce ct. behind_key key ct;
  encode_base64 = of_list;
  decode_base64 = λ s. some (to_list s);
  as_bytes = to_list;
  from_utf8 = λ bs. some (of_list bs);
}

some-inj : (p q : List Char) → Path (Option (List Char)) (some p) (some q) → p ≡ q
some-inj p q h = ap (λ o. unwrap_or o p) h

toy-IsCipher : IsCipher toy
toy-IsCipher = record {
  decrypts = λ key nonce p ct e.
      subst (λ z. behind_key key z ≡ some p) (some-inj (key ++ p) ct e) (behind_key-append key p);
  decodes = λ bs. ap some (to_list-of_list bs);
  reads = λ s. ap some (of_list-to_list s);
}

abbrev nonce : List Char
nonce = to_list "abcdefghijkl"

abbrev draws : Draws Char
draws = record { nonce = λ i. nonce; fails = λ i. false }

-- One secret under the old key, one in plain text.
abbrev column : Dict String
column = ("a", "abcdefghijklold|one") ∷ ("b", "two") ∷ []

migrate_plaintext_secrets-Holds_example :
    (c : String) × (Dict.get "a"
        (migrate_plaintext_secrets toy draws false "new" (some "old") column).0
      ≡ some c)
    × Holds toy "new" (some "old") "abcdefghijklold|one" c
unfolding migrate_plaintext_secrets Dict.insert Dict.get to_list of_list behind_key
migrate_plaintext_secrets-Holds_example =
    migrate_plaintext_secrets-Holds toy toy-IsCipher draws false "new" (some "old") column "a"
      "abcdefghijklold|one" (λ i. refl) ((refl, tt), (tt, tt)) refl refl
