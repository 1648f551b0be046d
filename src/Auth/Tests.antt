-- ===== src/Auth/Tests.antt =====
-- Examples for the API tokens, with texts as their own hashes.
use sovereign_engine.Prelude.{
  ℕ, ◌≤◌, ◌<◌, ◌≡◌, refl, String, false, Option, none, some, [], ◌∷◌, ok, err, pos,
}
use sovereign_engine.Auth.{User, Db, NewToken, create_token, validate_token, revoke_token, new_row}
use sovereign_engine.Auth.Lifecycle.{token_life}

abbrev pub same_text : String → String
same_text s = s

abbrev fixed_date : ℕ → String
fixed_date n = "2026-03-01 00:00:00"

abbrev pub read_date : String → Option ℕ
read_date s = some 1000

abbrev pub ann : User
ann = record { id = "ann"; is_admin = false }

abbrev empty_db : Db
empty_db = record { tokens = []; users = ann ∷ [] }

abbrev chat_token : NewToken
chat_token = record {
  name = "chat";
  category_id = some "chat";
  specific_model_id = none;
  expires_in_days = some (pos 30);
}

abbrev with_token : Db
with_token = record empty_db {
  tokens = new_row same_text fixed_date "t1" "se-1" "ann" chat_token ∷ [];
}

token_life_example :
    (900 ≤ 1000
      → validate_token same_text read_date false 900 "se-1"
          (create_token same_text fixed_date false "t1" "se-1" "ann" chat_token empty_db).0
        ≡ ok (record {
          user_id = "ann";
          token_id = "t1";
          category_id = some "chat";
          specific_model_id = none;
          is_admin = false;
          is_internal = false;
        }))
    × (1000 < 900
        → validate_token same_text read_date false 900 "se-1"
            (create_token same_text fixed_date false "t1" "se-1" "ann" chat_token empty_db).0
          ≡ err "Token has expired")
    × (validate_token same_text read_date false 900 "se-1"
          (revoke_token false "t1" "ann"
            (create_token same_text fixed_date false "t1" "se-1" "ann" chat_token empty_db).0).0
        ≡ err "Token has been revoked")
unfolding create_token
token_life_example =
    token_life same_text fixed_date read_date "t1" "se-1" "ann" chat_token empty_db ann 1000 900
      refl refl refl
