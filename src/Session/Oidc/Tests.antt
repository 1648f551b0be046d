-- ===== src/Session/Oidc/Tests.antt =====
-- Runs of proxy/src/auth/oidc.rs at concrete requests.
use sovereign_engine.Prelude.{
  ℕ, ◌≤◌, String, true, false, none, some, List, [], ◌∷◌, ◌≡◌, refl, cat, arith,
}
use sovereign_engine.Secrets.{Cipher}
use sovereign_engine.Session.{Accounts, BootstrapConfig}
use sovereign_engine.Session.Login.{LoginEnv, LoginRequest, CookieConfig, extract_client_ip}
use sovereign_engine.Session.Login.Limit.{told, ran, bootstrap_login-bound}
use sovereign_engine.Session.Oidc.{OidcDb, OidcConfig, Openid, split_whitespace}
use sovereign_engine.Session.Oidc.Callback.{CallbackEnv, callback}
use sovereign_engine.Session.Oidc.Whose.{IsLoginOf, callback-IsLoginOf}

abbrev hash : String → String
hash t = cat "#" t

abbrev cookies : CookieConfig
cookies = record { secure_cookies = true; cookie_domain = none }

abbrev bootstrap : BootstrapConfig
bootstrap = record {
  bootstrap_user = some "root";
  bootstrap_password = some "secret";
  break_glass = true;
}

abbrev at : ℕ → LoginEnv
at n = record {
  now = n;
  fails = record { lookup = false; insert_idp = false; insert_user = false };
  insert_fails = false;
  user_id = "u1";
  session_id = "s1";
  session_token = "abc";
  expires = "2026-01-02 00:00:00";
}

abbrev guess : String → LoginRequest
guess p = record { forwarded_for = some " 10.0.0.7 , 10.0.0.1"; user = "root"; pass = p }

-- A guess, and near the end of its minute and after it eleven more within 60 seconds: nine of these
-- are answered.
abbrev earlier : List (LoginEnv × LoginRequest)
earlier = (at 100, guess "a") ∷ []

abbrev guesses : List (LoginEnv × LoginRequest)
guesses =
    (at 59000000000, guess "b")
    ∷ (at 59100000000, guess "c")
    ∷ (at 59200000000, guess "d")
    ∷ (at 59300000000, guess "e")
    ∷ (at 59400000000, guess "f")
    ∷ (at 60000000100, guess "g")
    ∷ (at 61000000000, guess "h")
    ∷ (at 62000000000, guess "i")
    ∷ (at 63000000000, guess "j")
    ∷ (at 64000000000, guess "secret")
    ∷ (at 65000000000, guess "k")
    ∷ []

abbrev empty : Accounts
empty = record { sessions = []; users = []; idp_configs = [] }

client_test : extract_client_ip (some " 10.0.0.7 , 10.0.0.1") ≡ "10.0.0.7"
unfolding extract_client_ip
client_test = refl

told_test :
    told hash bootstrap cookies "10.0.0.7" guesses
      (ran hash bootstrap cookies earlier (record { limits = []; db = empty }))
    ≡ 9
unfolding told ran
told_test = refl

scopes_test : split_whitespace " openid  email" ≡ "openid" ∷ "email" ∷ []
unfolding split_whitespace
scopes_test = refl

bootstrap_login-bound_example :
    told hash bootstrap cookies "10.0.0.7" guesses
      (ran hash bootstrap cookies earlier (record { limits = []; db = empty }))
    ≤ 9
bootstrap_login-bound_example =
    bootstrap_login-bound hash bootstrap cookies "10.0.0.7" 59000000000 earlier guesses empty (
      (omega arith, omega arith),
      (
        (omega arith, omega arith),
        (
          (omega arith, omega arith),
          (
            (omega arith, omega arith),
            (
              (omega arith, omega arith),
              (
                (omega arith, omega arith),
                (
                  (omega arith, omega arith),
                  (
                    (omega arith, omega arith),
                    (
                      (omega arith, omega arith),
                      ((omega arith, omega arith), ((omega arith, omega arith), tt)),
                    ),
                  ),
                ),
              ),
            ),
          ),
        ),
      ),
    )

-- Bytes are texts here, and no secret is encrypted.
abbrev plain : Cipher String
plain = record {
  hkdf_key = λ k. k ∷ [];
  sha_key = λ k. k ∷ [];
  aes_encrypt = λ k n p. some p;
  aes_decrypt = λ k n p. some p;
  encode_base64 = λ b. "";
  decode_base64 = λ s. some (s ∷ []);
  as_bytes = λ s. s ∷ [];
  from_utf8 = λ b. none;
}

-- The provider's token is the code with the verifier behind it.
abbrev provider : Openid String
provider = record {
  is_issuer = λ s. true;
  is_redirect = λ s. true;
  discover = λ s. some (cat s "/keys");
  challenge = λ v. cat "S256" v;
  authorize_url = λ c csrf nonce challenge scopes. cat c.metadata csrf;
  has_token_endpoint = λ c. true;
  exchange = λ c code verifier. some (some (cat code verifier));
  claims = λ c token nonce.
      some (record { subject = token; email = some "ann@x"; preferred_username = none });
}

abbrev config : OidcConfig
config = record { api_hostname = "api.x"; db_encryption_key = none; cookies = cookies }

abbrev env : CallbackEnv
env = record {
  now = "2026-01-01 00:05:00";
  expires = "2026-01-02 00:05:00";
  state_fails = false;
  idp_fails = false;
  upsert = record {
    lookup_fails = false;
    update_fails = false;
    count_fails = false;
    insert_fails = false;
    id = "u2";
  };
  session_fails = false;
  session_id = "s2";
  session_token = "xyz";
  delete_fails = false;
}

abbrev db : OidcDb
db = record {
  idps =
      record {
        id = "corp";
        name = "Corp";
        issuer = "https://corp";
        client_id = "se";
        client_secret_enc = "pw";
        scopes = "openid email";
        enabled = true;
      }
      ∷ [];
  auth_states =
      record {
        csrf_token = "t";
        nonce = "n";
        idp_id = "corp";
        pkce_verifier = "v";
        expires_at = "2026-01-01 00:10:00";
      }
      ∷ [];
  accounts = record { sessions = []; users = []; idp_configs = "corp" ∷ [] };
}

callback-IsLoginOf_example :
    IsLoginOf plain provider hash config "2026-01-01 00:05:00" "code" "t" db
      (callback plain provider hash config env "code" "t" db).0.accounts
      "se_session=xyz; Path=/; HttpOnly; SameSite=Lax; Max-Age=86400; Secure"
unfolding callback
callback-IsLoginOf_example =
    callback-IsLoginOf plain provider hash config env "code" "t" db
      "se_session=xyz; Path=/; HttpOnly; SameSite=Lax; Max-Age=86400; Secure"
      "https://api.x/portal/" refl
