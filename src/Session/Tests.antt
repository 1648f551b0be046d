-- ===== src/Session/Tests.antt =====
-- Runs of the checks of proxy/src/auth/mod.rs and proxy/src/proxy/webui.rs at concrete requests.
use sovereign_engine.Prelude.{
  String, Bool, true, false, Option, none, some, List, [], ◌∷◌, ◌≡◌, refl, ◌⊎◌, cat, All,
}
use sovereign_engine.Reservation.{World, ActiveReservation}
use sovereign_engine.Session.{Account, Accounts, SessionUser, build_cookie}
use sovereign_engine.Session.Cookies.{SessionAuth, answered, extract_session_tokens, admin_route}
use sovereign_engine.Session.Gate.{IsLogin, admin_route-admits}
use sovereign_engine.Session.Headers.{IsHonest, webui_proxy_handler, webui_proxy_handler-IsHonest}

abbrev hash : String → String
hash t = cat "#" t

abbrev ann : Account
ann = record {
  id = "u1";
  idp_id = "bootstrap";
  subject = "ann";
  email = some "ann@x";
  display_name = none;
  is_admin = true;
}

abbrev db : Accounts
db = record {
  sessions =
      record { id = "s1"; user_id = "u1"; token_hash = "#abc"; expires_at = "2026-01-02 00:00:00" }
      ∷ [];
  users = ann ∷ [];
  idp_configs = [];
}

-- Two cookies of the name, of which the second is valid.
abbrev cookie : String
cookie = "theme=dark; se_session=old; se_session=abc"

tokens_test : extract_session_tokens cookie ≡ "old" ∷ "abc" ∷ []
unfolding extract_session_tokens
tokens_test = refl

expired_test : admin_route hash false "2026-01-02 00:00:00" (some cookie) db ≡ answered 401
unfolding admin_route
expired_test = refl

cookie_test :
    build_cookie "abc" 86400 true (some ".x.org")
    ≡ "se_session=abc; Path=/; HttpOnly; SameSite=Lax; Max-Age=86400; Secure; Domain=.x.org"
unfolding build_cookie
cookie_test = refl

abbrev session : SessionAuth
session = record { user_id = "u1"; is_admin = true; email = some "ann@x"; display_name = none }

admin_route-admits_example :
    (a : SessionUser) × IsLogin hash "2026-01-01 12:00:00" db (extract_session_tokens cookie) a
    × (session.user_id ≡ a.user_id)
    × (a.is_admin ≡ true)
unfolding admin_route
admin_route-admits_example =
    admin_route-admits hash false "2026-01-01 12:00:00" (some cookie) db session refl

abbrev is_value : String → Bool
is_value s = true

abbrev reserved : World
reserved = record {
  rows = [];
  users = [];
  cache =
      some
        (record { reservation_id = "r1"; user_id = "u1"; user_display_name = none; end_time = "" });
  notices = 0;
}

abbrev sent : List (String × String)
sent = ("x-se-user-name", "ann@x") ∷ ("x-se-user-email", "ann@x") ∷ ("accept", "*/*") ∷ []

webui_proxy_handler-IsHonest_example :
    (s : SessionAuth) × (Path (Option SessionAuth) (some session) (some s))
    × ((reserved.cache ≡ none)
        ⊎ ((a : ActiveReservation) × (reserved.cache ≡ some a) × (a.user_id ≡ s.user_id)))
    × All (IsHonest s) sent
unfolding webui_proxy_handler
webui_proxy_handler-IsHonest_example =
    webui_proxy_handler-IsHonest is_value (some session) reserved
      (("x-se-user-email", "root@x") ∷ ("te", "gzip") ∷ ("accept", "*/*") ∷ []) sent refl
