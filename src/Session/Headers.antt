-- ===== src/Session/Headers.antt =====
-- strip_and_inject_headers and the checks of webui_proxy_handler: proxy/src/proxy/webui.rs. A map of
-- headers is the list of its entries; names are in lower case, as the library keeps them.
use sovereign_engine.Prelude.{
  String, Bool, true, false, not, Option, none, some, List, [], ◌∷◌, ◌==◌, if◌then◌else◌, unwrap_or,
  is_some, strip_prefix, ◌≡◌, refl, ◌⊎◌, inl, inr, arith, All, Bool-cases, Option-cases, subst, ap,
  eq_iff,
}
use sovereign_engine.Prelude.Table.{delete, All-delete}
use sovereign_engine.Reservation.{World, ActiveReservation}
use sovereign_engine.Session.Cookies.{SessionAuth, Verdict, goes_on, answered, redirected}

abbrev pub Headers : Type 0
Headers = List (String × String)

abbrev pub hop_by_hop : List String
hop_by_hop =
    "keep-alive" ∷ "proxy-authenticate" ∷ "proxy-authorization" ∷ "te" ∷ "trailers"
    ∷ "transfer-encoding" ∷ []

abbrev pub named : String → String × String → Bool
named n h = h.0 == n

abbrev pub remove_all : List String → Headers → Headers
remove_all [] hs = hs
remove_all (n ∷ ns) hs = remove_all ns (delete (named n) hs)

-- starts_with("x-se-")
abbrev pub is_trusted : String × String → Bool
is_trusted h = is_some (strip_prefix "x-se-" h.0)

-- HeaderMap::insert
abbrev pub insert_header : String → String → Headers → Headers
insert_header n v hs = (n, v) ∷ delete (named n) hs

-- The flag says that the text can be the value of a header.
abbrev pub insert_if : Bool → String → String → Headers → Headers
insert_if true n v hs = insert_header n v hs
insert_if false n v hs = hs

abbrev pub shown_name : SessionAuth → String
shown_name s = unwrap_or s.display_name (unwrap_or s.email s.user_id)

unfoldable pub strip_and_inject_headers : (String → Bool) → SessionAuth → Headers → Headers
unfolding strip_prefix
strip_and_inject_headers is_value s hs =
    insert_if (is_value (shown_name s)) "x-se-user-name" (shown_name s) (
      insert_if (is_value (unwrap_or s.email "")) "x-se-user-email" (unwrap_or s.email "")
        (delete is_trusted (remove_all hop_by_hop hs)))

-- What webui_proxy_handler sends on, if it does.
unfoldable pub webui_proxy_handler :
    (String → Bool) → Option SessionAuth → World → Headers → Verdict Headers
unfolding strip_and_inject_headers
webui_proxy_handler is_value none w hs = answered 401
webui_proxy_handler is_value (some s) w hs = elim w.cache [
  | none ↦ goes_on (strip_and_inject_headers is_value s hs)
  | some a ↦
      if not (a.user_id == s.user_id)
      then answered 503
      else goes_on (strip_and_inject_headers is_value s hs)
]

-- An entry that speaks for the user of the session, or for nobody.
abbrev pub IsHonest : SessionAuth → String × String → Type 0
IsHonest s h =
    (is_trusted h ≡ false)
    ⊎ ((h ≡ ("x-se-user-email", unwrap_or s.email "")) ⊎ (h ≡ ("x-se-user-name", shown_name s)))

stripped-IsHonest : (s : SessionAuth) (hs : Headers) → All (IsHonest s) (delete is_trusted hs)
stripped-IsHonest s [] = tt
stripped-IsHonest s (h ∷ hs) = elim (Bool-cases (is_trusted h)) [
  | inl e ↦ rw e (stripped-IsHonest s hs)
  | inr e ↦ rw e (inl e, stripped-IsHonest s hs)
]

insert_if-IsHonest :
    (b : Bool) (s : SessionAuth) (n v : String) (hs : Headers)
    → IsHonest s (n, v)
    → All (IsHonest s) hs
    → All (IsHonest s) (insert_if b n v hs)
insert_if-IsHonest true s n v hs h a = (h, All-delete (IsHonest s) (named n) hs a)
insert_if-IsHonest false s n v hs h a = a

pub strip_and_inject_headers-IsHonest :
    (is_value : String → Bool) (s : SessionAuth) (hs : Headers)
    → All (IsHonest s) (strip_and_inject_headers is_value s hs)
unfolding strip_and_inject_headers
strip_and_inject_headers-IsHonest is_value s hs =
    insert_if-IsHonest (is_value (shown_name s)) s "x-se-user-name" (shown_name s)
      (insert_if (is_value (unwrap_or s.email "")) "x-se-user-email" (unwrap_or s.email "")
        stripped)
      (inr (inr refl))
      (insert_if-IsHonest (is_value (unwrap_or s.email "")) s "x-se-user-email"
        (unwrap_or s.email "") stripped (inr (inl refl))
        (stripped-IsHonest s (remove_all hop_by_hop hs)))
  where
    stripped : Headers
    stripped = delete is_trusted (remove_all hop_by_hop hs)

abbrev payload : {A : Type 0} → A → Verdict A → A
payload d (goes_on a) = a
payload d (answered n) = d
payload d (redirected u) = d

goes_on-inj : {A : Type 0} (a b : A) → Path (Verdict A) (goes_on a) (goes_on b) → a ≡ b
goes_on-inj a b h = ap (payload a) h

-- A request reaches the web interface only with a session, and only if the system is not reserved or
-- reserved for the session's user; and whatever headers the client sent, a header that starts with
-- x-se- then has the e-mail or the name of that user.
pub webui_proxy_handler-IsHonest :
    (is_value : String → Bool) (o : Option SessionAuth) (w : World) (hs sent : Headers)
    → webui_proxy_handler is_value o w hs ≡ goes_on sent
    → (s : SessionAuth) × (o ≡ some s)
      × ((w.cache ≡ none)
          ⊎ ((a : ActiveReservation) × (w.cache ≡ some a) × (a.user_id ≡ s.user_id)))
      × All (IsHonest s) sent
unfolding webui_proxy_handler
webui_proxy_handler-IsHonest is_value none w hs sent h = absurd (ground arith)
webui_proxy_handler-IsHonest is_value (some s) w hs sent h = elim (Option-cases w.cache) [
  | inl e ↦ (s, refl, inl e, honest (ground arith))
  | inr (a, e) ↦ elim (Bool-cases (a.user_id == s.user_id)) [
    | inl own ↦ (s, refl, inr (a, e, (eq_iff a.user_id s.user_id).0 own), honest (ground arith))
    | inr other ↦ absurd (ground arith)
  ]
]
  where
    honest : goes_on (strip_and_inject_headers is_value s hs) ≡ goes_on sent → All (IsHonest s) sent
    honest e =
        subst (All (IsHonest s)) (goes_on-inj (strip_and_inject_headers is_value s hs) sent e)
          (strip_and_inject_headers-IsHonest is_value s hs)
