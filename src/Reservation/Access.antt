-- ===== src/Reservation/Access.antt =====
-- Who may start and stop containers by a reservation.
use sovereign_engine.Prelude.{
  ◌≡◌, ◌↔◌, refl, String, true, false, Option, none, some, List, [], ◌∷◌, map, arith, ◌==◌, eq_iff,
  inl, inr, In,
}
use sovereign_engine.Prelude.Table.{In-select, select-In}
use sovereign_engine.Reservation.{
  Reservation, World, User, ActiveReservation, is_active, active_entry,
}
use sovereign_engine.Reservation.Requests.{holds_active_reservation}
use sovereign_engine.Reservation.Cache.{IsCoherent, actives, cached, has_active_status}

-- The user owns a row with status 'active'.
abbrev pub OwnsActive : String → List Reservation → Type 0
OwnsActive user rows =
    (r : Reservation) × In r rows × (is_active r.status ≡ true) × (r.user_id ≡ user)

-- The check of the cache, given what the cache and the active rows are.
held :
    (us : List User) (user : String) (rows : List Reservation) (c : Option ActiveReservation)
    → map (active_entry us) rows ≡ cached c
    → elim c [ none ↦ false | some a ↦ a.user_id == user ] ≡ true
    → (r : Reservation) × In r rows × (r.user_id ≡ user)
held us user [] none e h = cc
held us user [] (some a) e h = cc
held us user (r ∷ rs) none e h = cc
held us user (r ∷ rs) (some a) e h = (r, inl refl, ground (arith, eq_iff a.user_id user))

owner_held :
    (us : List User) (user : String) (rows : List Reservation) (c : Option ActiveReservation)
    (r : Reservation)
    → map (active_entry us) rows ≡ cached c
    → In r rows
    → r.user_id ≡ user
    → elim c [ none ↦ false | some a ↦ a.user_id == user ] ≡ true
owner_held us user [] c r e m h = absurd m
owner_held us user (q ∷ qs) none r e m h = cc
owner_held us user (q ∷ []) (some a) r e (inl m) h = ground (arith, eq_iff a.user_id user)
owner_held us user (q ∷ []) (some a) r e (inr m) h = absurd m
owner_held us user (q ∷ p ∷ ps) (some a) r e m h = cc

-- Where the cache is coherent, the check lets a user through exactly when the table has an active
-- row of that user.
pub holds_active_reservation_iff :
    (w : World) (user : String)
    → IsCoherent w
    → holds_active_reservation w user ≡ true ↔ OwnsActive user w.rows
unfolding holds_active_reservation
holds_active_reservation_iff w user c = (
  λ h.
      let (r, m, e) = held w.users user (actives w.rows) w.cache c h in
      let (n, on) = In-select has_active_status r w.rows m in (r, n, on, e),
  λ (r, m, on, e).
      owner_held w.users user (actives w.rows) w.cache r c
        (select-In has_active_status r w.rows m on) e,
)
