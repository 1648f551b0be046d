-- ===== src/Reservation/Cache.antt =====
-- The scheduler's copy of the active reservation against the rows with status 'active': what one
-- statement on the table does to the active rows.
use sovereign_engine.Prelude.{
  suc, ◌+◌, ◌≤◌, ◌≡◌, ◌≢◌, refl, ap, inl, inr, String, Bool, true, false, Option, none, some, List,
  [], ◌∷◌, map, arith, ◌==◌, eq_iff, length, empty_of_length, All, All-map, In, All-In,
}
use sovereign_engine.Prelude.Table.{select, update, delete, count}
use sovereign_engine.Reservation.{
  Reservation, World, User, ActiveReservation, active, is_active, has_id, set_status, active_entry,
}
use sovereign_engine.Reservation.Rows.{IsSound, Apart}

abbrev pub has_active_status : Reservation → Bool
has_active_status r = is_active r.status

-- The rows with status 'active'.
abbrev pub actives : List Reservation → List Reservation
actives = select has_active_status

abbrev pub cached : Option ActiveReservation → List ActiveReservation
cached none = []
cached (some a) = a ∷ []

-- The cache holds the entry of each active row, and nothing else; so there is at most one.
abbrev pub IsCoherent : World → Type 0
IsCoherent w = map (active_entry w.users) (actives w.rows) ≡ cached w.cache

-- A statement that touches no active row and makes none.
pub actives-update :
    (p : Reservation → Bool) (f : Reservation → Reservation)
    → ((r : Reservation) → is_active (f r).status ≡ false)
    → (rows : List Reservation)
    → All (λ (r : Reservation). p r ≡ true → is_active r.status ≡ false) rows
    → actives (update p f rows) ≡ actives rows
actives-update p f off [] h = refl
actives-update p f off (x ∷ xs) h = ground (arith, h.0, off x, actives-update p f off xs h.1)

-- A statement that ends active rows, and only such.
pub length-actives-update :
    (p : Reservation → Bool) (f : Reservation → Reservation)
    → ((r : Reservation) → p r ≡ true → is_active r.status ≡ true)
    → ((r : Reservation) → is_active (f r).status ≡ false)
    → (rows : List Reservation)
    → length (actives (update p f rows)) + count p rows ≡ length (actives rows)
length-actives-update p f on off [] = refl
length-actives-update p f on off (x ∷ xs) =
    ground (arith, on x, off x, length-actives-update p f on off xs)

pub actives-delete :
    (p : Reservation → Bool) (rows : List Reservation)
    → All (λ r. p r ≡ true → is_active r.status ≡ false) rows
    → actives (delete p rows) ≡ actives rows
actives-delete p [] h = refl
actives-delete p (x ∷ xs) h = ground (arith, h.0, actives-delete p xs h.1)

update-absent :
    (id : String) (f : Reservation → Reservation) (rows : List Reservation)
    → All (λ q. (q.id == id) ≡ false) rows
    → update (has_id id) f rows ≡ rows
update-absent id f [] h = refl
update-absent id f (x ∷ xs) h = ground (arith, h.0, update-absent id f xs h.1)

-- One row becomes active where none is.
pub actives-activate :
    (stamp : String) (r : Reservation) (rows : List Reservation)
    → IsSound rows
    → In r rows
    → actives rows ≡ []
    → actives (update (has_id r.id) (set_status active stamp) rows) ≡ set_status active stamp r ∷ []
actives-activate stamp r [] s m h = absurd m
actives-activate stamp r (x ∷ xs) s (inl e) h =
    ground
      (arith, eq_iff x.id r.id, update-absent r.id (set_status active stamp) xs (others xs s.0))
  where
    others : (ys : List Reservation) → All (Apart x) ys → All (λ q. (q.id == r.id) ≡ false) ys
    others =
        All-map (Apart x) (λ q. (q.id == r.id) ≡ false)
          (λ q a. ground (arith, eq_iff q.id r.id, eq_iff x.id q.id))
actives-activate stamp r (x ∷ xs) s (inr m) h =
    ground (arith, All-In (Apart x) r xs s.0 m, actives-activate stamp r xs s.1 m)

length-cached : (c : Option ActiveReservation) → length (cached c) ≤ 1
length-cached none = omega arith
length-cached (some a) = omega arith

length-map :
    (us : List User) (rows : List Reservation) → length (map (active_entry us) rows) ≡ length rows
length-map us [] = refl
length-map us (x ∷ xs) = ap suc (length-map us xs)

pub length-actives-le : (w : World) → IsCoherent w → length (actives w.rows) ≤ 1
length-actives-le w c =
    omega (arith, length-map w.users (actives w.rows), ap length c, length-cached w.cache)

-- With no entry in the cache no row is active.
pub actives-no_cache : (w : World) → IsCoherent w → w.cache ≡ none → actives w.rows ≡ []
actives-no_cache w c e =
    empty_of_length (actives w.rows)
      (omega (arith, length-map w.users (actives w.rows), ap length (rw e at c)))

-- A statement that ends at least one active row, and only such, ends them all.
pub actives-end :
    (w : World) (p : Reservation → Bool) (f : Reservation → Reservation)
    → IsCoherent w
    → ((r : Reservation) → p r ≡ true → is_active r.status ≡ true)
    → ((r : Reservation) → is_active (f r).status ≡ false)
    → count p w.rows ≢ 0
    → actives (update p f w.rows) ≡ []
actives-end w p f c on off some_row =
    empty_of_length (actives (update p f w.rows))
      (omega (arith, length-actives-update p f on off w.rows, length-actives-le w c))
