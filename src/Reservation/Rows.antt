-- ===== src/Reservation/Rows.antt =====
-- Two rows that hold a slot never overlap, where times compare as texts, and no two rows share an id: what one
-- statement on the table does to that.
use sovereign_engine.Prelude.{
  ◌≡◌, refl, sym, subst, inl, inr, String, Bool, true, false, ◌&&◌, none, some, List, [], ◌∷◌,
  arith, ◌==◌, eq_iff, text_lt, All, Pairwise, All-zip, All-map, All-unit, All-In, In,
  if◌then◌else◌,
}
use sovereign_engine.Prelude.Table.{
  find_first, update, Pairwise-update, find_first-none-All, find_first-some, find_first-In,
}
use sovereign_engine.Reservation.{Reservation, Env, active, holds_slot, has_id, set_status}
use sovereign_engine.Reservation.Admin.{blocks_other, set_approved, mark_active}

-- Both rows hold their slot, and their times overlap as texts, which is how the queries compare them.
abbrev pub clash : Reservation → Reservation → Bool
clash r q =
    holds_slot r.status
    && (holds_slot q.status && (text_lt r.start_time q.end_time && text_lt q.start_time r.end_time))

abbrev pub Apart : Reservation → Reservation → Type 0
Apart r q = ((r.id == q.id) ≡ false) × (clash r q ≡ false)

-- Ids are a key, and no two rows with status 'approved' or 'active' overlap.
abbrev pub IsSound : List Reservation → Type 0
IsSound = Pairwise Apart

-- A rewrite that keeps ids and times, and gives a slot to no row.
abbrev pub Shrinks : (Reservation → Bool) → (Reservation → Reservation) → Type 0
Shrinks p f =
    (r : Reservation)
    → ((f r).id ≡ r.id)
      × ((f r).start_time ≡ r.start_time)
      × ((f r).end_time ≡ r.end_time)
      × (p r ≡ true → holds_slot r.status ≡ false → holds_slot (f r).status ≡ false)

Apart-shrink :
    (p : Reservation → Bool) (f : Reservation → Reservation) (x y : Reservation)
    → Shrinks p f
    → Apart x y
    → Apart (if p x then f x else x) (if p y then f y else y)
Apart-shrink p f x y k h = ground (arith, k x, k y)

pub update-IsSound :
    (p : Reservation → Bool) (f : Reservation → Reservation) (rows : List Reservation)
    → Shrinks p f
    → IsSound rows
    → IsSound (update p f rows)
update-IsSound p f rows k h =
    Pairwise-update (λ _. Unit {0}) Apart Apart p f (λ x y _ _ a. Apart-shrink p f x y k a) rows
      (All-unit rows) h

-- The row that an id finds is the only one with that id.
abbrev pub Only : String → Reservation → Reservation → Type 0
Only id r q = (q.id == id) ≡ true → q ≡ r

Only-Apart : (r q : Reservation) → Apart r q → Only r.id r q
Only-Apart r q a h = ground (arith, eq_iff q.id r.id, eq_iff r.id q.id)

pub In-Only :
    (r : Reservation) (rows : List Reservation) → IsSound rows → In r rows → All (Only r.id r) rows
In-Only r [] s m = tt
In-Only r (x ∷ xs) s (inl e) =
    subst (λ (y : Reservation). All (Only y.id y) (x ∷ xs)) (sym e)
      (λ _. refl, All-map (Apart x) (Only x.id x) (λ q a. Only-Apart x q a) xs s.0)
In-Only r (x ∷ xs) s (inr m) =
    (λ h. absurd (id_clash r x (All-In (Apart x) r xs s.0 m) h), In-Only r xs s.1 m)
  where
    id_clash : (r x : Reservation) → Apart x r → (x.id == r.id) ≡ true → ⊥
    id_clash r x a h = cc (a.0)

pub find_first-Only :
    (id : String) (r : Reservation) (rows : List Reservation)
    → IsSound rows
    → find_first (has_id id) rows ≡ some r
    → All (Only id r) rows
find_first-Only id r rows s e =
    subst (λ i. All (Only i r) rows) ((eq_iff r.id id).0 (find_first-some (has_id id) rows r e))
      (In-Only r rows s (find_first-In (has_id id) rows r e))

Apart-mark :
    (stamp : String) (r x y : Reservation)
    → holds_slot r.status ≡ true
    → Only r.id r x
    → Only r.id r y
    → Apart x y
    → Apart
        (if has_id r.id x then set_status active stamp x else x)
        (if has_id r.id y then set_status active stamp y else y)
Apart-mark stamp r x y held px py h = ground arith

-- Marking a row that holds a slot already.
pub mark_active-IsSound :
    (failed : Bool) (stamp : String) (r : Reservation) (rows : List Reservation)
    → In r rows
    → holds_slot r.status ≡ true
    → IsSound rows
    → IsSound (mark_active failed stamp r.id rows)
mark_active-IsSound true stamp r rows m held s = s
mark_active-IsSound false stamp r rows m held s =
    Pairwise-update (Only r.id r) Apart Apart (has_id r.id) (set_status active stamp)
      (λ x y. Apart-mark stamp r x y held) rows (In-Only r rows s m) s

-- What the overlap query of `approve` leaves of a row, where the row `r` has the id.
abbrev Unblocked : String → Reservation → Reservation → Type 0
Unblocked id r q = (blocks_other id r.start_time r.end_time q ≡ false) × Only id r q

Apart-approve :
    (env : Env) (admin note id : String) (r x y : Reservation)
    → Unblocked id r x
    → Unblocked id r y
    → Apart x y
    → Apart
        (if has_id id x then set_approved env admin note x else x)
        (if has_id id y then set_approved env admin note y else y)
Apart-approve env admin note id r x y px py h =
    ground (arith, px.1, py.1, eq_iff x.id id, eq_iff y.id id, eq_iff x.id y.id)

-- Approving the row that the id finds, where no other holder of a slot overlaps it.
pub approve-rows-IsSound :
    (env : Env) (admin note id : String) (r : Reservation) (rows : List Reservation)
    → find_first (has_id id) rows ≡ some r
    → find_first (blocks_other id r.start_time r.end_time) rows ≡ none
    → IsSound rows
    → IsSound (update (has_id id) (set_approved env admin note) rows)
approve-rows-IsSound env admin note id r rows found free s =
    Pairwise-update (Unblocked id r) Apart Apart (has_id id) (set_approved env admin note)
      (λ x y. Apart-approve env admin note id r x y) rows
      (All-zip (λ q. blocks_other id r.start_time r.end_time q ≡ false) (Only id r) rows
        (find_first-none-All (blocks_other id r.start_time r.end_time) rows free)
        (find_first-Only id r rows s found))
      s

-- A new row with status 'pending' and an id of its own.
pub insert-IsSound :
    (row : Reservation) (rows : List Reservation)
    → holds_slot row.status ≡ false
    → find_first (has_id row.id) rows ≡ none
    → IsSound rows
    → IsSound (row ∷ rows)
insert-IsSound row rows idle fresh s = (
  All-map (λ q. has_id row.id q ≡ false) (Apart row)
      (λ q h. ground (arith, eq_iff q.id row.id, eq_iff row.id q.id)) rows
      (find_first-none-All (has_id row.id) rows fresh),
  s,
)
