-- ===== src/Reservation/Ticks.antt =====
-- What one tick leaves behind, and what the dropped errors of the handlers lead to.
use sovereign_engine.Prelude.{
  ◌≡◌, refl, ap, String, true, false, ◌⊎◌, inl, inr, none, some, List, [], ◌∷◌, arith, is_some,
  text_le, All, Bool-cases, Option-cases, length, eqb, All-map, ◌≢◌, Bool,
}
use sovereign_engine.Prelude.Table.{find_first, count, count_zero-All, update-clears, All-update}
use sovereign_engine.Reservation.{
  Reservation, World, Env, completed, tick_lookup, tick_cancel, activate_lookup, activate_update,
  is_pending, set_status, active_entry, status_is, Status, pending, approved, is_approved,
}
use sovereign_engine.Reservation.Admin.{force_activate, is_approved_row}
use sovereign_engine.Reservation.Tick.{
  tick_reservations, complete_expired, activate_due, cancel_stale, first_due, is_expired, is_due,
  is_stale, set_auto_cancelled,
}
use sovereign_engine.Reservation.Cache.{IsCoherent, actives-no_cache, length-actives-update}

abbrev Unstale : String → Reservation → Type 0
Unstale now r = is_stale now r ≡ false

abbrev Undue : String → Reservation → Type 0
Undue now r = is_due now r ≡ false

first_due-none :
    (now : String) (rows : List Reservation) → first_due now rows ≡ none → All (Undue now) rows
unfolding first_due
first_due-none now [] h = tt
first_due-none now (x ∷ xs) h = (ground arith, first_due-none now xs (ground arith))

cancel_stale-Unstale :
    (env : Env) (now : String) (w : World)
    → env.fails tick_cancel ≡ false
    → All (Unstale now) (cancel_stale env now w).0.rows
unfolding cancel_stale
cancel_stale-Unstale env now w ok = elim (Bool-cases (eqb (count (is_stale now) w.rows) 0)) [
  | inl e ↦ rw (ok, e, cancel_stale) (count_zero-All (is_stale now) w.rows (ground arith))
  | inr e ↦
      rw (ok, e, cancel_stale)
        (update-clears (is_stale now) (set_auto_cancelled env) (λ r. refl) w.rows)
]

cancel_stale-Undue :
    (env : Env) (now : String) (w : World)
    → All (Undue now) w.rows
    → All (Undue now) (cancel_stale env now w).0.rows
unfolding cancel_stale
cancel_stale-Undue env now w h = ground (
  arith,
  All-update (Undue now) (Undue now) (is_stale now) (set_auto_cancelled env) (λ r k. ground arith)
      w.rows h,
)

cache-cancel_stale :
    (env : Env) (now : String) (w : World) → (cancel_stale env now w).0.cache ≡ w.cache
unfolding cancel_stale
cache-cancel_stale env now w = ground arith

activate_due_settles :
    (env : Env) (now : String) (w : World)
    → env.fails tick_lookup ≡ false
    → (is_some (activate_due env now w).0.cache ≡ true)
      ⊎ All (Undue now) (activate_due env now w).0.rows
unfolding activate_due
activate_due_settles env now w ok = elim (Option-cases (first_due now w.rows)) [
  | inl e ↦ elim (Bool-cases (is_some w.cache)) [
    | inl busy ↦ inl (ground arith)
    | inr idle ↦ inr (rw (idle, ok, e, activate_due) (first_due-none now w.rows e))
  ]
  | inr (r, e) ↦ inl (ground arith)
]

settled :
    (env : Env) (now : String) (w : World)
    → (is_some w.cache ≡ true) ⊎ All (Undue now) w.rows
    → (is_some (cancel_stale env now w).0.cache ≡ true)
      ⊎ All (Undue now) (cancel_stale env now w).0.rows
settled env now w (inl busy) = inl (ground (arith, cache-cancel_stale env now w))
settled env now w (inr idle) = inr (cancel_stale-Undue env now w idle)

-- No row of this status starts at `now` or before, where times compare as texts.
abbrev pub NoneStarted : Status → String → Reservation → Type 0
NoneStarted s now r = (r.status ≢ s) ⊎ (text_le r.start_time now ≡ false)

Unstale-NoneStarted : (now : String) (r : Reservation) → Unstale now r → NoneStarted pending now r
Unstale-NoneStarted now r h = elim (Bool-cases (is_pending r.status)) [
  | inl e ↦ inr (ground arith)
  | inr e ↦ inl (λ k. absurd (ground arith))
]

Undue-NoneStarted : (now : String) (r : Reservation) → Undue now r → NoneStarted approved now r
Undue-NoneStarted now r h = elim (Bool-cases (is_approved r.status)) [
  | inl e ↦ inr (ground arith)
  | inr e ↦ inl (λ k. absurd (ground arith))
]

undue :
    (now : String) (b : Bool) (rows : List Reservation)
    → (b ≡ true) ⊎ All (Undue now) rows
    → (b ≡ true) ⊎ All (NoneStarted approved now) rows
undue now b rows (inl e) = inl e
undue now b rows (inr h) =
    inr (All-map (Undue now) (NoneStarted approved now) (Undue-NoneStarted now) rows h)

-- Where its two later queries succeed, a tick leaves no pending row whose start is at its time or
-- before; and either a reservation is active in the cache, or no approved row's start is. Times
-- compare as texts.
pub tick_settles :
    (env : Env) (now : String) (w : World)
    → env.fails tick_lookup ≡ false
    → env.fails tick_cancel ≡ false
    → All (NoneStarted pending now) (tick_reservations env now w).rows
      × ((is_some (tick_reservations env now w).cache ≡ true)
          ⊎ All (NoneStarted approved now) (tick_reservations env now w).rows)
unfolding tick_reservations
tick_settles env now w lookup_ok cancel_ok =
    let w1 = (complete_expired env now w).0 in
    let w2 = (activate_due env now w1).0 in
    let w3 = (cancel_stale env now w2).0 in
    let rows : (tick_reservations env now w).rows ≡ w3.rows = ground arith in
    let cache : (tick_reservations env now w).cache ≡ w3.cache = ground arith in
    let unstale =
      All-map (Unstale now) (NoneStarted pending now) (Unstale-NoneStarted now) w3.rows
        (cancel_stale-Unstale env now w2 cancel_ok) in
    let idle =
      undue now (is_some w3.cache) w3.rows
        (settled env now w2 (activate_due_settles env now w1 lookup_ok)) in
    rw (rows, cache) (unstale, idle)

no_expired :
    (now : String) (w : World) → IsCoherent w → w.cache ≡ none → count (is_expired now) w.rows ≡ 0
no_expired now w c e = omega (
  arith,
  ap length (actives-no_cache w c e),
  length-actives-update (is_expired now) (set_status completed "") (λ r h. ground arith) (λ r. refl)
      w.rows,
)

-- The tick does not look at the end of the row that it activates: with a coherent empty cache, the
-- first approved row whose start has passed becomes the active reservation even if its end has
-- passed too.
pub tick_activates_ended :
    (env : Env) (now : String) (w : World) (r : Reservation)
    → IsCoherent w
    → w.cache ≡ none
    → env.fails tick_lookup ≡ false
    → first_due now w.rows ≡ some r
    → text_le r.end_time now ≡ true
    → (tick_reservations env now w).cache ≡ some (active_entry w.users r)
unfolding tick_reservations complete_expired activate_due
tick_activates_ended env now w r c empty ok due ended = ground (
  arith,
  no_expired now w c empty,
  cache-cancel_stale env now (activate_due env now (complete_expired env now w).0).0,
)

-- `force_activate` drops the error of its UPDATE: the scheduler holds a reservation as active, the
-- table is as before, and the answer is a success.
pub force_activate_phantom :
    (env : Env) (id : String) (w : World) (r : Reservation)
    → w.cache ≡ none
    → env.fails activate_lookup ≡ false
    → env.fails activate_update ≡ true
    → find_first (is_approved_row id) w.rows ≡ some r
    → ((force_activate env id w).0.cache ≡ some (active_entry w.users r))
      × ((force_activate env id w).0.rows ≡ w.rows)
      × ((force_activate env id w).1 ≡ status_is "active")
unfolding force_activate
force_activate_phantom env id w r empty a b found = ground arith
