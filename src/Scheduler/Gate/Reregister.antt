-- ===== src/Scheduler/Gate/Reregister.antt =====
-- A model that is registered again while slots of it live admits its maximum once more.
use sovereign_engine.Prelude.{
  ℕ, zero, suc, ◌+◌, ◌≤◌, ◌≡◌, ap, String, true, some, ◌∷◌, ◌∙◌, arith, eq_refl, if◌then◌else◌,
}
use sovereign_engine.Prelude.Dict
use sovereign_engine.Prelude.Dict.{get-insert}
use sovereign_engine.Scheduler.Gate.{Gate, GateState, System, register, try_acquire, held_for}

-- One try for a slot of the model, which lives on where it is acquired.
unfoldable pub acquire : {Priority : Type 0} → String → System Priority → System Priority
acquire m s =
    let (g, ok) = try_acquire m s.gate in if ok then record s { gate = g; held = m ∷ s.held } else s

unfoldable pub acquire_times : {Priority : Type 0} → ℕ → String → System Priority → System Priority
acquire_times zero m s = s
acquire_times (suc n) m s = acquire_times n m (acquire m s)

try_acquire-free :
    (m : String) (g : Gate) (s : GateState)
    → Dict.get m g ≡ some s
    → s.in_flight + 1 ≤ s.max_slots
    → ((try_acquire m g).1 ≡ true)
      × (Dict.get m (try_acquire m g).0 ≡ some (record s { in_flight = s.in_flight + 1 }))
unfolding try_acquire
try_acquire-free m g s e room =
    ground (arith, get-insert m m (record s { in_flight = s.in_flight + 1 }) g, eq_refl m)

acquire-ok :
    {Priority : Type 0} (m : String) (s : System Priority)
    → (try_acquire m s.gate).1 ≡ true
    → acquire m s ≡ record s { gate = (try_acquire m s.gate).0; held = m ∷ s.held }
unfolding acquire
acquire-ok m s ok = ground arith

free_slots_held :
    {Priority : Type 0} (n : ℕ) (m : String) (s : System Priority) (g : GateState)
    → Dict.get m s.gate ≡ some g
    → g.in_flight + n ≤ g.max_slots
    → held_for m (acquire_times n m s).held ≡ n + held_for m s.held
unfolding acquire_times
free_slots_held zero m s g e room = omega arith
free_slots_held (suc n) m s g e room =
    let (ok, e') = try_acquire-free m s.gate g e (omega arith) in
    let t = record s { gate = (try_acquire m s.gate).0; held = m ∷ s.held } in
    ap (λ u. held_for m (acquire_times n m u).held) (acquire-ok m s ok)
    ∙ free_slots_held n m t (record g { in_flight = g.in_flight + 1 }) e' (omega arith)
    ∙ rw (eq_refl m) (omega arith)

-- Whatever slots of a model live, after `register` as many more are acquired as the maximum says:
-- the live slots then exceed the maximum by those that lived before.
pub register_over_admits :
    {Priority : Type 0} (m : String) (max : ℕ) (s : System Priority)
    → held_for m (acquire_times max m (record s { gate = register m max s.gate })).held
      ≡ max + held_for m s.held
unfolding register
register_over_admits m max s =
    free_slots_held max m (record s { gate = Dict.insert m fresh s.gate }) fresh
      (rw (get-insert m m fresh s.gate, eq_refl m)) (omega arith)
  where
    fresh : GateState
    fresh = record { max_slots = max; in_flight = 0 }
