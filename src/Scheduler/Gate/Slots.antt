-- ===== src/Scheduler/Gate/Slots.antt =====
-- The count of the gate is the number of live slots, and never above the maximum.
use Prim.Native.Nat.{Ordering}
use sovereign_engine.Prelude.{
  ℕ, ◌+◌, ◌-◌, ◌≤◌, ◌≡◌, String, true, Option, some, List, [], ◌∷◌, ◌++◌, arith, eq_iff,
  Option-cases, inl, inr,
}
use sovereign_engine.Prelude.Dict
use sovereign_engine.Prelude.Dict.{get-insert, get-remove}
use sovereign_engine.Scheduler.Gate.{
  Gate, GateState, System, Step, Reach, admits, enters, drops, wakes, times_out, registers,
  unregisters, here, next, register, unregister, try_acquire, release, held_for,
}

-- For each registered model the count is the number of its live slots, and at most its maximum.
abbrev pub Counts : Gate → List String → Type 0
Counts g held =
    (m : String) (s : GateState)
    → Dict.get m g ≡ some s
    → (s.in_flight ≡ held_for m held) × (s.in_flight ≤ s.max_slots)

held_for-append :
    (m : String) (xs ys : List String) → held_for m (xs ++ ys) ≡ held_for m xs + held_for m ys
held_for-append m [] ys = omega arith
held_for-append m (x ∷ xs) ys = ground (arith, held_for-append m xs ys)

try_acquire-Counts :
    (g : Gate) (held : List String) (m : String)
    → (try_acquire m g).1 ≡ true
    → Counts g held
    → Counts (try_acquire m g).0 (m ∷ held)
unfolding try_acquire
try_acquire-Counts g held m ok h j s e = elim (Option-cases (Dict.get m g)) [
  | inl missing ↦ ground (arith, h j s, eq_iff m j)
  | inr (t, found) ↦
      ground (
        arith,
        h j s,
        h m t,
        eq_iff m j,
        get-insert m j (record t { in_flight = t.in_flight + 1 }) g,
      )
]

release-Counts :
    (g : Gate) (before after : List String) (m : String)
    → Counts g (before ++ m ∷ after)
    → Counts (release m g) (before ++ after)
unfolding release
release-Counts g before after m h j s e = elim (Option-cases (Dict.get m g)) [
  | inl missing ↦ ground (
    arith,
    h j s,
    eq_iff m j,
    held_for-append j before (m ∷ after),
    held_for-append j before after,
  )
  | inr (t, found) ↦ ground (
    arith,
    h j s,
    h m t,
    eq_iff m j,
    get-insert m j (record t { in_flight = t.in_flight - 1 }) g,
    held_for-append j before (m ∷ after),
    held_for-append j before after,
  )
]

register-Counts :
    (g : Gate) (held : List String) (m : String) (max : ℕ)
    → held_for m held ≡ 0
    → Counts g held
    → Counts (register m max g) held
unfolding register
register-Counts g held m max idle h j s e =
    ground (arith, h j s, eq_iff m j, get-insert m j (record { max_slots = max; in_flight = 0 }) g)

unregister-Counts :
    (g : Gate) (held : List String) (m : String) → Counts g held → Counts (unregister m g) held
unfolding unregister
unregister-Counts g held m h j s e = ground (arith, h j s, get-remove m j g)

module _ {Priority : Type 0} (cmp : Priority → Priority → Option Ordering) where
  Step-Counts : {s t : System Priority} → Step cmp s t → Counts s.gate s.held → Counts t.gate t.held
  Step-Counts (admits s m ok) h = try_acquire-Counts s.gate s.held m ok h
  Step-Counts (enters s r) h = h
  Step-Counts (drops s m before after e) h = release-Counts s.gate before after m (rw e at h)
  Step-Counts (wakes s m) h = h
  Step-Counts (times_out s m id) h = h
  Step-Counts (registers s m max idle) h = register-Counts s.gate s.held m max idle h
  Step-Counts (unregisters s m) h = unregister-Counts s.gate s.held m h

  -- In every interleaving of the tasks, as long as a model is registered only while none of its
  -- slots lives, the gate counts the live slots of each registered model exactly, and they are at
  -- most its maximum.
  pub Reach-Counts :
      {s t : System Priority} → Counts s.gate s.held → Reach cmp s t → Counts t.gate t.held
  Reach-Counts h here = h
  Reach-Counts h (next r st) = Step-Counts st (Reach-Counts h r)
