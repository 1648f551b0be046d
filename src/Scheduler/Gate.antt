-- ===== src/Scheduler/Gate.antt =====
-- ConcurrencyGate of proxy/src/scheduler/gate.rs. The lock around the map makes each function one
-- step, except `release_and_wake`, which takes the gate's lock and then the queue's.
pub mod Slots
pub mod Reregister
pub mod Tests
use Prim.Native.Nat.{Ordering}
use sovereign_engine.Prelude.{
  ℕ, ◌+◌, ◌-◌, String, Bool, true, false, Option, none, some, List, [], ◌∷◌, ◌++◌, ltb, ◌==◌, ◌≡◌,
  if◌then◌else◌,
}
use sovereign_engine.Prelude.Dict
use sovereign_engine.Prelude.Dict.{Dict}
use sovereign_engine.Scheduler.Queue.{QueuedRequest, RequestQueue, enqueue, dequeue, remove_by_id}

pub record GateState : Type 0 where
  pub max_slots : ℕ
  pub in_flight : ℕ

abbrev pub Gate : Type 0
Gate = Dict GateState

unfoldable pub register : String → ℕ → Gate → Gate
register m max g = Dict.insert m (record { max_slots = max; in_flight = 0 }) g

unfoldable pub unregister : String → Gate → Gate
unregister m g = Dict.remove m g

-- A model that is not registered is let through.
unfoldable pub try_acquire : String → Gate → Gate × Bool
try_acquire m g = elim (Dict.get m g) [
  | none ↦ (g, true)
  | some s ↦
      if ltb s.in_flight s.max_slots
      then (Dict.insert m (record s { in_flight = s.in_flight + 1 }) g, true)
      else (g, false)
]

-- The first half of `release_and_wake`; saturating_sub(1) is the subtraction of ℕ.
unfoldable pub release : String → Gate → Gate
release m g = elim (Dict.get m g) [
  | none ↦ g
  | some s ↦ Dict.insert m (record s { in_flight = s.in_flight - 1 }) g
]

-- How the wait of `acquire_with_timeout` ends.
pub data WaitEnd : Type 0 where
  woken sender_dropped timed_out : WaitEnd

module _ {Priority : Type 0} (partial_cmp : Priority → Priority → Option Ordering) where
  -- release_and_wake, with the request that it wakes.
  unfoldable pub release_and_wake :
      String
      → Gate
      → RequestQueue Priority
      → Gate × RequestQueue Priority × Option (QueuedRequest Priority)
  unfolding release
  release_and_wake m g q = let (r, q') = dequeue partial_cmp m q in (release m g, q', r)

-- The end of `acquire_with_timeout` behind the wait: the flag says whether a slot was acquired.
unfoldable pub finish_wait :
    {Priority : Type 0}
    → WaitEnd
    → String
    → String
    → Gate
    → RequestQueue Priority
    → Gate × RequestQueue Priority × Bool
unfolding try_acquire
finish_wait woken m id g q = let (g', ok) = try_acquire m g in (g', q, ok)
finish_wait sender_dropped m id g q = (g, q, false)
finish_wait timed_out m id g q = (g, remove_by_id m id q, false)

-- The slots that live, one entry for each AcquiredSlot with its model.
pub record System (Priority : Type 0) : Type 0 where
  pub gate : Gate
  pub queue : RequestQueue Priority
  pub held : List String

abbrev pub held_for : String → List String → ℕ
held_for m [] = 0
held_for m (x ∷ xs) = (if x == m then 1 else 0) + held_for m xs

-- One step of one task. `enters` stands for the part of `acquire_with_timeout` from the refused
-- slot to the wait, `drops` and `wakes` for the halves of `release_and_wake`.
pub data Step {Priority : Type 0} (cmp : Priority → Priority → Option Ordering)
    : System Priority → System Priority → Type 0 where
  admits :
      (s : System Priority) (m : String)
      → (try_acquire m s.gate).1 ≡ true
      → Step cmp s (record s { gate = (try_acquire m s.gate).0; held = m ∷ s.held })
  enters :
      (s : System Priority) (r : QueuedRequest Priority)
      → Step cmp s (record s { queue = enqueue r s.queue })
  drops :
      (s : System Priority) (m : String) (before after : List String)
      → s.held ≡ before ++ m ∷ after
      → Step cmp s (record s { gate = release m s.gate; held = before ++ after })
  wakes :
      (s : System Priority) (m : String)
      → Step cmp s (record s { queue = (dequeue cmp m s.queue).1 })
  times_out :
      (s : System Priority) (m id : String)
      → Step cmp s (record s { queue = remove_by_id m id s.queue })
  registers :
      (s : System Priority) (m : String) (max : ℕ)
      → held_for m s.held ≡ 0
      → Step cmp s (record s { gate = register m max s.gate })
  unregisters :
      (s : System Priority) (m : String) → Step cmp s (record s { gate = unregister m s.gate })

pub data Reach {Priority : Type 0} (cmp : Priority → Priority → Option Ordering)
    (s : System Priority) : System Priority → Type 0 where
  here : Reach cmp s s
  next : {t u : System Priority} → Reach cmp s t → Step cmp t u → Reach cmp s u
