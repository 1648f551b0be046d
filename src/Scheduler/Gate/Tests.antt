-- ===== src/Scheduler/Gate/Tests.antt =====
-- Examples for the queue and the gate of proxy/src/scheduler.
use Prim.Native.Nat.{compare, Ordering}
use sovereign_engine.Prelude.{ℕ, ◌≡◌, refl, String, Option, some, List, [], ◌∷◌, arith}
use sovereign_engine.Prelude.Dict
use sovereign_engine.Prelude.Dict.{get-insert}
use sovereign_engine.Scheduler.Queue.{QueuedRequest, dequeue, take_best}
use sovereign_engine.Scheduler.Queue.Order.{IsTotalOrder, Serves, dequeue-Serves}
use sovereign_engine.Scheduler.Gate.{
  System, Reach, admits, registers, here, next, register, try_acquire, held_for,
}
use sovereign_engine.Scheduler.Gate.Reregister.{acquire_times, register_over_admits}
use sovereign_engine.Scheduler.Gate.Slots.{Counts, Reach-Counts}

-- Priorities as numbers.
abbrev number_cmp : ℕ → ℕ → Option Ordering
number_cmp a b = some (compare a b)

number_cmp-IsTotalOrder : IsTotalOrder number_cmp
number_cmp-IsTotalOrder = record {
  asymmetric = λ a b h k. ground arith;
  transitive = λ a b c h k e. ground arith;
}

abbrev request : String → ℕ → QueuedRequest ℕ
request id p = record {
  request_id = id;
  user_id = "u";
  queue_key = "m";
  priority = p;
  enqueued_at = 0;
}

abbrev three_waiting : List (String × List (QueuedRequest ℕ))
three_waiting = ("m", request "a" 7 ∷ request "b" 9 ∷ request "c" 9 ∷ []) ∷ []

dequeue-Serves_example : Serves number_cmp "m" three_waiting
dequeue-Serves_example = dequeue-Serves number_cmp number_cmp-IsTotalOrder "m" three_waiting

-- Of two requests with the greatest priority the later one is served.
dequeue_tie : (dequeue number_cmp "m" three_waiting).0 ≡ some (request "c" 9)
unfolding dequeue take_best Dict.get
dequeue_tie = refl

abbrev empty_system : System ℕ
empty_system = record { gate = []; queue = []; held = [] }

abbrev one_slot : System ℕ
one_slot = record empty_system { gate = ("m", record { max_slots = 1; in_flight = 0 }) ∷ [] }

abbrev one_held : System ℕ
one_held = record {
  gate = ("m", record { max_slots = 1; in_flight = 1 }) ∷ [];
  queue = [];
  held = "m" ∷ [];
}

empty-Counts : Counts [] []
unfolding Dict.get
empty-Counts m s e = cc

held_reached : Reach number_cmp empty_system one_held
unfolding register try_acquire Dict.insert Dict.get
held_reached = next (next here (registers empty_system "m" 1 refl)) (admits one_slot "m" refl)

Reach-Counts_example : Counts one_held.gate one_held.held
Reach-Counts_example = Reach-Counts number_cmp empty-Counts held_reached

register_over_admits_example :
    held_for "m"
      (acquire_times 1 "m" (record one_held { gate = register "m" 1 one_held.gate })).held
    ≡ 2
register_over_admits_example = register_over_admits "m" 1 one_held
