-- ===== src/Scheduler/Queue.antt =====
-- RequestQueue of proxy/src/scheduler/queue.rs. Priorities are `f64` in the source: here any type
-- with the answer of `partial_cmp`. A waker is known by the id of the request that it wakes.
pub mod Order
use Prim.Native.Nat.{Ordering}
use sovereign_engine.Prelude.{
  ℕ, zero, suc, ◌+◌, String, Bool, true, false, not, Option, none, some, List, [], ◌∷◌, ◌++◌,
  length, ◌==◌, if◌then◌else◌,
}
use sovereign_engine.Prelude.Dict
use sovereign_engine.Prelude.Dict.{Dict}
use sovereign_engine.Prelude.Table.{select}

pub record QueuedRequest (Priority : Type 0) : Type 0 where
  pub request_id : String
  pub user_id : String
  pub queue_key : String
  pub priority : Priority
  pub enqueued_at : ℕ

abbrev pub RequestQueue : Type 0 → Type 0
RequestQueue Priority = Dict (List (QueuedRequest Priority))

module _ {Priority : Type 0} where
  abbrev pub requests_of : String → RequestQueue Priority → List (QueuedRequest Priority)
  requests_of key q = elim (Dict.get key q) [ none ↦ [] | some rs ↦ rs ]

  -- entry(key).or_default().push_back(request)
  unfoldable pub enqueue : QueuedRequest Priority → RequestQueue Priority → RequestQueue Priority
  enqueue r q = Dict.insert r.queue_key (requests_of r.queue_key q ++ r ∷ []) q

  -- VecDeque::remove: the element at an index, and the rest.
  unfoldable pub remove_at :
      ℕ
      → List (QueuedRequest Priority)
      → Option (QueuedRequest Priority × List (QueuedRequest Priority))
  remove_at i [] = none
  remove_at zero (r ∷ rs) = some (r, rs)
  remove_at (suc i) (r ∷ rs) = elim (remove_at i rs) [
    | none ↦ none
    | some (x, rest) ↦ some (x, r ∷ rest)
  ]

  -- queue.retain(|r| r.request_id != request_id)
  unfoldable pub remove_by_id : String → String → RequestQueue Priority → RequestQueue Priority
  remove_by_id key id q = elim (Dict.get key q) [
    | none ↦ q
    | some rs ↦
        Dict.insert key (select (λ (r : QueuedRequest Priority). not (r.request_id == id)) rs) q
  ]

  unfoldable pub depth : String → RequestQueue Priority → ℕ
  depth key q = length (requests_of key q)

module _ {Priority : Type 0} (partial_cmp : Priority → Priority → Option Ordering) where
  -- a.partial_cmp(b).unwrap_or(Equal) is Greater
  abbrev pub is_greater : QueuedRequest Priority → QueuedRequest Priority → Bool
  is_greater a b = elim (partial_cmp a.priority b.priority) [ some Ordering.gt ↦ true | _ ↦ false ]

  -- enumerate().max_by(…): of the best so far and the next element the standard library keeps the
  -- first only if it is greater.
  unfoldable pub max_by_from : ℕ → QueuedRequest Priority → ℕ → List (QueuedRequest Priority) → ℕ
  max_by_from best_idx best i [] = best_idx
  max_by_from best_idx best i (r ∷ rs) =
      max_by_from (if is_greater best r then best_idx else i)
        (if is_greater best r then best else r) (i + 1) rs

  unfoldable pub best_index : List (QueuedRequest Priority) → Option ℕ
  unfolding max_by_from
  best_index [] = none
  best_index (r ∷ rs) = some (max_by_from 0 r 1 rs)

  unfoldable pub take_best :
      List (QueuedRequest Priority)
      → Option (QueuedRequest Priority × List (QueuedRequest Priority))
  unfolding best_index remove_at
  take_best rs = elim (best_index rs) [ none ↦ none | some i ↦ remove_at i rs ]

  unfoldable pub dequeue :
      String → RequestQueue Priority → Option (QueuedRequest Priority) × RequestQueue Priority
  dequeue key q = elim (take_best (requests_of key q)) [
    | none ↦ (none, q)
    | some (r, rest) ↦ (some r, Dict.insert key rest q)
  ]
