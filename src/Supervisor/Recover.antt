-- ===== src/Supervisor/Recover.antt =====
-- recover_gate_state of proxy/src/main.rs, and the seeding of the supervisor in
-- proxy/src/supervisor/mod.rs: what a start of the proxy makes of the containers that run.
use sovereign_engine.Prelude.{
  ℕ, String, Bool, true, false, Option, none, some, List, [], ◌∷◌, ◌≡◌, refl, inl, inr, arith, ◌==◌,
  eq_refl, eq_iff, ◌⊎◌, In, Bool-cases, if◌then◌else◌, as_u32, at_least_one,
}
use sovereign_engine.Prelude.Dict
use sovereign_engine.Prelude.Dict.{Dict, get-insert, get-remove}
use sovereign_engine.Prelude.Table.{find_first, select}
use sovereign_engine.Scheduler.Gate.{Gate, GateState, register, unregister}
use sovereign_engine.Supervisor.{healthy, fresh}
use sovereign_engine.Supervisor.Store.{Secrets, App, Env, is_model, read_loaded}
use sovereign_engine.Supervisor.Lifecycle.{reconcile_dead_backend, reconcile_state}
use sovereign_engine.Supervisor.Kick.{is_running, container_name}

abbrev pub is_loaded : App → String → Bool
is_loaded a id = elim (find_first (is_model id) a.models) [ none ↦ false | some m ↦ m.loaded ]

-- container_secrets JOIN models … WHERE m.loaded = 1
abbrev pub loaded_rows : App → List (String × Secrets)
loaded_rows a = select (λ (r : String × Secrets). is_loaded a r.0) a.secrets

abbrev pub is_alive : Env → String → Bool
is_alive env id = elim (env.inspect (container_name id)) [ none ↦ false | some i ↦ is_running i ]

abbrev pub found_id : Env → String → Option String
found_id env id = elim (env.inspect (container_name id)) [ none ↦ none | some i ↦ i.id ]

-- One round of the loop.
unfoldable pub recover_one : Env → String → Secrets → App → App
recover_one env id s a =
    if is_alive env id
    then record a { gate = register id (as_u32 (at_least_one s.parallel_slots)) a.gate }
    else reconcile_dead_backend env id (found_id env id) "discovered_at_proxy_startup" a

unfoldable pub recover_rows : Env → List (String × Secrets) → App → App
unfolding recover_one
recover_rows env [] a = a
recover_rows env ((id, s) ∷ rows) a = recover_rows env rows (recover_one env id s a)

-- alive_ids
unfoldable pub alive_ids : Env → List (String × Secrets) → List String
alive_ids env [] = []
alive_ids env ((id, s) ∷ rows) =
    let rest = alive_ids env rows in if is_alive env id then id ∷ rest else rest

-- Without an answer of the query nothing is recovered.
abbrev pub rows_to_recover : Env → App → List (String × Secrets)
rows_to_recover env a = if env.fails read_loaded then [] else loaded_rows a

unfoldable pub recover_gate_state : Env → App → App × List String
unfolding recover_rows alive_ids
recover_gate_state env a =
    let rows = rows_to_recover env a in (recover_rows env rows a, alive_ids env rows)

-- The seeding with which `spawn` begins.
unfoldable pub seed : ℕ → List String → App → App
seed now [] a = a
seed now (id ∷ ids) a =
    seed now ids
      (record a { supervisor_map = Dict.insert id (fresh healthy now none) a.supervisor_map })

-- The start: recovery, then the supervisor.
unfoldable pub boot : Env → App → App
boot env a = let (b, ids) = recover_gate_state env a in seed env.started_at ids b

-- The gate has the model, with no request in flight.
abbrev pub IsOpen : String → Gate → Type 0
IsOpen id g = (n : ℕ) × (Dict.get id g ≡ some (record { max_slots = n; in_flight = 0 }))

abbrev slots_of : Secrets → GateState
slots_of s = record { max_slots = as_u32 (at_least_one s.parallel_slots); in_flight = 0 }

recover_one-closed :
    (env : Env) (k id : String) (s : Secrets) (a : App)
    → is_alive env k ≡ false
    → Dict.get k a.gate ≡ none
    → Dict.get k (recover_one env id s a).gate ≡ none
unfolding recover_one reconcile_dead_backend reconcile_state register unregister
recover_one-closed env k id s a dead h =
    ground (arith, eq_iff id k, get-remove id k a.gate, get-insert id k (slots_of s) a.gate)

recover_one-IsOpen :
    (env : Env) (k id : String) (s : Secrets) (a : App)
    → is_alive env k ≡ true
    → IsOpen k a.gate
    → IsOpen k (recover_one env id s a).gate
unfolding recover_one reconcile_dead_backend reconcile_state register unregister
recover_one-IsOpen env k id s a up (n, h) = elim (Bool-cases (id == k)) [
  | inl e ↦ (
    as_u32 (at_least_one s.parallel_slots),
    ground (arith, eq_iff id k, get-insert id k (slots_of s) a.gate),
  )
  | inr e ↦ (n, ground (arith, get-remove id k a.gate, get-insert id k (slots_of s) a.gate))
]

recover_one-opens :
    (env : Env) (k : String) (s : Secrets) (a : App)
    → is_alive env k ≡ true
    → IsOpen k (recover_one env k s a).gate
unfolding recover_one register
recover_one-opens env k s a up = (
  as_u32 (at_least_one s.parallel_slots),
  ground (arith, eq_refl k, get-insert k k (slots_of s) a.gate),
)

recovers-closed :
    (env : Env) (k : String) (rows : List (String × Secrets)) (a : App)
    → is_alive env k ≡ false
    → Dict.get k a.gate ≡ none
    → Dict.get k (recover_rows env rows a).gate ≡ none
unfolding recover_rows
recovers-closed env k [] a dead h = h
recovers-closed env k ((id, s) ∷ rows) a dead h =
    recovers-closed env k rows (recover_one env id s a) dead
      (recover_one-closed env k id s a dead h)

recovers-IsOpen :
    (env : Env) (k : String) (rows : List (String × Secrets)) (a : App)
    → is_alive env k ≡ true
    → IsOpen k a.gate
    → IsOpen k (recover_rows env rows a).gate
unfolding recover_rows
recovers-IsOpen env k [] a up h = h
recovers-IsOpen env k ((id, s) ∷ rows) a up h =
    recovers-IsOpen env k rows (recover_one env id s a) up (recover_one-IsOpen env k id s a up h)

In-if :
    (b : Bool) (k x : String) (xs : List String)
    → In k (if b then x ∷ xs else xs)
    → ((k ≡ x) × (b ≡ true)) ⊎ In k xs
In-if true k x xs (inl e) = inl (e, refl)
In-if true k x xs (inr m) = inr m
In-if false k x xs m = inr m

recovers-opens :
    (env : Env) (k : String) (rows : List (String × Secrets)) (a : App)
    → In k (alive_ids env rows)
    → IsOpen k (recover_rows env rows a).gate
unfolding recover_rows alive_ids
recovers-opens env k [] a m = absurd m
recovers-opens env k ((id, s) ∷ rows) a m =
    elim (In-if (is_alive env id) k id (alive_ids env rows) m) [
      | inl (e, up) ↦ rw e (
          recovers-IsOpen env id rows (recover_one env id s a) up (recover_one-opens env id s a up))
      | inr n ↦ recovers-opens env k rows (recover_one env id s a) n
    ]

-- Where the proxy starts with no gate registered: a model whose container does not run gets no
-- gate, and each model that is handed to the supervisor as alive gets one with no request in
-- flight.
pub recover_gate_state_lem :
    (env : Env) (a : App) (k : String)
    → a.gate ≡ []
    → (is_alive env k ≡ false → Dict.get k (recover_gate_state env a).0.gate ≡ none)
      × (In k (recover_gate_state env a).1 → IsOpen k (recover_gate_state env a).0.gate)
unfolding recover_gate_state Dict.get
recover_gate_state_lem env a k h =
    let rows = rows_to_recover env a in
    (λ dead. recovers-closed env k rows a dead (rw h refl), recovers-opens env k rows a)
