-- ===== src/Supervisor/Stops.antt =====
-- A stop and a served request: post_stop_cleanup of proxy/src/api/common.rs, record_worked of
-- proxy/src/proxy/streaming.rs, and what the supervisor makes of them.
use sovereign_engine.Prelude.{
  ℕ, String, true, false, ◌&&◌, Option, none, some, List, [], ◌∷◌, ◌≡◌, refl, arith, ◌==◌, eq_refl,
  ltb, leb, Option-cases, Bool-cases, inl, inr,
}
use sovereign_engine.Prelude.Dict
use sovereign_engine.Prelude.Dict.{get-insert, get-remove}
use sovereign_engine.Prelude.Table.{find_first, update}
use sovereign_engine.Scheduler.Gate.{unregister}
use sovereign_engine.Supervisor.{
  BackendState, healthy, loading_503, fresh, is_crashed, transition, move, count_failure,
}
use sovereign_engine.Supervisor.Store.{
  Model, Secrets, App, Env, is_model, set_worked, read_worked_row,
}
use sovereign_engine.Supervisor.Lifecycle.{post_stop_cleanup, record_worked, read_worked}
use sovereign_engine.Supervisor.Kick.{handle_kick, after_restart}
use sovereign_engine.Supervisor.Probes.{probes}

-- Kicks for one model, one after the other, until one of them panics.
unfoldable pub kicks : List Env → String → App → Option App
kicks [] id a = some a
kicks (env ∷ envs) id a = elim (handle_kick env id a) [ none ↦ none | some b ↦ kicks envs id b ]

untracked_kicks :
    (envs : List Env) (id : String) (a : App)
    → Dict.get id a.supervisor_map ≡ none
    → kicks envs id a ≡ some a
unfolding kicks handle_kick
untracked_kicks [] id a h = refl
untracked_kicks (env ∷ envs) id a h = ground (arith, untracked_kicks envs id a h)

-- After a stop the model has no gate and no worked flag, and no kick that still arrives for it
-- changes anything.
pub stopped_stays_untracked :
    (env : Env) (envs : List Env) (id : String) (a : App)
    → (Dict.get id (post_stop_cleanup env id a).gate ≡ none)
      × (Dict.get id (post_stop_cleanup env id a).worked_map ≡ none)
      × (kicks envs id (post_stop_cleanup env id a) ≡ some (post_stop_cleanup env id a))
unfolding post_stop_cleanup unregister
stopped_stays_untracked env envs id a = (
  ground (arith, get-remove id id a.gate, eq_refl id),
  ground (arith, get-remove id id a.worked_map, eq_refl id),
  untracked_kicks envs id (post_stop_cleanup env id a)
      (ground (arith, get-remove id id a.supervisor_map, eq_refl id)),
)

find_first-works :
    (id : String) (ms : List Model) (m : Model)
    → find_first (is_model id) ms ≡ some m
    → find_first (is_model id) (update (is_model id) (λ r. record r { worked = true }) ms)
      ≡ some (record m { worked = true })
find_first-works id [] m h = ground arith
find_first-works id (r ∷ ms) m h = elim (Bool-cases (r.id == id)) [
  | inl e ↦ ground arith
  | inr e ↦ ground (arith, find_first-works id ms m)
]

-- A successful response sets the worked flag, which a later one finds and leaves; and the row has
-- it, so that it is read again after the maps of the process are lost, if the UPDATE succeeded.
pub record_worked_persists :
    (env env2 : Env) (id : String) (status : ℕ) (a : App) (m : Model)
    → (leb 200 status && ltb status 300) ≡ true
    → (Dict.get id a.worked_map ≡ some true → m.worked ≡ true)
    → find_first (is_model id) a.models ≡ some m
    → env.fails set_worked ≡ false
    → env2.fails read_worked_row ≡ false
    → (read_worked env2 id (record_worked env id status a) ≡ true)
      × (record_worked env2 id status (record_worked env id status a)
          ≡ record_worked env id status a)
      × (read_worked env2 id (record (record_worked env id status a) { worked_map = [] }) ≡ true)
unfolding record_worked read_worked Dict.get
record_worked_persists env env2 id status a m success known row writes reads =
    elim (Option-cases (Dict.get id a.worked_map)) [
      | inl e ↦ ground (
        arith,
        get-insert id id true a.worked_map,
        eq_refl id,
        find_first-works id a.models m row,
      )
      | inr (true, e) ↦ ground (arith, known e)
      | inr (false, e) ↦ ground (
        arith,
        get-insert id id true a.worked_map,
        eq_refl id,
        find_first-works id a.models m row,
      )
    ]

-- A backend that the supervisor has restarted has no startup grace: two answers 503 in a row are a
-- crash, at whatever instants they come.
pub restarted_without_grace :
    (env : Env) (id : String) (s : Secrets) (a : App) (t1 t2 : ℕ)
    → (e : BackendState) × (Dict.get id (after_restart env id s a).supervisor_map ≡ some e)
      × (is_crashed (probes ((t1, loading_503) ∷ (t2, loading_503) ∷ []) e).fsm ≡ true)
unfolding after_restart probes transition move count_failure
restarted_without_grace env id s a t1 t2 = (
  fresh healthy env.started_at none,
  ground (arith, get-insert id id (fresh healthy env.started_at none) a.supervisor_map, eq_refl id),
  refl,
)
