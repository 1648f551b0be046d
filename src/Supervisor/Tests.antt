-- ===== src/Supervisor/Tests.antt =====
-- Examples for the supervisor: one model with one container.
use sovereign_engine.Prelude.{
  Bool, true, false, Option, none, some, [], ◌∷◌, ◌≡◌, refl, sym, ap, ◌∙◌, inl, inr, ne_of_test,
  ◌⊎◌, In, ok, pos,
}
use sovereign_engine.Prelude.Dict
use sovereign_engine.Runtime.{WrappedRuntimeJson, parse, default_overrides, default_wrapped}
use sovereign_engine.Supervisor.{healthy, fresh, is_crashed, healthy_ok, other_failure}
use sovereign_engine.Supervisor.Store.{Model, Secrets, App, Env, Query, Inspection, read_worked_row}
use sovereign_engine.Supervisor.Config.{rebuild_llamacpp_config}
use sovereign_engine.Supervisor.Start.{StartContainerParams, after_start}
use sovereign_engine.Supervisor.Lifecycle.{read_worked, reconcile_state}
use sovereign_engine.Supervisor.Kick.{handle_kick, handle_crash}
use sovereign_engine.Supervisor.Probes.{probes, healthy_crashes, finds_stopped, fails_twice}
use sovereign_engine.Supervisor.Crash.{
  crash_settles, crash_forgets_memory, IsOut, IsRestarted, fsm_of,
}
use sovereign_engine.Supervisor.Panics.{start_then_kick_panics}
use sovereign_engine.Supervisor.Recover.{
  recover_gate_state, recover_gate_state_lem, is_alive, IsOpen,
}
use sovereign_engine.Reservation.{Reservation}
use sovereign_engine.Reservation.Access.{OwnsActive}
use sovereign_engine.Reservation.Tests.{held_world}
use sovereign_engine.Supervisor.Holder.{
  user_start_container, user_stop_container, not_holder, only_holder,
}

abbrev pub chat : Model
chat = record {
  id = "chat";
  hf_repo = "org/chat";
  filename = some "chat.gguf";
  backend_type = "llamacpp";
  context_length = some (pos 4096);
  runtime_overrides = "{}";
  mmproj_filename = none;
  loaded = true;
  worked = true;
  quarantined_at = none;
  quarantine_reason = none;
}

abbrev chat_secrets : Secrets
chat_secrets = record { container_uid = pos 12345; api_key = "key"; parallel_slots = pos 2 }

abbrev pub proxy_state : App
proxy_state = record {
  models = chat ∷ [];
  secrets = ("chat", chat_secrets) ∷ [];
  crash_log = [];
  supervisor_map = ("chat", fresh healthy 0 none) ∷ [];
  worked_map = ("chat", true) ∷ [];
  gate = [];
  launched = [];
}

abbrev running_container : Option Inspection
running_container = some (record {
  id = some "c0";
  state = some (record { running = some true; exit_code = none; oom_killed = none; error = none });
})

abbrev launched_before : WrappedRuntimeJson
launched_before = record {
  cli = default_overrides;
  launch = record { gpu_type = some "Vulkan"; gpu_layers = none; parallel = some 2 };
}

abbrev env_of : (Query → Bool) → Env
env_of fails = record {
  fails = fails;
  json = record {
    from_wrapped = λ s. ok launched_before;
    from_overrides = λ s. ok default_overrides;
    to_json = λ w. ok "{}";
  };
  http = some 503;
  inspect = λ s. running_container;
  inspect_crashed = running_container;
  log_path = none;
  start_llamacpp = λ c. ok "sovereign-llamacpp-chat";
  allocate_uid = ok 20000;
  api_key = "new key";
  rfc3339 = "2026-01-01T00:00:00+00:00";
  received_at = 1000;
  probed_at = 1001;
  started_at = 1002;
}

abbrev pub good : Env
good = env_of λ q. false

abbrev unread : Query → Bool
unread read_worked_row = true
unread _ = false

-- A crash of a backend that has worked is followed by a restart, and the model is served again.
handle_crash-chat : fsm_of "chat" (handle_crash good "chat" proxy_state) ≡ some healthy
unfolding handle_crash Dict.get read_worked reconcile_state Dict.remove parse
    rebuild_llamacpp_config Dict.insert
handle_crash-chat = refl

healthy_crashes_example :
    is_crashed
      (probes
        ((1, other_failure) ∷ (2, healthy_ok) ∷ (3, other_failure) ∷ [])
        (fresh healthy 0 none)).fsm
    ≡ false
unfolding finds_stopped fails_twice
healthy_crashes_example =
    healthy_crashes ((1, other_failure) ∷ (2, healthy_ok) ∷ (3, other_failure) ∷ [])
      (fresh healthy 0 none) refl refl

crash_settles_example :
    IsRestarted "chat" proxy_state (handle_crash good "chat" proxy_state)
    ⊎ IsOut "chat" (handle_crash good "chat" proxy_state)
unfolding Dict.get
crash_settles_example = crash_settles good "chat" proxy_state (fresh healthy 0 none) refl

crash_forgets_memory_example : IsOut "chat" (handle_crash (env_of unread) "chat" proxy_state)
unfolding Dict.get
crash_forgets_memory_example =
    crash_forgets_memory (env_of unread) "chat" proxy_state (fresh healthy 0 none) refl refl refl

abbrev other_backend : App
other_backend = record proxy_state { models = record chat { backend_type = "other" } ∷ [] }

abbrev start_params : StartContainerParams
start_params = record {
  model_id = "chat";
  backend_type = some "llamacpp";
  gpu_type = none;
  gpu_layers = none;
  parallel = some 2;
}

start_then_kick_panics_example :
    handle_kick good "chat" (after_start good chat start_params default_wrapped 20000 other_backend)
    ≡ none
unfolding Dict.get
start_then_kick_panics_example =
    start_then_kick_panics good good chat start_params default_wrapped 20000 other_backend "other"
      refl refl refl

recover_gate_state_lem_example :
    (is_alive good "chat" ≡ false
      → Dict.get "chat" (recover_gate_state good proxy_state).0.gate ≡ none)
    × (In "chat" (recover_gate_state good proxy_state).1
        → IsOpen "chat" (recover_gate_state good proxy_state).0.gate)
recover_gate_state_lem_example = recover_gate_state_lem good proxy_state "chat" refl

abbrev not_yet_worked : App
not_yet_worked = record proxy_state {
  models = record chat { worked = false } ∷ [];
  worked_map = ("chat", false) ∷ [];
}

bob_owns_nothing : ¬ OwnsActive "bob" held_world.rows
bob_owns_nothing (r, inl e, on, own) =
    ne_of_test "ann" "bob" refl (ap (λ (x : Reservation). x.user_id) (sym e) ∙ own)
bob_owns_nothing (r, inr m, on, own) = absurd m

only_holder_example :
    (user_start_container good held_world "bob" start_params proxy_state
      ≡ (proxy_state, not_holder))
    × (user_stop_container good (ok tt) held_world "bob" "chat" proxy_state
        ≡ (proxy_state, not_holder))
only_holder_example =
    only_holder good (ok tt) held_world "bob" "chat" start_params proxy_state refl bob_owns_nothing
