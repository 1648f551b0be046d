-- ===== src/Supervisor.antt =====
-- The state machine of proxy/src/supervisor/mod.rs: what a backend's state becomes with a probe.
-- Instants are nanoseconds. The child modules have the code around it: Store the state of the
-- proxy that the supervisor reads and writes, Config what a container is started with, Lifecycle
-- the start and stop of a container, Kick the handling of one probe.
pub mod Probes
pub mod Store
pub mod Config
pub mod Lifecycle
pub mod Start
pub mod Kick
pub mod Crash
pub mod Panics
pub mod Recover
pub mod Stops
pub mod Holder
pub mod Tests
use sovereign_engine.Prelude.{ℕ, ◌+◌, ◌-◌, Bool, true, false, ◌&&◌, Option, ltb, leb, if◌then◌else◌}

pub data BackendFsmState : Type 0 where
  starting healthy suspect crashed quarantined : BackendFsmState

pub record BackendState : Type 0 where
  pub fsm : BackendFsmState
  pub consecutive_failures : ℕ
  pub started_at : ℕ
  pub pause_until : Option ℕ

-- The state with which an entry of the map begins: no failure is counted.
abbrev pub fresh : BackendFsmState → ℕ → Option ℕ → BackendState
fresh fsm now pause = record {
  fsm = fsm;
  consecutive_failures = 0;
  started_at = now;
  pause_until = pause;
}

pub data ProbeOutcome : Type 0 where
  healthy_ok loading_503 transport_failure other_failure container_stopped : ProbeOutcome

-- Five minutes.
abbrev pub startup_grace : ℕ
startup_grace = 300000000000

abbrev pub failure_threshold : ℕ
failure_threshold = 2

-- u8::saturating_add(1)
abbrev pub saturating_suc : ℕ → ℕ
saturating_suc n = if ltb n 255 then n + 1 else 255

abbrev pub is_terminal : BackendFsmState → Bool
is_terminal crashed = true
is_terminal quarantined = true
is_terminal _ = false

abbrev pub is_crashed : BackendFsmState → Bool
is_crashed crashed = true
is_crashed _ = false

abbrev pub is_starting : BackendFsmState → Bool
is_starting starting = true
is_starting _ = false

-- saturating_duration_since is the subtraction of ℕ.
abbrev pub in_grace : ℕ → BackendState → Bool
in_grace now prev = is_starting prev.fsm && leb (now - prev.started_at) startup_grace

-- The failure path that ends `transition`.
unfoldable pub count_failure : BackendState → BackendState
count_failure prev =
    let new_failures = saturating_suc prev.consecutive_failures in
    record prev {
      fsm = if leb failure_threshold new_failures then crashed else suspect;
      consecutive_failures = new_failures;
    }

-- What `transition` does with an outcome in a state that is not terminal.
unfoldable pub move : ℕ → BackendState → ProbeOutcome → BackendState
unfolding count_failure
move now prev container_stopped = record prev {
  fsm = crashed;
  consecutive_failures = saturating_suc prev.consecutive_failures;
}
move now prev healthy_ok = record prev { fsm = healthy; consecutive_failures = 0 }
move now prev loading_503 =
    if in_grace now prev
    then record prev { fsm = starting; consecutive_failures = 0 }
    else count_failure prev
move now prev transport_failure =
    if in_grace now prev
    then record prev {
      fsm = starting;
      consecutive_failures = saturating_suc prev.consecutive_failures;
    }
    else count_failure prev
move now prev other_failure = count_failure prev

unfoldable pub transition : ℕ → BackendState → ProbeOutcome → BackendState
unfolding move
transition now prev outcome = if is_terminal prev.fsm then prev else move now prev outcome
