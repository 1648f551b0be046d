-- ===== src/Supervisor/Probes.antt =====
-- Runs of probes on one backend: `transition` of proxy/src/supervisor/mod.rs, applied again and
-- again.
use sovereign_engine.Prelude.{
  ℕ, ◌+◌, ◌≤◌, ◌≡◌, refl, sym, Bool, true, false, ◌&&◌, ◌||◌, List, [], ◌∷◌, arith, All, ◌∙◌,
}
use sovereign_engine.Supervisor.{
  BackendState, ProbeOutcome, starting, healthy, suspect, crashed, healthy_ok, loading_503,
  transport_failure, other_failure, container_stopped, startup_grace, transition, move,
  count_failure, is_terminal, is_crashed,
}

-- A probe is the instant at which its outcome is applied, and the outcome.
unfoldable pub probes : List (ℕ × ProbeOutcome) → BackendState → BackendState
probes [] s = s
probes ((now, o) ∷ ps) s = probes ps (transition now s o)

abbrev pub is_stopped : ProbeOutcome → Bool
is_stopped container_stopped = true
is_stopped _ = false

abbrev pub is_failure : ProbeOutcome → Bool
is_failure healthy_ok = false
is_failure _ = true

-- Some probe finds the container stopped.
unfoldable pub finds_stopped : List (ℕ × ProbeOutcome) → Bool
finds_stopped [] = false
finds_stopped ((now, o) ∷ ps) = is_stopped o || finds_stopped ps

-- Two probes in a row fail; the flag says whether the one before the first failed.
unfoldable pub fails_twice : Bool → List (ℕ × ProbeOutcome) → Bool
fails_twice before [] = false
fails_twice before ((now, o) ∷ ps) = (before && is_failure o) || fails_twice (is_failure o) ps

-- The outcomes that the startup grace tolerates, at an instant within the grace.
abbrev pub Tolerated : ℕ → ℕ × ProbeOutcome → Type 0
Tolerated start (now, loading_503) = now ≤ start + startup_grace
Tolerated start (now, transport_failure) = now ≤ start + startup_grace
Tolerated start (now, _) = ⊥

probes-terminal :
    (ps : List (ℕ × ProbeOutcome)) (s : BackendState) → is_terminal s.fsm ≡ true → probes ps s ≡ s
unfolding probes transition
probes-terminal [] s h = refl
probes-terminal ((now, o) ∷ ps) s h = rw h (probes-terminal ps s h)

-- Of a backend that has been healthy, with no failure counted or with one.
abbrev Steady : Bool → BackendState → Type 0
Steady false s = (s.fsm ≡ healthy) × (s.consecutive_failures ≡ 0)
Steady true s = (s.fsm ≡ suspect) × (s.consecutive_failures ≡ 1)

first_failure :
    (now : ℕ) (s : BackendState) (o : ProbeOutcome)
    → is_failure o ≡ true
    → is_stopped o ≡ false
    → Steady false s
    → Steady true (transition now s o)
unfolding transition move count_failure
first_failure now s healthy_ok f g h = ground arith
first_failure now s loading_503 f g h = ground arith
first_failure now s transport_failure f g h = ground arith
first_failure now s other_failure f g h = ground arith
first_failure now s container_stopped f g h = ground arith

crash_at_once :
    (now : ℕ) (before : Bool) (s : BackendState) (o : ProbeOutcome)
    → (is_stopped o || (before && is_failure o)) ≡ true
    → Steady before s
    → (transition now s o).fsm ≡ crashed
unfolding transition move count_failure
crash_at_once now false s healthy_ok f h = ground arith
crash_at_once now false s loading_503 f h = ground arith
crash_at_once now false s transport_failure f h = ground arith
crash_at_once now false s other_failure f h = ground arith
crash_at_once now false s container_stopped f h = ground arith
crash_at_once now true s healthy_ok f h = ground arith
crash_at_once now true s loading_503 f h = ground arith
crash_at_once now true s transport_failure f h = ground arith
crash_at_once now true s other_failure f h = ground arith
crash_at_once now true s container_stopped f h = ground arith

crashed_after :
    (now : ℕ) (before : Bool) (s : BackendState) (o : ProbeOutcome) (ps : List (ℕ × ProbeOutcome))
    → (is_stopped o || (before && is_failure o)) ≡ true
    → Steady before s
    → is_crashed (probes ps (transition now s o)).fsm ≡ true
crashed_after now before s o ps f h =
    let e = crash_at_once now before s o f h in
    rw (probes-terminal ps (transition now s o) (rw e refl), e) refl

or_true : (b : Bool) → (b || true) ≡ true
or_true false = refl
or_true true = refl

Steady-crashes :
    (before : Bool) (ps : List (ℕ × ProbeOutcome)) (s : BackendState)
    → Steady before s
    → is_crashed (probes ps s).fsm ≡ (finds_stopped ps || fails_twice before ps)
unfolding probes finds_stopped fails_twice transition move
Steady-crashes false [] s h = ground arith
Steady-crashes true [] s h = ground arith
Steady-crashes false ((now, healthy_ok) ∷ ps) s h =
    ground (arith, Steady-crashes false ps (transition now s healthy_ok))
Steady-crashes true ((now, healthy_ok) ∷ ps) s h =
    ground (arith, Steady-crashes false ps (transition now s healthy_ok))
Steady-crashes false ((now, container_stopped) ∷ ps) s h =
    crashed_after now false s container_stopped ps refl h
Steady-crashes false ((now, o) ∷ ps) s h =
    Steady-crashes true ps (transition now s o) (first_failure now s o refl refl h)
Steady-crashes true ((now, container_stopped) ∷ ps) s h =
    crashed_after now true s container_stopped ps refl h
Steady-crashes true ((now, o) ∷ ps) s h =
    crashed_after now true s o ps refl h ∙ sym (or_true (finds_stopped ps))

-- A backend that was healthy with no failure counted is taken for crashed after a run of probes
-- exactly if some probe found its container stopped or two probes in a row failed.
pub healthy_crashes :
    (ps : List (ℕ × ProbeOutcome)) (s : BackendState)
    → s.fsm ≡ healthy
    → s.consecutive_failures ≡ 0
    → is_crashed (probes ps s).fsm ≡ (finds_stopped ps || fails_twice false ps)
healthy_crashes ps s h z = Steady-crashes false ps s (h, z)

-- While a backend starts, outcomes that the grace tolerates never take it out of the state
-- Starting.
pub probes_in_grace :
    (ps : List (ℕ × ProbeOutcome)) (s : BackendState)
    → s.fsm ≡ starting
    → All (Tolerated s.started_at) ps
    → (probes ps s).fsm ≡ starting
unfolding probes transition move
probes_in_grace [] s h t = h
probes_in_grace ((now, loading_503) ∷ ps) s h t =
    ground (arith, probes_in_grace ps (transition now s loading_503))
probes_in_grace ((now, transport_failure) ∷ ps) s h t =
    ground (arith, probes_in_grace ps (transition now s transport_failure))
probes_in_grace ((now, healthy_ok) ∷ ps) s h t = absurd t.0
probes_in_grace ((now, other_failure) ∷ ps) s h t = absurd t.0
probes_in_grace ((now, container_stopped) ∷ ps) s h t = absurd t.0
