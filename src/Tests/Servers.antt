-- ===== src/Tests/Servers.antt =====
-- Examples of interleavings of `run` and `stop`.
use open62541pp.Prelude.{◌≤◌, ◌≡◌, ◌≢◌, refl, ◌⊎◌, true, false, none, some, List, [], ◌∷◌}
use open62541pp.Server.Lifecycle.{
  r_iterating, r_done, s_waiting, s_shutdown, s_done, State, init, run_startup, run_step,
  run_step_throws, stop_step, stop_step_throws, Turn, run_goes, run_throws, stop_goes, stop_throws,
  take_turn, run_turns,
}
use open62541pp.Server.Shutdown.{run_turns-safe}
use open62541pp.Server.Termination.{stop-returns}

-- `stop` comes while the server is in an iteration.
abbrev turns : List Turn
turns = run_goes ∷ run_goes ∷ run_goes ∷ run_goes ∷ stop_goes ∷ []

abbrev stopping : State
stopping = record {
  running = false;
  stop_requested = false;
  mutex_run = true;
  native_started = true;
  run_threw = false;
  stop_threw = false;
  runner = r_iterating;
  stopper = s_waiting;
}

stopping-reached : run_turns turns init ≡ some stopping
unfolding run_turns take_turn run_step run_startup stop_step
stopping-reached = refl

run_turns-safe_example :
    (r_iterating ≡ r_iterating → (true ≡ true) × (s_waiting ≢ s_shutdown) × (s_waiting ≢ s_done))
    × (r_iterating ≡ r_done
        → s_waiting ≡ s_done
        → (false ≡ false) × (true ≡ false) × ((true ≡ false) ⊎ (false ≡ true) ⊎ (false ≡ true)))
run_turns-safe_example = run_turns-safe turns stopping stopping-reached

abbrev stopped : State
stopped = record {
  running = false;
  stop_requested = false;
  mutex_run = false;
  native_started = false;
  run_threw = false;
  stop_threw = false;
  runner = r_done;
  stopper = s_done;
}

stopped-reached :
    run_turns (run_goes ∷ run_goes ∷ stop_goes ∷ stop_goes ∷ []) stopping ≡ some stopped
unfolding run_turns take_turn run_step stop_step
stopped-reached = refl

stop-returns_example :
    (4 ≤ 6)
    × (run_step stopped ≡ none
        → stop_step stopped ≡ none
        → (r_done ≡ r_done) × (s_done ≡ s_done) × (false ≡ false))
stop-returns_example =
    stop-returns turns (run_goes ∷ run_goes ∷ stop_goes ∷ stop_goes ∷ []) stopping stopped
      stopping-reached (λ e. cc e) stopped-reached

-- After an exception in `run`, `stop` does not shut the native server down.
abbrev left_started : List Turn
left_started = run_goes ∷ run_goes ∷ run_goes ∷ run_goes ∷ run_throws ∷ stop_goes ∷ []

left_started-reached :
    run_turns left_started init
    ≡ some (record stopped { native_started = true; stop_requested = true; run_threw = true })
unfolding run_turns take_turn run_step run_startup run_step_throws stop_step
left_started-reached = refl

-- A shutdown that fails leaves the native server started.
shutdown_fails :
    run_turns (run_goes ∷ run_goes ∷ stop_goes ∷ stop_throws ∷ []) stopping
    ≡ some (record stopped { native_started = true; stop_threw = true })
unfolding run_turns take_turn run_step stop_step stop_step_throws
shutdown_fails = refl
