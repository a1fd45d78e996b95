-- ===== src/Server/Shutdown.antt =====
-- What holds in every interleaving of `run` and `stop`.
use open62541pp.Prelude.{
  ◌≡◌, ◌≢◌, refl, ◌⊎◌, inl, inr, Bool, true, false, not, ◌&&◌, ◌||◌, none, some, Option-cases, List,
  [], ◌∷◌, arith,
}
use open62541pp.Server.Lifecycle.{
  RunPc, r_start, r_checking, r_locking, r_looping, r_iterating, r_done, StopPc, s_start, s_waiting,
  s_shutdown, s_done, State, init, run_startup, run_step, run_step_throws, stop_step,
  stop_step_throws, Turn, run_goes, run_throws, stop_goes, stop_throws, take_turn, run_turns,
}

-- Where the threads stand, what the flags are.
unfoldable pub agrees : RunPc → StopPc → State → Bool
agrees r_start s_start s =
    not s.running
    && not s.stop_requested
    && not s.native_started
    && not s.mutex_run
    && not s.run_threw
agrees r_start s_done s =
    not s.running && s.stop_requested && not s.native_started && not s.mutex_run && not s.run_threw
agrees r_start _ s = false
agrees r_checking s_start s =
    s.running && not s.stop_requested && s.native_started && not s.mutex_run && not s.run_threw
agrees r_checking s_waiting s =
    not s.running && not s.stop_requested && s.native_started && not s.mutex_run && not s.run_threw
agrees r_checking s_shutdown s =
    not s.running && not s.stop_requested && s.native_started && s.mutex_run && not s.run_threw
agrees r_checking s_done s =
    not s.running
    && not s.stop_requested
    && (not s.native_started || s.stop_threw)
    && not s.mutex_run
    && not s.run_threw
agrees r_locking s_start s =
    s.running && not s.stop_requested && s.native_started && not s.mutex_run && not s.run_threw
agrees r_locking s_waiting s =
    not s.running && not s.stop_requested && s.native_started && not s.mutex_run && not s.run_threw
agrees r_locking s_shutdown s =
    not s.running && not s.stop_requested && s.native_started && s.mutex_run && not s.run_threw
agrees r_locking s_done s =
    not s.running
    && not s.stop_requested
    && (not s.native_started || s.stop_threw)
    && not s.mutex_run
    && not s.run_threw
agrees r_looping s_start s =
    s.running && not s.stop_requested && s.native_started && s.mutex_run && not s.run_threw
agrees r_looping s_waiting s =
    not s.running && not s.stop_requested && s.native_started && s.mutex_run && not s.run_threw
agrees r_looping s_shutdown s = false
agrees r_looping s_done s =
    not s.running
    && not s.stop_requested
    && (not s.native_started || s.stop_threw)
    && s.mutex_run
    && not s.run_threw
agrees r_iterating s_start s =
    s.running && not s.stop_requested && s.native_started && s.mutex_run && not s.run_threw
agrees r_iterating s_waiting s =
    not s.running && not s.stop_requested && s.native_started && s.mutex_run && not s.run_threw
agrees r_iterating _ s = false
agrees r_done s_start s = not s.running && not s.stop_requested && not s.mutex_run && s.run_threw
agrees r_done s_waiting s =
    not s.running && not s.stop_requested && s.native_started && not s.mutex_run
agrees r_done s_shutdown s =
    not s.running && not s.stop_requested && s.native_started && s.mutex_run
agrees r_done s_done s =
    not s.running && not s.mutex_run && (not s.native_started || s.run_threw || s.stop_threw)

pub same-some : {s s' : State} → some s ≡ some s' → s ≡ s'
same-some h = cc

pub none-ne-some : {s : State} → none ≢ some s
none-ne-some h = cc

abbrev pub IsConsistent : State → Type 0
IsConsistent s = agrees s.runner s.stopper s ≡ true

run_step-IsConsistent : (s s' : State) → IsConsistent s → run_step s ≡ some s' → IsConsistent s'
unfolding agrees run_step run_startup
run_step-IsConsistent s s' i h = ground arith

run_step_throws-IsConsistent :
    (s s' : State) → IsConsistent s → run_step_throws s ≡ some s' → IsConsistent s'
unfolding agrees run_step_throws
run_step_throws-IsConsistent s s' i h = ground arith

stop_step-IsConsistent : (s s' : State) → IsConsistent s → stop_step s ≡ some s' → IsConsistent s'
unfolding agrees stop_step
stop_step-IsConsistent s s' i h = ground arith

stop_step_throws-IsConsistent :
    (s s' : State) → IsConsistent s → stop_step_throws s ≡ some s' → IsConsistent s'
unfolding agrees stop_step_throws
stop_step_throws-IsConsistent s s' i h = ground arith

pub take_turn-IsConsistent :
    (t : Turn) (s s' : State) → IsConsistent s → take_turn t s ≡ some s' → IsConsistent s'
unfolding take_turn
take_turn-IsConsistent run_goes s s' i h = run_step-IsConsistent s s' i h
take_turn-IsConsistent run_throws s s' i h = run_step_throws-IsConsistent s s' i h
take_turn-IsConsistent stop_goes s s' i h = stop_step-IsConsistent s s' i h
take_turn-IsConsistent stop_throws s s' i h = stop_step_throws-IsConsistent s s' i h

pub run_turns-IsConsistent :
    (turns : List Turn) (s s' : State)
    → IsConsistent s
    → run_turns turns s ≡ some s'
    → IsConsistent s'
unfolding run_turns
run_turns-IsConsistent [] s s' i h = ground (arith, h)
run_turns-IsConsistent (t ∷ turns) s s' i h = elim (Option-cases (take_turn t s)) [
  | inl waits ↦ absurd (none-ne-some (rw (run_turns, waits) at h))
  | inr (next, goes) ↦
      run_turns-IsConsistent turns next s' (take_turn-IsConsistent t s next i goes)
        (rw (run_turns, goes) at h)
]

consistent-iterating :
    (s : State)
    → IsConsistent s
    → s.runner ≡ r_iterating
    → (s.native_started ≡ true) × (s.stopper ≢ s_shutdown) × (s.stopper ≢ s_done)
unfolding agrees
consistent-iterating s i h = ground arith

pub consistent-done :
    (s : State)
    → IsConsistent s
    → s.runner ≡ r_done
    → s.stopper ≡ s_done
    → (s.running ≡ false)
      × (s.mutex_run ≡ false)
      × ((s.native_started ≡ false) ⊎ (s.run_threw ≡ true) ⊎ (s.stop_threw ≡ true))
unfolding agrees
consistent-done s i h k = ground arith

pub init-IsConsistent : IsConsistent init
unfolding agrees
init-IsConsistent = refl

-- In every interleaving, with a startup, callbacks and a shutdown that may fail: while the running
-- thread is in an iteration the native server is started and the stopping thread neither shuts it
-- down nor has returned; and when both calls have returned or thrown, the server is not running,
-- `mutexRun` is free, and the native server is shut down, unless `run` or `stop` has thrown.
pub run_turns-safe :
    (turns : List Turn) (s : State)
    → run_turns turns init ≡ some s
    → (s.runner ≡ r_iterating
        → (s.native_started ≡ true) × (s.stopper ≢ s_shutdown) × (s.stopper ≢ s_done))
      × (s.runner ≡ r_done
          → s.stopper ≡ s_done
          → (s.running ≡ false)
            × (s.mutex_run ≡ false)
            × ((s.native_started ≡ false) ⊎ (s.run_threw ≡ true) ⊎ (s.stop_threw ≡ true)))
run_turns-safe turns s reached =
    let consistent = run_turns-IsConsistent turns init s init-IsConsistent reached in
    (consistent-iterating s consistent, consistent-done s consistent)
