-- ===== src/Server/Lifecycle.antt =====
-- Server::run and Server::stop of src/server.cpp, each called by a thread of its own: runStartup,
-- the loop of `run`, and both halves of `stop`, in any interleaving. A step is what a thread does
-- between two points at which the other one can come in: the sections under `mutexStartup`, taking
-- `mutexRun`, one reading of `running`, one call of UA_Server_run_iterate.
use open62541pp.Prelude.{
  Bool, true, false, not, ◌||◌, if◌then◌else◌, Option, none, some, List, [], ◌∷◌,
}

pub data RunPc : Type 0 where
  r_start r_checking r_locking r_looping r_iterating r_done : RunPc

pub data StopPc : Type 0 where
  s_start s_waiting s_shutdown s_done : StopPc

-- The members of ServerContext; whether the native server is started; whether `run`, and whether
-- `stop`, has thrown.
pub record State : Type 0 where
  pub running : Bool
  pub stop_requested : Bool
  pub mutex_run : Bool
  pub native_started : Bool
  pub run_threw : Bool
  pub stop_threw : Bool
  pub runner : RunPc
  pub stopper : StopPc

abbrev pub init : State
init = record {
  running = false;
  stop_requested = false;
  mutex_run = false;
  native_started = false;
  run_threw = false;
  stop_threw = false;
  runner = r_start;
  stopper = s_start;
}

-- runStartup, with a native startup that succeeds.
unfoldable pub run_startup : State → State
run_startup s =
    if s.running || s.stop_requested
    then record s { stop_requested = false }
    else record s { native_started = true; running = true }

-- A step of the thread in `run`; without one if it waits for `mutexRun` or has returned.
unfoldable pub run_step : State → Option State
unfolding run_startup
run_step s = elim s.runner [
  | r_start ↦ some (record (run_startup s) { runner = r_checking })
  | r_checking ↦ some (record s { runner = if s.running then r_locking else r_done })
  | r_locking ↦
      if s.mutex_run then none else some (record s { mutex_run = true; runner = r_looping })
  | r_looping ↦
      if s.running
      then some (record s { runner = r_iterating })
      else some (record s { mutex_run = false; runner = r_done })
  | r_iterating ↦ some (record s { runner = r_looping })
  | r_done ↦ none
]

-- The same thread when what it calls fails: the native startup, or a callback in an iteration.
unfoldable pub run_step_throws : State → Option State
run_step_throws s = elim s.runner [
  | r_start ↦
      if s.running || s.stop_requested
      then none
      else some (record s { runner = r_done; run_threw = true })
  | r_iterating ↦
      some (record s { running = false; mutex_run = false; runner = r_done; run_threw = true })
  | r_checking ↦ none
  | r_locking ↦ none
  | r_looping ↦ none
  | r_done ↦ none
]

-- A step of the thread in `stop`; UA_Server_run_shutdown succeeds.
unfoldable pub stop_step : State → Option State
stop_step s = elim s.stopper [
  | s_start ↦
      if not s.running
      then some (record s { stop_requested = true; stopper = s_done })
      else some (record s { running = false; stopper = s_waiting })
  | s_waiting ↦
      if s.mutex_run then none else some (record s { mutex_run = true; stopper = s_shutdown })
  | s_shutdown ↦ some (record s { native_started = false; mutex_run = false; stopper = s_done })
  | s_done ↦ none
]

-- The same thread when UA_Server_run_shutdown returns a bad status, which `stop` throws: the native
-- server is not shut down, and `mutexRun` is released.
unfoldable pub stop_step_throws : State → Option State
stop_step_throws s = elim s.stopper [
  | s_start ↦ none
  | s_waiting ↦ none
  | s_shutdown ↦ some (record s { mutex_run = false; stopper = s_done; stop_threw = true })
  | s_done ↦ none
]

pub data Turn : Type 0 where
  run_goes run_throws stop_goes stop_throws : Turn

unfoldable pub take_turn : Turn → State → Option State
unfolding run_step run_step_throws stop_step stop_step_throws
take_turn run_goes s = run_step s
take_turn run_throws s = run_step_throws s
take_turn stop_goes s = stop_step s
take_turn stop_throws s = stop_step_throws s

-- An interleaving: whose turn it is. A thread that waits gets no turn.
unfoldable pub run_turns : List Turn → State → Option State
unfolding take_turn
run_turns [] s = some s
run_turns (t ∷ turns) s = elim (take_turn t s) [ none ↦ none | some s' ↦ run_turns turns s' ]
