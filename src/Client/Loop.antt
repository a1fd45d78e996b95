-- ===== src/Client/Loop.antt =====
-- Client::runIterate, run, stop and isRunning of src/client.cpp. What UA_Client_run_iterate does is an
-- argument: its status, what the user's callbacks throw meanwhile, and whether one of them calls
-- `stop`.
use open62541pp.Prelude.{ℕ, Bool, true, false, not, if◌then◌else◌, Option, List, [], ◌∷◌}
use open62541pp.Status.{StatusCodes}
use open62541pp.Outcome.{Exn, Outcome, ok, throw, undefined, throw_if_bad}
use open62541pp.Outcome.Catcher.{Catcher, rethrow, invoke_all}

pub record Iteration : Type 0 where
  pub status : ℕ
  pub thrown : List (Option Exn)
  pub stops : Bool

pub record State : Type 0 where
  pub running : Bool
  pub catcher : Catcher

unfoldable pub stop : State → State
stop s = record s { running = false }

unfoldable pub is_running : State → Bool
is_running s = s.running

-- What the C library does in one iteration.
unfoldable pub native_iterate : Iteration → State → State
unfolding invoke_all stop
native_iterate i s =
    let s' = record s { catcher = invoke_all (λ thrown. thrown) i.thrown s.catcher } in
    if i.stops then stop s' else s'

module _ ⦃c : StatusCodes⦄ where
  unfoldable pub run_iterate : Iteration → State → State × Outcome (Unit {0})
  unfolding native_iterate throw_if_bad rethrow
  run_iterate i s =
      let s' = native_iterate i s in
      elim (throw_if_bad i.status) [
        | throw e ↦ (s', throw e)
        | undefined ↦ (s', undefined)
        | ok _ ↦
            let (catcher, result) = rethrow s'.catcher in (record s' { catcher = catcher }, result)
      ]

  -- How a call of `run` ends. With the iterations given it may not have ended yet.
  pub data End : Type 0 where
    returned : End
    threw : Exn → End
    waiting : End

  -- The loop of `run`, with the `catch` around it.
  unfoldable pub run_loop : List Iteration → State → State × End
  unfolding run_iterate rethrow
  run_loop [] s = if s.running then (s, waiting) else (s, returned)
  run_loop (i ∷ iterations) s =
      let (s', result) = run_iterate i s in
      let (catcher, again) = rethrow s'.catcher in
      let rest = run_loop iterations (record s' { catcher = catcher }) in
      if not s.running then (s, returned) else elim result [
        | throw e ↦ (record s' { running = false }, threw e)
        | undefined ↦ (record s' { running = false }, waiting)
        | ok _ ↦ elim again [
          | throw e ↦ (record s' { running = false; catcher = catcher }, threw e)
          | undefined ↦ (record s' { running = false }, waiting)
          | ok _ ↦ rest
        ]
      ]

  unfoldable pub run : List Iteration → State → State × End
  unfolding run_loop
  run iterations s =
      if s.running then (s, returned) else run_loop iterations (record s { running = true })
