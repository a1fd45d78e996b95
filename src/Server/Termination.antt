-- ===== src/Server/Termination.antt =====
-- `run` and `stop` return: once `stop` has had its first section, every interleaving is short.
use open62541pp.Prelude.{
  ℕ, ◌+◌, ◌<◌, ◌≤◌, ◌≡◌, ◌≢◌, inl, inr, false, none, some, Option-cases, List, [], ◌∷◌, length,
  arith,
}
use open62541pp.Server.Lifecycle.{
  r_start, r_checking, r_locking, r_looping, r_iterating, r_done, s_start, s_waiting, s_shutdown,
  s_done, State, init, run_startup, run_step, run_step_throws, stop_step, stop_step_throws, Turn,
  run_goes, run_throws, stop_goes, stop_throws, take_turn, run_turns,
}
use open62541pp.Server.Shutdown.{
  agrees, IsConsistent, same-some, none-ne-some, take_turn-IsConsistent, run_turns-IsConsistent,
  init-IsConsistent, consistent-done,
}

-- How many steps are left once `stop` has passed its first section.
unfoldable measure : State → ℕ
measure s =
    elim s.runner [
      | r_start ↦ 5
      | r_checking ↦ 4
      | r_locking ↦ 3
      | r_iterating ↦ 2
      | r_looping ↦ 1
      | r_done ↦ 0
    ]
    + elim s.stopper [ s_start ↦ 3 | s_waiting ↦ 2 | s_shutdown ↦ 1 | s_done ↦ 0 ]

run_step-measure :
    (s s' : State)
    → IsConsistent s
    → s.stopper ≢ s_start
    → run_step s ≡ some s'
    → (measure s' < measure s) × (s'.stopper ≢ s_start)
unfolding agrees run_step run_startup measure
run_step-measure s s' i past h = ground arith

run_step_throws-measure :
    (s s' : State)
    → IsConsistent s
    → s.stopper ≢ s_start
    → run_step_throws s ≡ some s'
    → (measure s' < measure s) × (s'.stopper ≢ s_start)
unfolding agrees run_step_throws measure
run_step_throws-measure s s' i past h = ground arith

stop_step-measure :
    (s s' : State)
    → IsConsistent s
    → s.stopper ≢ s_start
    → stop_step s ≡ some s'
    → (measure s' < measure s) × (s'.stopper ≢ s_start)
unfolding agrees stop_step measure
stop_step-measure s s' i past h = ground arith

stop_step_throws-measure :
    (s s' : State)
    → IsConsistent s
    → s.stopper ≢ s_start
    → stop_step_throws s ≡ some s'
    → (measure s' < measure s) × (s'.stopper ≢ s_start)
unfolding agrees stop_step_throws measure
stop_step_throws-measure s s' i past h = ground arith

take_turn-measure :
    (t : Turn) (s s' : State)
    → IsConsistent s
    → s.stopper ≢ s_start
    → take_turn t s ≡ some s'
    → (measure s' < measure s) × (s'.stopper ≢ s_start)
unfolding take_turn
take_turn-measure run_goes s s' i past h = run_step-measure s s' i past h
take_turn-measure run_throws s s' i past h = run_step_throws-measure s s' i past h
take_turn-measure stop_goes s s' i past h = stop_step-measure s s' i past h
take_turn-measure stop_throws s s' i past h = stop_step_throws-measure s s' i past h

run_turns-measure :
    (turns : List Turn) (s s' : State)
    → IsConsistent s
    → s.stopper ≢ s_start
    → run_turns turns s ≡ some s'
    → (length turns + measure s' ≤ measure s) × (s'.stopper ≢ s_start)
unfolding run_turns
run_turns-measure [] s s' i past h = rw (← same-some h) (omega arith, past)
run_turns-measure (t ∷ turns) s s' i past h = elim (Option-cases (take_turn t s)) [
  | inl waits ↦ absurd (none-ne-some (rw (run_turns, waits) at h))
  | inr (next, goes) ↦
      let (less, past') = take_turn-measure t s next i past goes in
      let (bounded, past'') =
        run_turns-measure turns next s' (take_turn-IsConsistent t s next i goes) past'
          (rw (run_turns, goes) at h) in
      (omega (arith, less, bounded), past'')
]

-- A state in which one of the calls has not returned leaves a turn.
progress :
    (s : State)
    → IsConsistent s
    → run_step s ≡ none
    → stop_step s ≡ none
    → (s.runner ≡ r_done) × (s.stopper ≡ s_done)
unfolding agrees run_step stop_step
progress s i stuck stuck' = ground arith

measure-bound : (s : State) → IsConsistent s → s.stopper ≢ s_start → measure s ≤ 6
unfolding agrees measure
measure-bound s i past = ground arith

-- Once `stop` has passed its first section, in whatever interleaving that was and with whatever
-- fails, at most 6 more turns can be taken before both calls have returned or thrown: no interleaving
-- goes on for longer, and one that cannot go on has both calls ended and the server not running.
pub stop-returns :
    (turns more : List Turn) (s s' : State)
    → run_turns turns init ≡ some s
    → s.stopper ≢ s_start
    → run_turns more s ≡ some s'
    → (length more ≤ 6)
      × (run_step s' ≡ none
          → stop_step s' ≡ none
          → (s'.runner ≡ r_done) × (s'.stopper ≡ s_done) × (s'.running ≡ false))
stop-returns turns more s s' reached past further =
    let consistent = run_turns-IsConsistent turns init s init-IsConsistent reached in
    let consistent' = run_turns-IsConsistent more s s' consistent further in
    (
      omega (
        arith,
        (run_turns-measure more s s' consistent past further).0,
        measure-bound s consistent past,
      ),
      λ stuck stuck'.
          let (ran, stopped) = progress s' consistent' stuck stuck' in
          (ran, stopped, (consistent-done s' consistent' ran stopped).0),
    )
