-- ===== src/Client/Ending.antt =====
-- When a call of Client::run ends, and with what.
use open62541pp.Prelude.{
  ◌≡◌, refl, ap, ◌∙◌, inl, inr, Bool, true, false, not, ◌||◌, Option, none, some, Option-cases,
  Bool-cases, List, [], ◌∷◌, anyb, arith,
}
use open62541pp.Status.{StatusCodes, is_bad}
use open62541pp.Outcome.{Exn, ok, throw, throw_if_bad, throw_if_bad_cases}
use open62541pp.Outcome.Catcher.{
  Catcher, no_exception, rethrow, invoke_all, last_exception, invoke_all-exception,
}
use open62541pp.Client.Loop.{
  Iteration, State, stop, is_running, native_iterate, run_iterate, End, returned, threw, waiting,
  run_loop, run,
}

module _ ⦃c : StatusCodes⦄ where
  -- The iteration at which a run that starts with `pending` in the catcher ends.
  pub data Ends : Option Exn → List Iteration → End → Type 0 where
    bad_status_ends :
        {pending : Option Exn} {i : Iteration} {rest : List Iteration} {e : Exn}
        → throw_if_bad i.status ≡ throw e
        → Ends pending (i ∷ rest) (threw e)
    exception_ends :
        {pending : Option Exn} {i : Iteration} {rest : List Iteration} {e : Exn}
        → is_bad i.status ≡ false
        → last_exception (λ thrown. thrown) i.thrown pending ≡ some e
        → Ends pending (i ∷ rest) (threw e)
    stop_ends :
        {pending : Option Exn} {i : Iteration} {rest : List Iteration}
        → is_bad i.status ≡ false
        → last_exception (λ thrown. thrown) i.thrown pending ≡ none
        → i.stops ≡ true
        → Ends pending (i ∷ rest) returned
    later :
        {pending : Option Exn} {i : Iteration} {rest : List Iteration} {end : End}
        → is_bad i.status ≡ false
        → last_exception (λ thrown. thrown) i.thrown pending ≡ none
        → i.stops ≡ false
        → Ends none rest end
        → Ends pending (i ∷ rest) end
    not_yet : {pending : Option Exn} → Ends pending [] waiting

  abbrev pub is_waiting : End → Bool
  is_waiting waiting = true
  is_waiting _ = false

  abbrev thrown_by : Iteration → Option Exn → Option Exn
  thrown_by i pending = last_exception (λ thrown. thrown) i.thrown pending

  abbrev running_with : Option Exn → State
  running_with pending = record { running = true; catcher = record { exception = pending } }

  invoke_all-pending :
      (i : Iteration) (pending : Option Exn)
      → invoke_all (λ thrown. thrown) i.thrown (record { exception = pending })
        ≡ record { exception = thrown_by i pending }
  invoke_all-pending i pending =
      ap (λ e. record { exception = e })
        (invoke_all-exception (λ thrown. thrown) i.thrown (record { exception = pending }))

  native_iterate-running_with :
      (i : Iteration) (pending : Option Exn)
      → native_iterate i (running_with pending)
        ≡ record { running = not i.stops; catcher = record { exception = thrown_by i pending } }
  unfolding native_iterate stop
  native_iterate-running_with i pending =
      rw (invoke_all-pending i pending)
        (elim (Bool-cases i.stops) [ inl stops ↦ rw stops refl | inr goes_on ↦ rw goes_on refl ])

  -- An iteration with a good status throws what is pending after its callbacks, and leaves nothing
  -- pending.
  run_iterate-good :
      (i : Iteration) (pending left : Option Exn) (stops : Bool)
      → throw_if_bad i.status ≡ ok tt
      → thrown_by i pending ≡ left
      → i.stops ≡ stops
      → run_iterate i (running_with pending) ≡ (
        record { running = not stops; catcher = no_exception },
        elim left [ none ↦ ok tt | some e ↦ throw e ],
      )
  unfolding run_iterate rethrow
  run_iterate-good i pending none stops passes left quits =
      rw (run_iterate, passes, native_iterate-running_with i pending, left, quits) refl
  run_iterate-good i pending (some e) stops passes left quits =
      rw (run_iterate, passes, native_iterate-running_with i pending, left, quits) refl

  run_iterate-bad :
      (i : Iteration) (s : State) (e : Exn)
      → throw_if_bad i.status ≡ throw e
      → run_iterate i s ≡ (native_iterate i s, throw e)
  unfolding run_iterate
  run_iterate-bad i s e thrown = rw (run_iterate, thrown) refl

  stopped-run_loop :
      (iterations : List Iteration) (c : Catcher)
      → run_loop iterations (record { running = false; catcher = c })
        ≡ (record { running = false; catcher = c }, returned)
  unfolding run_loop
  stopped-run_loop [] c = refl
  stopped-run_loop (i ∷ rest) c = refl

  run_loop-next :
      (i : Iteration) (rest : List Iteration) (pending : Option Exn) (on : Bool)
      → run_iterate i (running_with pending)
        ≡ (record { running = on; catcher = no_exception }, ok tt)
      → run_loop (i ∷ rest) (running_with pending)
        ≡ run_loop rest (record { running = on; catcher = no_exception })
  unfolding run_loop rethrow
  run_loop-next i rest pending on h = rw (h, h, h) refl

  run_loop-Ends :
      (iterations : List Iteration) (pending : Option Exn)
      → Ends pending iterations (run_loop iterations (running_with pending)).1
        × ((run_loop iterations (running_with pending)).0.running
            ≡ is_waiting (run_loop iterations (running_with pending)).1)
  unfolding run_loop rethrow
  run_loop-Ends [] pending = (not_yet, refl)
  run_loop-Ends (i ∷ rest) pending = elim (throw_if_bad_cases i.status) [
    | inl (bad, e, thrown, _) ↦
        rw (run_iterate-bad i (running_with pending) e thrown) (bad_status_ends thrown, refl)
    | inr (fine, passes) ↦ elim (Option-cases (thrown_by i pending)) [
      | inr (e, left) ↦
          rw (run_iterate-good i pending (some e) i.stops passes left refl)
            (exception_ends fine left, refl)
      | inl left ↦ elim (Bool-cases i.stops) [
        | inl stops ↦
            rw
              (run_loop-next i rest pending false
                  (run_iterate-good i pending none true passes left stops)
                ∙ stopped-run_loop rest no_exception)
              (stop_ends fine left stops, refl)
        | inr goes_on ↦
            let (ends, waits) = run_loop-Ends rest none in
            rw
              (run_loop-next i rest pending true
                (run_iterate-good i pending none false passes left goes_on))
              (later fine left goes_on ends, waits)
      ]
    ]
  ]

  -- Whether something in an iteration makes the run end.
  abbrev pub quits : Iteration → Bool
  quits i =
      is_bad i.status || (i.stops || anyb (λ t. elim t [ none ↦ false | some _ ↦ true ]) i.thrown)

  last_exception-any :
      (thrown : List (Option Exn)) (pending : Option Exn)
      → last_exception (λ t. t) thrown pending ≡ none
      → (anyb (λ t. elim t [ none ↦ false | some _ ↦ true ]) thrown ≡ false) × (pending ≡ none)
  unfolding last_exception
  last_exception-any [] pending h = (refl, h)
  last_exception-any (none ∷ thrown) pending h = last_exception-any thrown pending h
  last_exception-any (some e ∷ thrown) pending h =
      ground (arith, last_exception-any thrown (some e) h)

  Ends-quits :
      {pending : Option Exn} {iterations : List Iteration} {end : End}
      → Ends pending iterations end
      → anyb quits iterations ≡ true
      → is_waiting end ≡ false
  Ends-quits (bad_status_ends h) quits = refl
  Ends-quits (exception_ends f h) quits = refl
  Ends-quits (stop_ends f h s) quits = refl
  Ends-quits (later {pending} {i} f h s rest) quits =
      ground (arith, last_exception-any i.thrown pending h, Ends-quits rest)
  Ends-quits not_yet quits = ground arith

  -- A run that starts on a client that is not running ends at the first iteration with a bad
  -- status, whose status it throws, with a pending exception, which it throws, or with a call of
  -- `stop`, and not before; when it has ended the client is not running, and it has ended if any of
  -- the iterations has a bad status, an exception or a call of `stop`.
  pub run-Ends :
      (iterations : List Iteration) (s : State)
      → s.running ≡ false
      → let r = run iterations s in
        Ends s.catcher.exception iterations r.1
        × (is_running r.0 ≡ is_waiting r.1)
        × (anyb quits iterations ≡ true → is_running r.0 ≡ false)
  unfolding run is_running
  run-Ends iterations s off =
      let (ends, waits) = run_loop-Ends iterations s.catcher.exception in
      rw off (ends, waits, λ q. waits ∙ Ends-quits ends q)
