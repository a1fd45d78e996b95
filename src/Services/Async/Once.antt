-- ===== src/Services/Async/Once.antt =====
-- Every context of an asynchronous request is deleted once, and no handler is called twice.
use open62541pp.Prelude.{
  ℕ, ◌+◌, ◌≤◌, ◌==◌, ◌≡◌, refl, sym, ◌∙◌, true, false, Bool-cases, inl, inr, if◌then◌else◌, Option,
  none, some, List, [], ◌∷◌, arith,
}
use open62541pp.Status.{StatusCodes, bad_unexpected_error}
use open62541pp.Outcome.{bad_status, Outcome, ok, throw_if_bad_cases}
use open62541pp.Outcome.Catcher.{Catcher, set_exception}
use open62541pp.Services.Async.{
  CompletionHandler, Requests, put, initiate, complete, Event, sends, answers, happen, happen_all,
  initial,
}

-- How often the handler of the context at `a` was called.
abbrev pub times : {T : Type 0} → ℕ → List (ℕ × T) → ℕ
times a [] = 0
times a ((b, t) ∷ handled) = (if a == b then 1 else 0) + times a handled

module _ ⦃c : StatusCodes⦄ {R T : Type 0} where
  -- The contexts that are alive are those that the C library holds; a handler whose context is
  -- alive, or was never made, has not been called, and no handler has been called twice.
  pub record IsTracked (s : Requests R T) : Type 0 where
    pub held : (a : ℕ) → s.userdata a ≡ true → (h : CompletionHandler R T) × (s.contexts a ≡ some h)
    pub released : (a : ℕ) → s.userdata a ≡ false → s.contexts a ≡ none
    pub fresh : (a : ℕ) → s.next_address ≤ a → s.userdata a ≡ false
    pub not_yet : (a : ℕ) → s.userdata a ≡ true → times a s.handled ≡ 0
    pub never : (a : ℕ) → s.next_address ≤ a → times a s.handled ≡ 0
    pub once : (a : ℕ) → times a s.handled ≤ 1

  pub initial-IsTracked : IsTracked initial
  initial-IsTracked = record {
    held = λ a h. cc;
    released = λ a h. refl;
    fresh = λ a h. refl;
    not_yet = λ a h. refl;
    never = λ a h. refl;
    once = λ a. omega arith;
  }

  pub initiate-IsTracked :
      (handler : CompletionHandler R T) (status : ℕ) (s : Requests R T)
      → IsTracked s
      → IsTracked (initiate handler status s)
  unfolding initiate
  initiate-IsTracked handler status s tracked = elim (throw_if_bad_cases status) [
    | inl (bad, e, thrown, code) ↦
        rw (initiate, thrown)
          (record {
            held = tracked.held;
            released = tracked.released;
            fresh = λ a le. tracked.fresh a (omega (arith, le));
            not_yet = tracked.not_yet;
            never = λ a le. tracked.never a (omega (arith, le));
            once = tracked.once;
          })
    | inr (fine, returned) ↦
        rw (initiate, returned)
          (record {
            held = λ a h. elim (Bool-cases (s.next_address == a)) [
              | inl new ↦ (handler, ground (arith, new))
              | inr old ↦
                  let (k, at) = tracked.held a (ground (arith, old, h)) in
                  (k, ground (arith, old, at))
            ];
            released = λ a h. ground (arith, tracked.released a, h);
            fresh = λ a le. ground (arith, tracked.fresh a, le);
            not_yet = λ a h. ground (arith, tracked.not_yet a, tracked.never a, h);
            never = λ a le. tracked.never a (omega (arith, le));
            once = tracked.once;
          })
  ]

  -- The state after the context at `a` is deleted, and its handler called if something arrived.
  abbrev pub after : ℕ → Option T → Catcher → Requests R T → Requests R T
  after a arrived catcher s = record {
    contexts = put s.contexts a none;
    userdata = put s.userdata a false;
    next_address = s.next_address;
    catcher = catcher;
    handled = elim arrived [ none ↦ s.handled | some t ↦ (a, t) ∷ s.handled ];
  }

  pub after-IsTracked :
      (a : ℕ) (arrived : Option T) (catcher : Catcher) (s : Requests R T)
      → IsTracked s
      → s.userdata a ≡ true
      → IsTracked (after a arrived catcher s)
  after-IsTracked a none catcher s tracked held = record {
    held = λ b h. let (k, at) = tracked.held b (ground (arith, h)) in (k, ground (arith, at, h));
    released = λ b h. ground (arith, tracked.released b, h);
    fresh = λ b le. ground (arith, tracked.fresh b, le);
    not_yet = λ b h. ground (arith, tracked.not_yet b, h);
    never = tracked.never;
    once = tracked.once;
  }
  after-IsTracked a (some t) catcher s tracked held = record {
    held = λ b h. let (k, at) = tracked.held b (ground (arith, h)) in (k, ground (arith, at, h));
    released = λ b h. ground (arith, tracked.released b, h);
    fresh = λ b le. ground (arith, tracked.fresh b, le);
    not_yet = λ b h. ground (arith, tracked.not_yet b, h);
    never = λ b le. ground (arith, tracked.never b, tracked.fresh b, le, held);
    once = λ b. ground (arith, tracked.once b, tracked.not_yet b, held);
  }

  -- What reaches the user's handler.
  abbrev pub arrived : CompletionHandler R T → Option R → Option T
  arrived handler none = none
  arrived handler (some r) = (handler r).0

  complete-after :
      (a : ℕ) (response : Option R) (handler : CompletionHandler R T) (s : Requests R T)
      → s.contexts a ≡ some handler
      → (k : Catcher) × (complete a response (record s { userdata = put s.userdata a false })
          ≡ ok (after a (arrived handler response) k s))
  unfolding complete
  complete-after a none handler s at =
      (set_exception (bad_status bad_unexpected_error) s.catcher, rw (complete, at) refl)
  complete-after a (some r) handler s at = (
    elim ((handler r).1) [ none ↦ s.catcher | some e ↦ set_exception e s.catcher ],
    rw (complete, at) refl,
  )

  -- An answer to a context that the C library holds is the completion, and an answer to another one
  -- is none.
  pub answers_held :
      (a : ℕ) (response : Option R) (handler : CompletionHandler R T) (s : Requests R T)
      (events : List (Event R T))
      → s.userdata a ≡ true
      → s.contexts a ≡ some handler
      → (k : Catcher) × (happen_all (answers a response ∷ events) s
          ≡ happen_all events (after a (arrived handler response) k s))
  unfolding happen_all happen
  answers_held a response handler s events held at =
      let (k, completed) = complete-after a response handler s at in
      (k, rw (happen_all, happen, held, completed) refl)

  pub answers_missing :
      (a : ℕ) (response : Option R) (s : Requests R T) (events : List (Event R T))
      → s.userdata a ≡ false
      → happen_all (answers a response ∷ events) s ≡ none
  unfolding happen_all happen
  answers_missing a response s events missing = rw (happen_all, happen, missing) refl

  -- Whatever a client sends, the C library accepts and answers, in whatever order: nothing has
  -- undefined behaviour and nothing is thrown into the C library; the contexts that are alive are
  -- those that it still holds, so that none is deleted twice and none is left behind; and no handler
  -- is called twice, or while its context is held.
  pub happen_all-IsTracked :
      (events : List (Event R T)) (s : Requests R T) {o : Outcome (Requests R T)}
      → IsTracked s
      → happen_all events s ≡ some o
      → (s' : Requests R T) × (o ≡ ok s') × IsTracked s'
  unfolding happen_all happen
  happen_all-IsTracked [] s tracked e = (s, cc, tracked)
  happen_all-IsTracked (sends handler status ∷ events) s tracked e =
      happen_all-IsTracked events (initiate handler status s)
        (initiate-IsTracked handler status s tracked) e
  happen_all-IsTracked (answers a response ∷ events) s tracked e =
      elim (Bool-cases (s.userdata a)) [
        | inl held ↦
            let (handler, at) = tracked.held a held in
            let (k, same) = answers_held a response handler s events held at in
            happen_all-IsTracked events (after a (arrived handler response) k s)
              (after-IsTracked a (arrived handler response) k s tracked held) (sym same ∙ e)
        | inr missing ↦ absurd (cc (answers_missing a response s events missing, e))
      ]
