-- ===== src/Services/Async.antt =====
-- Asynchronous requests of a Client: include/open62541pp/services/detail/client_service.hpp
-- (AsyncServiceAdapter, sendRequestAsync), async_transform.hpp and async_hook.hpp. `R` is the type of
-- the responses, `T` what a user's completion handler is called with.
pub mod Once
pub mod Counted
use open62541pp.Prelude.{
  ℕ, suc, ◌==◌, ◌⊎◌, inl, inr, Bool, true, false, if◌then◌else◌, Option, none, some, List, [], ◌∷◌,
}
use open62541pp.Status.{StatusCodes, bad_unexpected_error}
use open62541pp.Outcome.{Exn, bad_status, Outcome, ok, throw, undefined, throw_if_bad, ◌>>=◌}
use open62541pp.Outcome.Catcher.{Callback, Catcher, set_exception}

-- The handler that is kept in a context, called with a response: what reaches the user's handler,
-- if anything, and what is thrown.
abbrev pub CompletionHandler : Type 0 → Type 0 → Type 0
CompletionHandler R T = R → Option T × Option Exn

-- A handler that is called with the response itself.
abbrev pub plain : {R : Type 0} → Callback R → CompletionHandler R R
plain handler response = (some response, handler response)

module _ {R T : Type 0} where
  -- asyncTransform; the transform may throw, and the handler is not called then.
  unfoldable pub async_transform : Callback T → (R → Exn ⊎ T) → CompletionHandler R T
  async_transform handler transform response = elim (transform response) [
    | inl e ↦ (none, some e)
    | inr transformed ↦ (some transformed, handler transformed)
  ]

  -- AsyncResult<HookToken>::initiate: the hook comes first.
  unfoldable pub with_hook : CompletionHandler R T → Callback R → CompletionHandler R T
  with_hook handler hook response = elim (hook response) [
    | some e ↦ (none, some e)
    | none ↦ handler response
  ]

-- The contexts that are alive, by address; those that the C library holds as `userdata`; the
-- catcher of the client; and the calls of users' handlers with the address of their context, the
-- last one first.
pub record Requests (R T : Type 0) : Type 0 where
  pub contexts : ℕ → Option (CompletionHandler R T)
  pub userdata : ℕ → Bool
  pub next_address : ℕ
  pub catcher : Catcher
  pub handled : List (ℕ × T)

abbrev pub put {ℓ} : {A : Type ℓ} → (ℕ → A) → ℕ → A → ℕ → A
put memory a v b = if a == b then v else memory b

module _ ⦃c : StatusCodes⦄ {R T : Type 0} where
  -- AsyncServiceAdapter::initiate with the initiation of sendRequestAsync; `status` is what
  -- __UA_Client_AsyncService returns, which keeps `userdata` when it is not bad. The context is
  -- released to the C library, or deleted by its unique pointer when the initiation throws.
  unfoldable pub initiate : CompletionHandler R T → ℕ → Requests R T → Requests R T
  unfolding throw_if_bad set_exception
  initiate handler status s =
      let a = s.next_address in
      elim (throw_if_bad status) [
        | ok _ ↦ record s {
          contexts = put s.contexts a (some handler);
          userdata = put s.userdata a true;
          next_address = suc a;
        }
        | throw e ↦ record s { next_address = suc a; catcher = set_exception e s.catcher }
        | undefined ↦ s
      ]

  -- The callback that the C library calls with `userdata` and a response, or a null pointer: the
  -- context is deleted when it returns, what is thrown goes to the catcher.
  unfoldable pub complete : ℕ → Option R → Requests R T → Outcome (Requests R T)
  unfolding set_exception
  complete a response s = elim (s.contexts a) [
    | none ↦ undefined
    | some handler ↦
        let freed = record s { contexts = put s.contexts a none } in
        elim response [
          | none ↦
              ok (record freed {
                catcher = set_exception (bad_status bad_unexpected_error) s.catcher;
              })
          | some r ↦
              let (arrived, thrown) = handler r in
              ok (record freed {
                handled = elim arrived [ none ↦ s.handled | some t ↦ (a, t) ∷ s.handled ];
                catcher = elim thrown [ none ↦ s.catcher | some e ↦ set_exception e s.catcher ];
              })
        ]
  ]

-- What happens between a client and the C library.
pub data Event (R T : Type 0) : Type 0 where
  sends : CompletionHandler R T → ℕ → Event R T
  answers : ℕ → Option R → Event R T

module _ ⦃c : StatusCodes⦄ {R T : Type 0} where
  -- The C library calls the callback once for each `userdata` that it holds: an answer to another
  -- address is no behaviour of it.
  unfoldable pub happen : Event R T → Requests R T → Option (Outcome (Requests R T))
  unfolding initiate complete
  happen (sends handler status) s = some (ok (initiate handler status s))
  happen (answers a response) s =
      if s.userdata a
      then some (complete a response (record s { userdata = put s.userdata a false }))
      else none

  unfoldable pub happen_all : List (Event R T) → Requests R T → Option (Outcome (Requests R T))
  unfolding happen
  happen_all [] s = some (ok s)
  happen_all (event ∷ events) s = elim (happen event s) [
    | none ↦ none
    | some (throw e) ↦ some (throw e)
    | some undefined ↦ some undefined
    | some (ok s') ↦ happen_all events s'
  ]

  abbrev pub initial : Requests R T
  initial = record {
    contexts = λ a. none;
    userdata = λ a. false;
    next_address = 0;
    catcher = record { exception = none };
    handled = [];
  }
