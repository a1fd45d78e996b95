-- ===== src/Tests/Completions.antt =====
-- Examples of asynchronous requests.
use open62541pp.Prelude.{ℕ, ◌+◌, ◌^◌, ◌≡◌, refl, inl, inr, none, some, List, [], ◌∷◌, All}
use open62541pp.Status.{is_bad}
use open62541pp.Outcome.{ok, std_exception, throw_if_bad}
use open62541pp.Tests.Codes.{codes}
use open62541pp.Services.Async.{
  CompletionHandler, plain, async_transform, with_hook, Requests, Event, sends, answers, happen_all,
  initial,
}
use open62541pp.Services.Async.Once.{times, IsTracked, initial-IsTracked, happen_all-IsTracked}
use open62541pp.Services.Async.Counted.{
  responses, SendsUnfailing, direct, transformed, happen_all-responses,
}

-- Two handlers, the second one throws; and one with a hook.
abbrev plain_handler : CompletionHandler ℕ ℕ
plain_handler = plain (λ r. none)

abbrev transforming_handler : CompletionHandler ℕ ℕ
unfolding async_transform
transforming_handler = async_transform (λ t. some std_exception) (λ r. inr (r + 1))

abbrev hooked : CompletionHandler ℕ ℕ
unfolding with_hook
hooked = with_hook plain_handler (λ r. some std_exception)

-- The second of three requests is refused; the last one is answered first, the other one cut off.
abbrev events : List (Event ℕ ℕ)
events =
    sends plain_handler 0
    ∷ sends plain_handler (2 ^ 31)
    ∷ sends transforming_handler 0
    ∷ answers 2 (some 5)
    ∷ answers 0 none
    ∷ []

unfailing : All SendsUnfailing events
unfolding transforming_handler
unfailing = (
  direct (λ r. none),
  (
    direct (λ r. none),
    (transformed (λ t. some std_exception) (λ r. inr (r + 1)) (λ r. (r + 1, refl)), (tt, (tt, tt))),
  ),
)

abbrev end : Requests ℕ ℕ
unfolding happen_all
end = elim (happen_all events initial) [ some (ok s) ↦ s | _ ↦ initial ]

events-end : happen_all events initial ≡ some (ok end)
unfolding happen_all throw_if_bad is_bad
events-end = refl

happen_all-IsTracked_example : (s : Requests ℕ ℕ) × (ok end ≡ ok s) × IsTracked s
happen_all-IsTracked_example = happen_all-IsTracked events initial initial-IsTracked events-end

happen_all-responses_example : times 2 end.handled ≡ responses 2 events
happen_all-responses_example = happen_all-responses events end unfailing events-end 2

-- A hook that throws keeps the response from the handler.
hook_first : hooked 5 ≡ (none, some std_exception)
unfolding with_hook
hook_first = refl

-- So does a transform that throws.
transform_first :
    async_transform {R = ℕ} {T = ℕ} (λ t. none) (λ r. inl std_exception) 5
    ≡ (none, some std_exception)
unfolding async_transform
transform_first = refl
