-- ===== src/Result/Void.antt =====
-- The specialisation Result<void> of include/open62541pp/result.hpp: a code and nothing
-- else; and `transform` with a function that returns nothing.
use open62541pp.Prelude.{ℕ, Bool, not, none, some}
use open62541pp.Status.{StatusCodes, is_bad, good}
use open62541pp.Outcome.{Outcome, ok, throw_if_bad}
use open62541pp.Result.{Result}

pub record VoidResult : Type 0 where
  pub code : ℕ

unfoldable pub init : ⦃c : StatusCodes⦄ → VoidResult
init = record { code = good }

unfoldable pub has_value : VoidResult → Bool
has_value r = not (is_bad r.code)

unfoldable pub value : ⦃c : StatusCodes⦄ → VoidResult → Outcome (Unit {0})
value r = throw_if_bad r.code

-- transformImpl for a function that returns `void`: it is not called, and the code is a good one, not
-- that of the result.
unfoldable pub transform_void {ℓ} :
    {A : Type ℓ} → ⦃c : StatusCodes⦄ → Result A → (A → Outcome (Unit {0})) → Outcome VoidResult
unfolding init
transform_void r func = elim r.maybe_value [
  | none ↦ ok (record { code = r.code })
  | some _ ↦ ok init
]
