-- ===== src/Tests/Filters.antt =====
-- Examples of content filters.
use open62541pp.Prelude.{◌==◌, ◌≡◌, refl, Bool, true, false, not, ◌&&◌, none, List, [], ◌∷◌}
use open62541pp.Status.{bad_out_of_memory}
use open62541pp.Outcome.{ok, throw, bad_status}
use open62541pp.Tests.Codes.{codes}
use open62541pp.ContentFilter.{
  FilterOperator, equals, not_op, and_op, element, other, ContentFilter, operator_and,
  apply_binary_operator, concat_filter_elements, copy_elements, copy_filters, total_size,
  shift_element, shift_operand,
}
use open62541pp.Arrays.{check_allocation}
use open62541pp.ContentFilter.Evaluation.{Meaning}

-- Literals are Booleans; an operator is true if all operands are, and `not_op` negates one.
abbrev meaning : Meaning Bool Bool
meaning = record { literal = λ l. l; apply = λ op vs. conjunction op vs }
  where
    conjunction : FilterOperator → List Bool → Bool
    conjunction op [] = true
    conjunction not_op (v ∷ vs) = not v
    conjunction op (v ∷ vs) = v && conjunction op vs

-- One element that compares two literals.
abbrev compared : Bool → ContentFilter Bool
compared b = record { filter_operator = equals; filter_operands = other true ∷ other b ∷ [] } ∷ []

-- The operands of the second filter are moved behind the first.
anded :
    operator_and
      (λ size. true)
      (λ position. false)
      none
      (compared true)
      (record { filter_operator = not_op; filter_operands = element 1 ∷ [] } ∷ compared true)
    ≡ ok (
        record { filter_operator = and_op; filter_operands = element 1 ∷ element 2 ∷ [] }
        ∷ record { filter_operator = equals; filter_operands = other true ∷ other true ∷ [] }
        ∷ record { filter_operator = not_op; filter_operands = element 3 ∷ [] }
        ∷ compared true)
unfolding operator_and apply_binary_operator concat_filter_elements copy_elements copy_filters
    total_size shift_element shift_operand check_allocation
anded = refl

-- The last element cannot be copied.
lost :
    operator_and (λ size. true) (λ position. position == 2) none (compared true) (compared false)
    ≡ throw (bad_status bad_out_of_memory)
unfolding operator_and apply_binary_operator concat_filter_elements copy_elements copy_filters
    total_size check_allocation
lost = refl
