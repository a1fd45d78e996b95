-- ===== src/ContentFilter.antt =====
-- Content filters and their operators: src/ua_types.cpp, with the enum FilterOperator and the
-- variant FilterOperand of include/open62541pp/ua/types.hpp. A filter is the list of its elements;
-- an operand is the index of another element, or anything else (a literal, an attribute), `L`.
pub mod Positions
pub mod Evaluation
pub mod Window
pub mod Copies
pub mod Compose
pub mod Operators
use open62541pp.Prelude.{
  ℕ, suc, ◌+◌, ◌%◌, ◌^◌, Bool, true, false, if◌then◌else◌, Option, none, some, List, [], ◌∷◌, ◌++◌,
  map, length,
}
use open62541pp.Status.{StatusCodes, bad_out_of_memory}
use open62541pp.Outcome.{Exn, Outcome, ok, throw, bad_status, ◌>>=◌, ◌>>◌}
use open62541pp.Arrays.{check_allocation}

pub data FilterOperator : Type 0 where
  equals is_null greater_than less_than greater_than_or_equal less_than_or_equal like not_op between
        in_list and_op or_op cast in_view of_type related_to bitwise_and bitwise_or :
      FilterOperator

pub data FilterOperand {ℓ} (L : Type ℓ) : Type ℓ where
  element : ℕ → FilterOperand L
  other : L → FilterOperand L

pub record ContentFilterElement {ℓ} (L : Type ℓ) : Type ℓ where
  pub filter_operator : FilterOperator
  pub filter_operands : List (FilterOperand L)

abbrev pub ContentFilter {ℓ} : Type ℓ → Type ℓ
ContentFilter L = List (ContentFilterElement L)

module _ {ℓ} {L : Type ℓ} where
  -- `index += static_cast<uint32_t>(offset)`
  unfoldable pub shift_operand : ℕ → FilterOperand L → FilterOperand L
  shift_operand offset (element index) = element ((index + offset % 2 ^ 32) % 2 ^ 32)
  shift_operand offset (other l) = other l

  unfoldable pub shift_element : ℕ → ContentFilterElement L → ContentFilterElement L
  unfolding shift_operand
  shift_element offset e = record e {
    filter_operands = map (shift_operand offset) e.filter_operands;
  }

  unfoldable pub total_size : List (ContentFilter L) → ℕ
  total_size [] = 0
  total_size (filter ∷ filters) = length filter + total_size filters

  module _ ⦃c : StatusCodes⦄ (copy_fails : ℕ → Bool) where
    -- std::copy of a filter to the elements from `position` on; the C library fails to copy the
    -- element for a position when there is no memory, which Wrapper's assignment throws.
    unfoldable pub copy_elements : ℕ → ContentFilter L → Outcome (ContentFilter L)
    copy_elements position [] = ok []
    copy_elements position (e ∷ elements) =
        let rest = copy_elements (suc position) elements in
        if copy_fails position
        then throw (bad_status bad_out_of_memory)
        else rest >>= λ copied. ok (e ∷ copied)

    -- The second loop of concatFilterElements: each filter is copied behind the ones before it, and
    -- the indices in the copy are moved by the offset.
    unfoldable pub copy_filters : ℕ → List (ContentFilter L) → Outcome (ContentFilter L)
    unfolding copy_elements shift_element
    copy_filters offset [] = ok []
    copy_filters offset (filter ∷ filters) =
        let rest = copy_filters (offset + length filter) filters in
        copy_elements offset filter >>= λ copied.
        rest >>= λ others. ok (map (shift_element offset) copied ++ others)

  -- The first elements that applyUnaryOperator and applyBinaryOperator put in front;
  -- `1 + static_cast<uint32_t>(lhs.size())` is a sum of 32-bit numbers.
  abbrev pub unary_root : FilterOperator → ContentFilterElement L
  unary_root unary_operator = record {
    filter_operator = unary_operator;
    filter_operands = element 1 ∷ [];
  }

  abbrev pub binary_root : FilterOperator → ContentFilter L → ContentFilterElement L
  binary_root binary_operator lhs = record {
    filter_operator = binary_operator;
    filter_operands = element 1 ∷ element ((1 + length lhs % 2 ^ 32) % 2 ^ 32) ∷ [];
  }

  -- `calloc_ok` and `copy_fails`: whether there is memory for an array, and for the copy of an
  -- element.
  module _ ⦃c : StatusCodes⦄ (calloc_ok : ℕ → Bool) (copy_fails : ℕ → Bool) where
    unfoldable pub concat_filter_elements : List (ContentFilter L) → Outcome (ContentFilter L)
    unfolding total_size copy_filters check_allocation
    concat_filter_elements filters = do
      check_allocation calloc_ok (total_size filters)
      copy_filters copy_fails 0 filters

    -- `root`: what the construction of the first element throws, if anything.
    module _ (root : Option Exn) where
      abbrev pub construct_root : ContentFilterElement L → Outcome (ContentFilterElement L)
      construct_root e = elim root [ none ↦ ok e | some exception ↦ throw exception ]

      unfoldable pub apply_unary_operator :
          FilterOperator → ContentFilter L → Outcome (ContentFilter L)
      unfolding concat_filter_elements
      apply_unary_operator unary_operator elements =
          construct_root (unary_root unary_operator) >>= λ first.
          concat_filter_elements ((first ∷ []) ∷ elements ∷ [])

      unfoldable pub apply_binary_operator :
          FilterOperator → ContentFilter L → ContentFilter L → Outcome (ContentFilter L)
      unfolding concat_filter_elements
      apply_binary_operator binary_operator lhs rhs =
          construct_root (binary_root binary_operator lhs) >>= λ first.
          concat_filter_elements ((first ∷ []) ∷ lhs ∷ rhs ∷ [])

      -- `!filter`, `lhs && rhs`, `lhs || rhs`; an element stands for the filter of that element.
      unfoldable pub operator_not : ContentFilter L → Outcome (ContentFilter L)
      unfolding apply_unary_operator
      operator_not filter = apply_unary_operator not_op filter

      unfoldable pub operator_and : ContentFilter L → ContentFilter L → Outcome (ContentFilter L)
      unfolding apply_binary_operator
      operator_and lhs rhs = apply_binary_operator and_op lhs rhs

      unfoldable pub operator_or : ContentFilter L → ContentFilter L → Outcome (ContentFilter L)
      unfolding apply_binary_operator
      operator_or lhs rhs = apply_binary_operator or_op lhs rhs
