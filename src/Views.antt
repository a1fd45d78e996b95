-- ===== src/Views.antt =====
-- Span of include/open62541pp/span.hpp: a view on elements of a buffer. The address of an element is
-- its position in the buffer; the default view has none.
pub mod Elements
use open62541pp.Prelude.{
  ℕ, ◌+◌, ◌-◌, ◌^◌, Bool, true, false, if◌then◌else◌, ltb, leb, ◌==◌, Option, none, some, List, [],
  ◌∷◌, get_elem?,
}
use open62541pp.Prelude.Eq.{Eq, list_beq}
use open62541pp.Outcome.{Outcome, ok, throw, undefined, std_exception}

pub record Span : Type 0 where
  pub size : ℕ
  pub position : Option ℕ

abbrev pub null_span : Span
null_span = record { size = 0; position = none }

-- std::numeric_limits<size_t>::max()
abbrev pub size_max : ℕ
size_max = 2 ^ 64 - 1

-- Pointer arithmetic; on a null pointer nothing but adding 0 is defined.
abbrev pub advance : Option ℕ → ℕ → Option ℕ
advance none n = none
advance (some p) n = some (p + n)

unfoldable pub is_empty : Span → Bool
is_empty s = s.size == 0

unfoldable pub subview : ℕ → ℕ → Span → Span
subview offset count s = if leb s.size offset then null_span else record {
  size = if ltb (s.size - offset) count then s.size - offset else count;
  position = advance s.position offset;
}

unfoldable pub first : ℕ → Span → Span
first count s = if leb s.size count then s else record s { size = count }

unfoldable pub last : ℕ → Span → Span
last count s =
    if leb s.size count
    then s
    else record { size = count; position = advance s.position (s.size - count) }

module _ {ℓ} {A : Type ℓ} (buffer : List A) where
  abbrev pub load : Option ℕ → Outcome A
  load none = undefined
  load (some p) = elim (get_elem? buffer p) [ none ↦ undefined | some x ↦ ok x ]

  -- operator[], with its assertion.
  unfoldable pub subscript : ℕ → Span → Outcome A
  subscript index s = if ltb index s.size then load (advance s.position index) else undefined

  -- std::out_of_range
  unfoldable pub at : ℕ → Span → Outcome A
  at index s = if leb s.size index then throw std_exception else load (advance s.position index)

  unfoldable pub front : Span → Outcome A
  unfolding is_empty
  front s = if is_empty s then undefined else load s.position

  unfoldable pub back : Span → Outcome A
  unfolding is_empty
  back s = if is_empty s then undefined else load (advance s.position (s.size - 1))
