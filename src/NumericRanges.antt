-- ===== src/NumericRanges.antt =====
-- NumericRange of include/open62541pp/types.hpp, and its text: toStringImpl of src/types.cpp.

pub mod Reading
use open62541pp.Prelude.{
  ℕ, zero, suc, ◌+◌, ◌/◌, ◌%◌, ◌<◌, ◌==◌, Bool, true, false, if◌then◌else◌, List, [], ◌∷◌, ◌++◌,
  ltb,
}
use open62541pp.Prelude.Text.{Bytes}
use open62541pp.Outcome.{Outcome, ok, undefined, ◌>>=◌}

pub record NumericRangeDimension : Type 0 where
  pub min : ℕ
  pub max : ℕ

abbrev pub colon : ℕ
colon = 58

abbrev pub comma : ℕ
comma = 44

-- `ss << n` for a number with at most `suc fuel` decimal digits.
unfoldable pub decimal : ℕ → ℕ → Bytes
decimal zero n = (48 + n) ∷ []
decimal (suc fuel) n = elim (ltb n 10) [
  | true ↦ (48 + n) ∷ []
  | false ↦ decimal fuel (n / 10) ++ ((48 + n % 10) ∷ [])
]

-- A number of 32 bits has at most 10 digits.
unfoldable pub number : ℕ → Bytes
unfolding decimal
number n = decimal 9 n

unfoldable pub write_dimension : NumericRangeDimension → Bytes
unfolding number
write_dimension d = number d.min ++ (if d.min == d.max then [] else colon ∷ number d.max)

-- The loop: what it appends to the stream.
unfoldable pub write_dimensions : List NumericRangeDimension → Bytes
unfolding write_dimension
write_dimensions [] = []
write_dimensions (d ∷ ds) = write_dimension d ++ comma ∷ write_dimensions ds

-- std::string::pop_back, undefined for an empty string.
unfoldable pub pop_back : Bytes → Outcome Bytes
pop_back [] = undefined
pop_back (c ∷ []) = ok []
pop_back (c ∷ d ∷ cs) = pop_back (d ∷ cs) >>= λ rest. ok (c ∷ rest)

unfoldable pub to_string : List NumericRangeDimension → Outcome Bytes
unfolding write_dimensions pop_back
to_string dimensions = pop_back (write_dimensions dimensions)
