-- ===== src/Tests/Ranges.antt =====
-- Examples of numeric ranges.
use open62541pp.Prelude.{◌≡◌, refl, ◌⊎◌, none, List, [], ◌∷◌, arith}
use open62541pp.Prelude.Text.{Bytes, codes}
use open62541pp.Outcome.{ok, undefined}
use open62541pp.NumericRanges.{NumericRangeDimension, to_string}
use open62541pp.NumericRanges.Reading.{read, to_string-read}

abbrev block : List NumericRangeDimension
block =
    record { min = 1; max = 2 } ∷ record { min = 0; max = 31 } ∷ record { min = 5; max = 5 } ∷ []

printed : to_string block ≡ ok (codes "1:2,0:31,5")
unfolding to_string
printed = refl

no_dimensions : to_string [] ≡ undefined
unfolding to_string
no_dimensions = refl

largest : to_string (record { min = 4294967295; max = 4294967295 } ∷ []) ≡ ok (codes "4294967295")
unfolding to_string
largest = refl

read_back : read none 0 (codes "1:2,0:31,5") ≡ block
unfolding read
read_back = refl

to_string-read_example :
    ((block ≡ []) × (to_string block ≡ undefined))
    ⊎ ((text : Bytes) × (to_string block ≡ ok text) × (read none 0 text ≡ block))
to_string-read_example =
    to_string-read block
      ((omega arith, omega arith), ((omega arith, omega arith), ((omega arith, omega arith), tt)))
