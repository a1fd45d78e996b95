-- ===== src/Tests/Spans.antt =====
-- Examples of spans.
use open62541pp.Prelude.{ℕ, ◌≤◌, ◌<◌, ◌≡◌, refl, ◌⊎◌, some, List, [], ◌∷◌, arith}
use open62541pp.Outcome.{ok, throw, std_exception}
use open62541pp.Views.{Span, subview, first, last, at}
use open62541pp.Views.Elements.{IsValid, IsValid-views}

abbrev buffer : List ℕ
buffer = 10 ∷ 11 ∷ 12 ∷ 13 ∷ 14 ∷ []

-- The elements 11, 12 and 13.
abbrev span : Span
span = record { size = 3; position = some 1 }

IsValid-views_example :
    IsValid buffer (subview 1 1 span)
    × IsValid buffer (first 1 span)
    × IsValid buffer (last 1 span)
    × (((2 < span.size) × (x : ℕ) × (at buffer 2 span ≡ ok x))
        ⊎ ((span.size ≤ 2) × (at buffer 2 span ≡ throw std_exception)))
IsValid-views_example = IsValid-views buffer span 1 1 2 (omega arith)

second_left : at buffer 1 (subview 1 9 span) ≡ ok 13
unfolding at subview
second_left = refl
