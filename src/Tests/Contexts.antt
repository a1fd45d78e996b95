-- ===== src/Tests/Contexts.antt =====
-- Examples of context maps.
use open62541pp.Prelude.{
  ℕ, ◌-◌, ◌^◌, ◌≡◌, refl, Bool, if◌then◌else◌, ltb, none, some, [], ◌∷◌, arith,
}
use open62541pp.Map.{Map, find, insert}
use open62541pp.Map.Order.{nat_ord, same}
use open62541pp.Map.Laws.{IsSorted, fresh}
use open62541pp.ContextMap.{erase_stale_beside, insert_context}
use open62541pp.ContextMap.Laws.{find-insert_context, erase_stale_race}

-- Items below 10 are stale.
abbrev stale : ℕ → Bool
stale v = ltb v 10

abbrev map : Map ℕ ℕ
map = (1, 11) ∷ (4, 5) ∷ (6, 16) ∷ []

map-IsSorted : IsSorted map
map-IsSorted = ((refl, (refl, tt)), ((refl, tt), (tt, tt)))

abbrev lively : Map ℕ ℕ
lively = (1, 11) ∷ (6, 16) ∷ []

find-insert_context_example :
    (find 4 (insert_context stale 6 20 map)
      ≡ (if same {K = ℕ} 6 4 then some 20 else fresh stale (find 4 map)))
    × IsSorted (insert_context stale 6 20 map)
find-insert_context_example = find-insert_context stale map map-IsSorted 6 4 20

no_three : find 3 lively ≡ none
unfolding find
no_three = refl

erase_stale_race_example :
    ((erase_stale_beside stale (insert 3 33) lively).0 ≡ insert 3 33 lively)
    × ((erase_stale_beside stale (insert 3 33) lively).1 ≡ 2 ^ 64 - 1)
erase_stale_race_example =
    erase_stale_race stale lively 3 33 no_three (refl, (refl, tt)) refl (omega arith)
