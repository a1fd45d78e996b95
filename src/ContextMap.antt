-- ===== src/ContextMap.antt =====
-- ContextMap, include/open62541pp/detail/contextmap.hpp: callback contexts by key. An item is
-- owned by the map and stands in it as a value. `stale` is the member that the trait IsStaleable
-- looks for; item types without one are never stale.
pub mod Laws
use open62541pp.Prelude.{ℕ, ◌+◌, ◌-◌, ◌%◌, ◌^◌, Bool, true, false, Option, none, some, List, length}
use open62541pp.Map.{Map, find, insert, erase, erase_if}
use open62541pp.Map.Order.{Ord}

pub record Staleable {ℓ} (T : Type ℓ) : Type ℓ where
  pub stale : Bool
  pub item : T

-- `static_cast<size_t>(a - b)`
abbrev pub sub_size : ℕ → ℕ → ℕ
sub_size a b = (a + 2 ^ 64 - b) % 2 ^ 64

module _ {ℓ κ} {K : Type ℓ} ⦃o : Ord K⦄ {V : Type κ} (stale : V → Bool) where
  -- eraseStale, where another thread may change the map by `other` after the first `map_.size()`:
  -- neither call of `size` is under the lock. The map afterwards, and the result.
  unfoldable pub erase_stale_beside : (Map K V → Map K V) → Map K V → Map K V × ℕ
  erase_stale_beside other map =
      let count = length map in
      let map' = erase_if stale (other map) in (map', sub_size count (length map'))

  unfoldable pub erase_stale : Map K V → Map K V × ℕ
  unfolding erase_stale_beside
  erase_stale map = erase_stale_beside (λ m. m) map

  -- operator[]: the item, which is allocated if the key has none.
  unfoldable pub subscript : V → K → Map K V → Map K V × V
  unfolding erase_stale
  subscript allocated key map =
      let map' = (erase_stale map).0 in
      elim (find key map') [
        | none ↦ (insert key allocated map', allocated)
        | some item ↦ (map', item)
      ]

  -- ContextMap::insert
  unfoldable pub insert_context : K → V → Map K V → Map K V
  unfolding erase_stale
  insert_context key item map = insert key item (erase_stale map).0

module _ {ℓ κ} {K : Type ℓ} ⦃o : Ord K⦄ {V : Type κ} where
  -- ContextMap::erase: the map afterwards, and the number of entries erased.
  unfoldable pub erase_context : K → Map K V → Map K V × ℕ
  erase_context key map = (erase key map, elim (find key map) [ none ↦ 0 | some _ ↦ 1 ])

  unfoldable pub contains : K → Map K V → Bool
  contains key map = elim (find key map) [ none ↦ false | some _ ↦ true ]

  -- The pairs that `iterate` hands to its function, in order.
  unfoldable pub iterate : Map K V → List (K × V)
  iterate map = map
