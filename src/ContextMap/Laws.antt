-- ===== src/ContextMap/Laws.antt =====
-- What a ContextMap promises: items stay until they are stale or erased.
use open62541pp.Prelude.{
  ◌+◌, ◌-◌, ◌^◌, ◌<◌, ◌≡◌, sym, ◌∙◌, Option-cases, inl, inr, Bool, false, if◌then◌else◌, none, some,
  All, length, arith,
}
use open62541pp.Map.{Map, find, insert, erase_if}
use open62541pp.Map.Order.{Ord, same}
use open62541pp.Map.Laws.{
  IsSorted, fresh, find-insert, find-erase, find-erase_if, insert-IsSorted, erase-IsSorted,
  erase_if-IsSorted, length-erase, length-erase_if, length-insert_new, erase_if_none,
  All-insert_any,
}
use open62541pp.ContextMap.{
  erase_stale_beside, erase_stale, subscript, insert_context, erase_context, contains,
}

module _ {ℓ κ} {K : Type ℓ} ⦃o : Ord K⦄ {V : Type κ} (stale : V → Bool) (map : Map K V)
    (sorted : IsSorted map) where
  -- `insert(key, item)` makes `key` find `item`; every other key finds what it found before, but
  -- for stale items, which are gone. The map stays in order.
  pub find-insert_context :
      (key q : K) (item : V)
      → (find q (insert_context stale key item map)
          ≡ (if same key q then some item else fresh stale (find q map)))
        × IsSorted (insert_context stale key item map)
  unfolding insert_context erase_stale
  find-insert_context key q item = (
    rw (find-insert key q item (erase_if stale map), find-erase_if stale q map sorted),
    insert-IsSorted key item _ (erase_if-IsSorted stale map sorted),
  )

  -- `map[key]` gives the item that `key` had, if it is not stale, and else a new one; the item is
  -- in the map afterwards, and every other key finds what it found before, but for stale items.
  pub find-subscript :
      (key q : K) (allocated : V)
      → let r = subscript stale allocated key map in
        (find key r.0 ≡ some r.1)
        × (r.1 ≡ elim (fresh stale (find key map)) [ none ↦ allocated | some v ↦ v ])
        × (same key q ≡ false → find q r.0 ≡ fresh stale (find q map))
        × IsSorted r.0
  unfolding subscript erase_stale
  find-subscript key q allocated =
      let left = find-erase_if stale key map sorted in
      elim (Option-cases (find key (erase_if stale map))) [
        | inl missing ↦
            rw (missing, subscript)
              (
                find-insert key key allocated (erase_if stale map) ∙ ground (arith, o.tri key key),
                rw (sym left ∙ missing),
                λ other.
                    rw (find-insert key q allocated (erase_if stale map), other)
                      (find-erase_if stale q map sorted),
                insert-IsSorted key allocated _ (erase_if-IsSorted stale map sorted),
              )
        | inr (v, found) ↦
            rw (found, subscript)
              (
                found,
                rw (sym left ∙ found),
                λ other. find-erase_if stale q map sorted,
                erase_if-IsSorted stale map sorted,
              )
      ]

  -- `eraseStale()` removes the stale items and nothing else, and returns how many it removed.
  pub find-erase_stale :
      (q : K)
      → length map < 2 ^ 64
      → (find q (erase_stale stale map).0 ≡ fresh stale (find q map))
        × (length (erase_stale stale map).0 + (erase_stale stale map).1 ≡ length map)
        × IsSorted (erase_stale stale map).0
  unfolding erase_stale
  find-erase_stale q small = (
    find-erase_if stale q map sorted,
    omega (arith, length-erase_if stale map),
    erase_if-IsSorted stale map sorted,
  )

  -- `erase(key)` returns 1 and removes the item if there is one, and else returns 0; no other key
  -- is touched, and stale items stay.
  pub find-erase_context :
      (key q : K)
      → (find q (erase_context key map).0 ≡ (if same key q then none else find q map))
        × (length map ≡ length (erase_context key map).0 + (erase_context key map).1)
        × ((erase_context key map).1 ≡ (if contains key map then 1 else 0))
        × IsSorted (erase_context key map).0
  unfolding erase_context contains
  find-erase_context key q = (
    find-erase key q map sorted,
    length-erase key map,
    ground arith,
    erase-IsSorted key map sorted,
  )

-- `size()` is read outside the lock. If another thread inserts a new key after the first reading
-- and no item is stale, `eraseStale` returns 2^64 - 1, though nothing was erased.
pub erase_stale_race {ℓ κ} :
    {K : Type ℓ} ⦃o : Ord K⦄
    → {V : Type κ} (stale : V → Bool) (map : Map K V) (k : K) (v : V) → find k map ≡ none
    → All (λ e. stale e.1 ≡ false) map
    → stale v ≡ false
    → length map < 2 ^ 64 - 1
    → ((erase_stale_beside stale (insert k v) map).0 ≡ insert k v map)
      × ((erase_stale_beside stale (insert k v) map).1 ≡ 2 ^ 64 - 1)
unfolding erase_stale_beside
erase_stale_race stale map k v missing none_stale live small =
    let kept =
      erase_if_none stale (insert k v map) (All-insert_any stale k v map none_stale live) in
    (kept, rw kept (omega (arith, length-insert_new k v map missing)))
