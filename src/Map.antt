-- ===== src/Map.antt =====
-- std::map<Key, Item> as the source uses it (detail/contextmap.hpp, detail/server_context.hpp): a
-- list of pairs in ascending key order, searched by `operator<` of the keys alone.
pub mod Order
pub mod Laws
use open62541pp.Prelude.{
  ℕ, suc, Bool, true, false, if◌then◌else◌, Option, none, some, List, [], ◌∷◌,
}
use Order.{Ord}

abbrev pub Map {ℓ κ} : Type ℓ → Type κ → Type (ℓ ⊔ κ)
Map K V = List (K × V)

module _ {ℓ κ} {K : Type ℓ} ⦃o : Ord K⦄ {V : Type κ} where
  unfoldable pub find : K → Map K V → Option V
  find k [] = none
  find k ((j, v) ∷ m) = if o.ltb j k then find k m else if o.ltb k j then none else some v

  -- insert_or_assign
  unfoldable pub insert : K → V → Map K V → Map K V
  insert k v [] = (k, v) ∷ []
  insert k v ((j, w) ∷ m) =
      if o.ltb j k
      then (j, w) ∷ insert k v m
      else if o.ltb k j
      then (k, v) ∷ (j, w) ∷ m
      else (j, v) ∷ m

  unfoldable pub erase : K → Map K V → Map K V
  erase k [] = []
  erase k ((j, w) ∷ m) =
      if o.ltb j k then (j, w) ∷ erase k m else if o.ltb k j then (j, w) ∷ m else m

  -- Erases every entry whose item passes the test, as the loop of ContextMap::eraseStale does.
  unfoldable pub erase_if : (V → Bool) → Map K V → Map K V
  erase_if p [] = []
  erase_if p ((j, w) ∷ m) = if p w then erase_if p m else (j, w) ∷ erase_if p m
