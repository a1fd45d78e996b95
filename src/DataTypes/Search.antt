-- ===== src/DataTypes/Search.antt =====
-- findDataType of src/datatype.cpp: a binary search in the table UA_TYPES, and then a linear one in
-- the custom types. A table is the list of its types; the table of the C library is a parameter. The
-- linked list of UA_DataTypeArray is the list of its tables, a null pointer the empty list.
pub mod FindIf
pub mod Linear
use open62541pp.Prelude.{
  ℕ, zero, suc, ◌+◌, ◌-◌, ◌/◌, ◌==◌, Bool, true, false, if◌then◌else◌, Option, none, some, List, [],
  ◌∷◌, length, get_elem?,
}
use open62541pp.Map.Order.{Ord, same}
use open62541pp.DataTypes.{DataType}

-- std::find_if
unfoldable pub find_if {ℓ} : {A : Type ℓ} → (A → Bool) → List A → Option A
find_if p [] = none
find_if p (x ∷ xs) = if p x then some x else find_if p xs

module _ {K : Type 0} ⦃o : Ord K⦄ where
  -- std::lower_bound, by halving; `first` is the position, `count` how many elements follow.
  unfoldable pub lower_bound : List (DataType K) → K → ℕ → ℕ → ℕ → ℕ
  lower_bound types id zero first count = first
  lower_bound types id (suc fuel) first count =
      let step = count / 2 in
      elim (count == 0) [
        | true ↦ first
        | false ↦ elim (get_elem? types (first + step)) [
          | none ↦ first
          | some type ↦ elim (o.ltb type.type_id id) [
            | true ↦ lower_bound types id fuel (first + step + 1) (count - (step + 1))
            | false ↦ lower_bound types id fuel first step
          ]
        ]
      ]

  unfoldable pub find_native_data_type : List (DataType K) → K → Option (DataType K)
  unfolding lower_bound
  find_native_data_type types id =
      elim (get_elem? types (lower_bound types id (length types) 0 (length types))) [
        | none ↦ none
        | some type ↦ if same type.type_id id then some type else none
      ]

  -- The loop over the custom types.
  unfoldable pub find_custom_data_type : K → List (List (DataType K)) → Option (DataType K)
  unfolding find_if
  find_custom_data_type id [] = none
  find_custom_data_type id (types ∷ next) = elim (find_if (λ type. same type.type_id id) types) [
    | none ↦ find_custom_data_type id next
    | some type ↦ some type
  ]

  unfoldable pub find_data_type :
      List (DataType K) → K → List (List (DataType K)) → Option (DataType K)
  unfolding find_native_data_type find_custom_data_type
  find_data_type native_types id custom = elim (find_native_data_type native_types id) [
    | none ↦ find_custom_data_type id custom
    | some type ↦ some type
  ]
