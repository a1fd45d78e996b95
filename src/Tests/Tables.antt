-- ===== src/Tests/Tables.antt =====
-- Examples of the search for a data type.
use open62541pp.Prelude.{
  ℕ, zero, suc, ◌≡◌, refl, true, false, none, some, List, [], ◌∷◌, ◌++◌, arith,
}
use open62541pp.Map.Order.{same, nat_ord}
use open62541pp.DataTypes.{DataType, structure_kind}
use open62541pp.DataTypes.Search.{find_if, lower_bound, find_data_type}
use open62541pp.DataTypes.Search.Linear.{IsSorted, append_all, find_data_type-find_if}

abbrev numbered : ℕ → DataType ℕ
numbered id = record {
  type_name = [];
  type_id = id;
  binary_encoding_id = id;
  mem_size = 8;
  type_kind = structure_kind;
  pointer_free = true;
  overlayable = false;
  members = [];
}

abbrev native_types : List (DataType ℕ)
native_types = numbered 1 ∷ numbered 3 ∷ numbered 7 ∷ []

abbrev custom : List (List (DataType ℕ))
custom = (numbered 9 ∷ numbered 5 ∷ []) ∷ [] ∷ (numbered 3 ∷ numbered 4 ∷ []) ∷ []

native_types-IsSorted : IsSorted native_types
native_types-IsSorted zero (suc zero) a b lt at_a at_b = ground (arith, at_a, at_b)
native_types-IsSorted zero (suc (suc zero)) a b lt at_a at_b = ground (arith, at_a, at_b)
native_types-IsSorted (suc zero) (suc (suc zero)) a b lt at_a at_b = ground (arith, at_a, at_b)
native_types-IsSorted i zero a b lt at_a at_b = absurd (omega (arith, lt))
native_types-IsSorted (suc i) (suc zero) a b lt at_a at_b = absurd (omega (arith, lt))
native_types-IsSorted (suc (suc i)) (suc (suc zero)) a b lt at_a at_b = absurd (omega (arith, lt))
native_types-IsSorted i (suc (suc (suc j))) a b lt at_a at_b = cc

find_data_type-find_if_example :
    find_data_type native_types 4 custom
    ≡ find_if (λ type. same type.type_id 4) (native_types ++ append_all custom)
find_data_type-find_if_example = find_data_type-find_if native_types 4 custom native_types-IsSorted

third : lower_bound native_types 7 3 0 3 ≡ 2
unfolding lower_bound
third = refl

custom_type : find_data_type native_types 4 custom ≡ some (numbered 4)
unfolding find_data_type
custom_type = refl

no_type : find_data_type native_types 2 custom ≡ none
unfolding find_data_type
no_type = refl
