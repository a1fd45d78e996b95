-- ===== src/DataTypes/Search/Linear.antt =====
-- The binary search finds what a linear search finds.
use open62541pp.Prelude.{
  sym, ℕ, zero, suc, ◌+◌, ◌-◌, ◌/◌, ◌≤◌, ◌<◌, ◌==◌, ◌≡◌, refl, ap, ◌∙◌, inl, inr, true, false,
  if◌then◌else◌, Bool-cases, Option, none, some, Option-cases, List, [], ◌∷◌, ◌++◌, length,
  get_elem?, get_elem?_lt, arith, dec_lt,
}
use open62541pp.Map.Order.{Ord, same}
use open62541pp.DataTypes.{DataType}
use open62541pp.DataTypes.Search.{
  find_if, lower_bound, find_native_data_type, find_custom_data_type, find_data_type,
}
use open62541pp.DataTypes.Search.FindIf.{
  first_of, get_elem?-length, get_elem?-none_le, find_if-none, find_if-some, find_if-append,
}

module _ {K : Type 0} ⦃o : Ord K⦄ where
  -- The types of a table stand in ascending order of their ids.
  abbrev pub IsSorted : List (DataType K) → Type 0
  IsSorted types =
      (i j : ℕ) (a b : DataType K)
      → i < j
      → get_elem? types i ≡ some a
      → get_elem? types j ≡ some b
      → o.ltb a.type_id b.type_id ≡ true

  module _ (types : List (DataType K)) (id : K) where
    abbrev Below : ℕ → Type 0
    Below r =
        (i : ℕ) (a : DataType K) → i < r → get_elem? types i ≡ some a → o.ltb a.type_id id ≡ true

    abbrev Above : ℕ → Type 0
    Above r =
        (i : ℕ) (a : DataType K) → r ≤ i → get_elem? types i ≡ some a → o.ltb a.type_id id ≡ false

    -- A type below the id, and all before it; a type not below it, and all behind it.
    Below-suc :
        (r : ℕ) (b : DataType K)
        → IsSorted types
        → get_elem? types r ≡ some b
        → o.ltb b.type_id id ≡ true
        → Below (suc r)
    Below-suc r b sorted found less i a lt at = elim (dec_lt i r) [
      | yes before ↦ o.trans a.type_id b.type_id id (sorted i r a b before at found) less
      | no other ↦ at_r (omega arith)
    ]
      where
        at_r : i ≡ r → o.ltb a.type_id id ≡ true
        at_r e = cc

    Above-of :
        (r : ℕ) (b : DataType K)
        → IsSorted types
        → get_elem? types r ≡ some b
        → o.ltb b.type_id id ≡ false
        → Above r
    Above-of r b sorted found more i a ge at = elim (dec_lt r i) [
      | yes behind ↦ elim (Bool-cases (o.ltb a.type_id id)) [
        | inr greater ↦ greater
        | inl less ↦
            let below = o.trans b.type_id a.type_id id (sorted r i b a behind found at) less in cc
      ]
      | no other ↦ at_r (omega arith)
    ]
      where
        at_r : i ≡ r → o.ltb a.type_id id ≡ false
        at_r e = cc

    lower_bound-splits :
        (fuel first count : ℕ)
        → IsSorted types
        → count ≤ fuel
        → first + count ≤ length types
        → Below first
        → Above (first + count)
        → Below (lower_bound types id fuel first count)
          × Above (lower_bound types id fuel first count)
    unfolding lower_bound
    lower_bound-splits zero first count sorted enough fits below above =
        (below, λ i a ge. above i a (omega (arith, ge)))
    lower_bound-splits (suc fuel) first count sorted enough fits below above =
        elim (Bool-cases (count == 0)) [
          | inl empty ↦ rw (lower_bound, empty) (below, λ i a ge. above i a (ground (arith, ge)))
          | inr full ↦
              let step = count / 2 in
              let (b, found) = get_elem?_lt types (first + step) (ground arith) in
              elim (Bool-cases (o.ltb b.type_id id)) [
                | inl less ↦
                    rw (lower_bound, full, found, less)
                      (lower_bound-splits fuel (first + step + 1) (count - (step + 1)) sorted
                        (ground arith) (ground arith)
                        (λ i a lt.
                          Below-suc (first + step) b sorted found less i a (omega (arith, lt)))
                        (λ i a ge. above i a (ground (arith, ge))))
                | inr more ↦
                    rw (lower_bound, full, found, more)
                      (lower_bound-splits fuel first step sorted (ground arith) (ground arith) below
                        (λ i a ge. Above-of (first + step) b sorted found more i a ge))
              ]
        ]

    Below-differs :
        (r : ℕ)
        → Below r
        → (i : ℕ) (a : DataType K) → i < r
        → get_elem? types i ≡ some a
        → same a.type_id id ≡ false
    Below-differs r below i a lt at = rw (below i a lt at)

    -- Behind a type that is not below the id and does not have it, no type has it.
    Above-differs :
        (r : ℕ) (a : DataType K)
        → IsSorted types
        → Above r
        → get_elem? types r ≡ some a
        → same a.type_id id ≡ false
        → (i : ℕ) (b : DataType K) → r ≤ i
        → get_elem? types i ≡ some b
        → same b.type_id id ≡ false
    Above-differs r a sorted above found miss i b ge at = elim (dec_lt r i) [
      | yes behind ↦ greater (sorted r i a b behind found at) (above r a (omega arith) found)
      | no other ↦ at_r (omega arith)
    ]
      where
        greater :
            o.ltb a.type_id b.type_id ≡ true
            → o.ltb a.type_id id ≡ false
            → same b.type_id id ≡ false
        greater less more = ground (arith, o.trans id a.type_id b.type_id, miss, less, more)

        same_type : i ≡ r → a ≡ b
        same_type e = cc

        at_r : i ≡ r → same b.type_id id ≡ false
        at_r e = rw (← same_type e) miss

    -- What is found at the position where the types stop to be below the id.
    abbrev at_position : Option (DataType K) → Option (DataType K)
    at_position found = elim found [
      | none ↦ none
      | some type ↦ if same type.type_id id then some type else none
    ]

    at_position-find_if :
        (r : ℕ)
        → IsSorted types
        → Below r
        → Above r
        → at_position (get_elem? types r) ≡ find_if (λ type. same type.type_id id) types
    at_position-find_if r sorted below above = elim (Option-cases (get_elem? types r)) [
      | inl missing ↦ rw missing (
          sym (
            find_if-none _ types (λ i a at. elim (dec_lt i r) [
              | yes lt ↦ Below-differs r below i a lt at
              | no ge ↦ absurd (cc (at, get_elem?-none_le types r i missing (omega arith)))
            ])))
      | inr (a, found) ↦ elim (Bool-cases (same a.type_id id)) [
        | inl hit ↦
            rw (found, hit) (sym (find_if-some _ types r a found hit (Below-differs r below)))
        | inr miss ↦
            rw (found, miss)
              (sym (
                find_if-none _ types (λ i b at. elim (dec_lt i r) [
                  | yes lt ↦ Below-differs r below i b lt at
                  | no ge ↦ Above-differs r a sorted above found miss i b (omega arith) at
                ])))
      ]
    ]

    find_native_data_type-find_if :
        IsSorted types
        → find_native_data_type types id ≡ find_if (λ type. same type.type_id id) types
    unfolding find_native_data_type
    find_native_data_type-find_if sorted =
        let (below, above) =
          lower_bound-splits (length types) 0 (length types) sorted (omega arith) (omega arith)
            (λ i a lt. absurd (omega (arith, lt)))
            (λ i a ge at. absurd (cc (at, get_elem?-length types i (omega (arith, ge))))) in
        at_position-find_if (lower_bound types id (length types) 0 (length types)) sorted below
          above

  abbrev pub append_all : List (List (DataType K)) → List (DataType K)
  append_all [] = []
  append_all (types ∷ next) = types ++ append_all next

  find_custom_data_type-find_if :
      (id : K) (custom : List (List (DataType K)))
      → find_custom_data_type id custom ≡ find_if (λ type. same type.type_id id) (append_all custom)
  unfolding find_custom_data_type find_if
  find_custom_data_type-find_if id [] = refl
  find_custom_data_type-find_if id (types ∷ next) =
      ap (first_of (find_if (λ type. same type.type_id id) types))
        (find_custom_data_type-find_if id next)
      ∙ sym (find_if-append (λ type. same type.type_id id) types (append_all next))

  -- With a table of native types in ascending order of the ids, `findDataType` returns the first
  -- type with the id in the native table and the custom tables one after the other, and null when
  -- there is none: the binary search finds what a linear search finds.
  pub find_data_type-find_if :
      (native_types : List (DataType K)) (id : K) (custom : List (List (DataType K)))
      → IsSorted native_types
      → find_data_type native_types id custom
        ≡ find_if (λ type. same type.type_id id) (native_types ++ append_all custom)
  unfolding find_data_type
  find_data_type-find_if native_types id custom sorted =
      ap (λ found. first_of found (find_custom_data_type id custom))
        (find_native_data_type-find_if native_types id sorted)
      ∙ ap (first_of (find_if (λ type. same type.type_id id) native_types))
          (find_custom_data_type-find_if id custom)
      ∙ sym (find_if-append (λ type. same type.type_id id) native_types (append_all custom))
