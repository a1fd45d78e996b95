-- ===== src/Tests/Builders.antt =====
-- Examples of the data type builder.
use mathlib.Core.List.{Permᴰ}
use open62541pp.Prelude.{
  ℕ, ◌^◌, map, Bool, none, ◌≡◌, refl, true, false, not, anyb, List, [], ◌∷◌, arith,
}
use open62541pp.Prelude.Text.{Bytes, codes}
use open62541pp.Outcome.{ok}
use open62541pp.DataTypes.{
  FieldType, DataType, DataTypeMember, Field, DataTypeBuilder, padding_behind, set_paddings,
  create_structure, add_field, add_array_field, build,
}
use open62541pp.DataTypes.Order.{FollowFrom}
use open62541pp.DataTypes.Layout.{
  positions, sizes_of, offsets_of, members_of, without_paddings, build-positions,
}
use open62541pp.DataTypes.Flags.{
  Addition, plain_field, array_field, add_all, add, has_pointer, optional, kind_for, build-flags,
}

abbrev byte : FieldType
byte = record { field_size = 1; plain = true }

abbrev double : FieldType
double = record { field_size = 8; plain = true }

-- struct { uint8_t a; double b; size_t n; double* c; }, added in another order.
abbrev additions : List Addition
additions =
    plain_field (codes "b") 8 false double
    ∷ array_field (codes "c") 16 double
    ∷ plain_field (codes "a") 0 false byte
    ∷ []

abbrev point : DataTypeBuilder ℕ
unfolding add_all add add_field add_array_field create_structure
point = add_all additions (create_structure (codes "Point") 1 2 32)

point-struct : point.is_struct ≡ true
unfolding add_all add add_field add_array_field create_structure
point-struct = refl

abbrev member_of : Bytes → Bool → FieldType → DataTypeMember
member_of name array type = record {
  member_name = name;
  member_type = type;
  padding = 0;
  is_array = array;
  is_optional = false;
}

abbrev layout : List Field
layout =
    record { size = 1; offset = 0; member = member_of (codes "a") false byte }
    ∷ record { size = 8; offset = 8; member = member_of (codes "b") false double }
    ∷ record { size = 16; offset = 16; member = member_of (codes "c") true double }
    ∷ []

added : Permᴰ layout point.fields
unfolding add_all add add_field add_array_field create_structure
added = Permᴰ.trans (Permᴰ.swap refl refl) (Permᴰ.cons refl (Permᴰ.swap refl refl))

layout-follows : FollowFrom (2 ^ 6) 0 layout
layout-follows = (
  omega arith,
  omega arith,
  omega arith,
  omega arith,
  (
    omega arith,
    omega arith,
    omega arith,
    omega arith,
    (omega arith, omega arith, omega arith, omega arith, tt),
  ),
)

build-positions_example :
    (d : DataType ℕ) × (build (2 ^ 6) point ≡ ok d)
    × (positions 0 d.members (sizes_of layout) ≡ offsets_of layout)
    × (without_paddings d.members ≡ without_paddings (members_of layout))
build-positions_example =
    build-positions (2 ^ 6) point layout (omega arith) point-struct added layout-follows
      (omega arith)

build-flags_example :
    (d : DataType ℕ) × (build (2 ^ 6) (add_all additions (create_structure (codes "Point") 1 2 32))
      ≡ ok d)
    × (d.pointer_free ≡ not (anyb has_pointer d.members))
    × (d.type_kind ≡ kind_for (anyb optional d.members))
build-flags_example = build-flags (2 ^ 6) additions (codes "Point") 1 2 32 (omega arith)

-- A gap of 70 bytes does not fit the 6 bits that the C library has for it from v1.3 on.
wide_gap :
    map
      (λ f. f.member.padding)
      (set_paddings (2 ^ 6) none (
        record { size = 1; offset = 0; member = member_of (codes "a") false byte }
        ∷ record { size = 1; offset = 71; member = member_of (codes "b") false byte }
        ∷ []))
    ≡ 0 ∷ 6 ∷ []
unfolding set_paddings padding_behind
wide_gap = refl
