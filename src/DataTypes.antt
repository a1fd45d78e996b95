-- ===== src/DataTypes.antt =====
-- DataTypeBuilder of include/open62541pp/datatype.hpp: descriptions of user structures, unions and
-- enums for the C library. The type of a member stands for itself, not for a pointer to it; a
-- pointer and a size_t have 8 bytes. An assertion that fails is `undefined` in `build`; the others
-- are conditions of the theorems. `limit` is what the member `padding` of the C library's
-- UA_DataTypeMember is below: 2 ^ 8, and from v1.3 on, where it has 6 bits, 2 ^ 6.
pub mod Order
pub mod Layout
pub mod Flags
pub mod Search
use open62541pp.Prelude.{
  ℕ, ◌+◌, ◌-◌, ◌%◌, ◌^◌, Bool, true, false, not, ◌||◌, if◌then◌else◌, ltb, Option, none, some, List,
  [], ◌∷◌, ◌++◌, map, length,
}
use open62541pp.Prelude.Text.{Bytes}
use open62541pp.Outcome.{Outcome, ok, undefined}

pub data TypeKind : Type 0 where
  enum_kind structure_kind optstruct_kind union_kind : TypeKind

-- What the builder reads of the UA_DataType of a field.
pub record FieldType : Type 0 where
  pub field_size : ℕ
  pub plain : Bool

pub record DataTypeMember : Type 0 where
  pub member_name : Bytes
  pub member_type : FieldType
  pub padding : ℕ
  pub is_array : Bool
  pub is_optional : Bool

pub record DataType (NodeId : Type 0) : Type 0 where
  pub type_name : Bytes
  pub type_id : NodeId
  pub binary_encoding_id : NodeId
  pub mem_size : ℕ
  pub type_kind : TypeKind
  pub pointer_free : Bool
  pub overlayable : Bool
  pub members : List DataTypeMember

pub record Field : Type 0 where
  pub size : ℕ
  pub offset : ℕ
  pub member : DataTypeMember

-- The tag type, whether the built type is a structure, is fixed when the builder is created.
pub record DataTypeBuilder (NodeId : Type 0) : Type 0 where
  pub is_struct : Bool
  pub data_type : DataType NodeId
  pub fields : List Field

-- `offset - (previous.offset + previous.memSize)` as size_t, then as uint8_t.
unfoldable pub padding_behind : ℕ → ℕ → ℕ
padding_behind end offset = (offset + 2 ^ 64 - end % 2 ^ 64) % 2 ^ 64 % 2 ^ 8

-- The comparison of std::sort; fields with the same offset do not occur in a structure.
unfoldable pub insert_field : Field → List Field → List Field
insert_field f [] = f ∷ []
insert_field f (g ∷ fields) =
    if ltb g.offset f.offset then g ∷ insert_field f fields else f ∷ g ∷ fields

unfoldable pub sort_fields : List Field → List Field
unfolding insert_field
sort_fields [] = []
sort_fields (f ∷ fields) = insert_field f (sort_fields fields)

abbrev pub set_padding : ℕ → Field → Field
set_padding padding f = record f { member = record f.member { padding = padding } }

-- The loop over the sorted fields of a structure; `previous` is the end of the one before.
unfoldable pub set_paddings : ℕ → Option ℕ → List Field → List Field
unfolding padding_behind
set_paddings limit previous [] = []
set_paddings limit previous (f ∷ fields) =
    set_padding
      (elim previous [ none ↦ f.offset % 2 ^ 8 | some end ↦ padding_behind end f.offset ] % limit) f
    ∷ set_paddings limit (some (f.offset + f.size)) fields

module _ {NodeId : Type 0} where
  abbrev pub described : Bytes → NodeId → NodeId → ℕ → TypeKind → DataType NodeId
  described name id encoding size kind = record {
    type_name = name;
    type_id = id;
    binary_encoding_id = encoding;
    mem_size = size;
    type_kind = kind;
    pointer_free = true;
    overlayable = false;
    members = [];
  }

  unfoldable pub create_enum : Bytes → NodeId → NodeId → ℕ → DataTypeBuilder NodeId
  create_enum name id encoding size = record {
    is_struct = false;
    data_type = described name id encoding size enum_kind;
    fields = [];
  }

  unfoldable pub create_structure : Bytes → NodeId → NodeId → ℕ → DataTypeBuilder NodeId
  create_structure name id encoding size = record {
    is_struct = true;
    data_type = described name id encoding size structure_kind;
    fields = [];
  }

  unfoldable pub create_union : Bytes → NodeId → NodeId → ℕ → DataTypeBuilder NodeId
  create_union name id encoding size = record {
    is_struct = false;
    data_type = described name id encoding size union_kind;
    fields = [];
  }

  abbrev clear_pointer_free : Bool → DataType NodeId → DataType NodeId
  clear_pointer_free pointers dt = if pointers then record dt { pointer_free = false } else dt

  -- addField of a plain member: `pointer` is std::is_pointer_v<TMember>.
  unfoldable pub add_field :
      Bytes → ℕ → Bool → FieldType → DataTypeBuilder NodeId → DataTypeBuilder NodeId
  add_field name offset pointer type b =
      let dt = if pointer then record b.data_type { type_kind = optstruct_kind } else b.data_type in
      record b {
        data_type = clear_pointer_free (pointer || not type.plain) dt;
        fields =
            b.fields
            ++ (record {
              size = if pointer then 8 else type.field_size;
              offset = offset;
              member = record {
                member_name = name;
                member_type = type;
                padding = 0;
                is_array = false;
                is_optional = pointer;
              };
            }
                ∷ []);
      }

  -- addField of an array: a size and, right behind it, a pointer.
  unfoldable pub add_array_field :
      Bytes → ℕ → FieldType → DataTypeBuilder NodeId → DataTypeBuilder NodeId
  add_array_field name offset_size type b = record b {
    data_type = clear_pointer_free true b.data_type;
    fields =
        b.fields
        ++ (record {
          size = 8 + 8;
          offset = offset_size;
          member = record {
            member_name = name;
            member_type = type;
            padding = 0;
            is_array = true;
            is_optional = false;
          };
        }
            ∷ []);
  }

  -- addUnionField; the offset is that of the union behind the switch field.
  unfoldable pub add_union_field :
      ℕ → Bytes → ℕ → Bool → FieldType → DataTypeBuilder NodeId → DataTypeBuilder NodeId
  add_union_field limit name offset pointer type b = record b {
    data_type = clear_pointer_free (pointer || not type.plain) b.data_type;
    fields =
        b.fields
        ++ (record {
          size = if pointer then 8 else type.field_size;
          offset = offset;
          member = record {
            member_name = name;
            member_type = type;
            padding = offset % 2 ^ 8 % limit;
            is_array = false;
            is_optional = pointer;
          };
        }
            ∷ []);
  }

  -- setMembers asserts that there are fewer than 256 members.
  unfoldable pub build : ℕ → DataTypeBuilder NodeId → Outcome (DataType NodeId)
  unfolding sort_fields set_paddings
  build limit b =
      let sorted = sort_fields b.fields in
      let padded = if b.is_struct then set_paddings limit none sorted else sorted in
      if ltb (length padded) (2 ^ 8)
      then ok (record b.data_type { members = map (λ f. f.member) padded })
      else undefined
