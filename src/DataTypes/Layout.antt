-- ===== src/DataTypes/Layout.antt =====
-- The paddings of a built structure give back the offsets of its fields.
use mathlib.Core.List.{Permᴰ}
use native.Mathlib.Nat.{mod-eq_of_lt}
use open62541pp.Prelude.{
  ℕ, suc, ◌+◌, ◌-◌, ◌%◌, ◌^◌, ◌≤◌, ◌<◌, ◌≡◌, refl, ap, true, lt→ltb, Option, none, some, List, [],
  ◌∷◌, map, length, arith,
}
use open62541pp.Outcome.{ok}
use open62541pp.DataTypes.{
  DataType, DataTypeMember, Field, DataTypeBuilder, padding_behind, set_paddings, build,
}
use open62541pp.DataTypes.Order.{FollowFrom, sort_fields-layout}

-- Where the C library finds the members: each one `padding` bytes behind the end of the one before.
-- The sizes are those of the members in memory.
unfoldable pub positions : ℕ → List DataTypeMember → List ℕ → List ℕ
positions end (m ∷ members) (size ∷ sizes) =
    (end + m.padding) ∷ positions (end + m.padding + size) members sizes
positions end _ _ = []

abbrev pub sizes_of : List Field → List ℕ
sizes_of fields = map (λ f. f.size) fields

abbrev pub offsets_of : List Field → List ℕ
offsets_of fields = map (λ f. f.offset) fields

abbrev pub members_of : List Field → List DataTypeMember
members_of fields = map (λ f. f.member) fields

padding_behind-exact :
    (limit end offset : ℕ)
    → limit ≤ 2 ^ 8
    → end ≤ offset
    → offset < end + limit
    → offset < 2 ^ 64
    → end + padding_behind end offset % limit ≡ offset
unfolding padding_behind
padding_behind-exact limit end offset narrow behind near small =
    let gap : (offset + 2 ^ 64 - end % 2 ^ 64) % 2 ^ 64 % 2 ^ 8 ≡ offset - end = omega arith in
    let fits : (offset - end) % limit ≡ offset - end = mod-eq_of_lt (omega arith) in
    rw (gap, fits) (omega arith)

positions-behind :
    (limit end : ℕ) (fields : List Field)
    → limit ≤ 2 ^ 8
    → FollowFrom limit end fields
    → positions end (members_of (set_paddings limit (some end) fields)) (sizes_of fields)
      ≡ offsets_of fields
unfolding positions set_paddings
positions-behind limit end [] narrow follow = refl
positions-behind limit end (f ∷ fields) narrow (behind, near, sized, small, follow) =
    rw (padding_behind-exact limit end f.offset narrow behind near (omega arith)) (
      ap (λ rest. f.offset ∷ rest)
        (positions-behind limit (f.offset + f.size) fields narrow follow))

-- A structure starts with a gap of its own.
positions-first :
    (limit : ℕ) (fields : List Field)
    → limit ≤ 2 ^ 8
    → FollowFrom limit 0 fields
    → positions 0 (members_of (set_paddings limit none fields)) (sizes_of fields)
      ≡ offsets_of fields
unfolding positions set_paddings
positions-first limit [] narrow follow = refl
positions-first limit (f ∷ fields) narrow (behind, near, sized, small, follow) =
    let gap : f.offset % 2 ^ 8 ≡ f.offset = omega arith in
    let fits : f.offset % limit ≡ f.offset = mod-eq_of_lt (omega arith) in
    let start : 0 + f.offset ≡ f.offset = omega arith in
    rw (gap, fits, start)
      (ap (λ rest. f.offset ∷ rest)
        (positions-behind limit (f.offset + f.size) fields narrow follow))

abbrev clear_padding : DataTypeMember → DataTypeMember
clear_padding m = record m { padding = 0 }

abbrev pub without_paddings : List DataTypeMember → List DataTypeMember
without_paddings members = map clear_padding members

without_paddings-set_paddings :
    (limit : ℕ) (previous : Option ℕ) (fields : List Field)
    → without_paddings (members_of (set_paddings limit previous fields))
      ≡ without_paddings (members_of fields)
unfolding set_paddings
without_paddings-set_paddings limit previous [] = refl
without_paddings-set_paddings limit previous (f ∷ fields) =
    ap (λ rest. clear_padding f.member ∷ rest)
      (without_paddings-set_paddings limit (some (f.offset + f.size)) fields)

pub length-set_paddings :
    (limit : ℕ) (previous : Option ℕ) (fields : List Field)
    → length (set_paddings limit previous fields) ≡ length fields
unfolding set_paddings
length-set_paddings limit previous [] = refl
length-set_paddings limit previous (f ∷ fields) =
    ap suc (length-set_paddings limit (some (f.offset + f.size)) fields)

-- A structure whose fields lie in memory one behind the other as in `layout`, with gaps that are
-- smaller than what the C library can store as padding, is described right in whatever order its
-- fields were added: with fewer than 256 fields `build` returns a type that has the members of
-- `layout` in this order, but for their paddings, and with these the C library finds each at the
-- offset of its field.
pub build-positions :
    {NodeId : Type 0} (limit : ℕ) (b : DataTypeBuilder NodeId) (layout : List Field)
    → limit ≤ 2 ^ 8
    → b.is_struct ≡ true
    → Permᴰ layout b.fields
    → FollowFrom limit 0 layout
    → length layout < 2 ^ 8
    → (d : DataType NodeId) × (build limit b ≡ ok d)
      × (positions 0 d.members (sizes_of layout) ≡ offsets_of layout)
      × (without_paddings d.members ≡ without_paddings (members_of layout))
unfolding build
build-positions limit b layout narrow struct perm follow few = (
  record b.data_type { members = members_of (set_paddings limit none layout) },
  rw
      (
        build,
        sort_fields-layout limit 0 layout b.fields follow perm,
        struct,
        length-set_paddings limit none layout,
        lt→ltb (length layout) (2 ^ 8) few,
      )
      refl,
  positions-first limit layout narrow follow,
  without_paddings-set_paddings limit none layout,
)
