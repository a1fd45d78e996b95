-- ===== src/DataTypes/Flags.antt =====
-- What a built structure says of itself agrees with its members.
use open62541pp.Prelude.{
  ℕ, suc, ◌<◌, ltb, lt→ltb, length, length-append, ◌+◌, ◌%◌, ◌^◌, ◌≡◌, refl, sym, ap, ◌∙◌, Bool,
  true, false, not, ◌||◌, anyb, Option, none, some, List, [], ◌∷◌, ◌++◌, map, arith,
}
use open62541pp.Prelude.Text.{Bytes}
use open62541pp.Outcome.{ok}
use open62541pp.DataTypes.Layout.{length-set_paddings}
use open62541pp.DataTypes.{
  TypeKind, structure_kind, optstruct_kind, FieldType, DataType, DataTypeMember, Field,
  DataTypeBuilder, insert_field, sort_fields, padding_behind, set_paddings, create_structure,
  add_field, add_array_field, build,
}

-- A call of addField for a structure.
pub data Addition : Type 0 where
  plain_field : Bytes → ℕ → Bool → FieldType → Addition
  array_field : Bytes → ℕ → FieldType → Addition

module _ {NodeId : Type 0} where
  unfoldable pub add : Addition → DataTypeBuilder NodeId → DataTypeBuilder NodeId
  unfolding add_field add_array_field
  add (plain_field name offset pointer type) b = add_field name offset pointer type b
  add (array_field name offset type) b = add_array_field name offset type b

  unfoldable pub add_all : List Addition → DataTypeBuilder NodeId → DataTypeBuilder NodeId
  unfolding add
  add_all [] b = b
  add_all (a ∷ additions) b = add_all additions (add a b)

-- A member that holds a pointer, or may.
abbrev pub has_pointer : DataTypeMember → Bool
has_pointer m = m.is_array || (m.is_optional || not m.member_type.plain)

abbrev pub optional : DataTypeMember → Bool
optional m = m.is_optional

length-insert_field :
    (f : Field) (fields : List Field) → length (insert_field f fields) ≡ suc (length fields)
unfolding insert_field
length-insert_field f [] = refl
length-insert_field f (g ∷ fields) = ground (arith, length-insert_field f fields)

length-sort_fields : (fields : List Field) → length (sort_fields fields) ≡ length fields
unfolding sort_fields
length-sort_fields [] = refl
length-sort_fields (f ∷ fields) =
    length-insert_field f (sort_fields fields) ∙ ap suc (length-sort_fields fields)

module _ (p : DataTypeMember → Bool) where
  any_field : List Field → Bool
  any_field fields = anyb (λ f. p f.member) fields

  anyb-append :
      (fields : List Field) (f : Field)
      → any_field (fields ++ (f ∷ [])) ≡ (any_field fields || p f.member)
  unfolding any_field
  anyb-append [] f = ground arith
  anyb-append (g ∷ fields) f = ground (arith, anyb-append fields f)

  anyb-insert_field :
      (f : Field) (fields : List Field)
      → any_field (insert_field f fields) ≡ (p f.member || any_field fields)
  unfolding any_field insert_field
  anyb-insert_field f [] = refl
  anyb-insert_field f (g ∷ fields) = ground (arith, anyb-insert_field f fields)

  anyb-sort_fields : (fields : List Field) → any_field (sort_fields fields) ≡ any_field fields
  unfolding any_field sort_fields
  anyb-sort_fields [] = refl
  anyb-sort_fields (f ∷ fields) =
      anyb-insert_field f (sort_fields fields) ∙ ap (λ b. p f.member || b) (anyb-sort_fields fields)

  anyb-set_paddings :
      (limit : ℕ) (previous : Option ℕ) (fields : List Field)
      → ((n : ℕ) (m : DataTypeMember) → p (record m { padding = n }) ≡ p m)
      → anyb p (map (λ f. f.member) (set_paddings limit previous fields)) ≡ any_field fields
  unfolding any_field set_paddings
  anyb-set_paddings limit previous [] same = refl
  anyb-set_paddings limit none (f ∷ fields) same =
      rw (same (f.offset % 2 ^ 8 % limit) f.member)
        (ap (λ b. p f.member || b) (anyb-set_paddings limit (some (f.offset + f.size)) fields same))
  anyb-set_paddings limit (some end) (f ∷ fields) same =
      rw (same (padding_behind end f.offset % limit) f.member)
        (ap (λ b. p f.member || b) (anyb-set_paddings limit (some (f.offset + f.size)) fields same))

abbrev pub kind_for : Bool → TypeKind
kind_for true = optstruct_kind
kind_for false = structure_kind

module _ {NodeId : Type 0} where
  abbrev AgreesWith : DataTypeBuilder NodeId → Type 0
  AgreesWith b =
      (b.is_struct ≡ true)
      × (b.data_type.pointer_free ≡ not (any_field has_pointer b.fields))
      × (b.data_type.type_kind ≡ kind_for (any_field optional b.fields))

  add-AgreesWith : (a : Addition) (b : DataTypeBuilder NodeId) → AgreesWith b → AgreesWith (add a b)
  unfolding add add_field add_array_field
  add-AgreesWith (plain_field name offset pointer type) b (struct, free, kind) = (
    struct,
    rw (anyb-append has_pointer b.fields) (ground (arith, free)),
    rw (anyb-append optional b.fields) (ground (arith, kind)),
  )
  add-AgreesWith (array_field name offset type) b (struct, free, kind) = (
    struct,
    rw (anyb-append has_pointer b.fields) (ground arith),
    rw (anyb-append optional b.fields) (ground (arith, kind)),
  )

  add_all-AgreesWith :
      (additions : List Addition) (b : DataTypeBuilder NodeId)
      → AgreesWith b
      → AgreesWith (add_all additions b)
  unfolding add_all
  add_all-AgreesWith [] b agrees = agrees
  add_all-AgreesWith (a ∷ additions) b agrees =
      add_all-AgreesWith additions (add a b) (add-AgreesWith a b agrees)

  length-add :
      (a : Addition) (b : DataTypeBuilder NodeId) → length (add a b).fields ≡ suc (length b.fields)
  unfolding add add_field add_array_field
  length-add (plain_field name offset pointer type) b = omega (arith, length-append b.fields _)
  length-add (array_field name offset type) b = omega (arith, length-append b.fields _)

  length-add_all :
      (additions : List Addition) (b : DataTypeBuilder NodeId)
      → length (add_all additions b).fields ≡ length additions + length b.fields
  unfolding add_all
  length-add_all [] b = omega arith
  length-add_all (a ∷ additions) b =
      omega (arith, length-add_all additions (add a b), length-add a b)

  -- A structure that is built from any fields, fewer than 256, is called free of pointers exactly if
  -- none of its members is an array or optional or has a type with pointers, and has the kind of a
  -- structure with optional fields exactly if one of its members is optional.
  pub build-flags :
      (limit : ℕ) (additions : List Addition) (name : Bytes) (id encoding : NodeId) (size : ℕ)
      → length additions < 2 ^ 8
      → (d : DataType NodeId) × (build limit
            (add_all additions (create_structure name id encoding size))
          ≡ ok d)
        × (d.pointer_free ≡ not (anyb has_pointer d.members))
        × (d.type_kind ≡ kind_for (anyb optional d.members))
  unfolding build create_structure any_field
  build-flags limit additions name id encoding size few =
      let start = create_structure name id encoding size in
      let b = add_all additions start in
      let (struct, free, kind) = add_all-AgreesWith additions start (refl, refl, refl) in
      let padded = set_paddings limit none (sort_fields b.fields) in
      let fits : ltb (length padded) (2 ^ 8) ≡ true = lt→ltb _ _ (
        omega (
          arith,
          length-set_paddings limit none (sort_fields b.fields),
          length-sort_fields b.fields,
          length-add_all additions start,
        )) in
      let members =
        λ (p : DataTypeMember → Bool)
            (same : (n : ℕ) (m : DataTypeMember) → p (record m { padding = n }) ≡ p m).
          anyb-set_paddings p limit none (sort_fields b.fields) same
          ∙ anyb-sort_fields p b.fields in
      (
        record b.data_type { members = map (λ f. f.member) padded },
        rw (build, struct, fits) refl,
        free ∙ ap not (sym (members has_pointer (λ n m. refl))),
        kind ∙ ap kind_for (sym (members optional (λ n m. refl))),
      )
