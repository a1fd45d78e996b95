-- ===== src/Services/Attributes/Handlers.antt =====
-- The attribute handlers of include/open62541pp/services/detail/attribute_handler.hpp.
use open62541pp.Prelude.{ℕ, Bool, Option, none, some, List}
use open62541pp.Outcome.{Outcome, ok, undefined, ◌>>=◌}
use open62541pp.Services.Data.{
  NodeId, QualifiedName, LocalizedText, Scalar, boolean, byte, int32, uint32, double, node_id,
  qualified_name, localized_text, Variant, scalar, uint32_array,
}
use open62541pp.Services.Attributes.{
  AttributeId, node_id_attribute, browse_name, display_name, description, write_mask,
  user_write_mask, is_abstract, symmetric, inverse_name, contains_no_loops, event_notifier, value,
  data_type, value_rank, array_dimensions, access_level, user_access_level,
  minimum_sampling_interval, historizing, executable, user_executable, data_type_definition, Enum,
  Bitmask, ValueOf,
}

-- A type that a scalar of a Variant can have: `isType<T>` with `scalar<T>`, and `Variant{T}`.
pub record Registered (T : Type 0) : Type 0 where
  pub project : Scalar → Option T
  pub inject : T → Scalar

abbrev pub Registered_bool : Registered Bool
Registered_bool = record {
  project = λ x. elim x [ boolean b ↦ some b | _ ↦ none ];
  inject = boolean;
}

abbrev pub Registered_byte : Registered ℕ
Registered_byte = record { project = λ x. elim x [ byte n ↦ some n | _ ↦ none ]; inject = byte }

abbrev pub Registered_int32 : Registered ℕ
Registered_int32 = record { project = λ x. elim x [ int32 n ↦ some n | _ ↦ none ]; inject = int32 }

abbrev pub Registered_uint32 : Registered ℕ
Registered_uint32 = record {
  project = λ x. elim x [ uint32 n ↦ some n | _ ↦ none ];
  inject = uint32;
}

abbrev pub Registered_double : Registered ℕ
Registered_double = record {
  project = λ x. elim x [ double n ↦ some n | _ ↦ none ];
  inject = double;
}

abbrev pub Registered_node_id : Registered NodeId
Registered_node_id = record {
  project = λ x. elim x [ node_id id ↦ some id | _ ↦ none ];
  inject = node_id;
}

abbrev pub Registered_qualified_name : Registered QualifiedName
Registered_qualified_name = record {
  project = λ x. elim x [ qualified_name name ↦ some name | _ ↦ none ];
  inject = qualified_name;
}

abbrev pub Registered_localized_text : Registered LocalizedText
Registered_localized_text = record {
  project = λ x. elim x [ localized_text text ↦ some text | _ ↦ none ];
  inject = localized_text;
}

-- `fromDataValue` behind `getVariant`, and `toDataValue` before the DataValue is made. An assertion
-- that fails is the outcome `undefined`.
pub record Handler (T : Type 0) : Type 0 where
  pub from_variant : Variant → Outcome T
  pub to_variant : T → Variant

unfoldable pub attribute_handler_variant : Handler Variant
attribute_handler_variant = record { from_variant = λ v. ok v; to_variant = λ v. v }

unfoldable pub attribute_handler_scalar : {T : Type 0} → Registered T → Handler T
attribute_handler_scalar registered = record {
  from_variant = λ v. elim v [
    | scalar x ↦ elim (registered.project x) [ none ↦ undefined | some t ↦ ok t ]
    | _ ↦ undefined
  ];
  to_variant = λ t. scalar (registered.inject t);
}

unfoldable pub attribute_handler_enum : Registered ℕ → Handler Enum
unfolding attribute_handler_scalar
attribute_handler_enum registered =
    let underlying = attribute_handler_scalar registered in
    record {
      from_variant = λ v. underlying.from_variant v >>= λ n. ok (record { underlying = n });
      to_variant = λ e. underlying.to_variant e.underlying;
    }

unfoldable pub attribute_handler_bitmask : Registered ℕ → Handler Bitmask
unfolding attribute_handler_scalar
attribute_handler_bitmask registered =
    let underlying = attribute_handler_scalar registered in
    record {
      from_variant = λ v. underlying.from_variant v >>= λ n. ok (record { mask = n });
      to_variant = λ b. underlying.to_variant b.mask;
    }

unfoldable pub attribute_handler_array_dimensions : Handler (List ℕ)
attribute_handler_array_dimensions = record {
  from_variant = λ v. elim v [ uint32_array dimensions ↦ ok dimensions | _ ↦ undefined ];
  to_variant = uint32_array;
}

-- The specialisations of AttributeHandler.
unfoldable pub attribute_handler : (attribute : AttributeId) → Handler (ValueOf attribute)
unfolding attribute_handler_scalar attribute_handler_enum attribute_handler_bitmask
    attribute_handler_array_dimensions attribute_handler_variant
attribute_handler node_id_attribute = attribute_handler_scalar Registered_node_id
attribute_handler browse_name = attribute_handler_scalar Registered_qualified_name
attribute_handler display_name = attribute_handler_scalar Registered_localized_text
attribute_handler description = attribute_handler_scalar Registered_localized_text
attribute_handler write_mask = attribute_handler_bitmask Registered_uint32
attribute_handler user_write_mask = attribute_handler_bitmask Registered_uint32
attribute_handler is_abstract = attribute_handler_scalar Registered_bool
attribute_handler symmetric = attribute_handler_scalar Registered_bool
attribute_handler inverse_name = attribute_handler_scalar Registered_localized_text
attribute_handler contains_no_loops = attribute_handler_scalar Registered_bool
attribute_handler event_notifier = attribute_handler_bitmask Registered_byte
attribute_handler value = attribute_handler_variant
attribute_handler data_type = attribute_handler_scalar Registered_node_id
attribute_handler value_rank = attribute_handler_enum Registered_int32
attribute_handler array_dimensions = attribute_handler_array_dimensions
attribute_handler access_level = attribute_handler_bitmask Registered_byte
attribute_handler user_access_level = attribute_handler_bitmask Registered_byte
attribute_handler minimum_sampling_interval = attribute_handler_scalar Registered_double
attribute_handler historizing = attribute_handler_scalar Registered_bool
attribute_handler executable = attribute_handler_scalar Registered_bool
attribute_handler user_executable = attribute_handler_scalar Registered_bool
attribute_handler data_type_definition = attribute_handler_variant
