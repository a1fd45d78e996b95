-- ===== src/Services/Attributes.antt =====
-- The attributes of nodes: their numbers and types, and `getVariant`, of
-- include/open62541pp/services/detail/attribute_handler.hpp and include/open62541pp/common.hpp.
pub mod Handlers
pub mod Access
pub mod Roundtrip
use open62541pp.Prelude.{ℕ, Bool, true, not, if◌then◌else◌, List}
use open62541pp.Status.{StatusCodes, is_bad, good, bad_unexpected_error}
use open62541pp.Result.{Result, from_value, from_bad}
use open62541pp.Services.Data.{NodeId, QualifiedName, LocalizedText, Variant, DataValue}

-- The attributes with a handler for both directions. NodeClass is only read.
pub data AttributeId : Type 0 where
  node_id_attribute browse_name display_name description write_mask user_write_mask is_abstract
        symmetric inverse_name contains_no_loops event_notifier value data_type value_rank
        array_dimensions access_level user_access_level minimum_sampling_interval historizing
        executable user_executable data_type_definition :
      AttributeId

unfoldable pub to_number : AttributeId → ℕ
to_number node_id_attribute = 1
to_number browse_name = 3
to_number display_name = 4
to_number description = 5
to_number write_mask = 6
to_number user_write_mask = 7
to_number is_abstract = 8
to_number symmetric = 9
to_number inverse_name = 10
to_number contains_no_loops = 11
to_number event_notifier = 12
to_number value = 13
to_number data_type = 14
to_number value_rank = 15
to_number array_dimensions = 16
to_number access_level = 17
to_number user_access_level = 18
to_number minimum_sampling_interval = 19
to_number historizing = 20
to_number executable = 21
to_number user_executable = 22
to_number data_type_definition = 23

-- An enumerator, and a mask of enumerators, of some enum, by the underlying number.
pub record Enum : Type 0 where
  pub underlying : ℕ

pub record Bitmask : Type 0 where
  pub mask : ℕ

-- `AttributeHandler<Attribute>::Type`
abbrev pub ValueOf : AttributeId → Type 0
ValueOf node_id_attribute = NodeId
ValueOf browse_name = QualifiedName
ValueOf display_name = LocalizedText
ValueOf description = LocalizedText
ValueOf write_mask = Bitmask
ValueOf user_write_mask = Bitmask
ValueOf is_abstract = Bool
ValueOf symmetric = Bool
ValueOf inverse_name = LocalizedText
ValueOf contains_no_loops = Bool
ValueOf event_notifier = Bitmask
ValueOf value = Variant
ValueOf data_type = NodeId
ValueOf value_rank = Enum
ValueOf array_dimensions = List ℕ
ValueOf access_level = Bitmask
ValueOf user_access_level = Bitmask
ValueOf minimum_sampling_interval = ℕ
ValueOf historizing = Bool
ValueOf executable = Bool
ValueOf user_executable = Bool
ValueOf data_type_definition = Variant

unfoldable pub get_variant : ⦃c : StatusCodes⦄ → DataValue → Result Variant
unfolding from_value from_bad
get_variant dv =
    if is_bad dv.status
    then from_bad (record { code = dv.status })
    else if not dv.has_value
    then from_bad (record { code = bad_unexpected_error })
    else from_value dv.value good

-- `DataValue{Variant{…}}`
abbrev pub of_variant : ⦃c : StatusCodes⦄ → Variant → DataValue
of_variant v = record { value = v; has_value = true; status = good }
