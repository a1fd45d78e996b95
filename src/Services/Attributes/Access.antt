-- ===== src/Services/Attributes/Access.antt =====
-- Reading and writing the attributes of nodes: `fromDataValue` and `toDataValue` of the attribute
-- handlers, and `readAttributeImpl` and `writeAttributeImpl` of
-- include/open62541pp/services/attribute.hpp, which the functions of services/attribute_highlevel.hpp
-- call with an attribute id each.
use open62541pp.Prelude.{ℕ, none, some}
use open62541pp.Status.{StatusCodes}
use open62541pp.Outcome.{Outcome, ok, ◌>>=◌}
use open62541pp.Result.{Result, from_value, from_bad}
use open62541pp.Services.Data.{NodeId, DataValue, neither, both}
use open62541pp.Services.Connection.{Connection}
use open62541pp.Services.Attributes.{
  AttributeId, value, to_number, ValueOf, get_variant, of_variant,
}
use open62541pp.Services.Attributes.Handlers.{attribute_handler}

module _ ⦃c : StatusCodes⦄ where
  -- `transform` and `andThen`, of a callable that may have undefined behaviour.
  unfoldable pub transform_call {ℓ κ} :
      {A : Type ℓ} {B : Type κ} → Result A → (A → Outcome B) → Outcome (Result B)
  unfolding from_value from_bad
  transform_call r func = elim r.maybe_value [
    | none ↦ ok (from_bad (record { code = r.code }))
    | some v ↦ func v >>= λ b. ok (from_value b r.code)
  ]

  unfoldable pub and_then_call {ℓ κ} :
      {A : Type ℓ} {B : Type κ} → Result A → (A → Outcome (Result B)) → Outcome (Result B)
  unfolding from_bad
  and_then_call r func = elim r.maybe_value [
    | none ↦ ok (from_bad (record { code = r.code }))
    | some v ↦ func v
  ]

  unfoldable pub from_data_value :
      (attribute : AttributeId) → DataValue → Outcome (Result (ValueOf attribute))
  unfolding transform_call get_variant attribute_handler
  from_data_value attribute dv =
      transform_call (get_variant dv) ((attribute_handler attribute).from_variant)

  unfoldable pub to_data_value : (attribute : AttributeId) → ValueOf attribute → DataValue
  unfolding attribute_handler
  to_data_value attribute x = of_variant ((attribute_handler attribute).to_variant x)

  module _ {A S : Type 0} (connection : Connection A S) where
    unfoldable pub read_attribute_impl :
        (attribute : AttributeId) → NodeId → S → S × Outcome (Result (ValueOf attribute))
    unfolding to_number and_then_call from_data_value
    read_attribute_impl attribute id s =
        let (s', read) = connection.read_attribute id (to_number attribute) neither s in
        (s', read >>= λ result. and_then_call result (from_data_value attribute))

    unfoldable pub write_attribute_impl :
        (attribute : AttributeId) → NodeId → ValueOf attribute → S → S × Outcome ℕ
    unfolding to_number to_data_value
    write_attribute_impl attribute id x =
        connection.write_attribute id (to_number attribute) (to_data_value attribute x)

    unfoldable pub read_data_value : NodeId → S → S × Outcome (Result DataValue)
    unfolding to_number
    read_data_value id = connection.read_attribute id (to_number value) both

    unfoldable pub write_data_value : NodeId → DataValue → S → S × Outcome ℕ
    unfolding to_number
    write_data_value id dv = connection.write_attribute id (to_number value) dv
