-- ===== src/Services/Named.antt =====
-- The functions of include/open62541pp/services/nodemanagement.hpp that add a node of one class, for
-- any connection. The attributes are an ExtensionObject already, which detail::wrapNodeAttributes
-- makes of a pointer to them.
use open62541pp.Prelude.{ℕ, true}
use open62541pp.Prelude.Text.{Bytes}
use open62541pp.Outcome.{Outcome}
use open62541pp.Result.{Result}
use open62541pp.Services.Data.{
  NodeId, numeric, null, object_node, variable_node, method_node, object_type_node,
  variable_type_node, reference_type_node, data_type_node, view_node,
}
use open62541pp.Services.Connection.{Connection}

-- A node id of the namespace of the standard, as ObjectTypeId, VariableTypeId and ReferenceTypeId
-- list them.
abbrev pub standard : ℕ → NodeId
standard n = record { namespace_index = 0; identifier = numeric n }

abbrev pub folder_type : NodeId
folder_type = standard 61

abbrev pub property_type : NodeId
property_type = standard 68

abbrev pub has_property : NodeId
has_property = standard 46

abbrev pub has_modelling_rule : NodeId
has_modelling_rule = standard 37

module _ {A S : Type 0} (connection : Connection A S) where
  unfoldable pub add_object :
      NodeId → NodeId → Bytes → A → NodeId → NodeId → S → S × Outcome (Result NodeId)
  add_object parent_id id browse_name attributes object_type reference_type =
      connection.add_node object_node parent_id id browse_name attributes object_type reference_type

  unfoldable pub add_folder : NodeId → NodeId → Bytes → A → NodeId → S → S × Outcome (Result NodeId)
  unfolding add_object
  add_folder parent_id id browse_name attributes reference_type =
      add_object parent_id id browse_name attributes folder_type reference_type

  unfoldable pub add_variable :
      NodeId → NodeId → Bytes → A → NodeId → NodeId → S → S × Outcome (Result NodeId)
  add_variable parent_id id browse_name attributes variable_type reference_type =
      connection.add_node variable_node parent_id id browse_name attributes variable_type
        reference_type

  unfoldable pub add_property : NodeId → NodeId → Bytes → A → S → S × Outcome (Result NodeId)
  unfolding add_variable
  add_property parent_id id browse_name attributes =
      add_variable parent_id id browse_name attributes property_type has_property

  unfoldable pub add_object_type :
      NodeId → NodeId → Bytes → A → NodeId → S → S × Outcome (Result NodeId)
  add_object_type parent_id id browse_name attributes reference_type =
      connection.add_node object_type_node parent_id id browse_name attributes null reference_type

  unfoldable pub add_variable_type :
      NodeId → NodeId → Bytes → A → NodeId → NodeId → S → S × Outcome (Result NodeId)
  add_variable_type parent_id id browse_name attributes variable_type reference_type =
      connection.add_node variable_type_node parent_id id browse_name attributes variable_type
        reference_type

  unfoldable pub add_reference_type :
      NodeId → NodeId → Bytes → A → NodeId → S → S × Outcome (Result NodeId)
  add_reference_type parent_id id browse_name attributes reference_type =
      connection.add_node reference_type_node parent_id id browse_name attributes null
        reference_type

  unfoldable pub add_data_type :
      NodeId → NodeId → Bytes → A → NodeId → S → S × Outcome (Result NodeId)
  add_data_type parent_id id browse_name attributes reference_type =
      connection.add_node data_type_node parent_id id browse_name attributes null reference_type

  unfoldable pub add_view : NodeId → NodeId → Bytes → A → NodeId → S → S × Outcome (Result NodeId)
  add_view parent_id id browse_name attributes reference_type =
      connection.add_node view_node parent_id id browse_name attributes null reference_type

  -- addMethod<Client>, which leaves its callback and the arguments out.
  unfoldable pub add_method_client :
      NodeId → NodeId → Bytes → A → NodeId → S → S × Outcome (Result NodeId)
  add_method_client parent_id id browse_name attributes reference_type =
      connection.add_node method_node parent_id id browse_name attributes null reference_type

  -- The rule is given by its number.
  unfoldable pub add_modelling_rule : NodeId → ℕ → S → S × Outcome ℕ
  add_modelling_rule id rule = connection.add_reference id (standard rule) has_modelling_rule true
