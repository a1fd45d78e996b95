-- ===== src/Services/Nodes.antt =====
-- src/services_nodemanagement.cpp and src/services_attribute.cpp: adding and deleting nodes and
-- references, reading and writing attributes, of a Server and of a Client; with the items of
-- include/open62541pp/services/detail/request_handling.hpp, and `getSingleStatus` and
-- `getAddedNodeId` of response_handling.hpp.
use open62541pp.Prelude.{ℕ, Bool, true, if◌then◌else◌, [], ◌∷◌}
use open62541pp.Prelude.Text.{Bytes}
use open62541pp.Status.{StatusCodes, is_bad, good}
use open62541pp.Outcome.{Outcome, ok, ◌>>=◌}
use open62541pp.Result.{Result, from_value, from_bad, has_value, deref, and_then}
use open62541pp.Services.Responses.{Response, get_single_result, wrap_single_result}
use open62541pp.Services.Data.{
  NodeId, NodeClass, DataValue, AddNodesItem, AddNodesResult, AddReferencesItem, DeleteNodesItem,
  DeleteReferencesItem, TimestampsToReturn, ReadValueId, WriteValue, NativeServer, NativeClient,
}

unfoldable pub get_single_status : ⦃c : StatusCodes⦄ → Response ℕ → Outcome ℕ
unfolding get_single_result has_value deref
get_single_status response = get_single_result response >>= λ result.
    if has_value result then deref result else ok result.code

unfoldable pub get_added_node_id : ⦃c : StatusCodes⦄ → AddNodesResult → Result NodeId
unfolding from_value from_bad
get_added_node_id result =
    if is_bad result.status_code
    then from_bad (record { code = result.status_code })
    else from_value result.added_node_id good

unfoldable pub make_read_value_id : NodeId → ℕ → ReadValueId
make_read_value_id id attribute_id = record { node_id = id; attribute_id = attribute_id }

unfoldable pub make_write_value : NodeId → ℕ → DataValue → WriteValue
make_write_value id attribute_id value = record {
  node_id = id;
  attribute_id = attribute_id;
  value = record value { has_value = true };
}

unfoldable pub make_add_references_item : NodeId → NodeId → Bool → NodeId → AddReferencesItem
make_add_references_item source_id reference_type forward target_id = record {
  source_node_id = source_id;
  reference_type_id = reference_type;
  is_forward = forward;
  target_node_id = target_id;
}

unfoldable pub make_delete_nodes_item : NodeId → Bool → DeleteNodesItem
make_delete_nodes_item id delete_references = record {
  node_id = id;
  delete_target_references = delete_references;
}

unfoldable pub make_delete_references_item :
    NodeId → NodeId → Bool → NodeId → Bool → DeleteReferencesItem
make_delete_references_item source_id reference_type is_forward target_id delete_bidirectional =
    record {
      source_node_id = source_id;
      reference_type_id = reference_type;
      is_forward = is_forward;
      target_node_id = target_id;
      delete_bidirectional = delete_bidirectional;
    }

module _ {A : Type 0} where
  unfoldable pub make_add_nodes_item :
      NodeId → NodeId → NodeId → Bytes → NodeClass → A → NodeId → AddNodesItem A
  make_add_nodes_item parent_id reference_type id browse_name node_class attributes
        type_definition =
      record {
        parent_node_id = parent_id;
        reference_type_id = reference_type;
        requested_new_node_id = id;
        browse_name = record { namespace_index = id.namespace_index; name = browse_name };
        node_class = node_class;
        node_attributes = attributes;
        type_definition = type_definition;
      }

module _ ⦃c : StatusCodes⦄ {A S : Type 0} (native : NativeServer A S) where
  unfoldable pub add_node_server :
      NodeClass → NodeId → NodeId → Bytes → A → NodeId → NodeId → S → S × Outcome (Result NodeId)
  unfolding from_value from_bad
  add_node_server node_class parent_id id browse_name attributes type_definition reference_type s =
      let (s', status, added_node_id) =
        native.add_node node_class id parent_id reference_type
          (record { namespace_index = id.namespace_index; name = browse_name }) type_definition
          attributes s in
      (
        s',
        ok (
            if is_bad status
            then from_bad (record { code = status })
            else from_value added_node_id good),
      )

  unfoldable pub add_reference_server : NodeId → NodeId → NodeId → Bool → S → S × Outcome ℕ
  add_reference_server source_id target_id reference_type forward s =
      let (s', status) = native.add_reference source_id reference_type target_id forward s in
      (s', ok status)

  unfoldable pub delete_node_server : NodeId → Bool → S → S × Outcome ℕ
  delete_node_server id delete_references s =
      let (s', status) = native.delete_node id delete_references s in (s', ok status)

  unfoldable pub delete_reference_server :
      NodeId → NodeId → NodeId → Bool → Bool → S → S × Outcome ℕ
  delete_reference_server source_id target_id reference_type is_forward delete_bidirectional s =
      let (s', status) =
        native.delete_reference source_id reference_type is_forward target_id delete_bidirectional
          s in
      (s', ok status)

  unfoldable pub read_attribute_server :
      NodeId → ℕ → TimestampsToReturn → S → S × Outcome (Result DataValue)
  unfolding make_read_value_id from_value
  read_attribute_server id attribute_id timestamps s =
      let (s', value) = native.read (make_read_value_id id attribute_id) timestamps s in
      (s', ok (from_value value good))

  unfoldable pub write_attribute_server : NodeId → ℕ → DataValue → S → S × Outcome ℕ
  unfolding make_write_value
  write_attribute_server id attribute_id value s =
      let (s', status) = native.write (make_write_value id attribute_id value) s in (s', ok status)

module _ ⦃c : StatusCodes⦄ {A S : Type 0} (native : NativeClient A S) where
  unfoldable pub add_node_client :
      NodeClass → NodeId → NodeId → Bytes → A → NodeId → NodeId → S → S × Outcome (Result NodeId)
  unfolding get_single_result and_then get_added_node_id make_add_nodes_item
  add_node_client node_class parent_id id browse_name attributes type_definition reference_type s =
      let item =
        make_add_nodes_item parent_id reference_type id browse_name node_class attributes
          type_definition in
      let (s', response) = native.add_nodes (item ∷ []) s in
      (s', get_single_result response >>= λ result. ok (and_then result get_added_node_id))

  unfoldable pub add_reference_client : NodeId → NodeId → NodeId → Bool → S → S × Outcome ℕ
  unfolding get_single_status make_add_references_item
  add_reference_client source_id target_id reference_type forward s =
      let item = make_add_references_item source_id reference_type forward target_id in
      let (s', response) = native.add_references (item ∷ []) s in (s', get_single_status response)

  unfoldable pub delete_node_client : NodeId → Bool → S → S × Outcome ℕ
  unfolding get_single_status make_delete_nodes_item
  delete_node_client id delete_references s =
      let item = make_delete_nodes_item id delete_references in
      let (s', response) = native.delete_nodes (item ∷ []) s in (s', get_single_status response)

  unfoldable pub delete_reference_client :
      NodeId → NodeId → NodeId → Bool → Bool → S → S × Outcome ℕ
  unfolding get_single_status make_delete_references_item
  delete_reference_client source_id target_id reference_type is_forward delete_bidirectional s =
      let item =
        make_delete_references_item source_id reference_type is_forward target_id
          delete_bidirectional in
      let (s', response) = native.delete_references (item ∷ []) s in
      (s', get_single_status response)

  unfoldable pub read_attribute_client :
      NodeId → ℕ → TimestampsToReturn → S → S × Outcome (Result DataValue)
  unfolding wrap_single_result make_read_value_id
  read_attribute_client id attribute_id timestamps s =
      let item = make_read_value_id id attribute_id in
      let (s', response) = native.read timestamps (item ∷ []) s in (s', wrap_single_result response)

  unfoldable pub write_attribute_client : NodeId → ℕ → DataValue → S → S × Outcome ℕ
  unfolding get_single_status make_write_value
  write_attribute_client id attribute_id value s =
      let item = make_write_value id attribute_id value in
      let (s', response) = native.write (item ∷ []) s in (s', get_single_status response)
