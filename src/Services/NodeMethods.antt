-- ===== src/Services/NodeMethods.antt =====
-- The methods of the class template Node of include/open62541pp/node.hpp that add and delete nodes
-- and references, for any connection. A Node is its id, next to the connection.
use open62541pp.Prelude.{ℕ, Bool, ◌≡◌, refl, ap, inl, inr, ◌∙◌, if◌then◌else◌}
use open62541pp.Prelude.Text.{Bytes}
use open62541pp.Status.{StatusCodes, is_bad, good}
use open62541pp.Outcome.{Outcome, ok, throw_if_bad, throw_if_bad_cases, ◌>>=◌}
use open62541pp.Result.{Result, from_bad, from_value, value}
use open62541pp.Services.Data.{NodeId, variable_node, NativeServer, NativeClient}
use open62541pp.Services.Nodes.{add_node_server}
use open62541pp.Services.Connection.{Connection, of_server, of_client}
use open62541pp.Services.Remote.{IsServed, of_client-of_server, is_bad-good}
use open62541pp.Services.Named.{
  property_type, has_property, add_object, add_folder, add_variable, add_property, add_object_type,
  add_variable_type, add_reference_type, add_data_type, add_view, add_modelling_rule,
}

module _ ⦃c : StatusCodes⦄ where
  -- Node::fromId; `result` is what a service returned.
  unfoldable pub from_id : Outcome (Result NodeId) → Outcome NodeId
  unfolding value
  from_id result = result >>= λ r. value r

  -- `.throwIfBad(); return *this;`
  unfoldable pub self : NodeId → Outcome ℕ → Outcome NodeId
  unfolding throw_if_bad
  self node status = status >>= λ code. throw_if_bad code >>= λ _. ok node

  module _ {A S : Type 0} (connection : Connection A S) (node : NodeId) where
    unfoldable pub node_add_folder : NodeId → Bytes → A → NodeId → S → S × Outcome NodeId
    unfolding from_id add_folder
    node_add_folder id browse_name attributes reference_type s =
        let (s', result) = add_folder connection node id browse_name attributes reference_type s in
        (s', from_id result)

    unfoldable pub node_add_object : NodeId → Bytes → A → NodeId → NodeId → S → S × Outcome NodeId
    unfolding from_id add_object
    node_add_object id browse_name attributes object_type reference_type s =
        let (s', result) =
          add_object connection node id browse_name attributes object_type reference_type s in
        (s', from_id result)

    unfoldable pub node_add_variable : NodeId → Bytes → A → NodeId → NodeId → S → S × Outcome NodeId
    unfolding from_id add_variable
    node_add_variable id browse_name attributes variable_type reference_type s =
        let (s', result) =
          add_variable connection node id browse_name attributes variable_type reference_type s in
        (s', from_id result)

    unfoldable pub node_add_property : NodeId → Bytes → A → S → S × Outcome NodeId
    unfolding from_id add_property
    node_add_property id browse_name attributes s =
        let (s', result) = add_property connection node id browse_name attributes s in
        (s', from_id result)

    unfoldable pub node_add_object_type : NodeId → Bytes → A → NodeId → S → S × Outcome NodeId
    unfolding from_id add_object_type
    node_add_object_type id browse_name attributes reference_type s =
        let (s', result) =
          add_object_type connection node id browse_name attributes reference_type s in
        (s', from_id result)

    unfoldable pub node_add_variable_type :
        NodeId → Bytes → A → NodeId → NodeId → S → S × Outcome NodeId
    unfolding from_id add_variable_type
    node_add_variable_type id browse_name attributes variable_type reference_type s =
        let (s', result) =
          add_variable_type connection node id browse_name attributes variable_type reference_type
            s in
        (s', from_id result)

    unfoldable pub node_add_reference_type : NodeId → Bytes → A → NodeId → S → S × Outcome NodeId
    unfolding from_id add_reference_type
    node_add_reference_type id browse_name attributes reference_type s =
        let (s', result) =
          add_reference_type connection node id browse_name attributes reference_type s in
        (s', from_id result)

    unfoldable pub node_add_data_type : NodeId → Bytes → A → NodeId → S → S × Outcome NodeId
    unfolding from_id add_data_type
    node_add_data_type id browse_name attributes reference_type s =
        let (s', result) =
          add_data_type connection node id browse_name attributes reference_type s in
        (s', from_id result)

    unfoldable pub node_add_view : NodeId → Bytes → A → NodeId → S → S × Outcome NodeId
    unfolding from_id add_view
    node_add_view id browse_name attributes reference_type s =
        let (s', result) = add_view connection node id browse_name attributes reference_type s in
        (s', from_id result)

    unfoldable pub node_add_reference : NodeId → NodeId → Bool → S → S × Outcome NodeId
    unfolding self
    node_add_reference target_id reference_type forward s =
        let (s', status) = connection.add_reference node target_id reference_type forward s in
        (s', self node status)

    unfoldable pub node_add_modelling_rule : ℕ → S → S × Outcome NodeId
    unfolding self add_modelling_rule
    node_add_modelling_rule rule s =
        let (s', status) = add_modelling_rule connection node rule s in (s', self node status)

    unfoldable pub node_delete_node : Bool → S → S × Outcome (Unit {0})
    unfolding throw_if_bad
    node_delete_node delete_references s =
        let (s', status) = connection.delete_node node delete_references s in
        (s', status >>= throw_if_bad)

    unfoldable pub node_delete_reference : NodeId → NodeId → Bool → Bool → S → S × Outcome NodeId
    unfolding self
    node_delete_reference target_id reference_type is_forward delete_bidirectional s =
        let (s', status) =
          connection.delete_reference node target_id reference_type is_forward delete_bidirectional
            s in
        (s', self node status)

  throw_if_bad-good : throw_if_bad good ≡ ok tt
  unfolding throw_if_bad
  throw_if_bad-good = rw is_bad-good refl

  -- What a service of a Server makes of a status, and `value` makes of that.
  value-checked :
      (status : ℕ) (added : NodeId)
      → value (if is_bad status then from_bad (record { code = status }) else from_value added good)
        ≡ (throw_if_bad status >>= λ _. ok added)
  unfolding value from_bad from_value
  value-checked status added = elim (throw_if_bad_cases status) [
    | inl (bad, e, thrown, code) ↦ rw (bad, thrown) refl
    | inr (fine, returned) ↦ rw (fine, returned, throw_if_bad-good) refl
  ]

  -- A property is added to a node by way of a Client: the server behind the connection is asked once
  -- for a variable with the property type, below the node by a HasProperty reference; a code that is
  -- not bad gives the node with the id that the server chose, and a bad one is thrown.
  pub node_add_property-asks :
      {A S : Type 0} (server : NativeServer A S) (client : NativeClient A S) (node id : NodeId)
      (name : Bytes) (attributes : A) (s : S)
      → IsServed server client
      → node_add_property (of_client client) node id name attributes s ≡ (
          let (s', status, added) =
            server.add_node variable_node id node has_property
              (record { namespace_index = id.namespace_index; name = name })
              property_type
              attributes
              s in
          (s', throw_if_bad status >>= λ _. ok added))
  unfolding node_add_property add_node_server
  node_add_property-asks server client node id name attributes s served =
      ap (λ connection. node_add_property connection node id name attributes s)
        (of_client-of_server server client served)
      ∙ ap (λ o. ((add_property (of_server server) node id name attributes s).0, o))
          (value-checked _ _)
