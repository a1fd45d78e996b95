-- ===== src/Services/Remote.antt =====
-- A Client does with a remote server what a Server does in its own process.
use native.Mathlib.Omega.{arith}
use open62541pp.Prelude.{ℕ, ◌≡◌, refl, ap, ◌∙◌, if◌then◌else◌, Bool, false, some, [], ◌∷◌}
use open62541pp.Status.{StatusCodes, is_bad, is_good, good}
use open62541pp.Outcome.{Outcome, ok, ◌>>=◌}
use open62541pp.Result.{has_value, deref, from_value, transform, and_then}
use open62541pp.Services.Responses.{Response, get_single_result, wrap_single_result}
use open62541pp.Prelude.Text.{Bytes}
use open62541pp.Services.Data.{
  NodeId, NodeClass, DataValue, AddNodesItem, AddReferencesItem, DeleteNodesItem,
  DeleteReferencesItem, TimestampsToReturn, ReadValueId, WriteValue, NativeServer, NativeClient,
}
use open62541pp.Services.Nodes.{
  get_added_node_id, make_add_nodes_item, make_add_references_item, make_delete_nodes_item,
  make_delete_references_item, make_read_value_id, make_write_value, get_single_status,
  add_node_server, add_reference_server, delete_node_server, delete_reference_server,
  read_attribute_server, write_attribute_server, add_node_client, add_reference_client,
  delete_node_client, delete_reference_client, read_attribute_client, write_attribute_client,
}
use open62541pp.Services.Connection.{of_server, of_client}

-- The response to a request with one item that the server could work on.
abbrev pub answer {ℓ} : ⦃c : StatusCodes⦄ {R : Type ℓ} → R → Response R
answer result = record { service_result = good; results = some (result ∷ []); results_size = 1 }

module _ ⦃c : StatusCodes⦄ where
  pub is_bad-good : is_bad good ≡ false
  unfolding is_bad is_good
  is_bad-good = ground (arith, c.good_lem)

  get_single_result-answer {ℓ} :
      {R : Type ℓ} (result : R) → get_single_result (answer result) ≡ ok (from_value result good)
  unfolding get_single_result
  get_single_result-answer result = rw is_bad-good refl

  wrap_single_result-answer {ℓ} :
      {R : Type ℓ} (result : R) → wrap_single_result (answer result) ≡ ok (from_value result good)
  unfolding wrap_single_result transform from_value
  wrap_single_result-answer result =
      ap (λ o. o >>= λ r. ok (transform r (λ x. x))) (get_single_result-answer result)

  get_single_status-answer : (status : ℕ) → get_single_status (answer status) ≡ ok status
  unfolding get_single_status has_value deref from_value
  get_single_status-answer status =
      ap (λ o. o >>= λ r. if has_value r then deref r else ok r.code)
        (get_single_result-answer status)

  -- What is made of a response that is an answer.
  handle-answer :
      {R S T : Type 0} {response : S × Response R} {s : S} {result : R} {o : Outcome T}
      (handle : Response R → Outcome T)
      → response ≡ (s, answer result)
      → handle (answer result) ≡ o
      → ◌≡◌ {A = S × Outcome T} (response.0, handle response.1) (s, o)
  handle-answer {s} handle law handled = ap (λ p. (p.0, handle p.1)) law ∙ ap (λ o. (s, o)) handled

module _ ⦃c : StatusCodes⦄ {A S : Type 0} where
  -- The server behind the connection does with the item of a request what open62541's function of
  -- the same name does, and the connection works.
  pub record IsServed (server : NativeServer A S) (client : NativeClient A S) : Type 0 where
    pub adds_node :
        (item : AddNodesItem A) (s : S)
        → client.add_nodes (item ∷ []) s ≡ (
            let (s', status, id) =
              server.add_node item.node_class item.requested_new_node_id item.parent_node_id
                item.reference_type_id item.browse_name item.type_definition item.node_attributes
                s in
            (s', answer (record { status_code = status; added_node_id = id })))
    pub adds_reference :
        (item : AddReferencesItem) (s : S)
        → client.add_references (item ∷ []) s ≡ (
            let (s', status) =
              server.add_reference item.source_node_id item.reference_type_id item.target_node_id
                item.is_forward s in
            (s', answer status))
    pub deletes_node :
        (item : DeleteNodesItem) (s : S)
        → client.delete_nodes (item ∷ []) s ≡ (
            let (s', status) = server.delete_node item.node_id item.delete_target_references s in
            (s', answer status))
    pub deletes_reference :
        (item : DeleteReferencesItem) (s : S)
        → client.delete_references (item ∷ []) s ≡ (
            let (s', status) =
              server.delete_reference item.source_node_id item.reference_type_id item.is_forward
                item.target_node_id item.delete_bidirectional s in
            (s', answer status))
    pub reads :
        (timestamps : TimestampsToReturn) (item : ReadValueId) (s : S)
        → client.read timestamps (item ∷ []) s
          ≡ (let (s', value) = server.read item timestamps s in (s', answer value))
    pub writes :
        (item : WriteValue) (s : S)
        → client.write (item ∷ []) s
          ≡ (let (s', status) = server.write item s in (s', answer status))

  module _ (server : NativeServer A S) (client : NativeClient A S)
      (served : IsServed server client) where
    add_node_same :
        (node_class : NodeClass) (parent_id id : NodeId) (name : Bytes) (attributes : A)
        (type_definition reference_type : NodeId) (s : S)
        → add_node_client client node_class parent_id id name attributes type_definition
            reference_type s
          ≡ add_node_server server node_class parent_id id name attributes type_definition
              reference_type s
    unfolding add_node_client add_node_server make_add_nodes_item and_then get_added_node_id
    add_node_same node_class parent_id id name attributes type_definition reference_type s =
        handle-answer
          (λ r. get_single_result r >>= λ result. ok (and_then result get_added_node_id))
          (served.adds_node
            (make_add_nodes_item parent_id reference_type id name node_class attributes
              type_definition)
            s)
          (ap (λ o. o >>= λ result. ok (and_then result get_added_node_id))
            (get_single_result-answer _))

    add_reference_same :
        (source_id target_id reference_type : NodeId) (forward : Bool) (s : S)
        → add_reference_client client source_id target_id reference_type forward s
          ≡ add_reference_server server source_id target_id reference_type forward s
    unfolding add_reference_client add_reference_server make_add_references_item
    add_reference_same source_id target_id reference_type forward s =
        handle-answer get_single_status
          (served.adds_reference
            (make_add_references_item source_id reference_type forward target_id) s)
          (get_single_status-answer _)

    delete_node_same :
        (id : NodeId) (delete_references : Bool) (s : S)
        → delete_node_client client id delete_references s
          ≡ delete_node_server server id delete_references s
    unfolding delete_node_client delete_node_server make_delete_nodes_item
    delete_node_same id delete_references s =
        handle-answer get_single_status
          (served.deletes_node (make_delete_nodes_item id delete_references) s)
          (get_single_status-answer _)

    delete_reference_same :
        (source_id target_id reference_type : NodeId) (is_forward delete_bidirectional : Bool)
        (s : S)
        → delete_reference_client client source_id target_id reference_type is_forward
            delete_bidirectional s
          ≡ delete_reference_server server source_id target_id reference_type is_forward
              delete_bidirectional s
    unfolding delete_reference_client delete_reference_server make_delete_references_item
    delete_reference_same source_id target_id reference_type is_forward delete_bidirectional s =
        handle-answer get_single_status
          (served.deletes_reference
            (make_delete_references_item source_id reference_type is_forward target_id
              delete_bidirectional)
            s)
          (get_single_status-answer _)

    read_attribute_same :
        (id : NodeId) (attribute : ℕ) (timestamps : TimestampsToReturn) (s : S)
        → read_attribute_client client id attribute timestamps s
          ≡ read_attribute_server server id attribute timestamps s
    unfolding read_attribute_client read_attribute_server make_read_value_id from_value
    read_attribute_same id attribute timestamps s =
        handle-answer wrap_single_result
          (served.reads timestamps (make_read_value_id id attribute) s)
          (wrap_single_result-answer _)

    write_attribute_same :
        (id : NodeId) (attribute : ℕ) (value : DataValue) (s : S)
        → write_attribute_client client id attribute value s
          ≡ write_attribute_server server id attribute value s
    unfolding write_attribute_client write_attribute_server make_write_value
    write_attribute_same id attribute value s =
        handle-answer get_single_status (served.writes (make_write_value id attribute value) s)
          (get_single_status-answer _)

  -- If the server behind the connection of a Client does with each item of a request what
  -- open62541's own functions do, and the connection works, then the functions on nodes do the same
  -- for the Client as for the Server: the same results, the same effect, bad codes included.
  pub of_client-of_server :
      (server : NativeServer A S) (client : NativeClient A S)
      → IsServed server client
      → of_client client ≡ of_server server
  of_client-of_server server client served = λ i. record {
    add_node = λ n p id b a t r s. add_node_same server client served n p id b a t r s i;
    add_reference = λ x y r f s. add_reference_same server client served x y r f s i;
    delete_node = λ id d s. delete_node_same server client served id d s i;
    delete_reference = λ x y r f d s. delete_reference_same server client served x y r f d s i;
    read_attribute = λ id a t s. read_attribute_same server client served id a t s i;
    write_attribute = λ id a v s. write_attribute_same server client served id a v s i;
  }
