-- ===== src/Services/Connection.antt =====
-- The `connection` of the service templates in include/open62541pp/services/: the functions that
-- src/services_nodemanagement.cpp and src/services_attribute.cpp specialise, for a Server and for
-- a Client.
use open62541pp.Prelude.{ℕ, Bool}
use open62541pp.Prelude.Text.{Bytes}
use open62541pp.Status.{StatusCodes}
use open62541pp.Outcome.{Outcome}
use open62541pp.Result.{Result}
use open62541pp.Services.Data.{
  NodeId, NodeClass, DataValue, TimestampsToReturn, NativeServer, NativeClient,
}
use open62541pp.Services.Nodes.{
  add_node_server, add_reference_server, delete_node_server, delete_reference_server,
  read_attribute_server, write_attribute_server, add_node_client, add_reference_client,
  delete_node_client, delete_reference_client, read_attribute_client, write_attribute_client,
}

pub record Connection (A S : Type 0) : Type 0 where
  pub add_node :
      NodeClass → NodeId → NodeId → Bytes → A → NodeId → NodeId → S → S × Outcome (Result NodeId)
  pub add_reference : NodeId → NodeId → NodeId → Bool → S → S × Outcome ℕ
  pub delete_node : NodeId → Bool → S → S × Outcome ℕ
  pub delete_reference : NodeId → NodeId → NodeId → Bool → Bool → S → S × Outcome ℕ
  pub read_attribute : NodeId → ℕ → TimestampsToReturn → S → S × Outcome (Result DataValue)
  pub write_attribute : NodeId → ℕ → DataValue → S → S × Outcome ℕ

module _ ⦃c : StatusCodes⦄ {A S : Type 0} where
  abbrev pub of_server : NativeServer A S → Connection A S
  of_server native = record {
    add_node = add_node_server native;
    add_reference = add_reference_server native;
    delete_node = delete_node_server native;
    delete_reference = delete_reference_server native;
    read_attribute = read_attribute_server native;
    write_attribute = write_attribute_server native;
  }

  abbrev pub of_client : NativeClient A S → Connection A S
  of_client native = record {
    add_node = add_node_client native;
    add_reference = add_reference_client native;
    delete_node = delete_node_client native;
    delete_reference = delete_reference_client native;
    read_attribute = read_attribute_client native;
    write_attribute = write_attribute_client native;
  }
