-- ===== src/Services/Data.antt =====
-- What the services on nodes exchange with the server: node ids, values, and the items of the
-- requests, of include/open62541pp/types.hpp, ua/types.hpp and common.hpp. `A` is the type of the
-- node attributes, an ExtensionObject. Time stamps and diagnostics are left out.
use open62541pp.Prelude.{ℕ, Bool, List}
use open62541pp.Prelude.Text.{Bytes}
use open62541pp.Services.Responses.{Response}

pub data Identifier : Type 0 where
  numeric : ℕ → Identifier
  string guid byte_string : Bytes → Identifier

pub record NodeId : Type 0 where
  pub namespace_index : ℕ
  pub identifier : Identifier

-- A NodeId without arguments.
abbrev pub null : NodeId
null = record { namespace_index = 0; identifier = numeric 0 }

pub record QualifiedName : Type 0 where
  pub namespace_index : ℕ
  pub name : Bytes

pub record LocalizedText : Type 0 where
  pub locale : Bytes
  pub text : Bytes

pub data NodeClass : Type 0 where
  object_node variable_node method_node object_type_node variable_type_node reference_type_node
        data_type_node view_node :
      NodeClass

-- One value of a type that attributes have, or of another one; a double by its bits, an Int32 by
-- its 32 bits.
pub data Scalar : Type 0 where
  boolean : Bool → Scalar
  byte int32 uint32 double : ℕ → Scalar
  node_id : NodeId → Scalar
  qualified_name : QualifiedName → Scalar
  localized_text : LocalizedText → Scalar
  other_type : ℕ → Bytes → Scalar

-- The elements of an array that is no array of UInt32 are scalars of one type.
pub data Variant : Type 0 where
  empty : Variant
  scalar : Scalar → Variant
  uint32_array : List ℕ → Variant
  other_array : List Scalar → Variant

pub record DataValue : Type 0 where
  pub value : Variant
  pub has_value : Bool
  pub status : ℕ

pub record AddNodesItem (A : Type 0) : Type 0 where
  pub parent_node_id : NodeId
  pub reference_type_id : NodeId
  pub requested_new_node_id : NodeId
  pub browse_name : QualifiedName
  pub node_class : NodeClass
  pub node_attributes : A
  pub type_definition : NodeId

pub record AddNodesResult : Type 0 where
  pub status_code : ℕ
  pub added_node_id : NodeId

pub record AddReferencesItem : Type 0 where
  pub source_node_id : NodeId
  pub reference_type_id : NodeId
  pub is_forward : Bool
  pub target_node_id : NodeId

pub record DeleteNodesItem : Type 0 where
  pub node_id : NodeId
  pub delete_target_references : Bool

pub record DeleteReferencesItem : Type 0 where
  pub source_node_id : NodeId
  pub reference_type_id : NodeId
  pub is_forward : Bool
  pub target_node_id : NodeId
  pub delete_bidirectional : Bool

-- Which time stamps a read returns.
pub data TimestampsToReturn : Type 0 where
  source_timestamps server_timestamps both neither : TimestampsToReturn

-- An attribute by its number.
pub record ReadValueId : Type 0 where
  pub node_id : NodeId
  pub attribute_id : ℕ

pub record WriteValue : Type 0 where
  pub node_id : NodeId
  pub attribute_id : ℕ
  pub value : DataValue

-- open62541's functions on a server that runs in this process, with its state `S`; the order of the
-- arguments is theirs.
pub record NativeServer (A S : Type 0) : Type 0 where
  pub add_node :
      NodeClass → NodeId → NodeId → NodeId → QualifiedName → NodeId → A → S → S × ℕ × NodeId
  pub add_reference : NodeId → NodeId → NodeId → Bool → S → S × ℕ
  pub delete_node : NodeId → Bool → S → S × ℕ
  pub delete_reference : NodeId → NodeId → Bool → NodeId → Bool → S → S × ℕ
  pub read : ReadValueId → TimestampsToReturn → S → S × DataValue
  pub write : WriteValue → S → S × ℕ

-- What open62541's client functions return for a request, given by its items, with the state of
-- the server behind the connection.
pub record NativeClient (A S : Type 0) : Type 0 where
  pub add_nodes : List (AddNodesItem A) → S → S × Response AddNodesResult
  pub add_references : List AddReferencesItem → S → S × Response ℕ
  pub delete_nodes : List DeleteNodesItem → S → S × Response ℕ
  pub delete_references : List DeleteReferencesItem → S → S × Response ℕ
  pub read : TimestampsToReturn → List ReadValueId → S → S × Response DataValue
  pub write : List WriteValue → S → S × Response ℕ
