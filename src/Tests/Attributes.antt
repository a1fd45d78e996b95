-- ===== src/Tests/Attributes.antt =====
-- Examples of services on nodes, of a Server and of a Client.
use open62541pp.Prelude.{
  ◌+◌, ◌&&◌, ◌^◌, ◌∙◌, sym, ap, inl, inr, Bool-cases, ℕ, ◌==◌, ◌≡◌, refl, Bool, false,
  if◌then◌else◌, some, List, [], ◌∷◌, arith,
}
use open62541pp.Status.{is_bad}
use open62541pp.Outcome.{ok, throw_if_bad, ◌>>=◌}
use open62541pp.Result.{from_value}
use open62541pp.Tests.Codes.{codes}
use open62541pp.Services.Responses.{Response}
use open62541pp.Services.Data.{NodeId, numeric, empty, DataValue, NativeServer, NativeClient}
use open62541pp.Services.Nodes.{write_attribute_client, make_read_value_id}
use open62541pp.Services.Connection.{of_server, of_client}
use open62541pp.Services.Remote.{answer, IsServed, of_client-of_server}
use open62541pp.Services.NodeMethods.{node_add_property, node_add_property-asks}
use open62541pp.Services.Attributes.{Bitmask, access_level}
use open62541pp.Services.Attributes.Access.{read_attribute_impl, write_attribute_impl}
use open62541pp.Services.Attributes.Roundtrip.{IsStoring, write_attribute_impl-read_attribute_impl}

-- The nodes, and the attributes of the first node by their number.
record Space : Type 0 where
  nodes : List NodeId
  attributes : ℕ → DataValue

abbrev numbered : ℕ → NodeId
numbered n = record { namespace_index = 0; identifier = numeric n }

abbrev is_first : NodeId → Bool
is_first id = elim id.identifier [ numeric n ↦ n == 1 | _ ↦ false ]

-- A server that keeps the attributes of the node 1, and knows no references.
abbrev small_server : NativeServer ℕ Space
small_server = record {
  add_node = λ node_class id parent reference_type name type_definition attributes s.
      (record s { nodes = id ∷ s.nodes }, 0, id);
  add_reference = λ source reference_type target forward s. (s, 2 ^ 31 + 1);
  delete_node = λ id references s. (record s { nodes = [] }, 0);
  delete_reference = λ source reference_type forward target both s. (s, 2 ^ 31 + 1);
  read = λ item timestamps s. (s, s.attributes item.attribute_id);
  write = λ item s. (
    record s {
      attributes = λ a.
          if is_first item.node_id && (a == item.attribute_id) then item.value else s.attributes a;
    },
    if is_first item.node_id then 0 else 2 ^ 31,
  );
}

abbrev no_answer {ℓ} : {R : Type ℓ} → Response R
no_answer = record { service_result = 2 ^ 31 + 2; results = some []; results_size = 0 }

-- A client that is connected to it; requests without items are refused.
abbrev small_client : NativeClient ℕ Space
small_client = record {
  add_nodes = λ items s. elim items [
    | [] ↦ (s, no_answer)
    | item ∷ _ ↦ (
      record s { nodes = item.requested_new_node_id ∷ s.nodes },
      answer (record { status_code = 0; added_node_id = item.requested_new_node_id }),
    )
  ];
  add_references = λ items s. elim items [ [] ↦ (s, no_answer) | _ ∷ _ ↦ (s, answer (2 ^ 31 + 1)) ];
  delete_nodes =
      λ items s. elim items [ [] ↦ (s, no_answer) | _ ∷ _ ↦ (record s { nodes = [] }, answer 0) ];
  delete_references =
      λ items s. elim items [ [] ↦ (s, no_answer) | _ ∷ _ ↦ (s, answer (2 ^ 31 + 1)) ];
  read = λ timestamps items s. elim items [
    | [] ↦ (s, no_answer)
    | item ∷ _ ↦ (s, answer (s.attributes item.attribute_id))
  ];
  write = λ items s. elim items [
    | [] ↦ (s, no_answer)
    | item ∷ _ ↦ (let (s', status) = small_server.write item s in (s', answer status))
  ];
}

small-IsServed : IsServed small_server small_client
small-IsServed = record {
  adds_node = λ item s. refl;
  adds_reference = λ item s. refl;
  deletes_node = λ item s. refl;
  deletes_reference = λ item s. refl;
  reads = λ timestamps item s. refl;
  writes = λ item s. refl;
}

of_client-of_server_example : of_client small_client ≡ of_server small_server
of_client-of_server_example = of_client-of_server small_server small_client small-IsServed

good-is_bad : is_bad 0 ≡ false
unfolding is_bad
good-is_bad = refl

small_server-IsStoring : IsStoring small_server
unfolding is_bad make_read_value_id
small_server-IsStoring item timestamps s s' status written fine =
    elim (Bool-cases (is_first item.node_id)) [
      | inl first ↦
          ap (λ v. (s', v))
            (sym (ap (λ p. p.0.attributes item.attribute_id) written) ∙ ground (arith, first))
      | inr other ↦ absurd (ground (arith, ap (λ p. p.1) written, other, fine))
    ]

abbrev start : Space
start = record {
  nodes = numbered 1 ∷ [];
  attributes = λ a. record { value = empty; has_value = false; status = 0 };
}

abbrev read_only : Bitmask
read_only = record { mask = 1 }

abbrev changed : Space
changed =
    (write_attribute_impl (of_client small_client) access_level (numbered 1) read_only start).0

written :
    write_attribute_impl (of_client small_client) access_level (numbered 1) read_only start
    ≡ (changed, ok 0)
unfolding write_attribute_impl write_attribute_client is_bad
written = refl

write_attribute_impl-read_attribute_impl_example :
    read_attribute_impl (of_client small_client) access_level (numbered 1) changed
    ≡ (changed, ok (from_value read_only 0))
write_attribute_impl-read_attribute_impl_example =
    write_attribute_impl-read_attribute_impl small_server small_client access_level (numbered 1)
      read_only start changed 0 small-IsServed small_server-IsStoring written good-is_bad

-- A property with the id 5 of the node 1.
node_add_property-asks_example :
    node_add_property (of_client small_client) (numbered 1) (numbered 5) ([]) 7 start ≡ (
      record start { nodes = numbered 5 ∷ numbered 1 ∷ [] },
      throw_if_bad 0 >>= λ _. ok (numbered 5),
    )
node_add_property-asks_example =
    node_add_property-asks small_server small_client (numbered 1) (numbered 5) ([]) 7 start
      small-IsServed
