-- ===== src/Services/Attributes/Roundtrip.antt =====
-- What is written to an attribute is what is read from it.
use open62541pp.Prelude.{ℕ, ◌≡◌, refl, ap, ◌∙◌, false}
use open62541pp.Status.{StatusCodes, is_bad, good}
use open62541pp.Outcome.{Outcome, ok}
use open62541pp.Result.{from_value}
use open62541pp.Services.Data.{
  NodeId, neither, TimestampsToReturn, WriteValue, NativeServer, NativeClient,
}
use open62541pp.Services.Nodes.{
  make_read_value_id, make_write_value, write_attribute_server, read_attribute_server,
}
use open62541pp.Services.Connection.{of_server, of_client}
use open62541pp.Services.Remote.{IsServed, of_client-of_server, is_bad-good}
use open62541pp.Services.Attributes.{
  AttributeId, node_id_attribute, browse_name, display_name, description, write_mask,
  user_write_mask, is_abstract, symmetric, inverse_name, contains_no_loops, event_notifier, value,
  data_type, value_rank, array_dimensions, access_level, user_access_level,
  minimum_sampling_interval, historizing, executable, user_executable, data_type_definition,
  ValueOf, to_number, get_variant,
}
use open62541pp.Services.Attributes.Handlers.{attribute_handler}
use open62541pp.Services.Attributes.Access.{
  and_then_call, from_data_value, to_data_value, read_attribute_impl, write_attribute_impl,
}

from_variant-to_variant :
    (attribute : AttributeId) (x : ValueOf attribute)
    → (attribute_handler attribute).from_variant ((attribute_handler attribute).to_variant x) ≡ ok x
unfolding attribute_handler
from_variant-to_variant node_id_attribute x = refl
from_variant-to_variant browse_name x = refl
from_variant-to_variant display_name x = refl
from_variant-to_variant description x = refl
from_variant-to_variant write_mask x = refl
from_variant-to_variant user_write_mask x = refl
from_variant-to_variant is_abstract x = refl
from_variant-to_variant symmetric x = refl
from_variant-to_variant inverse_name x = refl
from_variant-to_variant contains_no_loops x = refl
from_variant-to_variant event_notifier x = refl
from_variant-to_variant value x = refl
from_variant-to_variant data_type x = refl
from_variant-to_variant value_rank x = refl
from_variant-to_variant array_dimensions x = refl
from_variant-to_variant access_level x = refl
from_variant-to_variant user_access_level x = refl
from_variant-to_variant minimum_sampling_interval x = refl
from_variant-to_variant historizing x = refl
from_variant-to_variant executable x = refl
from_variant-to_variant user_executable x = refl
from_variant-to_variant data_type_definition x = refl

module _ ⦃c : StatusCodes⦄ where
  from_data_value-to_data_value :
      (attribute : AttributeId) (x : ValueOf attribute)
      → from_data_value attribute (to_data_value attribute x) ≡ ok (from_value x good)
  unfolding from_data_value to_data_value get_variant
  from_data_value-to_data_value attribute x =
      rw (is_bad-good, from_variant-to_variant attribute x) refl

  -- The server keeps what is written to an attribute.
  abbrev pub IsStoring : {A S : Type 0} → NativeServer A S → Type 0
  IsStoring {S} server =
      (item : WriteValue) (timestamps : TimestampsToReturn) (s s' : S) (status : ℕ)
      → server.write item s ≡ (s', status)
      → is_bad status ≡ false
      → server.read (make_read_value_id item.node_id item.attribute_id) timestamps s'
        ≡ (s', item.value)

  abbrev code_of : Outcome ℕ → ℕ
  code_of (ok code) = code
  code_of _ = 0

  unpack :
      {S : Type 0} (p : S × ℕ) {s : S} {status : ℕ}
      → ◌≡◌ {A = S × Outcome ℕ} (p.0, ok p.1) (s, ok status)
      → p ≡ (s, status)
  unpack p e = ap (λ q. (q.0, code_of q.1)) e

  module _ {A S : Type 0} where
    of_server-write-read :
        (server : NativeServer A S) (attribute : AttributeId) (id : NodeId) (x : ValueOf attribute)
        (s s' : S) (status : ℕ)
        → IsStoring server
        → write_attribute_impl (of_server server) attribute id x s ≡ (s', ok status)
        → is_bad status ≡ false
        → read_attribute_impl (of_server server) attribute id s' ≡ (s', ok (from_value x good))
    unfolding write_attribute_impl read_attribute_impl write_attribute_server read_attribute_server
        make_write_value
    of_server-write-read server attribute id x s s' status stores written fine =
        ap (λ p. (p.0, and_then_call (from_value p.1 good) (from_data_value attribute)))
          (stores (make_write_value id (to_number attribute) (to_data_value attribute x)) neither s
            s' status (unpack _ written) fine)
        ∙ ap (λ o. (s', o)) (from_data_value-to_data_value attribute x)

    -- An attribute of a node is written by way of a Client, and read by way of it: if the write
    -- returns a code that is not bad, the read returns the value that was written, with a good code,
    -- for every attribute that has handlers for both directions, whatever its type. The server
    -- behind the connection keeps what is written to an attribute.
    pub write_attribute_impl-read_attribute_impl :
        (server : NativeServer A S) (client : NativeClient A S) (attribute : AttributeId)
        (id : NodeId) (x : ValueOf attribute) (s s' : S) (status : ℕ)
        → IsServed server client
        → IsStoring server
        → write_attribute_impl (of_client client) attribute id x s ≡ (s', ok status)
        → is_bad status ≡ false
        → read_attribute_impl (of_client client) attribute id s' ≡ (s', ok (from_value x good))
    write_attribute_impl-read_attribute_impl server client attribute id x s s' status served
          stores =
        rw (of_client-of_server server client served)
          (of_server-write-read server attribute id x s s' status stores)
