-- ===== src/AccessControl/Table.antt =====
-- The table of functions that AccessControlBase::create of src/plugin/accesscontrol.cpp fills in, as
-- far as they answer yes or no.
use open62541pp.Prelude.{ℕ, Bool, Option}
use open62541pp.AccessControl.Adapter.{
  Native, AccessControlBase, Answer, SessionArgs, get_user_executable_native,
  get_user_executable_on_object_native, allow_add_node_native, allow_add_reference_native,
  allow_delete_node_native, allow_delete_reference_native, allow_browse_node_native,
  allow_transfer_subscription_native, allow_history_update_native, allow_history_delete_native,
}

-- What the C library asks for permission to do; the arguments of the function in UA_AccessControl.
pub data Request (n : Native) : Type 0 where
  execute : SessionArgs n → Option n.node_id → Request n
  execute_on_object : SessionArgs n → Option n.node_id → Option n.node_id → Request n
  add_node : SessionArgs n → Option n.add_nodes_item → Request n
  add_reference : SessionArgs n → Option n.add_references_item → Request n
  delete_node : SessionArgs n → Option n.delete_nodes_item → Request n
  delete_reference : SessionArgs n → Option n.delete_references_item → Request n
  browse_node : SessionArgs n → Option n.node_id → Request n
  transfer_subscription : SessionArgs n → SessionArgs n → Request n
  history_update : SessionArgs n → Option n.node_id → ℕ → Option n.data_value → Request n
  history_delete : SessionArgs n → Option n.node_id → n.date_time → n.date_time → Bool → Request n

-- AccessControlBase::create: the function of the table that answers a request.
unfoldable pub create : {n : Native} → AccessControlBase n → Bool → Request n → Answer Bool
unfolding get_user_executable_native get_user_executable_on_object_native allow_add_node_native
    allow_add_reference_native allow_delete_node_native allow_delete_reference_native
    allow_browse_node_native allow_transfer_subscription_native allow_history_update_native
    allow_history_delete_native
create ac w (execute session method) = get_user_executable_native ac w session method
create ac w (execute_on_object session method object) =
    get_user_executable_on_object_native ac w session method object
create ac w (add_node session item) = allow_add_node_native ac w session item
create ac w (add_reference session item) = allow_add_reference_native ac w session item
create ac w (delete_node session item) = allow_delete_node_native ac w session item
create ac w (delete_reference session item) = allow_delete_reference_native ac w session item
create ac w (browse_node session target) = allow_browse_node_native ac w session target
create ac w (transfer_subscription old new) = allow_transfer_subscription_native ac w old new
create ac w (history_update session target perform value) =
    allow_history_update_native ac w session target perform value
create ac w (history_delete session target start finish modified) =
    allow_history_delete_native ac w session target start finish modified
