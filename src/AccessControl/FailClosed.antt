-- ===== src/AccessControl/FailClosed.antt =====
-- The adapter of src/plugin/accesscontrol.cpp fails closed: nothing is allowed that the user's
-- AccessControlBase has not allowed.
use open62541pp.Prelude.{
  ◌≡◌, ◌≢◌, refl, sym, ◌∙◌, Bool, true, false, if◌then◌else◌, Option, List, [], ◌∷◌, arith,
}
use open62541pp.Prelude.Text.{Bytes, codes}
use open62541pp.Outcome.{
  Exn, foreign, bad_status, bad_disconnect_exn, bad_alloc, std_exception, Outcome, ok, throw,
  undefined,
}
use open62541pp.AccessControl.Adapter.{
  Native, Session, AccessControlBase, answer, as_wrapper_ref, invoke_access_callback, get_session,
  session_value, SessionArgs, get_user_executable_native, get_user_executable_on_object_native,
  allow_add_node_native, allow_add_reference_native, allow_delete_node_native,
  allow_delete_reference_native, allow_browse_node_native, allow_transfer_subscription_native,
  allow_history_update_native, allow_history_delete_native,
}
use open62541pp.AccessControl.Table.{
  Request, execute, execute_on_object, add_node, add_reference, delete_node, delete_reference,
  browse_node, transfer_subscription, history_update, history_delete, create,
}

abbrev node_of : (n : Native) → Option n.node_id → n.node_id
node_of n target = as_wrapper_ref n.node_id_default target

invoke-answer :
    (name : Bytes) (m : Outcome Bool) (log : List Bytes)
    → invoke_access_callback name false m ≡ answer true log
    → (m ≡ ok true) × (log ≡ [])
unfolding invoke_access_callback
invoke-answer name (ok b) log h = ground arith
invoke-answer name (throw (bad_status x)) log h = ground arith
invoke-answer name (throw bad_disconnect_exn) log h = ground arith
invoke-answer name (throw bad_alloc) log h = ground arith
invoke-answer name (throw std_exception) log h = ground arith
invoke-answer name (throw foreign) log h = ground arith
invoke-answer name undefined log h = ground arith

true-ne-false : true ≢ false
true-ne-false h = cc

std_exception-ne-foreign : std_exception ≢ foreign
std_exception-ne-foreign h = cc

std_exception-ne-ok : {b : Bool} → throw std_exception ≢ ok b
std_exception-ne-ok h = cc

invoke-throw :
    (name : Bytes) (e : Exn)
    → e ≢ foreign
    → invoke_access_callback name false (throw e) ≡ answer false (name ∷ [])
unfolding invoke_access_callback
invoke-throw name (bad_status x) std = refl
invoke-throw name bad_disconnect_exn std = refl
invoke-throw name bad_alloc std = refl
invoke-throw name std_exception std = refl
invoke-throw name foreign std = absurd (std refl)

module _ {n : Native} where
  abbrev session_of : SessionArgs n → Session n
  session_of (id, context) = record { id = as_wrapper_ref n.node_id_default id; context = context }

  -- What the user says to a request: one call of one virtual function.
  unfoldable pub user_decision : AccessControlBase n → Request n → Outcome Bool
  user_decision ac (execute s method) = ac.get_user_executable (session_of s) (node_of n method)
  user_decision ac (execute_on_object s method object) =
      ac.get_user_executable_on_object (session_of s) (node_of n method) (node_of n object)
  user_decision ac (add_node s item) =
      ac.allow_add_node (session_of s) (as_wrapper_ref n.add_nodes_item_default item)
  user_decision ac (add_reference s item) =
      ac.allow_add_reference (session_of s) (as_wrapper_ref n.add_references_item_default item)
  user_decision ac (delete_node s item) =
      ac.allow_delete_node (session_of s) (as_wrapper_ref n.delete_nodes_item_default item)
  user_decision ac (delete_reference s item) =
      ac.allow_delete_reference (session_of s)
        (as_wrapper_ref n.delete_references_item_default item)
  user_decision ac (browse_node s target) = ac.allow_browse_node (session_of s) (node_of n target)
  user_decision ac (transfer_subscription old new) =
      ac.allow_transfer_subscription (session_of old) (session_of new)
  user_decision ac (history_update s target perform value) =
      ac.allow_history_update (session_of s) (node_of n target) perform
        (as_wrapper_ref n.data_value_default value)
  user_decision ac (history_delete s target start finish modified) =
      ac.allow_history_delete (session_of s) (node_of n target) start finish modified

  -- The name that the log gives for a request.
  unfoldable pub callback_name : Request n → Bytes
  callback_name (execute s method) = codes "getUserExecutable"
  callback_name (execute_on_object s method object) = codes "getUserExecutableOnObject"
  callback_name (add_node s item) = codes "allowAddNode"
  callback_name (add_reference s item) = codes "allowAddReference"
  callback_name (delete_node s item) = codes "allowDeleteNode"
  callback_name (delete_reference s item) = codes "allowDeleteReference"
  callback_name (browse_node s target) = codes "allowBrowseNode"
  callback_name (transfer_subscription old new) = codes "allowTransferSubscription"
  callback_name (history_update s target perform value) = codes "allowHistoryUpdate"
  callback_name (history_delete s target start finish modified) = codes "allowHistoryDelete"

  -- The decision, and without a C++ server an exception in its place.
  abbrev pub asked : AccessControlBase n → Bool → Request n → Outcome Bool
  asked ac has_wrapper request =
      if has_wrapper then user_decision ac request else throw std_exception

  create-asked :
      (ac : AccessControlBase n) (w : Bool) (request : Request n)
      → create ac w request
        ≡ invoke_access_callback (callback_name request) false (asked ac w request)
  unfolding create user_decision callback_name get_session session_value get_user_executable_native
      get_user_executable_on_object_native allow_add_node_native allow_add_reference_native
      allow_delete_node_native allow_delete_reference_native allow_browse_node_native
      allow_transfer_subscription_native allow_history_update_native allow_history_delete_native
  create-asked ac true (execute s method) = refl
  create-asked ac false (execute s method) = refl
  create-asked ac true (execute_on_object s method object) = refl
  create-asked ac false (execute_on_object s method object) = refl
  create-asked ac true (add_node s item) = refl
  create-asked ac false (add_node s item) = refl
  create-asked ac true (add_reference s item) = refl
  create-asked ac false (add_reference s item) = refl
  create-asked ac true (delete_node s item) = refl
  create-asked ac false (delete_node s item) = refl
  create-asked ac true (delete_reference s item) = refl
  create-asked ac false (delete_reference s item) = refl
  create-asked ac true (browse_node s target) = refl
  create-asked ac false (browse_node s target) = refl
  create-asked ac true (transfer_subscription old new) = refl
  create-asked ac false (transfer_subscription old new) = refl
  create-asked ac true (history_update s target perform value) = refl
  create-asked ac false (history_update s target perform value) = refl
  create-asked ac true (history_delete s target start finish modified) = refl
  create-asked ac false (history_delete s target start finish modified) = refl

  -- A request is allowed only if there is a C++ server and the user's function returned true; then
  -- nothing is logged. Without a server, and when the function throws an exception of a class
  -- below std::exception, the request is refused and the callback is named in the log.
  pub create-refuses :
      (ac : AccessControlBase n) (w : Bool) (request : Request n) (log : List Bytes) (e : Exn)
      → (create ac w request ≡ answer true log
          → (w ≡ true) × (user_decision ac request ≡ ok true) × (log ≡ []))
        × (w ≡ false → create ac w request ≡ answer false (callback_name request ∷ []))
        × (e ≢ foreign
            → user_decision ac request ≡ throw e
            → create ac w request ≡ answer false (callback_name request ∷ []))
  create-refuses ac true request log e = (
    λ h.
        let (said, quiet) = invoke-answer _ _ log (sym (create-asked ac true request) ∙ h) in
        (refl, said, quiet),
    λ h. absurd (true-ne-false h),
    λ std h. create-asked ac true request ∙ rw h (invoke-throw _ e std),
  )
  create-refuses ac false request log e = (
    λ h.
        absurd
          (std_exception-ne-ok (invoke-answer _ _ log (sym (create-asked ac false request) ∙ h)).0),
    λ h. create-asked ac false request ∙ invoke-throw _ std_exception std_exception-ne-foreign,
    λ std h. create-asked ac false request ∙ invoke-throw _ std_exception std_exception-ne-foreign,
  )
