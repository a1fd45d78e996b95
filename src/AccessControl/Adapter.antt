-- ===== src/AccessControl/Adapter.antt =====
-- The functions that src/plugin/accesscontrol.cpp installs in UA_AccessControl: they call the user's
-- AccessControlBase and answer the C library for it. The messages of logged exceptions are left
-- out: an entry of the log is the name of the callback.
use open62541pp.Prelude.{ℕ, Bool, true, false, Option, none, some, List, [], ◌∷◌}
use open62541pp.Prelude.Text.{Bytes, codes}
use open62541pp.Status.{StatusCodes, good, bad_internal_error}
use open62541pp.Outcome.{foreign, std_exception, Outcome, ok, throw, undefined, ◌>>=◌, ◌>>◌}

-- The C library's structures, each with the value-initialised one (`defaultInstance`).
pub record Native : Type 1 where
  pub node_id : Type 0
  pub endpoint_description : Type 0
  pub byte_string : Type 0
  pub extension_object : Type 0
  pub add_nodes_item : Type 0
  pub add_references_item : Type 0
  pub delete_nodes_item : Type 0
  pub delete_references_item : Type 0
  pub data_value : Type 0
  pub date_time : Type 0
  pub context : Type 0
  pub node_id_default : node_id
  pub endpoint_description_default : endpoint_description
  pub byte_string_default : byte_string
  pub extension_object_default : extension_object
  pub add_nodes_item_default : add_nodes_item
  pub add_references_item_default : add_references_item
  pub delete_nodes_item_default : delete_nodes_item
  pub delete_references_item_default : delete_references_item
  pub data_value_default : data_value

pub record Session (n : Native) : Type 0 where
  pub id : n.node_id
  pub context : Option n.context

-- The virtual functions of the user's class.
pub record AccessControlBase (n : Native) : Type 0 where
  pub activate_session :
      Session n → n.endpoint_description → n.byte_string → n.extension_object → Outcome ℕ
  pub close_session : Session n → Outcome (Unit {0})
  pub get_user_rights_mask : Session n → n.node_id → Outcome ℕ
  pub get_user_access_level : Session n → n.node_id → Outcome ℕ
  pub get_user_executable : Session n → n.node_id → Outcome Bool
  pub get_user_executable_on_object : Session n → n.node_id → n.node_id → Outcome Bool
  pub allow_add_node : Session n → n.add_nodes_item → Outcome Bool
  pub allow_add_reference : Session n → n.add_references_item → Outcome Bool
  pub allow_delete_node : Session n → n.delete_nodes_item → Outcome Bool
  pub allow_delete_reference : Session n → n.delete_references_item → Outcome Bool
  pub allow_browse_node : Session n → n.node_id → Outcome Bool
  pub allow_transfer_subscription : Session n → Session n → Outcome Bool
  pub allow_history_update : Session n → n.node_id → ℕ → n.data_value → Outcome Bool
  pub allow_history_delete : Session n → n.node_id → n.date_time → n.date_time → Bool → Outcome Bool

-- What the C library gets: a value, with the log's new entries; or the program ends, as an
-- exception leaves a `noexcept` function.
pub data Answer {ℓ} (A : Type ℓ) : Type ℓ where
  answer : A → List Bytes → Answer A
  terminate : Answer A
  undefined_behaviour : Answer A

unfoldable pub as_wrapper_ref {ℓ} : {A : Type ℓ} → A → Option A → A
as_wrapper_ref default_instance none = default_instance
as_wrapper_ref default_instance (some native) = native

-- `catch (const std::exception&)`
unfoldable pub invoke_access_callback {ℓ} : {A : Type ℓ} → Bytes → A → Outcome A → Answer A
invoke_access_callback callback_name return_on_exception (ok result) = answer result []
invoke_access_callback callback_name return_on_exception (throw foreign) = terminate
invoke_access_callback callback_name return_on_exception (throw _) =
    answer return_on_exception (callback_name ∷ [])
invoke_access_callback callback_name return_on_exception undefined = undefined_behaviour

-- The id and the context of the session that a callback is about.
abbrev pub SessionArgs : Native → Type 0
SessionArgs n = Option n.node_id × Option n.context

module _ {n : Native} where
  -- `has_wrapper`: whether a C++ server belongs to the native one.
  unfoldable pub get_session : Bool → Option n.node_id → Option n.context → Option (Session n)
  unfolding as_wrapper_ref
  get_session has_wrapper session_id session_context = elim has_wrapper [
    | true ↦
        some
          (record { id = as_wrapper_ref n.node_id_default session_id; context = session_context })
    | false ↦ none
  ]

  -- `session.value()` throws std::bad_optional_access.
  unfoldable pub session_value : Option (Session n) → Outcome (Session n)
  session_value none = throw std_exception
  session_value (some session) = ok session

  unfoldable pub activate_session_native :
      ⦃c : StatusCodes⦄
      → AccessControlBase n
      → Bool
      → Option n.node_id
      → Option n.endpoint_description
      → Option n.byte_string
      → Option n.extension_object
      → Answer ℕ
  unfolding invoke_access_callback get_session session_value as_wrapper_ref
  activate_session_native ac has_wrapper session_id endpoint certificate token =
      invoke_access_callback (codes "activateSession") bad_internal_error (do
        session ← session_value (get_session has_wrapper session_id none)
        ac.activate_session session (as_wrapper_ref n.endpoint_description_default endpoint)
            (as_wrapper_ref n.byte_string_default certificate)
            (as_wrapper_ref n.extension_object_default token))

  -- The log names the other callback.
  unfoldable pub close_session_native :
      ⦃c : StatusCodes⦄ → AccessControlBase n → Bool → SessionArgs n → Answer ℕ
  unfolding invoke_access_callback get_session session_value
  close_session_native ac has_wrapper (session_id, session_context) =
      invoke_access_callback (codes "activateSession") good (do
        session ← session_value (get_session has_wrapper session_id session_context)
        ac.close_session session
        ok good)

  unfoldable pub get_user_rights_mask_native :
      AccessControlBase n → Bool → SessionArgs n → Option n.node_id → Answer ℕ
  unfolding invoke_access_callback get_session session_value as_wrapper_ref
  get_user_rights_mask_native ac has_wrapper (session_id, session_context) node_id =
      invoke_access_callback (codes "getUserRightsMask") 0 (do
        session ← session_value (get_session has_wrapper session_id session_context)
        ac.get_user_rights_mask session (as_wrapper_ref n.node_id_default node_id))

  unfoldable pub get_user_access_level_native :
      AccessControlBase n → Bool → SessionArgs n → Option n.node_id → Answer ℕ
  unfolding invoke_access_callback get_session session_value as_wrapper_ref
  get_user_access_level_native ac has_wrapper (session_id, session_context) node_id =
      invoke_access_callback (codes "getUserAccessLevel") 0 (do
        session ← session_value (get_session has_wrapper session_id session_context)
        ac.get_user_access_level session (as_wrapper_ref n.node_id_default node_id))

  unfoldable pub get_user_executable_native :
      AccessControlBase n → Bool → SessionArgs n → Option n.node_id → Answer Bool
  unfolding invoke_access_callback get_session session_value as_wrapper_ref
  get_user_executable_native ac has_wrapper (session_id, session_context) method_id =
      invoke_access_callback (codes "getUserExecutable") false (do
        session ← session_value (get_session has_wrapper session_id session_context)
        ac.get_user_executable session (as_wrapper_ref n.node_id_default method_id))

  unfoldable pub get_user_executable_on_object_native :
      AccessControlBase n → Bool → SessionArgs n → Option n.node_id → Option n.node_id → Answer Bool
  unfolding invoke_access_callback get_session session_value as_wrapper_ref
  get_user_executable_on_object_native ac has_wrapper (session_id, session_context) method_id
        object_id =
      invoke_access_callback (codes "getUserExecutableOnObject") false (do
        session ← session_value (get_session has_wrapper session_id session_context)
        ac.get_user_executable_on_object session (as_wrapper_ref n.node_id_default method_id)
            (as_wrapper_ref n.node_id_default object_id))

  unfoldable pub allow_add_node_native :
      AccessControlBase n → Bool → SessionArgs n → Option n.add_nodes_item → Answer Bool
  unfolding invoke_access_callback get_session session_value as_wrapper_ref
  allow_add_node_native ac has_wrapper (session_id, session_context) item =
      invoke_access_callback (codes "allowAddNode") false (do
        session ← session_value (get_session has_wrapper session_id session_context)
        ac.allow_add_node session (as_wrapper_ref n.add_nodes_item_default item))

  unfoldable pub allow_add_reference_native :
      AccessControlBase n → Bool → SessionArgs n → Option n.add_references_item → Answer Bool
  unfolding invoke_access_callback get_session session_value as_wrapper_ref
  allow_add_reference_native ac has_wrapper (session_id, session_context) item =
      invoke_access_callback (codes "allowAddReference") false (do
        session ← session_value (get_session has_wrapper session_id session_context)
        ac.allow_add_reference session (as_wrapper_ref n.add_references_item_default item))

  unfoldable pub allow_delete_node_native :
      AccessControlBase n → Bool → SessionArgs n → Option n.delete_nodes_item → Answer Bool
  unfolding invoke_access_callback get_session session_value as_wrapper_ref
  allow_delete_node_native ac has_wrapper (session_id, session_context) item =
      invoke_access_callback (codes "allowDeleteNode") false (do
        session ← session_value (get_session has_wrapper session_id session_context)
        ac.allow_delete_node session (as_wrapper_ref n.delete_nodes_item_default item))

  unfoldable pub allow_delete_reference_native :
      AccessControlBase n → Bool → SessionArgs n → Option n.delete_references_item → Answer Bool
  unfolding invoke_access_callback get_session session_value as_wrapper_ref
  allow_delete_reference_native ac has_wrapper (session_id, session_context) item =
      invoke_access_callback (codes "allowDeleteReference") false (do
        session ← session_value (get_session has_wrapper session_id session_context)
        ac.allow_delete_reference session (as_wrapper_ref n.delete_references_item_default item))

  unfoldable pub allow_browse_node_native :
      AccessControlBase n → Bool → SessionArgs n → Option n.node_id → Answer Bool
  unfolding invoke_access_callback get_session session_value as_wrapper_ref
  allow_browse_node_native ac has_wrapper (session_id, session_context) node_id =
      invoke_access_callback (codes "allowBrowseNode") false (do
        session ← session_value (get_session has_wrapper session_id session_context)
        ac.allow_browse_node session (as_wrapper_ref n.node_id_default node_id))

  unfoldable pub allow_transfer_subscription_native :
      AccessControlBase n → Bool → SessionArgs n → SessionArgs n → Answer Bool
  unfolding invoke_access_callback get_session session_value
  allow_transfer_subscription_native ac has_wrapper (old_id, old_context) (new_id, new_context) =
      invoke_access_callback (codes "allowTransferSubscription") false (do
        old_session ← session_value (get_session has_wrapper old_id old_context)
        new_session ← session_value (get_session has_wrapper new_id new_context)
        ac.allow_transfer_subscription old_session new_session)

  unfoldable pub allow_history_update_native :
      AccessControlBase n
      → Bool
      → SessionArgs n
      → Option n.node_id
      → ℕ
      → Option n.data_value
      → Answer Bool
  unfolding invoke_access_callback get_session session_value as_wrapper_ref
  allow_history_update_native ac has_wrapper (session_id, session_context) node_id perform value =
      invoke_access_callback (codes "allowHistoryUpdate") false (do
        session ← session_value (get_session has_wrapper session_id session_context)
        ac.allow_history_update session (as_wrapper_ref n.node_id_default node_id) perform
            (as_wrapper_ref n.data_value_default value))

  unfoldable pub allow_history_delete_native :
      AccessControlBase n
      → Bool
      → SessionArgs n
      → Option n.node_id
      → n.date_time
      → n.date_time
      → Bool
      → Answer Bool
  unfolding invoke_access_callback get_session session_value as_wrapper_ref
  allow_history_delete_native ac has_wrapper (session_id, session_context) node_id start finish
        modified =
      invoke_access_callback (codes "allowHistoryDelete") false (do
        session ← session_value (get_session has_wrapper session_id session_context)
        ac.allow_history_delete session (as_wrapper_ref n.node_id_default node_id) start finish
            modified)
