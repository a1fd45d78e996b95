-- ===== src/Tests/Access.antt =====
-- Examples of access control and of the session registry.
use open62541pp.Prelude.{
  ℕ, zero, suc, ◌==◌, ◌≡◌, ◌≢◌, refl, ◌⊎◌, true, false, if◌then◌else◌, none, some, List, [], ◌∷◌,
}
use open62541pp.Prelude.Text.{Bytes, codes as text}
use open62541pp.Map.{find}
use open62541pp.Map.Order.{nat_ord}
use open62541pp.Status.{good, is_good, is_bad}
use open62541pp.Outcome.{foreign, std_exception, ok, throw}
use open62541pp.Tests.Codes.{codes}
use open62541pp.AccessControl.Default.{
  AccessControlDefault, IdentityToken, user_name, activate_session,
}
use open62541pp.AccessControl.Admission.{Admits, activate_session-Admits}
use open62541pp.AccessControl.Adapter.{Native, AccessControlBase, answer}
use open62541pp.AccessControl.Table.{Request, add_node, create}
use open62541pp.AccessControl.FailClosed.{user_decision, callback_name, create-refuses}
use open62541pp.AccessControl.Sessions.{
  Activate, Event, activate, close, SessionRegistry, null, user, apply_times, handle_all, after_all,
  sessions-after,
}

abbrev access : AccessControlDefault
access = record {
  allow_anonymous = false;
  logins = record { username = text "user"; password = text "secret" } ∷ [];
  user_token_policies = [];
}

abbrev token : IdentityToken
token = user_name (text "open62541-username-policy#1") (text "user") (text "secret")

activate_session-Admits_example :
    (Admits access token × (activate_session access token ≡ good))
    ⊎ ((¬ Admits access token) × (is_bad (activate_session access token) ≡ true))
activate_session-Admits_example = activate_session-Admits access token

abbrev native : Native
native = record {
  node_id = ℕ;
  endpoint_description = ℕ;
  byte_string = ℕ;
  extension_object = ℕ;
  add_nodes_item = ℕ;
  add_references_item = ℕ;
  delete_nodes_item = ℕ;
  delete_references_item = ℕ;
  data_value = ℕ;
  date_time = ℕ;
  context = ℕ;
  node_id_default = 0;
  endpoint_description_default = 0;
  byte_string_default = 0;
  extension_object_default = 0;
  add_nodes_item_default = 0;
  add_references_item_default = 0;
  delete_nodes_item_default = 0;
  delete_references_item_default = 0;
  data_value_default = 0;
}

-- Allows adding item 1 and throws for any other item.
abbrev guard : AccessControlBase native
guard = record {
  activate_session = λ s e b x. ok 0;
  close_session = λ s. ok tt;
  get_user_rights_mask = λ s n. ok 0;
  get_user_access_level = λ s n. ok 0;
  get_user_executable = λ s n. ok false;
  get_user_executable_on_object = λ s n m. ok false;
  allow_add_node = λ s item. if item == 1 then ok true else throw std_exception;
  allow_add_reference = λ s item. ok false;
  allow_delete_node = λ s item. ok false;
  allow_delete_reference = λ s item. ok false;
  allow_browse_node = λ s n. ok true;
  allow_transfer_subscription = λ s t. ok false;
  allow_history_update = λ s n p v. ok false;
  allow_history_delete = λ s n a b m. ok false;
}

abbrev adding : ℕ → Request native
adding item = add_node (some 7, none) (some item)

abbrev no_log : List Bytes
no_log = []

create-refuses_example :
    (create guard true (adding 2) ≡ answer true no_log
      → (true ≡ true) × (user_decision guard (adding 2) ≡ ok true) × (no_log ≡ no_log))
    × (true ≡ false → create guard true (adding 2) ≡ answer false (callback_name (adding 2) ∷ []))
    × (std_exception ≢ foreign
        → user_decision guard (adding 2) ≡ throw std_exception
        → create guard true (adding 2) ≡ answer false (callback_name (adding 2) ∷ []))
create-refuses_example = create-refuses guard true (adding 2) no_log std_exception

-- Sessions with an even id are accepted.
abbrev accept : Activate ℕ ℕ
accept none = (2147614720, 0)
accept (some zero) = (0, 10)
accept (some (suc zero)) = (2147614720, 11)
accept (some (suc (suc id))) = (0, 12)

abbrev registry : SessionRegistry ℕ ℕ
registry = record {
  activate_session_user = null;
  close_session_user = null;
  closed = [];
  sessions = [];
}

abbrev events : List (Event ℕ)
events =
    activate (some 5) ∷ activate (some 1) ∷ activate none ∷ close (some 5) ∷ activate (some 0) ∷ []

sessions-after_example :
    let registry' =
      (apply_times 2
        (record { activate_session = user accept; close_session = user tt }, registry)).1 in
    (registry'' : SessionRegistry ℕ ℕ) × (handle_all events registry' ≡ ok registry'')
    × (find 0 registry''.sessions ≡ after_all accept 0 events none)
unfolding find
sessions-after_example = sessions-after accept 0 1 events registry tt

session_left : after_all accept 0 events none ≡ some 10
unfolding after_all is_good
session_left = refl

session_closed : after_all accept 5 events none ≡ none
unfolding after_all is_good
session_closed = refl
