-- ===== src/AccessControl/Install.antt =====
-- ServerConfig::setAccessControl of src/server.cpp, with AccessControlBase::create and detail::clear
-- of src/plugin/accesscontrol.cpp as far as the ownership of the adapter goes. The objects of the
-- program are a map from addresses to the user token policies an object keeps: the configuration
-- points to those and does not copy them. Allocating a string succeeds.
use open62541pp.Prelude.{
  ℕ, Bool, true, false, not, ◌&&◌, if◌then◌else◌, Option, none, some, List, [], ◌∷◌, map,
}
use open62541pp.Prelude.Text.{Bytes}
use open62541pp.Map.{Map, find, insert, erase}
use open62541pp.Map.Order.{nat_ord}
use open62541pp.Outcome.{Outcome, ok, undefined}
use open62541pp.AccessControl.Default.{UserTokenType, anonymous_token, UserTokenPolicy, is_empty}

-- What UA_ServerConfig::accessControl holds: zeros, a plugin of the C library, or an adapter of the
-- object at an address, which `clear` deletes or not.
pub data Plugin : Type 0 where
  zeros : Plugin
  library : Plugin
  adapter : ℕ → Bool → Plugin

pub record ServerConfig : Type 0 where
  pub security_policies : List Bytes
  pub access_control : Plugin
  pub objects : Map ℕ (List UserTokenPolicy)

-- `std::unique_ptr` may be null.
pub data Argument : Type 0 where
  reference : ℕ → Argument
  unique : ℕ → Argument
  null_unique : Argument

abbrev is_anonymous : UserTokenType → Bool
is_anonymous anonymous_token = true
is_anonymous _ = false

unfoldable pub highest_uri : List Bytes → Option Bytes
highest_uri [] = none
highest_uri (uri ∷ []) = some uri
highest_uri (uri ∷ uri' ∷ uris) = highest_uri (uri' ∷ uris)

unfoldable pub transfer : Bytes → UserTokenPolicy → UserTokenPolicy
transfer uri policy =
    if not (is_anonymous policy.token_type) && is_empty policy.security_policy_uri
    then record policy { security_policy_uri = uri }
    else policy

unfoldable pub set_highest_security_policy :
    List Bytes → List UserTokenPolicy → List UserTokenPolicy
unfolding highest_uri transfer
set_highest_security_policy uris policies = elim (highest_uri uris) [
  | none ↦ policies
  | some uri ↦ map (transfer uri) policies
]

unfoldable pub clear : ServerConfig → ServerConfig
clear config = elim config.access_control [
  | zeros ↦ config
  | library ↦ record config { access_control = zeros }
  | adapter id owns ↦ record config {
    access_control = zeros;
    objects = if owns then erase id config.objects else config.objects;
  }
]

-- `create`, the assignment and the transfer; `found` is the object that is asked for its policies.
-- A call of the virtual function getUserTokenPolicies on a deleted object is undefined.
unfoldable pub create_for :
    ℕ → Bool → ServerConfig → Option (List UserTokenPolicy) → Outcome ServerConfig
unfolding set_highest_security_policy
create_for id owns config none = undefined
create_for id owns config (some policies) = ok (record config {
  access_control = adapter id owns;
  objects =
      insert id (set_highest_security_policy config.security_policies policies) config.objects;
})

unfoldable pub install : ℕ → Bool → ServerConfig → Outcome ServerConfig
unfolding clear create_for
install id owns config =
    let config' = clear config in create_for id owns config' (find id config'.objects)

unfoldable pub set_access_control : Argument → ServerConfig → Outcome ServerConfig
unfolding install
set_access_control (reference id) config = install id false config
set_access_control (unique id) config = install id true config
set_access_control null_unique config = ok config

-- The object that an argument stands for, and whether the configuration is to own it.
abbrev pub target : Argument → Option (ℕ × Bool)
target (reference id) = some (id, false)
target (unique id) = some (id, true)
target null_unique = none
