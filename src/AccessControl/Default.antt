-- ===== src/AccessControl/Default.antt =====
-- AccessControlDefault, src/plugin/accesscontrol_default.cpp: who may open a session.
use open62541pp.Prelude.{
  ℕ, Bool, true, false, not, ◌&&◌, ◌||◌, if◌then◌else◌, leb, List, [], ◌∷◌, ◌++◌, length, take,
  anyb,
}
use open62541pp.Prelude.Eq.{list_beq, nat_eq}
use open62541pp.Prelude.Text.{Bytes, codes}
use open62541pp.Status.{StatusCodes, good, bad_identity_token_invalid, bad_user_access_denied}

abbrev pub policy_id_anonymous : Bytes
policy_id_anonymous = codes "open62541-anonymous-policy"

abbrev pub policy_id_username : Bytes
policy_id_username = codes "open62541-username-policy"

-- `str.size() >= prefix.size() && str.substr(0, prefix.size()) == prefix`
unfoldable pub starts_with : Bytes → Bytes → Bool
unfolding list_beq
starts_with str prefix =
    leb (length prefix) (length str) && list_beq (take (length prefix) str) prefix

pub record Login : Type 0 where
  pub username : Bytes
  pub password : Bytes

-- The user identity token, as far as activateSession looks into it.
pub data IdentityToken : Type 0 where
  empty : IdentityToken
  encoded : IdentityToken
  anonymous : Bytes → IdentityToken
  user_name : Bytes → Bytes → Bytes → IdentityToken
  other_decoded : IdentityToken

pub data UserTokenType : Type 0 where
  anonymous_token username_token certificate_token issued_token : UserTokenType

pub record UserTokenPolicy : Type 0 where
  pub policy_id : Bytes
  pub token_type : UserTokenType
  pub issued_token_type : Bytes
  pub issuer_endpoint_url : Bytes
  pub security_policy_uri : Bytes

pub record AccessControlDefault : Type 0 where
  pub allow_anonymous : Bool
  pub logins : List Login
  pub user_token_policies : List UserTokenPolicy

abbrev pub is_empty {ℓ} : {A : Type ℓ} → List A → Bool
is_empty [] = true
is_empty (x ∷ xs) = false

-- A policy as the constructor makes it: its other strings are empty.
abbrev emplace : Bytes → UserTokenType → UserTokenPolicy
emplace policy_id token_type = record {
  policy_id = policy_id;
  token_type = token_type;
  issued_token_type = [];
  issuer_endpoint_url = [];
  security_policy_uri = [];
}

unfoldable pub init : Bool → List Login → AccessControlDefault
init allow_anonymous logins = record {
  allow_anonymous = allow_anonymous;
  logins = logins;
  user_token_policies =
      (if allow_anonymous then emplace policy_id_anonymous anonymous_token ∷ [] else [])
      ++ (if is_empty logins then [] else emplace policy_id_username username_token ∷ []);
}

unfoldable pub matches : Bytes → Bytes → Login → Bool
unfolding list_beq
matches name password login = list_beq login.username name && list_beq login.password password

module _ ⦃c : StatusCodes⦄ where
  unfoldable pub activate_session : AccessControlDefault → IdentityToken → ℕ
  unfolding starts_with matches
  activate_session ac empty = if ac.allow_anonymous then good else bad_identity_token_invalid
  activate_session ac encoded = bad_identity_token_invalid
  activate_session ac (anonymous policy) =
      if not ac.allow_anonymous
      then bad_identity_token_invalid
      else if is_empty policy || starts_with policy policy_id_anonymous
      then good
      else bad_identity_token_invalid
  activate_session ac (user_name policy name password) =
      if not (starts_with policy policy_id_username)
      then bad_identity_token_invalid
      else if is_empty name && is_empty password
      then bad_identity_token_invalid
      else if anyb (matches name password) ac.logins
      then good
      else bad_user_access_denied
  activate_session ac other_decoded = bad_identity_token_invalid
