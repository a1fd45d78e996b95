-- ===== src/Status.antt =====
-- Status codes: include/open62541pp/exception.hpp (isGood, isUncertain, isBad) and the class
-- StatusCode of include/open62541pp/types.hpp. A code is the 32-bit number itself.
use open62541pp.Prelude.{ℕ, ◌/◌, ◌^◌, ◌≡◌, ◌≢◌, Bool, true, leb, ◌==◌, arith}

-- `code >> 30U`
abbrev pub severity : ℕ → ℕ
severity code = code / 2 ^ 30

unfoldable pub is_good : ℕ → Bool
is_good code = severity code == 0

unfoldable pub is_uncertain : ℕ → Bool
is_uncertain code = severity code == 1

unfoldable pub is_bad : ℕ → Bool
is_bad code = leb 2 (severity code)

-- The constants UA_STATUSCODE_… that the source names. Their values are those of open62541's
-- headers, which are not part of the repository: a code is known here by its severity only.
pub record StatusCodes : Type 0 where
  pub good_code : ℕ
  pub bad_internal_error_code : ℕ
  pub bad_unexpected_error_code : ℕ
  pub bad_out_of_memory_code : ℕ
  pub bad_disconnect_code : ℕ
  pub bad_identity_token_invalid_code : ℕ
  pub bad_user_access_denied_code : ℕ
  pub bad_monitored_item_id_invalid_code : ℕ
  pub good_lem : is_good good_code ≡ true
  pub bad_internal_error_lem : is_bad bad_internal_error_code ≡ true
  pub bad_unexpected_error_lem : is_bad bad_unexpected_error_code ≡ true
  pub bad_out_of_memory_lem : is_bad bad_out_of_memory_code ≡ true
  pub bad_disconnect_lem : is_bad bad_disconnect_code ≡ true
  pub bad_identity_token_invalid_lem : is_bad bad_identity_token_invalid_code ≡ true
  pub bad_user_access_denied_lem : is_bad bad_user_access_denied_code ≡ true
  pub bad_monitored_item_id_invalid_lem : is_bad bad_monitored_item_id_invalid_code ≡ true

module _ ⦃c : StatusCodes⦄ where
  abbrev pub good : ℕ
  good = c.good_code

  abbrev pub bad_internal_error : ℕ
  bad_internal_error = c.bad_internal_error_code

  abbrev pub bad_unexpected_error : ℕ
  bad_unexpected_error = c.bad_unexpected_error_code

  abbrev pub bad_out_of_memory : ℕ
  bad_out_of_memory = c.bad_out_of_memory_code

  abbrev pub bad_disconnect : ℕ
  bad_disconnect = c.bad_disconnect_code

  abbrev pub bad_identity_token_invalid : ℕ
  bad_identity_token_invalid = c.bad_identity_token_invalid_code

  abbrev pub bad_user_access_denied : ℕ
  bad_user_access_denied = c.bad_user_access_denied_code

  abbrev pub bad_monitored_item_id_invalid : ℕ
  bad_monitored_item_id_invalid = c.bad_monitored_item_id_invalid_code

-- A good code is no bad one.
pub good-ne-bad : (a b : ℕ) → is_good a ≡ true → is_bad b ≡ true → b ≢ a
unfolding is_good is_bad
good-ne-bad a b g h = λ e. ground arith
