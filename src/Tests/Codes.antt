-- ===== src/Tests/Codes.antt =====
-- Constants of open62541's headers for the examples, and examples about status codes and results.
use open62541pp.Prelude.{ℕ, zero, suc, ◌≡◌, refl, ◌⊎◌, true, false, none, some, [], ◌∷◌}
use open62541pp.Status.{StatusCodes, is_good, is_uncertain, is_bad}
use open62541pp.Outcome.{Exn, ok, throw, get_status_code, bad_status, std_exception}
use open62541pp.Outcome.Catcher.{Callback, last_exception}
use open62541pp.Result.{Result, IsValid, value, value_or}
use open62541pp.Result.Void.{transform_void}
use open62541pp.Result.Laws.{value-value_or}

uncertain : is_uncertain 1083441152 ≡ true
unfolding is_uncertain
uncertain = refl

pub severities :
    (is_good 0 ≡ true)
    × (is_bad 2147614720 ≡ true)
    × (is_bad 2147549184 ≡ true)
    × (is_bad 2147680256 ≡ true)
    × (is_bad 2158821376 ≡ true)
    × (is_bad 2149580800 ≡ true)
    × (is_bad 2149515264 ≡ true)
    × (is_bad 2151809024 ≡ true)
unfolding is_good is_bad
severities = (refl, refl, refl, refl, refl, refl, refl, refl)

instance abbrev pub codes : StatusCodes
codes = record {
  good_code = 0;
  bad_internal_error_code = 2147614720;
  bad_unexpected_error_code = 2147549184;
  bad_out_of_memory_code = 2147680256;
  bad_disconnect_code = 2158821376;
  bad_identity_token_invalid_code = 2149580800;
  bad_user_access_denied_code = 2149515264;
  bad_monitored_item_id_invalid_code = 2151809024;
  good_lem = severities.0;
  bad_internal_error_lem = severities.1;
  bad_unexpected_error_lem = severities.2;
  bad_out_of_memory_lem = severities.3;
  bad_disconnect_lem = severities.4;
  bad_identity_token_invalid_lem = severities.5;
  bad_user_access_denied_lem = severities.6;
  bad_monitored_item_id_invalid_lem = severities.7;
}

-- A result without a value.
abbrev nothing : Result ℕ
nothing = record { code = 2158821376; maybe_value = none }

nothing-IsValid : IsValid nothing
nothing-IsValid = λ e. severities.4

value-value_or_example :
    ((is_bad nothing.code ≡ true)
      × (e : Exn) × (value nothing ≡ throw e)
      × (get_status_code (some e) ≡ nothing.code)
      × (value_or nothing 5 ≡ ok 5))
    ⊎ ((a : ℕ) × (is_bad nothing.code ≡ false)
        × (nothing.maybe_value ≡ some a)
        × (value nothing ≡ ok a)
        × (value_or nothing 5 ≡ ok a))
value-value_or_example = value-value_or nothing 5 nothing-IsValid

-- A function that returns nothing is not called, and the uncertain code is lost.
not_called :
    transform_void {A = ℕ}
      (record { code = 1083441152; maybe_value = some 7 })
      (λ a. throw std_exception)
    ≡ ok (record { code = 0 })
unfolding transform_void
not_called = refl

-- A callback that throws for some arguments.
abbrev pub picky : Callback ℕ
picky zero = none
picky (suc zero) = some std_exception
picky (suc (suc n)) = some (bad_status n)

last_thrown : last_exception picky (1 ∷ 5 ∷ 0 ∷ []) none ≡ some (bad_status 3)
unfolding last_exception
last_thrown = refl
