-- ===== src/Outcome.antt =====
-- C++ calls that may throw: exceptions as values, include/open62541pp/exception.hpp (BadStatus,
-- BadDisconnect, TypeError, getStatusCode, throwIfBad) and detail/result_utils.hpp (tryInvoke).
pub mod Catcher
use open62541pp.Prelude.{
  ℕ, ◌≡◌, refl, ◌⊎◌, inl, inr, Bool, true, false, ◌==◌, Bool-cases, if◌then◌else◌, Option, none,
  some, arith,
}
use open62541pp.Status.{
  StatusCodes, is_bad, good, bad_internal_error, bad_out_of_memory, bad_disconnect,
}

-- What a `throw` raises. `std_exception` is any other class below std::exception (TypeError is
-- one), `foreign` a value of no such class.
pub data Exn : Type 0 where
  bad_status : ℕ → Exn
  bad_disconnect_exn : Exn
  bad_alloc std_exception foreign : Exn

-- A call returns, throws, or has undefined behaviour.
pub data Outcome {ℓ} (A : Type ℓ) : Type ℓ where
  ok : A → Outcome A
  throw : Exn → Outcome A
  undefined : Outcome A

infixl 5 ◌>>=◌ ◌>>◌
abbrev pub ◌>>=◌ {ℓ κ} : {A : Type ℓ} {B : Type κ} → Outcome A → (A → Outcome B) → Outcome B
ok a >>= f = f a
throw e >>= f = throw e
undefined >>= f = undefined

abbrev pub ◌>>◌ {ℓ} : {B : Type ℓ} → Outcome (Unit {0}) → Outcome B → Outcome B
m >> k = m >>= λ _. k

module _ ⦃c : StatusCodes⦄ where
  -- A BadDisconnect is a BadStatus with the code of its constructor.
  unfoldable pub get_status_code : Option Exn → ℕ
  get_status_code none = good
  get_status_code (some (bad_status code)) = code
  get_status_code (some bad_disconnect_exn) = bad_disconnect
  get_status_code (some bad_alloc) = bad_out_of_memory
  get_status_code (some std_exception) = bad_internal_error
  get_status_code (some foreign) = bad_internal_error

  unfoldable pub throw_if_bad : ℕ → Outcome (Unit {0})
  throw_if_bad code =
      if is_bad code
      then (if code == bad_disconnect then throw bad_disconnect_exn else throw (bad_status code))
      else ok tt

  -- `throw_if_bad` throws exactly for the bad codes, and what it throws carries the code.
  pub throw_if_bad_cases :
      (code : ℕ)
      → ((is_bad code ≡ true)
          × (e : Exn) × (throw_if_bad code ≡ throw e)
          × (get_status_code (some e) ≡ code))
        ⊎ ((is_bad code ≡ false) × (throw_if_bad code ≡ ok tt))
  unfolding throw_if_bad get_status_code
  throw_if_bad_cases code = elim (Bool-cases (is_bad code)) [
    | inr fine ↦ inr (fine, rw fine)
    | inl bad ↦ elim (Bool-cases (code == c.bad_disconnect_code)) [
      | inl same ↦ inl (bad, bad_disconnect_exn, rw (bad, same), ground arith)
      | inr other ↦ inl (bad, bad_status code, rw (bad, other), refl)
    ]
  ]

  -- detail::tryInvoke, of a call whose result is a status code: the code of the Result<void>.
  unfoldable pub try_invoke : Outcome ℕ → Outcome ℕ
  try_invoke (ok code) = ok code
  try_invoke (throw e) = ok (get_status_code (some e))
  try_invoke undefined = undefined

  -- A code that is passed through an exception and caught again by `tryInvoke` comes back as it
  -- was, whatever its severity: `throwIfBad(code); return code;` under `tryInvoke` yields `code`.
  pub try_invoke-throw_if_bad : (code : ℕ) → try_invoke (throw_if_bad code >> ok code) ≡ ok code
  unfolding try_invoke throw_if_bad get_status_code
  try_invoke-throw_if_bad code = ground arith
