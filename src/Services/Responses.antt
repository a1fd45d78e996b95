-- ===== src/Services/Responses.antt =====
-- include/open62541pp/services/detail/response_handling.hpp: the result of a request for one
-- operation. Of a response its service result and its array of results are kept.
use open62541pp.Prelude.{
  ℕ, suc, ◌≡◌, ◌≢◌, refl, ap, ◌∙◌, Option-cases, ◌⊎◌, inl, inr, Bool-cases, true, false, not, ◌==◌,
  if◌then◌else◌, Option, none, some, List, [], ◌∷◌, length, arith,
}
use open62541pp.Status.{StatusCodes, is_bad, good, bad_unexpected_error}
use open62541pp.Outcome.{Outcome, ok, undefined, ◌>>=◌}
use open62541pp.Result.{Result, from_value, from_bad, deref, or_else, transform}

-- `results` is none for a null pointer.
pub record Response {ℓ} (A : Type ℓ) : Type ℓ where
  pub service_result : ℕ
  pub results : Option (List A)
  pub results_size : ℕ

one-ne-zero : (n : ℕ) → 0 ≡ n → (n == 1) ≢ true
one-ne-zero n h one = ground (arith, h, one)

one-ne-two : (m n : ℕ) → suc (suc m) ≡ n → (n == 1) ≢ true
one-ne-two m n h one = ground (arith, h, one)

module _ {ℓ} ⦃c : StatusCodes⦄ {A : Type ℓ} where
  unfoldable pub get_single_result : Response A → Outcome (Result A)
  unfolding from_value from_bad
  get_single_result r =
      if is_bad r.service_result
      then ok (from_bad (record { code = r.service_result }))
      else elim r.results [
        | none ↦ ok (from_bad (record { code = bad_unexpected_error }))
        | some xs ↦
            if not (r.results_size == 1)
            then ok (from_bad (record { code = bad_unexpected_error }))
            else elim xs [ [] ↦ undefined | x ∷ _ ↦ ok (from_value x good) ]
      ]

  -- wrapSingleResult; the wrapper owns the native value from then on.
  unfoldable pub wrap_single_result : Response A → Outcome (Result A)
  unfolding get_single_result transform
  wrap_single_result r = get_single_result r >>= λ result. ok (transform result (λ x. x))

  -- `with_status`: a default result with the member `statusCode` set.
  unfoldable pub wrap_single_result_with_status : (ℕ → A) → Response A → Outcome A
  unfolding wrap_single_result or_else deref from_value
  wrap_single_result_with_status with_status r = wrap_single_result r >>= λ result.
      deref (or_else result (λ code. from_value (with_status code) good))

  -- The array of results is as long as the response says.
  abbrev pub IsValid : Response A → Type ℓ
  IsValid r =
      (r.results ≡ none → r.results_size ≡ 0)
      × ((xs : List A) → r.results ≡ some xs → length xs ≡ r.results_size)

  single : (xs : List A) (n : ℕ) → length xs ≡ n → (n == 1) ≡ true → (x : A) × (xs ≡ x ∷ [])
  single [] n h one = absurd (one-ne-zero n h one)
  single (x ∷ []) n h one = (x, refl)
  single (x ∷ y ∷ xs) n h one = absurd (one-ne-two (length xs) n h one)

  -- A valid response is always turned into a result, without undefined behaviour: if the service
  -- result is bad, or the number of results is not one, a default result with the bad code, the
  -- service result or UA_STATUSCODE_BADUNEXPECTEDERROR; and else the one result.
  pub wrap_single_result_with_status-returns :
      (with_status : ℕ → A) (r : Response A)
      → IsValid r
      → ((is_bad r.service_result ≡ true)
          × (wrap_single_result_with_status with_status r ≡ ok (with_status r.service_result)))
        ⊎ ((is_bad r.service_result ≡ false)
            × ((r.results_size == 1) ≡ false)
            × (wrap_single_result_with_status with_status r
                ≡ ok (with_status bad_unexpected_error)))
        ⊎ ((is_bad r.service_result ≡ false)
            × (x : A) × (r.results ≡ some (x ∷ []))
            × (wrap_single_result_with_status with_status r ≡ ok x))
  unfolding wrap_single_result_with_status wrap_single_result get_single_result transform or_else
      deref from_value from_bad
  wrap_single_result_with_status-returns with_status r valid =
      elim (Bool-cases (is_bad r.service_result)) [
        | inl bad ↦ inl (bad, rw bad refl)
        | inr fine ↦ inr (elim (Option-cases r.results) [
          | inl missing ↦ inl (fine, ground (arith, valid.0 missing), rw (fine, missing) refl)
          | inr (xs, found) ↦ elim (Bool-cases (r.results_size == 1)) [
            | inr many ↦ inl (fine, many, rw (fine, found, many) refl)
            | inl one ↦
                let (x, only) = single xs r.results_size (valid.1 xs found) one in
                inr (fine, x, found ∙ ap some only, rw (fine, found ∙ ap some only, one) refl)
          ]
        ])
      ]
