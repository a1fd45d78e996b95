-- ===== src/Result.antt =====
-- include/open62541pp/result.hpp: the class template Result<T> and its specialisation
-- Result<void>. A reference-qualified overload that differs only in copying or moving is the one
-- function here; `*maybeValue_` on an empty optional is the outcome `undefined`.
pub mod Void
pub mod Laws
use open62541pp.Prelude.{ℕ, ◌≡◌, Bool, true, false, not, if◌then◌else◌, Option, none, some}
use open62541pp.Status.{StatusCodes, is_bad}
use open62541pp.Outcome.{Outcome, ok, undefined, throw_if_bad, ◌>>=◌, ◌>>◌}

-- The constructor asserts that the code is bad.
pub record BadResult : Type 0 where
  pub code : ℕ

pub record Result {ℓ} (A : Type ℓ) : Type ℓ where
  pub code : ℕ
  pub maybe_value : Option A

-- What every constructor leaves behind: no value only with a bad code.
abbrev pub IsValid {ℓ} : {A : Type ℓ} → Result A → Type ℓ
IsValid r = r.maybe_value ≡ none → is_bad r.code ≡ true

module _ {ℓ} {A : Type ℓ} where
  unfoldable pub from_value : A → ℕ → Result A
  from_value value code = record { code = code; maybe_value = some value }

  unfoldable pub from_bad : BadResult → Result A
  from_bad error = record { code = error.code; maybe_value = none }

  unfoldable pub has_value : Result A → Bool
  has_value r = elim r.maybe_value [ none ↦ false | some _ ↦ true ]

  -- `*result`
  unfoldable pub deref : Result A → Outcome A
  deref r = elim r.maybe_value [ none ↦ undefined | some v ↦ ok v ]

  unfoldable pub value : ⦃c : StatusCodes⦄ → Result A → Outcome A
  unfolding deref
  value r = do throw_if_bad r.code; deref r

  unfoldable pub value_or : Result A → A → Outcome A
  unfolding deref
  value_or r default_value = if not (is_bad r.code) then deref r else ok default_value

  -- orElseImpl
  unfoldable pub or_else : Result A → (ℕ → Result A) → Result A
  or_else r func = elim r.maybe_value [ none ↦ func r.code | some _ ↦ r ]

module _ {ℓ κ} {A : Type ℓ} {B : Type κ} where
  -- transformImpl
  unfoldable pub transform : Result A → (A → B) → Result B
  unfolding from_value from_bad
  transform r func = elim r.maybe_value [
    | none ↦ from_bad (record { code = r.code })
    | some v ↦ from_value (func v) r.code
  ]

  -- andThenImpl, for a callable `Result<U>(T&&)`
  unfoldable pub and_then : Result A → (A → Result B) → Result B
  unfolding from_bad
  and_then r func = elim r.maybe_value [
    | none ↦ from_bad (record { code = r.code })
    | some v ↦ func v
  ]

  -- andThenImpl, for a callable `Result<U>(T&&, StatusCode)`
  unfoldable pub and_then_with_code : Result A → (A → ℕ → Result B) → Result B
  unfolding from_bad
  and_then_with_code r func = elim r.maybe_value [
    | none ↦ from_bad (record { code = r.code })
    | some v ↦ func v r.code
  ]
