-- ===== src/Result/Laws.antt =====
-- What the operations of Result<T> and Result<void> guarantee.
use open62541pp.Prelude.{◌≡◌, sym, ◌∙◌, ◌⊎◌, inl, inr, Option-cases, true, false, some, arith}
use open62541pp.Status.{StatusCodes, is_bad}
use open62541pp.Outcome.{Exn, ok, throw, throw_if_bad_cases, get_status_code}
use open62541pp.Result.{Result, IsValid, deref, value, value_or, and_then}

-- Chaining is associative, status codes included: it makes no difference whether two fallible
-- steps are chained one after the other or the second inside the first.
pub and_then_assoc {ℓ κ μ} :
    {A : Type ℓ} {B : Type κ} {C : Type μ} (r : Result A) (f : A → Result B) (g : B → Result C)
    → and_then (and_then r f) g ≡ and_then r (λ a. and_then (f a) g)
unfolding and_then
and_then_assoc r f g = ground arith

module _ {ℓ} ⦃c : StatusCodes⦄ {A : Type ℓ} where
  -- For a valid result, `value()` never runs into undefined behaviour: it throws exactly if the
  -- code is bad, and then an exception with that code; otherwise it returns the stored value.
  -- `valueOr(d)` never throws, and returns `d` exactly in the cases where `value()` throws.
  pub value-value_or :
      (r : Result A) (d : A)
      → IsValid r
      → ((is_bad r.code ≡ true)
          × (e : Exn) × (value r ≡ throw e)
          × (get_status_code (some e) ≡ r.code)
          × (value_or r d ≡ ok d))
        ⊎ ((a : A) × (is_bad r.code ≡ false)
            × (r.maybe_value ≡ some a)
            × (value r ≡ ok a)
            × (value_or r d ≡ ok a))
  unfolding value value_or
  value-value_or r d valid = elim (throw_if_bad_cases r.code) [
    | inl (bad, e, thrown, carried) ↦ inl (bad, e, rw thrown, carried, rw bad)
    | inr (fine, returns) ↦ elim (Option-cases r.maybe_value) [
      | inl missing ↦ absurd (cc (sym (valid missing) ∙ fine))
      | inr (a, stored) ↦
          inr (a, fine, stored, rw (returns, stored, deref), rw (fine, stored, deref))
    ]
  ]
