-- ===== src/ContentFilter/Copies.antt =====
-- When the copies of concatFilterElements in src/ua_types.cpp succeed, and what they are.
use open62541pp.Prelude.{
  ℕ, zero, suc, ◌+◌, ◌≡◌, refl, Bool, true, not, ◌&&◌, if◌then◌else◌, List, [], ◌∷◌, ◌++◌, map,
  length, arith,
}
use open62541pp.Status.{StatusCodes, bad_out_of_memory}
use open62541pp.Outcome.{ok, throw, bad_status}
use open62541pp.ContentFilter.{
  ContentFilter, shift_element, total_size, copy_elements, copy_filters,
}

-- Whether the copies for `size` positions from `position` on succeed.
unfoldable pub copies : (ℕ → Bool) → ℕ → ℕ → Bool
copies copy_fails position zero = true
copies copy_fails position (suc size) =
    not (copy_fails position) && copies copy_fails (suc position) size

copies-add :
    (copy_fails : ℕ → Bool) (position m n : ℕ)
    → copies copy_fails position (m + n)
      ≡ (copies copy_fails position m && copies copy_fails (position + m) n)
unfolding copies
copies-add copy_fails position zero n =
    let left : 0 + n ≡ n = omega arith in
    let right : position + 0 ≡ position = omega arith in rw (left, right) refl
copies-add copy_fails position (suc m) n =
    let left : suc m + n ≡ suc (m + n) = omega arith in
    let right : position + suc m ≡ suc position + m = omega arith in
    rw (left, right, copies) (ground (arith, copies-add copy_fails (suc position) m n))

module _ {ℓ} {L : Type ℓ} where
  -- The filters one behind the other, with their indices moved.
  unfoldable pub shifted : ℕ → List (ContentFilter L) → ContentFilter L
  unfolding shift_element
  shifted offset [] = []
  shifted offset (filter ∷ filters) =
      map (shift_element offset) filter ++ shifted (offset + length filter) filters

  module _ ⦃c : StatusCodes⦄ (copy_fails : ℕ → Bool) where
    copy_elements-copies :
        (position : ℕ) (filter : ContentFilter L)
        → copy_elements copy_fails position filter ≡ (
            if copies copy_fails position (length filter)
            then ok filter
            else throw (bad_status bad_out_of_memory))
    unfolding copy_elements copies
    copy_elements-copies position [] = refl
    copy_elements-copies position (e ∷ filter) =
        ground (arith, copy_elements-copies (suc position) filter)

    pub copy_filters-copies :
        (offset : ℕ) (filters : List (ContentFilter L))
        → copy_filters copy_fails offset filters ≡ (
            if copies copy_fails offset (total_size filters)
            then ok (shifted offset filters)
            else throw (bad_status bad_out_of_memory))
    unfolding copy_filters total_size shifted copies
    copy_filters-copies offset [] = refl
    copy_filters-copies offset (filter ∷ filters) = ground (
      arith,
      copies-add copy_fails offset (length filter) (total_size filters),
      copy_elements-copies offset filter,
      copy_filters-copies (offset + length filter) filters,
    )
