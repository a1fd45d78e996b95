-- ===== src/Bitmasks/Flags.antt =====
-- A Bitmask is a set of flags.
use open62541pp.Prelude.{
  ℕ, zero, suc, ◌^◌, ◌<◌, ◌≡◌, ◌↔◌, refl, ap, ◌∙◌, true, false, not, ◌&&◌, ◌||◌, ==_iff, arith,
}
use open62541pp.Bitmasks.{
  bitwise, complement, set_all, set, reset_all, reset, flip, all, all_of, any, any_of, none,
  none_of,
}
use open62541pp.Bitmasks.Bits.{test, bitwise-lt, test-bitwise, test_ext}

test-zero : (k : ℕ) → test k 0 ≡ false
unfolding test
test-zero zero = refl
test-zero (suc k) = test-zero k

-- Each operation that changes a mask is one on flags: all, the given ones too, none, those that are
-- not given, and those that were not there.
pub test-operations :
    (w k bits mask : ℕ)
    → k < w
    → (test k (set_all w mask) ≡ true)
      × (test k (set w bits mask) ≡ test k mask || test k bits)
      × (test k (reset_all w mask) ≡ false)
      × (test k (reset w bits mask) ≡ test k mask && not (test k bits))
      × (test k (flip w mask) ≡ not (test k mask))
unfolding set_all set reset_all reset flip
test-operations w k bits mask lt = (
  test-bitwise (λ x y. not x) k w 0 0 lt ∙ ap not (test-zero k),
  test-bitwise ◌||◌ k w mask bits lt,
  test-zero k,
  test-bitwise ◌&&◌ k w mask (complement w bits) lt
      ∙ ap (λ b. test k mask && b) (test-bitwise (λ x y. not x) k w bits 0 lt),
  test-bitwise (λ x y. not x) k w mask 0 lt,
)

all_of_lem :
    (w bits mask : ℕ)
    → bits < 2 ^ w
    → (all_of w bits mask ≡ true) ↔ ((k : ℕ) → k < w → test k bits ≡ true → test k mask ≡ true)
unfolding all_of
all_of_lem w bits mask small = (
  λ h k lt given. ground (
    arith,
    test-bitwise ◌&&◌ k w mask bits lt,
    ap (test k) ((==_iff (bitwise ◌&&◌ w mask bits) bits).0 h),
    given,
  ),
  λ h. (==_iff (bitwise ◌&&◌ w mask bits) bits).1 (
      test_ext w (bitwise ◌&&◌ w mask bits) bits (bitwise-lt ◌&&◌ w mask bits) small
        (λ k lt. ground (arith, test-bitwise ◌&&◌ k w mask bits lt, h k lt))),
)

none_of_lem :
    (w bits mask : ℕ)
    → (none_of w bits mask ≡ true) ↔ ((k : ℕ) → k < w → test k bits ≡ true → test k mask ≡ false)
unfolding none_of
none_of_lem w bits mask = (
  λ h k lt given. ground (
    arith,
    test-bitwise ◌&&◌ k w mask bits lt,
    ap (test k) ((==_iff (bitwise ◌&&◌ w mask bits) 0).0 h),
    test-zero k,
    given,
  ),
  λ h. (==_iff (bitwise ◌&&◌ w mask bits) 0).1 (
      test_ext w (bitwise ◌&&◌ w mask bits) 0 (bitwise-lt ◌&&◌ w mask bits)
        (omega (arith, bitwise-lt ◌&&◌ w mask bits))
        (λ k lt. ground (arith, test-bitwise ◌&&◌ k w mask bits lt, test-zero k, h k lt))),
)

all_lem : (w mask : ℕ) → (all w mask ≡ true) ↔ ((k : ℕ) → k < w → test k mask ≡ true)
unfolding all
all_lem w mask = (
  λ h k lt. ground (
    arith,
    test-bitwise (λ x y. not x) k w mask 0 lt,
    ap (test k) ((==_iff (complement w mask) 0).0 h),
    test-zero k,
  ),
  λ h. (==_iff (complement w mask) 0).1 (
      test_ext w (complement w mask) 0 (bitwise-lt (λ x y. not x) w mask 0)
        (omega (arith, bitwise-lt (λ x y. not x) w mask 0))
        (λ k lt. ground (arith, test-bitwise (λ x y. not x) k w mask 0 lt, test-zero k, h k lt))),
)

-- The queries on a mask tell about its flags: `all` and `allOf`, that every flag, every given one, is
-- there; `noneOf` that no given one is there; and `anyOf` is the opposite of `noneOf`, as `any` is of
-- `none`. The given mask is a number of `w` bits.
pub query_lem :
    (w bits mask : ℕ)
    → bits < 2 ^ w
    → ((all w mask ≡ true) ↔ ((k : ℕ) → k < w → test k mask ≡ true))
      × ((all_of w bits mask ≡ true) ↔ ((k : ℕ) → k < w → test k bits ≡ true → test k mask ≡ true))
      × ((none_of w bits mask ≡ true)
          ↔ ((k : ℕ) → k < w → test k bits ≡ true → test k mask ≡ false))
      × (any_of w bits mask ≡ not (none_of w bits mask))
      × (any w mask ≡ not (none w mask))
unfolding any_of none_of any none
query_lem w bits mask small =
    (all_lem w mask, all_of_lem w bits mask small, none_of_lem w bits mask, refl, refl)
