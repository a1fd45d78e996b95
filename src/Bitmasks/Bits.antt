-- ===== src/Bitmasks/Bits.antt =====
-- Numbers by their bits.
use open62541pp.Prelude.{
  ℕ, zero, suc, ◌+◌, ◌*◌, ◌/◌, ◌^◌, ◌<◌, ◌≡◌, ap, ◌∙◌, Bool, true, false, if◌then◌else◌, arith,
}
use open62541pp.Bitmasks.{is_odd, bitwise}

-- Bit `k`.
unfoldable pub test : ℕ → ℕ → Bool
test zero a = is_odd a
test (suc k) a = test k (a / 2)

pub bitwise-lt : (f : Bool → Bool → Bool) (w a b : ℕ) → bitwise f w a b < 2 ^ w
unfolding bitwise
bitwise-lt f zero a b = omega arith
bitwise-lt f (suc w) a b = ground (arith, bitwise-lt f w (a / 2) (b / 2))

is_odd-digit : (d : Bool) (y : ℕ) → is_odd ((if d then 1 else 0) + 2 * y) ≡ d
is_odd-digit true y = ground arith
is_odd-digit false y = ground arith

half-digit : (d : Bool) (y : ℕ) → ((if d then 1 else 0) + 2 * y) / 2 ≡ y
half-digit true y = omega arith
half-digit false y = omega arith

pub test-bitwise :
    (f : Bool → Bool → Bool) (k w a b : ℕ)
    → k < w
    → test k (bitwise f w a b) ≡ f (test k a) (test k b)
unfolding bitwise test
test-bitwise f k zero a b lt = absurd (omega (arith, lt))
test-bitwise f zero (suc w) a b lt =
    is_odd-digit (f (is_odd a) (is_odd b)) (bitwise f w (a / 2) (b / 2))
test-bitwise f (suc k) (suc w) a b lt =
    ap (test k) (half-digit (f (is_odd a) (is_odd b)) (bitwise f w (a / 2) (b / 2)))
    ∙ test-bitwise f k w (a / 2) (b / 2) (omega (arith, lt))

pub test_ext : (w a b : ℕ) → a < 2 ^ w → b < 2 ^ w → ((k : ℕ) → k < w → test k a ≡ test k b) → a ≡ b
unfolding test
test_ext zero a b small_a small_b same = omega arith
test_ext (suc w) a b small_a small_b same =
    let halves =
      test_ext w (a / 2) (b / 2) (omega arith) (omega arith)
        (λ k lt. same (suc k) (omega (arith, lt))) in
    ground (arith, halves, same 0 (omega arith))
