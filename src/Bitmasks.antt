-- ===== src/Bitmasks.antt =====
-- The class template Bitmask of include/open62541pp/bitmask.hpp, over an underlying type of `w` bits;
-- a signed one by its bit pattern. The operators of C++ on bits go digit by digit.
pub mod Bits
pub mod Flags
use open62541pp.Prelude.{
  ℕ, zero, suc, ◌+◌, ◌*◌, ◌/◌, ◌%◌, ◌==◌, Bool, true, false, not, ◌&&◌, ◌||◌, if◌then◌else◌,
}

abbrev pub is_odd : ℕ → Bool
is_odd a = a % 2 == 1

-- The lowest `w` bits, each made of the two bits at its place.
unfoldable pub bitwise : (Bool → Bool → Bool) → ℕ → ℕ → ℕ → ℕ
bitwise f zero a b = 0
bitwise f (suc w) a b = (if f (is_odd a) (is_odd b) then 1 else 0) + 2 * bitwise f w (a / 2) (b / 2)

-- `~a`
abbrev pub complement : ℕ → ℕ → ℕ
complement w a = bitwise (λ x y. not x) w a 0

module _ (w : ℕ) where
  unfoldable pub set_all : ℕ → ℕ
  unfolding bitwise
  set_all mask = complement w 0

  unfoldable pub set : ℕ → ℕ → ℕ
  unfolding bitwise
  set bits mask = bitwise ◌||◌ w mask bits

  unfoldable pub reset_all : ℕ → ℕ
  reset_all mask = 0

  unfoldable pub reset : ℕ → ℕ → ℕ
  unfolding bitwise
  reset bits mask = bitwise ◌&&◌ w mask (complement w bits)

  unfoldable pub flip : ℕ → ℕ
  unfolding bitwise
  flip mask = complement w mask

  unfoldable pub all : ℕ → Bool
  unfolding bitwise
  all mask = complement w mask == 0

  unfoldable pub all_of : ℕ → ℕ → Bool
  unfolding bitwise
  all_of bits mask = bitwise ◌&&◌ w mask bits == bits

  unfoldable pub any : ℕ → Bool
  any mask = not (mask == 0)

  unfoldable pub any_of : ℕ → ℕ → Bool
  unfolding bitwise
  any_of bits mask = not (bitwise ◌&&◌ w mask bits == 0)

  unfoldable pub none : ℕ → Bool
  none mask = mask == 0

  unfoldable pub none_of : ℕ → ℕ → Bool
  unfolding bitwise
  none_of bits mask = bitwise ◌&&◌ w mask bits == 0
