-- ===== src/Tests/Masks.antt =====
-- Examples of bit masks, with the 8 bits of access levels.
use open62541pp.Prelude.{ℕ, ◌<◌, ◌≡◌, ◌↔◌, refl, true, false, not, ◌&&◌, ◌||◌, arith}
use open62541pp.Bitmasks.{
  set_all, set, reset_all, reset, flip, all, all_of, any, any_of, none, none_of,
}
use open62541pp.Bitmasks.Bits.{test}
use open62541pp.Bitmasks.Flags.{test-operations, query_lem}

written : set 8 6 1 ≡ 7
unfolding set
written = refl

cleared : reset 8 6 7 ≡ 1
unfolding reset
cleared = refl

flipped : flip 8 1 ≡ 254
unfolding flip
flipped = refl

test-operations_example :
    (test 1 (set_all 8 5) ≡ true)
    × (test 1 (set 8 6 5) ≡ test 1 5 || test 1 6)
    × (test 1 (reset_all 8 5) ≡ false)
    × (test 1 (reset 8 6 5) ≡ test 1 5 && not (test 1 6))
    × (test 1 (flip 8 5) ≡ not (test 1 5))
test-operations_example = test-operations 8 1 6 5 (omega arith)

query_lem_example :
    ((all 8 7 ≡ true) ↔ ((k : ℕ) → k < 8 → test k 7 ≡ true))
    × ((all_of 8 6 7 ≡ true) ↔ ((k : ℕ) → k < 8 → test k 6 ≡ true → test k 7 ≡ true))
    × ((none_of 8 6 7 ≡ true) ↔ ((k : ℕ) → k < 8 → test k 6 ≡ true → test k 7 ≡ false))
    × (any_of 8 6 7 ≡ not (none_of 8 6 7))
    × (any 8 7 ≡ not (none 8 7))
query_lem_example = query_lem 8 6 7 (omega arith)
