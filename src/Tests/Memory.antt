-- ===== src/Tests/Memory.antt =====
-- Examples of array handling.
use open62541pp.Prelude.{ℕ, ◌≡◌, refl, true, false, ◌==◌, if◌then◌else◌, [], ◌∷◌, arith}
use open62541pp.Outcome.{ok}
use open62541pp.Tests.Codes.{codes}
use open62541pp.Arrays.{Heap, ArrayPtr, contents, Env, copy, copy_array_forward, copy_array_input}
use open62541pp.Arrays.Safety.{Settles, copy_array_forward-Settles, copy_array_input-Settles}
use open62541pp.Arrays.Success.{IsAmple, copy_array_overloads}

abbrev plain : Env ℕ
plain = record {
  calloc_ok = λ n. true;
  realloc_ok = λ n. true;
  pointer_free = true;
  ua_copy = λ x. 0;
}

-- The element 9 cannot be copied.
abbrev deep : Env ℕ
deep = record {
  calloc_ok = λ n. true;
  realloc_ok = λ n. true;
  pointer_free = false;
  ua_copy = λ x. if x == 9 then 2147680256 else 0;
}

abbrev heap : Heap
heap = record { blocks = 4; items = 20 }

plain-IsAmple : IsAmple plain (1 ∷ 2 ∷ [])
unfolding copy
plain-IsAmple = record { callocs = λ n. refl; reallocs = λ n. refl; copies = (refl, (refl, tt)) }

copy_array_forward-Settles_example :
    Settles (1 ∷ 9 ∷ []) heap (copy_array_forward deep (1 ∷ 9 ∷ []) heap)
copy_array_forward-Settles_example = copy_array_forward-Settles deep (1 ∷ 9 ∷ []) heap

copy_array_input-Settles_example :
    Settles (1 ∷ 9 ∷ []) heap (copy_array_input deep (1 ∷ 9 ∷ []) heap)
copy_array_input-Settles_example = copy_array_input-Settles deep (1 ∷ 9 ∷ []) heap (omega arith)

copy_array_overloads_example :
    (array : ArrayPtr ℕ) × ((copy_array_forward plain (1 ∷ 2 ∷ []) heap).1 ≡ ok array)
    × (contents array ≡ 1 ∷ 2 ∷ [])
    × (copy_array_input plain (1 ∷ 2 ∷ []) heap ≡ copy_array_forward plain (1 ∷ 2 ∷ []) heap)
copy_array_overloads_example =
    copy_array_overloads plain (1 ∷ 2 ∷ []) heap (omega arith) plain-IsAmple
