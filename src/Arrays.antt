-- ===== src/Arrays.antt =====
-- Generic array handling, include/open62541pp/detail/types_handling.hpp. An array of the C library
-- is its address, null and the empty-array sentinel told apart, with its elements; a heap counts
-- the arrays and the element copies that are live. Whether the C allocator has memory left, and
-- what UA_copy reports, are parameters.
pub mod Safety
pub mod Success
use open62541pp.Prelude.{
  ℕ, suc, ◌+◌, ◌-◌, ◌*◌, ◌%◌, ◌^◌, Bool, true, false, ◌||◌, if◌then◌else◌, ltb, leb, ◌==◌, Option,
  none, some, List, [], ◌∷◌, ◌++◌, length,
}
use open62541pp.Status.{StatusCodes}
use open62541pp.Outcome.{Outcome, ok, throw, undefined, bad_alloc, throw_if_bad, ◌>>=◌, ◌>>◌}

pub record Heap : Type 0 where
  pub blocks : ℕ
  pub items : ℕ

-- `block` is the address of an array from the C allocator.
pub data ArrayPtr {ℓ} (A : Type ℓ) : Type ℓ where
  null : ArrayPtr A
  sentinel : ArrayPtr A
  block : List A → ArrayPtr A

abbrev pub int32_max : ℕ
int32_max = 2147483647

-- The exceptions of allocateArray(size).
unfoldable pub check_allocation : (ℕ → Bool) → ℕ → Outcome (Unit {0})
check_allocation calloc_ok size =
    if ltb int32_max size
    then throw bad_alloc
    else if size == 0
    then ok tt
    else if calloc_ok size
    then ok tt
    else throw bad_alloc

module _ {ℓ} {A : Type ℓ} where
  -- `address & ~emptyArraySentinel`: allocated addresses are even.
  unfoldable pub strip_empty_array_sentinel : ArrayPtr A → ArrayPtr A
  strip_empty_array_sentinel sentinel = null
  strip_empty_array_sentinel null = null
  strip_empty_array_sentinel (block xs) = block xs

  unfoldable pub is_null : ArrayPtr A → Bool
  is_null null = true
  is_null sentinel = false
  is_null (block xs) = false

  unfoldable pub is_empty_array : ArrayPtr A → ℕ → Bool
  unfolding strip_empty_array_sentinel is_null
  is_empty_array array size = is_null (strip_empty_array_sentinel array) || size == 0

  abbrev pub contents : ArrayPtr A → List A
  contents null = []
  contents sentinel = []
  contents (block xs) = xs

  -- clearArray: the copies that `xs` owns are given back.
  unfoldable pub clear_items : List A → Heap → Heap
  clear_items xs h = record h { items = h.items - length xs }

  -- UA_free(stripEmptyArraySentinel(array))
  unfoldable pub free_array : ArrayPtr A → Heap → Heap
  unfolding strip_empty_array_sentinel
  free_array array h = elim (strip_empty_array_sentinel array) [
    | block _ ↦ record h { blocks = h.blocks - 1 }
    | _ ↦ h
  ]

  -- deallocateArray(array, size, type), of an array with all its elements.
  unfoldable pub deallocate_array : ArrayPtr A → Heap → Heap
  unfolding clear_items free_array is_empty_array
  deallocate_array array h =
      free_array array (
        if is_empty_array array (length (contents array))
        then h
        else clear_items (contents array) h)

-- The environment: does calloc or realloc find memory for so many elements, does the type hold no
-- pointers, and what does UA_copy return.
pub record Env {ℓ} (A : Type ℓ) : Type ℓ where
  pub calloc_ok : ℕ → Bool
  pub realloc_ok : ℕ → Bool
  pub pointer_free : Bool
  pub ua_copy : A → ℕ

module _ {ℓ} ⦃c : StatusCodes⦄ {A : Type ℓ} (env : Env A) where
  open env use {calloc_ok, realloc_ok, pointer_free, ua_copy}

  -- detail::copy
  unfoldable pub copy : A → Outcome A
  copy src = if pointer_free then ok src else (do throw_if_bad (ua_copy src); ok src)

  -- The loop of std::transform in copyArray for forward iterators; `dst` is what is written so
  -- far. When `copy` throws, the deleter of makeUniqueArray clears and frees the array.
  unfoldable pub fill : List A → List A → Heap → Heap × Outcome (ArrayPtr A)
  unfolding copy clear_items free_array
  fill [] dst h = (h, ok (block dst))
  fill (x ∷ xs) dst h = elim (copy x) [
    | ok y ↦ fill xs (dst ++ (y ∷ [])) (record h { items = suc h.items })
    | throw e ↦ (free_array (block dst) (clear_items dst h), throw e)
    | undefined ↦ (h, undefined)
  ]

  -- copyArray(first, last, type, std::forward_iterator_tag), with allocateArray inlined.
  unfoldable pub copy_array_forward : List A → Heap → Heap × Outcome (ArrayPtr A)
  unfolding fill
  copy_array_forward xs h =
      let size = length xs in
      if ltb int32_max size
      then (h, throw bad_alloc)
      else if size == 0
      then (h, ok sentinel)
      else if calloc_ok size
      then fill xs [] (record h { blocks = suc h.blocks })
      else (h, throw bad_alloc)

  abbrev pub give_up : List A → Heap → Outcome (ArrayPtr A) → Heap × Outcome (ArrayPtr A)
  give_up dst h r = (free_array (block dst) (clear_items dst h), r)

  -- The body of the loop behind the capacity check: `dst[index] = copy(*it)`. A write past the
  -- capacity is undefined.
  unfoldable pub store : A → List A → ℕ → Outcome A
  unfolding copy
  store x dst capacity = if ltb (length dst) capacity then copy x else undefined

  -- `if (index >= capacity) { capacity *= 2; reallocate(capacity); }`: the new capacity, or none
  -- if `reallocate` throws.
  unfoldable pub enlarge : ℕ → ℕ → Option ℕ
  enlarge index capacity =
      let doubled = capacity * 2 % 2 ^ 64 in
      if leb capacity index
      then (if realloc_ok doubled then some doubled else none)
      else some capacity

  -- The loop of copyArray for input iterators; `index` is the length of `dst`.
  unfoldable pub grow : List A → List A → ℕ → Heap → Heap × Outcome (ArrayPtr A)
  unfolding enlarge store clear_items free_array
  grow [] dst capacity h =
      if realloc_ok (length dst) then (h, ok (block dst)) else give_up dst h (throw bad_alloc)
  grow (x ∷ xs) dst capacity h = elim (enlarge (length dst) capacity) [
    | none ↦ give_up dst h (throw bad_alloc)
    | some capacity' ↦ elim (store x dst capacity') [
      | ok y ↦ grow xs (dst ++ (y ∷ [])) capacity' (record h { items = suc h.items })
      | throw e ↦ give_up dst h (throw e)
      | undefined ↦ (h, undefined)
    ]
  ]

  -- copyArray(first, last, type, std::input_iterator_tag)
  unfoldable pub copy_array_input : List A → Heap → Heap × Outcome (ArrayPtr A)
  unfolding grow
  copy_array_input [] h = (h, ok sentinel)
  copy_array_input (x ∷ xs) h =
      if calloc_ok 16
      then grow (x ∷ xs) [] 16 (record h { blocks = suc h.blocks })
      else (h, throw bad_alloc)
