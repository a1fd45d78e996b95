-- ===== src/Arrays/Success.antt =====
-- The two loops of copyArray end with a copy when memory lasts and no element fails to copy.
use mathlib.Core.List.{append-nil, append_assoc}
use open62541pp.Prelude.{
  ℕ, suc, ◌+◌, ◌*◌, ◌≤◌, ◌<◌, ◌^◌, ◌%◌, ◌≡◌, refl, ◌≢◌, inl, inr, none, true, List, [], ◌∷◌, ◌++◌,
  All, length, length-append, le→not-ltb, arith,
}
use open62541pp.Status.{StatusCodes}
use open62541pp.Outcome.{ok}
use open62541pp.Arrays.{
  Heap, ArrayPtr, sentinel, block, contents, int32_max, Env, copy, fill, copy_array_forward,
  enlarge, grow, copy_array_input,
}
use open62541pp.Arrays.Safety.{store_room, enlarge_cases, suc-==_zero}

module _ {ℓ} ⦃c : StatusCodes⦄ {A : Type ℓ} (env : Env A) where
  -- The allocator has memory, and every element can be copied.
  pub record IsAmple (xs : List A) : Type ℓ where
    pub callocs : (n : ℕ) → env.calloc_ok n ≡ true
    pub reallocs : (n : ℕ) → env.realloc_ok n ≡ true
    pub copies : All (λ x. copy env x ≡ ok x) xs

  fill_lem :
      (xs dst : List A) (h : Heap)
      → All (λ x. copy env x ≡ ok x) xs
      → fill env xs dst h ≡ (record h { items = h.items + length xs }, ok (block (dst ++ xs)))
  unfolding fill
  fill_lem [] dst h k = rw (append-nil dst) (ground arith)
  fill_lem (x ∷ xs) dst h k =
      rw (k.0, fill)
        (ground (
          arith,
          fill_lem xs (dst ++ (x ∷ [])) (record h { items = suc h.items }) k.1,
          append_assoc dst (x ∷ []) xs,
        ))

  enlarge-ne-none :
      (index capacity : ℕ) → ((n : ℕ) → env.realloc_ok n ≡ true) → enlarge env index capacity ≢ none
  unfolding enlarge
  enlarge-ne-none index capacity r = ground (arith, r (capacity * 2 % 2 ^ 64))

  grow_lem :
      (xs dst : List A) (capacity : ℕ) (h : Heap)
      → ((n : ℕ) → env.realloc_ok n ≡ true)
      → All (λ x. copy env x ≡ ok x) xs
      → length dst ≤ capacity
      → 0 < capacity
      → capacity ≤ 16 + 2 * length dst
      → length dst + length xs < 2 ^ 62
      → grow env xs dst capacity h
        ≡ (record h { items = h.items + length xs }, ok (block (dst ++ xs)))
  unfolding grow
  grow_lem [] dst capacity h r k fits pos small total =
      rw (r (length dst), append-nil dst) (ground arith)
  grow_lem (x ∷ xs) dst capacity h r k fits pos small total =
      elim (enlarge_cases env (length dst) capacity fits pos small (omega arith)) [
        | inl failed ↦ absurd (enlarge-ne-none (length dst) capacity r failed)
        | inr (n, enlarged, room, bounded) ↦
            rw (enlarged, grow, store_room env x dst n room, k.0)
              (ground (
                arith,
                grow_lem xs (dst ++ (x ∷ [])) n (record h { items = suc h.items }) r k.1,
                length-append dst (x ∷ []),
                append_assoc dst (x ∷ []) xs,
              ))
      ]

  -- With memory to spare and elements that can be copied, both overloads of copyArray return the
  -- same array, whether the iterators can be walked twice or only once: the elements in order, or
  -- the sentinel for no element.
  pub copy_array_overloads :
      (xs : List A) (h : Heap)
      → length xs ≤ int32_max
      → IsAmple xs
      → (array : ArrayPtr A) × ((copy_array_forward env xs h).1 ≡ ok array)
        × (contents array ≡ xs)
        × (copy_array_input env xs h ≡ copy_array_forward env xs h)
  unfolding copy_array_forward copy_array_input
  copy_array_overloads [] h small ample = (sentinel, refl, refl, refl)
  copy_array_overloads (x ∷ xs) h small ample = (
    block (x ∷ xs),
    rw forward,
    refl,
    rw (forward, ample.callocs 16)
        (grow_lem (x ∷ xs) [] 16 start ample.reallocs ample.copies (omega arith) (omega arith)
          (omega arith) (omega arith)),
  )
    where
      start : Heap
      start = record h { blocks = suc h.blocks }

      forward :
          copy_array_forward env (x ∷ xs) h
          ≡ (record start { items = h.items + length (x ∷ xs) }, ok (block (x ∷ xs)))
      forward =
          rw
            (
              le→not-ltb int32_max (length (x ∷ xs)) small,
              suc-==_zero (length xs),
              ample.callocs (length (x ∷ xs)),
            )
            (fill_lem (x ∷ xs) [] start ample.copies)
