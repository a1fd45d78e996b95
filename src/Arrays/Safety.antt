-- ===== src/Arrays/Safety.antt =====
-- Copying an array leaks nothing and writes only into the array, on every path.
use mathlib.Core.List.{append-nil, append_assoc}
use open62541pp.Prelude.{
  ℕ, suc, ◌+◌, ◌*◌, ◌≤◌, ◌<◌, ◌^◌, ◌%◌, ◌≡◌, refl, sym, ◌⊎◌, inl, inr, false, Bool-cases, ltb, leb,
  ◌==◌, lt→ltb, leb→le, none, some, List, [], ◌∷◌, ◌++◌, length, length-append, arith,
}
use open62541pp.Status.{StatusCodes}
use open62541pp.Outcome.{Exn, bad_alloc, Outcome, ok, throw, throw_if_bad_cases}
use open62541pp.Arrays.{
  Heap, int32_max, ArrayPtr, sentinel, block, contents, Env, clear_items, free_array,
  deallocate_array, copy, fill, enlarge, copy_array_forward, grow, store, copy_array_input,
}

-- A call that copies `xs` ends well: it throws with the heap as it was, or returns an array that
-- holds `xs` and whose deallocation gives the heap as it was. It is never undefined.
pub data Settles {ℓ} {A : Type ℓ} (xs : List A) (h : Heap) (r : Heap × Outcome (ArrayPtr A))
    : Type ℓ where
  returns :
      (array : ArrayPtr A)
      → r.1 ≡ ok array
      → contents array ≡ xs
      → deallocate_array array r.0 ≡ h
      → Settles xs h r
  throws : (e : Exn) → r.1 ≡ throw e → r.0 ≡ h → Settles xs h r

pub suc-==_zero : (n : ℕ) → (suc n == 0) ≡ false
suc-==_zero n = ground arith

module _ {ℓ} ⦃c : StatusCodes⦄ {A : Type ℓ} (env : Env A) where
  -- A copy is the value itself, or throws.
  pub copy_cases : (x : A) → (copy env x ≡ ok x) ⊎ ((e : Exn) × (copy env x ≡ throw e))
  unfolding copy
  copy_cases x = elim (Bool-cases env.pointer_free) [
    | inl plain ↦ inl (rw plain)
    | inr deep ↦ elim (throw_if_bad_cases (env.ua_copy x)) [
      | inl (_, e, thrown, _) ↦ inr (e, rw (deep, thrown))
      | inr (_, fine) ↦ inl (rw (deep, fine))
    ]
  ]

  pub store_room : (x : A) (dst : List A) (n : ℕ) → length dst < n → store env x dst n ≡ copy env x
  unfolding store
  store_room x dst n h = rw (lt→ltb (length dst) n h)

  block-deallocate :
      (dst : List A) (h h' : Heap)
      → h'.blocks ≡ suc h.blocks
      → h'.items ≡ h.items + length dst
      → deallocate_array (block dst) h' ≡ h
  unfolding deallocate_array
  block-deallocate dst h h' b i = ground arith

  give_up-heap :
      (dst : List A) (h h' : Heap)
      → h'.blocks ≡ suc h.blocks
      → h'.items ≡ h.items + length dst
      → free_array (block dst) (clear_items dst h') ≡ h
  unfolding free_array clear_items
  give_up-heap dst h h' b i = ground arith

  fill-Settles :
      (xs dst : List A) (h h' : Heap)
      → h'.blocks ≡ suc h.blocks
      → h'.items ≡ h.items + length dst
      → Settles (dst ++ xs) h (fill env xs dst h')
  unfolding fill
  fill-Settles [] dst h h' b i =
      returns (block dst) refl (sym (append-nil dst)) (block-deallocate dst h h' b i)
  fill-Settles (x ∷ xs) dst h h' b i = elim (copy_cases x) [
    | inl copied ↦
        rw (copied, fill)
          (rw (← append_assoc dst (x ∷ []) xs) (
            fill-Settles xs (dst ++ (x ∷ [])) h _ b (omega (arith, i, length-append dst (x ∷ [])))))
    | inr (e, failed) ↦ rw (failed, fill) (throws e refl (give_up-heap dst h h' b i))
  ]

  -- Copying an array from forward iterators gives a copy or throws, and leaks nothing either way.
  pub copy_array_forward-Settles :
      (xs : List A) (h : Heap) → Settles xs h (copy_array_forward env xs h)
  unfolding copy_array_forward deallocate_array
  copy_array_forward-Settles [] h = returns sentinel refl refl (ground arith)
  copy_array_forward-Settles (x ∷ xs) h = elim (Bool-cases (ltb int32_max (length (x ∷ xs)))) [
    | inl large ↦ rw large (throws bad_alloc refl refl)
    | inr small ↦ elim (Bool-cases (env.calloc_ok (length (x ∷ xs)))) [
      | inl room ↦
          rw (small, suc-==_zero (length xs), room)
            (fill-Settles (x ∷ xs) [] h _ refl (omega arith))
      | inr full ↦ rw (small, suc-==_zero (length xs), full) (throws bad_alloc refl refl)
    ]
  ]

  -- The index stays below the capacity, which at most doubles.
  pub enlarge_cases :
      (index capacity : ℕ)
      → index ≤ capacity
      → 0 < capacity
      → capacity ≤ 16 + 2 * index
      → index < 2 ^ 62
      → (enlarge env index capacity ≡ none)
        ⊎ ((n : ℕ) × (enlarge env index capacity ≡ some n) × (index < n) × (n ≤ 16 + 2 * index))
  unfolding enlarge
  enlarge_cases index capacity fits pos small total = elim (Bool-cases (leb capacity index)) [
    | inr room ↦ inr (capacity, rw room, ground arith, small)
    | inl full ↦ elim (Bool-cases (env.realloc_ok (capacity * 2 % 2 ^ 64))) [
      | inl done ↦ inr (
        capacity * 2 % 2 ^ 64,
        rw (full, done),
        omega (arith, leb→le capacity index full),
        omega (arith, leb→le capacity index full),
      )
      | inr failed ↦ inl (rw (full, failed))
    ]
  ]

  grow-Settles :
      (xs dst : List A) (capacity : ℕ) (h h' : Heap)
      → length dst ≤ capacity
      → 0 < capacity
      → capacity ≤ 16 + 2 * length dst
      → length dst + length xs < 2 ^ 62
      → h'.blocks ≡ suc h.blocks
      → h'.items ≡ h.items + length dst
      → Settles (dst ++ xs) h (grow env xs dst capacity h')
  unfolding grow
  grow-Settles [] dst capacity h h' fits pos small total b i =
      elim (Bool-cases (env.realloc_ok (length dst))) [
        | inl shrunk ↦
            rw shrunk
              (returns (block dst) refl (sym (append-nil dst)) (block-deallocate dst h h' b i))
        | inr failed ↦ rw failed (throws bad_alloc refl (give_up-heap dst h h' b i))
      ]
  grow-Settles (x ∷ xs) dst capacity h h' fits pos small total b i =
      elim (enlarge_cases (length dst) capacity fits pos small (omega arith)) [
        | inl failed ↦ rw (failed, grow) (throws bad_alloc refl (give_up-heap dst h h' b i))
        | inr (n, enlarged, room, bounded) ↦ elim (copy_cases x) [
          | inl copied ↦
              rw (enlarged, grow, store_room x dst n room, copied)
                (rw (← append_assoc dst (x ∷ []) xs) (
                  grow-Settles xs (dst ++ (x ∷ [])) n h _
                    (omega (arith, length-append dst (x ∷ []))) (omega arith)
                    (omega (arith, length-append dst (x ∷ [])))
                    (omega (arith, length-append dst (x ∷ []))) b
                    (omega (arith, i, length-append dst (x ∷ [])))))
          | inr (e, failed) ↦
              rw (enlarged, grow, store_room x dst n room, failed)
                (throws e refl (give_up-heap dst h h' b i))
        ]
      ]

  -- Copying an array from input iterators gives a copy or throws, leaks nothing either way, and
  -- never writes behind the memory it has reserved.
  pub copy_array_input-Settles :
      (xs : List A) (h : Heap) → length xs < 2 ^ 62 → Settles xs h (copy_array_input env xs h)
  unfolding copy_array_input deallocate_array
  copy_array_input-Settles [] h total = returns sentinel refl refl (ground arith)
  copy_array_input-Settles (x ∷ xs) h total = elim (Bool-cases (env.calloc_ok 16)) [
    | inl room ↦ rw room (
        grow-Settles (x ∷ xs) [] 16 h _ (omega arith) (omega arith) (omega arith) (omega arith) refl
          (omega arith))
    | inr full ↦ rw full (throws bad_alloc refl refl)
  ]
