-- ===== src/ContentFilter/Operators.antt =====
-- What the operators `!`, `&&` and `||` of src/ua_types.cpp return.
use mathlib.Core.Option
use open62541pp.Prelude.{
  ℕ, suc, ◌≤◌, ◌<◌, ◌≡◌, refl, ap, ◌∙◌, not, ◌&&◌, if◌then◌else◌, Bool, true, false, ltb, Option,
  none, some, List, [], ◌∷◌, length, arith,
}
use open62541pp.Status.{StatusCodes, bad_out_of_memory}
use open62541pp.Outcome.{Exn, Outcome, ok, throw, bad_alloc, bad_status, ◌>>=◌}
use open62541pp.Arrays.{int32_max, check_allocation}
use open62541pp.ContentFilter.{
  FilterOperator, ContentFilterElement, ContentFilter, construct_root, unary_root, total_size,
  concat_filter_elements, apply_unary_operator,
}
use open62541pp.ContentFilter.Copies.{copies, shifted, copy_filters-copies}
use open62541pp.ContentFilter.Positions.{IsValid}
use open62541pp.ContentFilter.Evaluation.{Meaning, denote}
use open62541pp.ContentFilter.Compose.{
  shifted-unary, length-unary_joined, unary_joined-AreForward, unary_joined-denote,
}

-- Whether allocateArray finds room for so many elements, of which there are some.
abbrev pub fits : (ℕ → Bool) → ℕ → Bool
fits calloc_ok size = not (ltb int32_max size) && calloc_ok size

fits-bound : (calloc_ok : ℕ → Bool) (size : ℕ) → fits calloc_ok size ≡ true → size ≤ int32_max
fits-bound calloc_ok size room = ground (arith, room)

-- What a call does that builds a filter of `size` elements, of which the first one is constructed on
-- its own: it throws what that construction throws, std::bad_alloc if there is no room for the
-- array, BadOutOfMemory if an element cannot be copied, and returns the filter otherwise.
abbrev pub built {ℓ} :
    {L : Type ℓ}
    → ⦃c : StatusCodes⦄ → (ℕ → Bool)
    → (ℕ → Bool)
    → Option Exn
    → ℕ
    → ContentFilter L
    → Outcome (ContentFilter L)
built calloc_ok copy_fails (some e) size f = throw e
built calloc_ok copy_fails none size f =
    if fits calloc_ok size
    then if copies copy_fails 0 size then ok f else throw (bad_status bad_out_of_memory)
    else throw bad_alloc

concat_filter_elements-built {ℓ} :
    {L : Type ℓ} ⦃c : StatusCodes⦄ (calloc_ok copy_fails : ℕ → Bool)
    (filters : List (ContentFilter L))
    → 0 < total_size filters
    → concat_filter_elements calloc_ok copy_fails filters
      ≡ built calloc_ok copy_fails none (total_size filters) (shifted 0 filters)
unfolding concat_filter_elements check_allocation
concat_filter_elements-built calloc_ok copy_fails filters some_element =
    ground (arith, copy_filters-copies copy_fails 0 filters)

started-built {ℓ} :
    {L : Type ℓ} ⦃c : StatusCodes⦄ (calloc_ok copy_fails : ℕ → Bool) (root : Option Exn)
    (first : ContentFilterElement L) (filters : List (ContentFilter L)) (size : ℕ)
    → total_size ((first ∷ []) ∷ filters) ≡ size
    → (construct_root calloc_ok copy_fails root first >>= λ e.
        concat_filter_elements calloc_ok copy_fails ((e ∷ []) ∷ filters))
      ≡ built calloc_ok copy_fails root size (shifted 0 ((first ∷ []) ∷ filters))
unfolding total_size
started-built calloc_ok copy_fails (some e) first filters size same = refl
started-built calloc_ok copy_fails none first filters size same =
    concat_filter_elements-built calloc_ok copy_fails ((first ∷ []) ∷ filters) (omega arith)
    ∙ ap (λ n. built calloc_ok copy_fails none n (shifted 0 ((first ∷ []) ∷ filters))) same

module _ {ℓ} {L V : Type ℓ} ⦃c : StatusCodes⦄ (calloc_ok copy_fails : ℕ → Bool) (root : Option Exn)
    (m : Meaning L V) where
  -- The call `r` returns a valid filter with the value `expected` if the first element is
  -- constructed, there is room for `size` elements and all of them are copied; else it throws the
  -- exception of the first of these steps that fails.
  abbrev pub Composes : ℕ → Option V → Outcome (ContentFilter L) → Type ℓ
  Composes size expected r =
      (root ≡ none
        → fits calloc_ok size ≡ true
        → copies copy_fails 0 size ≡ true
        → (f : ContentFilter L) × (r ≡ ok f) × IsValid f × (denote m f ≡ expected))
      × (root ≡ none
          → fits calloc_ok size ≡ true
          → copies copy_fails 0 size ≡ false
          → r ≡ throw (bad_status bad_out_of_memory))
      × (root ≡ none → fits calloc_ok size ≡ false → r ≡ throw bad_alloc)
      × ((e : Exn) → root ≡ some e → r ≡ throw e)

  built-Composes :
      (size : ℕ) (expected : Option V) (r : Outcome (ContentFilter L)) (f : ContentFilter L)
      → r ≡ built calloc_ok copy_fails root size f
      → (size ≤ int32_max → IsValid f × (denote m f ≡ expected))
      → Composes size expected r
  built-Composes size expected r f call right = (
    λ fine room copied.
        let (valid, value) = right (fits-bound calloc_ok size room) in
        (f, call ∙ rw (fine, built, room, copied) refl, valid, value),
    λ fine room lost. call ∙ rw (fine, room, lost) refl,
    λ fine no_room. call ∙ rw (fine, no_room) refl,
    λ e thrown. call ∙ rw thrown refl,
  )

  -- With a valid operand, `!` returns a valid filter whose value is that of the operator applied to
  -- the value of the operand, if its first element is constructed, there is room for one more
  -- element, and the elements are copied; else it throws as the binary operators do. The same holds
  -- for every unary operator.
  pub apply_unary_operator-denote :
      (op : FilterOperator) (elements : ContentFilter L)
      → IsValid elements
      → Composes
          (suc (length elements))
          (Option.map (λ v. m.apply op (v ∷ [])) (denote m elements))
          (apply_unary_operator calloc_ok copy_fails root op elements)
  unfolding apply_unary_operator total_size
  apply_unary_operator-denote op elements valid =
      let length_u = length-unary_joined m op elements in
      built-Composes _ _ _ _
        (started-built calloc_ok copy_fails root (unary_root op) (elements ∷ []) _ (omega arith))
        (λ small. rw (shifted-unary m op elements) (
          record {
            nonempty = omega (arith, length_u);
            forward =
                unary_joined-AreForward m op _ elements length_u (omega (arith, length_u, small))
                  valid;
          },
          unary_joined-denote m op elements (omega arith) valid,
        ))
