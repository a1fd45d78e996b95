-- ===== src/ContentFilter/Positions.antt =====
-- Elements of joined filters by their position, and the shape of a filter that can be evaluated.
use mathlib.Core.Option.{some-injective}
use mathlib.Core.Path.{subst}
use native.Mathlib.Nat.{zero-add, suc-add}
use open62541pp.Prelude.{
  ℕ, zero, suc, ◌+◌, ◌^◌, ◌≤◌, ◌<◌, ◌≡◌, some, List, [], ◌∷◌, ◌++◌, map, All, length, get_elem?,
  arith,
}
use open62541pp.ContentFilter.{
  FilterOperand, element, other, ContentFilterElement, ContentFilter, shift_operand, shift_element,
}

module _ {ℓ} {A : Type ℓ} where
  pub get_elem?-append_some :
      (xs ys : List A) (i : ℕ) (x : A) → get_elem? xs i ≡ some x → get_elem? (xs ++ ys) i ≡ some x
  get_elem?-append_some [] ys i x h = cc
  get_elem?-append_some (y ∷ xs) ys zero x h = h
  get_elem?-append_some (y ∷ xs) ys (suc i) x h = get_elem?-append_some xs ys i x h

  pub get_elem?-append_right :
      (xs ys : List A) (i : ℕ) → get_elem? (xs ++ ys) (length xs + i) ≡ get_elem? ys i
  get_elem?-append_right [] ys i = rw zero-add
  get_elem?-append_right (x ∷ xs) ys i = rw suc-add (get_elem?-append_right xs ys i)

pub get_elem?-map {ℓ κ} :
    {A : Type ℓ} {B : Type κ} (f : A → B) (xs : List A) (i : ℕ) (x : A)
    → get_elem? xs i ≡ some x
    → get_elem? (map f xs) i ≡ some (f x)
get_elem?-map f [] i x h = cc
get_elem?-map f (y ∷ xs) zero x h = ground arith
get_elem?-map f (y ∷ xs) (suc i) x h = get_elem?-map f xs i x h

module _ {ℓ} {L : Type ℓ} where
  -- The operand of an element at position `i` of a filter of `size` elements: the element that it
  -- names stands behind position `i`, inside the filter.
  abbrev pub IsForward : ℕ → ℕ → FilterOperand L → Type 0
  IsForward size i (element j) = (i < j) × (j < size)
  IsForward size i (other l) = Unit

  abbrev pub AreForward : ℕ → ℕ → ContentFilter L → Type ℓ
  AreForward size i [] = Unit
  AreForward size i (e ∷ es) = All (IsForward size i) e.filter_operands × AreForward size (suc i) es

  -- A filter is a tree that starts with its first element.
  pub record IsValid (filter : ContentFilter L) : Type ℓ where
    pub nonempty : 0 < length filter
    pub forward : AreForward (length filter) 0 filter

  -- The operands of the element at a position.
  AreForward-get :
      (size k : ℕ) (es : ContentFilter L) (i : ℕ) (e : ContentFilterElement L)
      → AreForward size k es
      → get_elem? es i ≡ some e
      → All (IsForward size (k + i)) e.filter_operands
  AreForward-get size k [] i e f h = cc
  AreForward-get size k (x ∷ es) zero e f h =
      let here : k + 0 ≡ k = omega arith in
      rw here (subst (λ y. All (IsForward size k) y.filter_operands) (some-injective _ _ h) f.0)
  AreForward-get size k (x ∷ es) (suc i) e f h =
      let there : k + suc i ≡ suc k + i = omega arith in
      rw there (AreForward-get size (suc k) es i e f.1 h)

  pub All-IsForward-at :
      (size : ℕ) (es : ContentFilter L) (i : ℕ) (e : ContentFilterElement L)
      → AreForward size 0 es
      → get_elem? es i ≡ some e
      → All (IsForward size i) e.filter_operands
  All-IsForward-at size es i e f h =
      let same : 0 + i ≡ i = omega arith in rw same at (AreForward-get size 0 es i e f h)

  All-IsForward-shift :
      (size i offset size' : ℕ) (ops : List (FilterOperand L))
      → offset + size ≤ size'
      → size' < 2 ^ 32
      → All (IsForward size i) ops
      → All (IsForward size' (offset + i)) (map (shift_operand offset) ops)
  unfolding shift_operand
  All-IsForward-shift size i offset size' [] fits small f = f
  All-IsForward-shift size i offset size' (element j ∷ ops) fits small f =
      ((omega arith, omega arith), All-IsForward-shift size i offset size' ops fits small f.1)
  All-IsForward-shift size i offset size' (other l ∷ ops) fits small f =
      (f.0, All-IsForward-shift size i offset size' ops fits small f.1)

  -- A filter that is moved into a larger one keeps its shape.
  pub AreForward-shift :
      (size i offset size' : ℕ) (es : ContentFilter L)
      → offset + size ≤ size'
      → size' < 2 ^ 32
      → AreForward size i es
      → AreForward size' (offset + i) (map (shift_element offset) es)
  unfolding shift_element
  AreForward-shift size i offset size' [] fits small f = f
  AreForward-shift size i offset size' (e ∷ es) fits small f =
      let step : suc (offset + i) ≡ offset + suc i = omega arith in
      (
        All-IsForward-shift size i offset size' e.filter_operands fits small f.0,
        rw step (AreForward-shift size (suc i) offset size' es fits small f.1),
      )

  pub AreForward-append :
      (size i : ℕ) (es fs : ContentFilter L)
      → AreForward size i es
      → AreForward size (i + length es) fs
      → AreForward size i (es ++ fs)
  AreForward-append size i [] fs f g = let e : i + 0 ≡ i = omega arith in rw e at g
  AreForward-append size i (e ∷ es) fs f g =
      let step : i + suc (length es) ≡ suc i + length es = omega arith in
      (f.0, AreForward-append size (suc i) es fs f.1 (rw step at g))
