-- ===== src/ContentFilter/Evaluation.antt =====
-- What a content filter means (OPC UA part 4, 7.7.1): evaluation starts with the first element,
-- and an element operand stands for the value of the element that it names. Operators and the
-- other operands are interpreted by a parameter.
use open62541pp.Prelude.{
  ℕ, zero, suc, ◌+◌, ◌≤◌, ◌<◌, ◌≡◌, refl, Option, none, some, List, [], ◌∷◌, All, length, get_elem?,
  get_elem?_lt, arith,
}
use open62541pp.ContentFilter.{
  FilterOperator, FilterOperand, element, other, ContentFilterElement, ContentFilter,
}
use open62541pp.ContentFilter.Positions.{IsForward, AreForward, All-IsForward-at, IsValid}

pub record Meaning {ℓ} (L V : Type ℓ) : Type ℓ where
  pub literal : L → V
  pub apply : FilterOperator → List V → V

module _ {ℓ} {L V : Type ℓ} (m : Meaning L V) where
  unfoldable pub eval_operands : (ℕ → Option V) → List (FilterOperand L) → Option (List V)
  eval_operands value [] = some []
  eval_operands value (element j ∷ ops) = elim (value j) [
    | none ↦ none
    | some v ↦ elim (eval_operands value ops) [ none ↦ none | some vs ↦ some (v ∷ vs) ]
  ]
  eval_operands value (other l ∷ ops) = elim (eval_operands value ops) [
    | none ↦ none
    | some vs ↦ some (m.literal l ∷ vs)
  ]

  unfoldable pub eval_element : (ℕ → Option V) → ContentFilterElement L → Option V
  eval_element value e = elim (eval_operands value e.filter_operands) [
    | none ↦ none
    | some vs ↦ some (m.apply e.filter_operator vs)
  ]

  -- The value of the element at a position; `none` out of range, or when the fuel runs out.
  unfoldable pub eval : ℕ → ContentFilter L → ℕ → Option V
  eval zero filter i = none
  eval (suc n) filter i = elim (get_elem? filter i) [
    | none ↦ none
    | some e ↦ eval_element (eval n filter) e
  ]

  -- The value of a filter.
  unfoldable pub denote : ContentFilter L → Option V
  unfolding eval
  denote filter = eval (length filter) filter 0

  eval_operands_stable :
      (value value' : ℕ → Option V) (size i : ℕ) (ops : List (FilterOperand L))
      → ((j : ℕ) → i < j → j < size → value j ≡ value' j)
      → All (IsForward size i) ops
      → eval_operands value ops ≡ eval_operands value' ops
  unfolding eval_operands
  eval_operands_stable value value' size i [] same f = refl
  eval_operands_stable value value' size i (element j ∷ ops) same f =
      ground (arith, same j f.0.0 f.0.1, eval_operands_stable value value' size i ops same f.1)
  eval_operands_stable value value' size i (other l ∷ ops) same f =
      rw (eval_operands_stable value value' size i ops same f.1, eval_operands)

  -- Fuel for every element from a position on is enough: more changes nothing.
  pub eval_stable :
      (n k : ℕ) (filter : ContentFilter L) (i : ℕ)
      → AreForward (length filter) 0 filter
      → i < length filter
      → length filter ≤ n + i
      → length filter ≤ k + i
      → eval n filter i ≡ eval k filter i
  unfolding eval eval_element
  eval_stable zero k filter i f inside enough enough' = absurd (omega arith)
  eval_stable (suc n) zero filter i f inside enough enough' = absurd (omega arith)
  eval_stable (suc n) (suc k) filter i f inside enough enough' =
      let (e, found) = get_elem?_lt filter i inside in
      rw (found, eval)
        (rw (
          eval_operands_stable (eval n filter) (eval k filter) (length filter) i e.filter_operands
              (λ j a b. eval_stable n k filter j f b (omega arith) (omega arith))
              (All-IsForward-at (length filter) filter i e f found),
          eval_element,
        ))

  eval_operands_total :
      (value : ℕ → Option V) (size i : ℕ) (ops : List (FilterOperand L))
      → ((j : ℕ) → i < j → j < size → (v : V) × (value j ≡ some v))
      → All (IsForward size i) ops
      → (vs : List V) × (eval_operands value ops ≡ some vs)
  unfolding eval_operands
  eval_operands_total value size i [] total f = ([], refl)
  eval_operands_total value size i (element j ∷ ops) total f =
      let (v, e) = total j f.0.0 f.0.1 in
      let (vs, es) = eval_operands_total value size i ops total f.1 in
      (v ∷ vs, rw (e, es, eval_operands))
  eval_operands_total value size i (other l ∷ ops) total f =
      let (vs, es) = eval_operands_total value size i ops total f.1 in
      (m.literal l ∷ vs, rw (es, eval_operands))

  eval_total :
      (n : ℕ) (filter : ContentFilter L) (i : ℕ)
      → AreForward (length filter) 0 filter
      → i < length filter
      → length filter ≤ n + i
      → (v : V) × (eval n filter i ≡ some v)
  unfolding eval eval_element
  eval_total zero filter i f inside enough = absurd (omega arith)
  eval_total (suc n) filter i f inside enough =
      let (e, found) = get_elem?_lt filter i inside in
      let (vs, es) =
        eval_operands_total (eval n filter) (length filter) i e.filter_operands
          (λ j a b. eval_total n filter j f b (omega arith))
          (All-IsForward-at (length filter) filter i e f found) in
      (m.apply e.filter_operator vs, rw (found, eval) (rw (es, eval_element)))

  -- Evaluation of a valid filter ends with a value.
  pub denote_total :
      (filter : ContentFilter L) → IsValid filter → (v : V) × (denote filter ≡ some v)
  unfolding denote
  denote_total filter valid =
      eval_total (length filter) filter 0 valid.forward valid.nonempty (omega arith)
