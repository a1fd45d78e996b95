-- ===== src/ContentFilter/Window.antt =====
-- Filters that stand inside larger ones evaluate as they do alone.
use open62541pp.Prelude.{
  ℕ, zero, suc, ◌+◌, ◌%◌, ◌^◌, ◌≤◌, ◌<◌, ◌≡◌, refl, ◌∙◌, Option, some, List, [], ◌∷◌, ◌++◌, map,
  All, length, get_elem?, get_elem?_lt, arith,
}
use open62541pp.ContentFilter.{
  FilterOperand, element, other, ContentFilterElement, ContentFilter, shift_operand, shift_element,
}
use open62541pp.ContentFilter.Positions.{
  IsForward, AreForward, IsValid, get_elem?-append_some, get_elem?-append_right, get_elem?-map,
  All-IsForward-at,
}
use open62541pp.ContentFilter.Evaluation.{
  Meaning, eval, eval_element, eval_operands, denote, eval_stable,
}

module _ {ℓ} {L V : Type ℓ} (m : Meaning L V) where
  -- Operands that were moved by an offset, looked up where the elements were moved to.
  eval_operands-shift :
      (value value' : ℕ → Option V) (offset size i : ℕ) (ops : List (FilterOperand L))
      → offset + size < 2 ^ 32
      → ((j : ℕ) → j < size → value (offset + j) ≡ value' j)
      → All (IsForward size i) ops
      → eval_operands m value (map (shift_operand offset) ops) ≡ eval_operands m value' ops
  unfolding eval_operands shift_operand
  eval_operands-shift value value' offset size i [] small same f = refl
  eval_operands-shift value value' offset size i (element j ∷ ops) small same f =
      let moved : (j + offset % 2 ^ 32) % 2 ^ 32 ≡ offset + j = omega arith in
      rw moved (
        ground
          (arith, same j f.0.1, eval_operands-shift value value' offset size i ops small same f.1))
  eval_operands-shift value value' offset size i (other l ∷ ops) small same f =
      rw (eval_operands-shift value value' offset size i ops small same f.1, eval_operands)

  get-window :
      (pre fs post : ContentFilter L) (i : ℕ) (e : ContentFilterElement L)
      → get_elem? fs i ≡ some e
      → get_elem? (pre ++ (map (shift_element (length pre)) fs ++ post)) (length pre + i)
        ≡ some (shift_element (length pre) e)
  get-window pre fs post i e found =
      get_elem?-append_right pre (map (shift_element (length pre)) fs ++ post) i
      ∙ get_elem?-append_some (map (shift_element (length pre)) fs) post i _
          (get_elem?-map (shift_element (length pre)) fs i e found)

  -- A filter inside a larger one evaluates as it does alone.
  eval-window :
      (n : ℕ) (pre fs post : ContentFilter L) (i : ℕ)
      → AreForward (length fs) 0 fs
      → length pre + length fs < 2 ^ 32
      → i < length fs
      → eval m n (pre ++ (map (shift_element (length pre)) fs ++ post)) (length pre + i)
        ≡ eval m n fs i
  unfolding eval eval_element shift_element
  eval-window zero pre fs post i f small inside = refl
  eval-window (suc n) pre fs post i f small inside =
      let (e, found) = get_elem?_lt fs i inside in
      rw (get-window pre fs post i e found, found, eval)
        (rw (
          eval_operands-shift (eval m n (pre ++ (map (shift_element (length pre)) fs ++ post)))
              (eval m n fs) (length pre) (length fs) i e.filter_operands small
              (λ j h. eval-window n pre fs post j f small h)
              (All-IsForward-at (length fs) fs i e f found),
          eval_element,
        ))

  pub eval-window_at :
      (n offset : ℕ) (pre fs post : ContentFilter L)
      → length pre ≡ offset
      → IsValid fs
      → offset + length fs < 2 ^ 32
      → length fs ≤ n
      → eval m n (pre ++ (map (shift_element offset) fs ++ post)) offset ≡ denote m fs
  unfolding denote
  eval-window_at n offset pre fs post e valid small enough =
      let start : length pre + 0 ≡ offset = omega arith in
      let there = eval-window n pre fs post 0 valid.forward (omega arith) valid.nonempty in
      (rw (start, e) at there)
      ∙ eval_stable m n (length fs) fs 0 valid.forward valid.nonempty (omega arith) (omega arith)
