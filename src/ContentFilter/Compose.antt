-- ===== src/ContentFilter/Compose.antt =====
-- What the operators of content filters do to shape and meaning.
use mathlib.Core.Option
use open62541pp.Prelude.{
  ℕ, suc, ◌+◌, ◌%◌, ◌^◌, ◌≤◌, ◌<◌, ◌≡◌, refl, ◌∙◌, Option, none, some, [], ◌∷◌, ◌++◌, map, length,
  length-append, length-map, arith,
}
use open62541pp.Arrays.{int32_max}
use open62541pp.ContentFilter.{
  FilterOperator, element, ContentFilterElement, ContentFilter, shift_operand, shift_element,
  binary_root, unary_root, total_size,
}
use open62541pp.ContentFilter.Copies.{shifted}
use open62541pp.ContentFilter.Positions.{AreForward, IsValid, AreForward-shift, AreForward-append}
use open62541pp.ContentFilter.Window.{eval-window_at}
use open62541pp.ContentFilter.Evaluation.{
  Meaning, eval, eval_element, eval_operands, denote, denote_total,
}

module _ {ℓ} {L : Type ℓ} (op : FilterOperator) where
  -- The filter that the binary operator builds.
  abbrev pub joined : ContentFilter L → ContentFilter L → ContentFilter L
  joined lhs rhs =
      record { filter_operator = op; filter_operands = element 1 ∷ element (1 + length lhs) ∷ [] }
      ∷ (map (shift_element 1) lhs ++ (map (shift_element (1 + length lhs)) rhs ++ []))

  pub shifted-joined :
      (lhs rhs : ContentFilter L)
      → total_size ((binary_root op lhs ∷ []) ∷ lhs ∷ rhs ∷ []) ≤ int32_max
      → shifted 0 ((binary_root op lhs ∷ []) ∷ lhs ∷ rhs ∷ []) ≡ joined lhs rhs
  unfolding shifted total_size shift_element shift_operand
  shifted-joined lhs rhs small =
      let e : ((1 + length lhs % 2 ^ 32) % 2 ^ 32 + 0) % 2 ^ 32 ≡ 1 + length lhs = omega arith in
      rw e

  length-joined :
      (lhs rhs : ContentFilter L) → length (joined lhs rhs) ≡ suc (length lhs + length rhs)
  length-joined lhs rhs = omega (
    arith,
    length-append (map (shift_element 1) lhs) (map (shift_element (1 + length lhs)) rhs ++ []),
    length-append (map (shift_element (1 + length lhs)) rhs) [],
    length-map lhs (shift_element 1),
    length-map rhs (shift_element (1 + length lhs)),
  )

  joined-AreForward :
      (size : ℕ) (lhs rhs : ContentFilter L)
      → size ≡ suc (length lhs + length rhs)
      → size < 2 ^ 32
      → IsValid lhs
      → IsValid rhs
      → AreForward size 0 (joined lhs rhs)
  joined-AreForward size lhs rhs e small valid_l valid_r =
      let at_end : 1 + length lhs + 0 ≡ 1 + length lhs = omega arith in
      let right =
        AreForward-shift (length rhs) 0 (1 + length lhs) size rhs (omega arith) small
          valid_r.forward in
      (
        ((omega arith, omega arith), ((omega arith, omega arith), tt)),
        AreForward-append size 1 (map (shift_element 1) lhs) _
            (AreForward-shift (length lhs) 0 1 size lhs (omega arith) small valid_l.forward)
            (rw (length-map lhs (shift_element 1)) (
              AreForward-append size (1 + length lhs) (map (shift_element (1 + length lhs)) rhs) []
                (rw at_end at right) tt)),
      )

  pub joined-IsValid :
      (lhs rhs : ContentFilter L)
      → suc (length lhs + length rhs) < 2 ^ 32
      → IsValid lhs
      → IsValid rhs
      → IsValid (joined lhs rhs)
  joined-IsValid lhs rhs small valid_l valid_r = record {
    nonempty = omega arith;
    forward =
        joined-AreForward (length (joined lhs rhs)) lhs rhs (length-joined lhs rhs)
          (omega (arith, length-joined lhs rhs)) valid_l valid_r;
  }

denote-root {ℓ} :
    {L V : Type ℓ} (m : Meaning L V) (e : ContentFilterElement L) (es : ContentFilter L)
    → denote m (e ∷ es) ≡ eval_element m (eval m (length es) (e ∷ es)) e
unfolding denote eval
denote-root m e es = refl

-- Where a value needs two others.
abbrev pub both {ℓ} : {V : Type ℓ} → (V → V → V) → Option V → Option V → Option V
both combine (some v) (some w) = some (combine v w)
both combine none w = none
both combine (some v) none = none

module _ {ℓ} {L V : Type ℓ} (m : Meaning L V) (op : FilterOperator) where
  eval_element-two :
      (value : ℕ → Option V) (i j : ℕ) (v w : V)
      → value i ≡ some v
      → value j ≡ some w
      → eval_element m value
          (record { filter_operator = op; filter_operands = element i ∷ element j ∷ [] })
        ≡ some (m.apply op (v ∷ w ∷ []))
  unfolding eval_element eval_operands
  eval_element-two value i j v w p q = ground arith

  eval_element-one :
      (value : ℕ → Option V) (i : ℕ) (v : V)
      → value i ≡ some v
      → eval_element m value (record { filter_operator = op; filter_operands = element i ∷ [] })
        ≡ some (m.apply op (v ∷ []))
  unfolding eval_element eval_operands
  eval_element-one value i v p = ground arith

  pub joined-denote :
      (lhs rhs : ContentFilter L)
      → suc (length lhs + length rhs) < 2 ^ 32
      → IsValid lhs
      → IsValid rhs
      → denote m (joined op lhs rhs)
        ≡ both (λ v w. m.apply op (v ∷ w ∷ [])) (denote m lhs) (denote m rhs)
  joined-denote lhs rhs small valid_l valid_r =
      let moved_l = map (shift_element 1) lhs in
      let moved_r = map (shift_element (1 + length lhs)) rhs in
      let n = length (moved_l ++ (moved_r ++ [])) in
      let size : n ≡ length lhs + length rhs = omega (arith, length-joined op lhs rhs) in
      let root : ContentFilterElement L = record {
        filter_operator = op;
        filter_operands = element 1 ∷ element (1 + length lhs) ∷ [];
      } in
      let left =
        eval-window_at m n 1 (root ∷ []) lhs (moved_r ++ []) refl valid_l (omega arith)
          (omega arith) in
      let right =
        eval-window_at m n (1 + length lhs) (root ∷ moved_l) rhs []
          (omega (arith, length-map lhs (shift_element 1))) valid_r (omega arith) (omega arith) in
      let (v, is_v) = denote_total m lhs valid_l in
      let (w, is_w) = denote_total m rhs valid_r in
      denote-root m root (moved_l ++ (moved_r ++ []))
      ∙ eval_element-two _ 1 (1 + length lhs) v w (left ∙ is_v) (right ∙ is_w)
      ∙ rw (is_v, is_w)

  -- The same for one operand.
  pub unary_joined : ContentFilter L → ContentFilter L
  unary_joined fs = unary_root op ∷ (map (shift_element 1) fs ++ [])

  pub shifted-unary :
      (fs : ContentFilter L) → shifted 0 ((unary_root op ∷ []) ∷ fs ∷ []) ≡ unary_joined fs
  unfolding shifted shift_element shift_operand unary_joined
  shifted-unary fs = refl

  pub length-unary_joined : (fs : ContentFilter L) → length (unary_joined fs) ≡ suc (length fs)
  unfolding unary_joined
  length-unary_joined fs =
      omega (arith, length-append (map (shift_element 1) fs) [], length-map fs (shift_element 1))

  pub unary_joined-AreForward :
      (size : ℕ) (fs : ContentFilter L)
      → size ≡ suc (length fs)
      → size < 2 ^ 32
      → IsValid fs
      → AreForward size 0 (unary_joined fs)
  unfolding unary_joined
  unary_joined-AreForward size fs e small valid = (
    ((omega arith, omega arith), tt),
    AreForward-append size 1 (map (shift_element 1) fs) []
        (AreForward-shift (length fs) 0 1 size fs (omega arith) small valid.forward) tt,
  )

  pub unary_joined-denote :
      (fs : ContentFilter L)
      → suc (length fs) < 2 ^ 32
      → IsValid fs
      → denote m (unary_joined fs) ≡ Option.map (λ v. m.apply op (v ∷ [])) (denote m fs)
  unfolding unary_joined
  unary_joined-denote fs small valid =
      let moved = map (shift_element 1) fs in
      let n = length (moved ++ []) in
      let size : n ≡ length fs =
        omega (arith, length-append moved [], length-map fs (shift_element 1)) in
      let inner =
        eval-window_at m n 1 (unary_root op ∷ []) fs [] refl valid (omega arith) (omega arith) in
      let (v, is_v) = denote_total m fs valid in
      denote-root m (unary_root op) (moved ++ []) ∙ eval_element-one _ 1 v (inner ∙ is_v) ∙ rw is_v
