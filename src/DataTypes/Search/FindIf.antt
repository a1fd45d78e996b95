-- ===== src/DataTypes/Search/FindIf.antt =====
-- Searching a list for the first element that passes a test.
use open62541pp.Prelude.{
  ℕ, zero, suc, ◌≤◌, ◌<◌, ◌≡◌, refl, Bool, true, false, Option, none, some, List, [], ◌∷◌, ◌++◌,
  length, get_elem?, arith,
}
use open62541pp.DataTypes.Search.{find_if}

module _ {ℓ} {A : Type ℓ} where
  abbrev pub first_of : Option A → Option A → Option A
  first_of found rest = elim found [ none ↦ rest | some x ↦ some x ]

  pub get_elem?-length : (xs : List A) (i : ℕ) → length xs ≤ i → get_elem? xs i ≡ none
  get_elem?-length [] i ge = refl
  get_elem?-length (x ∷ xs) zero ge = absurd (omega arith)
  get_elem?-length (x ∷ xs) (suc i) ge = get_elem?-length xs i (omega arith)

  pub get_elem?-none_le :
      (xs : List A) (r i : ℕ) → get_elem? xs r ≡ none → r ≤ i → get_elem? xs i ≡ none
  get_elem?-none_le [] r i missing ge = refl
  get_elem?-none_le (x ∷ xs) zero i missing ge = cc
  get_elem?-none_le (x ∷ xs) (suc r) zero missing ge = absurd (omega arith)
  get_elem?-none_le (x ∷ xs) (suc r) (suc i) missing ge =
      get_elem?-none_le xs r i missing (omega arith)

module _ {ℓ} {A : Type ℓ} (p : A → Bool) where
  pub find_if-none :
      (xs : List A)
      → ((i : ℕ) (b : A) → get_elem? xs i ≡ some b → p b ≡ false)
      → find_if p xs ≡ none
  unfolding find_if
  find_if-none [] h = refl
  find_if-none (x ∷ xs) h = rw (h 0 x refl) (find_if-none xs (λ i. h (suc i)))

  pub find_if-some :
      (xs : List A) (r : ℕ) (a : A)
      → get_elem? xs r ≡ some a
      → p a ≡ true
      → ((i : ℕ) (b : A) → i < r → get_elem? xs i ≡ some b → p b ≡ false)
      → find_if p xs ≡ some a
  unfolding find_if
  find_if-some [] r a found hit before = cc
  find_if-some (x ∷ xs) zero a found hit before = ground (arith, found, hit)
  find_if-some (x ∷ xs) (suc r) a found hit before =
      rw (before 0 x (omega arith) refl)
        (find_if-some xs r a found hit (λ i b lt. before (suc i) b (omega (arith, lt))))

  pub find_if-append :
      (xs ys : List A) → find_if p (xs ++ ys) ≡ first_of (find_if p xs) (find_if p ys)
  unfolding find_if
  find_if-append [] ys = refl
  find_if-append (x ∷ xs) ys = ground (arith, find_if-append xs ys)
