-- ===== src/Views/Elements.antt =====
-- Views of a view show what they should of its elements.
use open62541pp.Prelude.{
  ℕ, ◌+◌, ◌-◌, ◌≤◌, ◌≡◌, ◌⊎◌, ◌<◌, refl, sym, ap, leb→le, Bool, Bool-cases, inl, inr, true, false,
  not, ◌&&◌, if◌then◌else◌, ltb, leb, Option, none, some, List, length, get_elem?_lt, arith,
}
use open62541pp.Outcome.{ok, throw, std_exception}
use open62541pp.Views.{Span, advance, subview, first, last, load, at}

abbrev inside_subview : ℕ → ℕ → ℕ → Span → Bool
inside_subview offset count i s = ltb i count && ltb (offset + i) s.size

size-subview :
    (offset count i : ℕ) (s : Span)
    → leb (subview offset count s).size i ≡ not (inside_subview offset count i s)
unfolding subview
size-subview offset count i s = ground arith

inside-bound :
    (offset count i : ℕ) (s : Span)
    → inside_subview offset count i s ≡ true
    → (leb s.size (offset + i) ≡ false) × (leb s.size offset ≡ false)
inside-bound offset count i s inside = ground (arith, inside)

size-last :
    (count i : ℕ) (s : Span) → count ≤ s.size → leb (last count s).size i ≡ not (ltb i count)
unfolding last
size-last count i s fits = ground arith

last-bound :
    (count i : ℕ) (s : Span)
    → count ≤ s.size
    → ltb i count ≡ true
    → leb s.size (s.size - count + i) ≡ false
last-bound count i s fits inside = ground (arith, inside)

advance_twice : (p : Option ℕ) (m n : ℕ) → advance (advance p m) n ≡ advance p (m + n)
advance_twice none m n = refl
advance_twice (some p) m n = ap some (omega arith)

advance_zero : (p : Option ℕ) (n m : ℕ) → n ≤ m → advance p (n - m) ≡ p
advance_zero none n m h = refl
advance_zero (some p) n m h = ap some (omega arith)

position-last :
    (count : ℕ) (s : Span)
    → count ≤ s.size
    → (last count s).position ≡ advance s.position (s.size - count)
unfolding last
position-last count s fits = elim (Bool-cases (leb s.size count)) [
  | inl whole ↦ rw whole (sym (advance_zero s.position s.size count (leb→le s.size count whole)))
  | inr part ↦ rw part refl
]

module _ {ℓ} {A : Type ℓ} (buffer : List A) where
  -- `subview(offset, count)` shows the elements from `offset` on, at most `count` of them and no
  -- more than there are; `at` behind them throws std::out_of_range.
  pub at-subview :
      (s : Span) (offset count i : ℕ)
      → at buffer i (subview offset count s) ≡ (
          if ltb i count && ltb (offset + i) s.size
          then at buffer (offset + i) s
          else throw std_exception)
  unfolding at subview
  at-subview s offset count i = elim (Bool-cases (inside_subview offset count i s)) [
    | inr outside ↦ rw (size-subview offset count i s, outside) refl
    | inl inside ↦
        let (in_s, some_left) = inside-bound offset count i s inside in
        rw (size-subview offset count i s, inside, in_s)
          (rw (subview, some_left) (ap (load buffer) (advance_twice s.position offset i)))
  ]

  -- `last(count)`, of no more elements than there are, shows the last ones.
  pub at-last :
      (s : Span) (count i : ℕ)
      → count ≤ s.size
      → at buffer i (last count s)
        ≡ (if ltb i count then at buffer (s.size - count + i) s else throw std_exception)
  unfolding at
  at-last s count i fits = elim (Bool-cases (ltb i count)) [
    | inr outside ↦ rw (size-last count i s fits, outside) refl
    | inl inside ↦
        rw
          (
            size-last count i s fits,
            inside,
            last-bound count i s fits inside,
            position-last count s fits,
          )
          (ap (load buffer) (advance_twice s.position (s.size - count) i))
  ]

  abbrev pub Inside : Option ℕ → ℕ → Type 0
  Inside none size = size ≡ 0
  Inside (some p) size = p + size ≤ length buffer

  -- A view that lies inside the buffer.
  abbrev pub IsValid : Span → Type 0
  IsValid s = Inside s.position s.size

  IsValid-subview : (offset count : ℕ) (s : Span) → IsValid s → IsValid (subview offset count s)
  unfolding subview
  IsValid-subview offset count s valid = ground (arith, valid)

  IsValid-first : (count : ℕ) (s : Span) → IsValid s → IsValid (first count s)
  unfolding first
  IsValid-first count s valid = ground (arith, valid)

  IsValid-last : (count : ℕ) (s : Span) → IsValid s → IsValid (last count s)
  unfolding last
  IsValid-last count s valid = ground (arith, valid)

  load-defined :
      (p : Option ℕ) (size i : ℕ)
      → Inside p size
      → i < size
      → (x : A) × (load buffer (advance p i) ≡ ok x)
  load-defined none size i valid inside = absurd (omega arith)
  load-defined (some p) size i valid inside =
      let (x, found) = get_elem?_lt buffer (p + i) (omega arith) in (x, rw (load, found) refl)

  -- Views of a view inside the buffer are inside the buffer, and reading one with `at` gives an
  -- element for every index below its size and throws std::out_of_range for any other.
  pub IsValid-views :
      (s : Span) (offset count i : ℕ)
      → IsValid s
      → IsValid (subview offset count s)
        × IsValid (first count s)
        × IsValid (last count s)
        × (((i < s.size) × (x : A) × (at buffer i s ≡ ok x))
            ⊎ ((s.size ≤ i) × (at buffer i s ≡ throw std_exception)))
  unfolding at
  IsValid-views s offset count i valid = (
    IsValid-subview offset count s valid,
    IsValid-first count s valid,
    IsValid-last count s valid,
    elim (Bool-cases (leb s.size i)) [
      | inl behind ↦ inr (leb→le s.size i behind, rw behind refl)
      | inr inside ↦
          let (x, loaded) = load-defined s.position s.size i valid (ground (arith, inside)) in
          inl (ground (arith, inside), x, rw inside loaded)
    ],
  )
