-- ===== src/NumericRanges/Reading.antt =====
-- Reading the text of a numeric range back.
use open62541pp.Prelude.{
  ℕ, zero, suc, ◌+◌, ◌*◌, ◌-◌, ◌/◌, ◌%◌, ◌^◌, ◌<◌, ◌==◌, ◌≡◌, refl, sym, ap, ◌∙◌, ◌⊎◌, inl, inr,
  true, false, Bool-cases, ==_iff, Option, none, some, List, [], ◌∷◌, ◌++◌, ltb, arith, All,
}
use mathlib.Core.List.{append-nil, append_assoc}
use open62541pp.Prelude.Text.{Bytes}
use open62541pp.Outcome.{ok, undefined, ◌>>=◌}
use open62541pp.NumericRanges.{
  NumericRangeDimension, colon, comma, decimal, number, write_dimension, write_dimensions, pop_back,
  to_string,
}

-- A dimension whose lower bound was read, or was not.
unfoldable pub dimension : Option ℕ → ℕ → NumericRangeDimension
dimension none n = record { min = n; max = n }
dimension (some m) n = record { min = m; max = n }

-- A reader of the format, independent of the printer: `lower` is the bound in front of a colon, and
-- `n` the number read so far.
unfoldable pub read : Option ℕ → ℕ → Bytes → List NumericRangeDimension
unfolding dimension
read lower n [] = dimension lower n ∷ []
read lower n (c ∷ cs) = elim (c == comma) [
  | true ↦ dimension lower n ∷ read none 0 cs
  | false ↦ elim (c == colon) [
    | true ↦ read (some n) 0 cs
    | false ↦ read lower (n * 10 + (c - 48)) cs
  ]
]

not_separator : (d : ℕ) → d < 10 → ((48 + d == comma) ≡ false) × ((48 + d == colon) ≡ false)
not_separator d lt = (ground arith, ground arith)

read-digit :
    (lower : Option ℕ) (n d r : ℕ) (rest : Bytes)
    → d < 10
    → n * 10 + (48 + d - 48) ≡ r
    → read lower n ((48 + d) ∷ rest) ≡ read lower r rest
unfolding read
read-digit lower n d r rest lt eq =
    let sep = not_separator d lt in rw (sep.0, sep.1, read) (ap (λ m. read lower m rest) eq)

read-decimal :
    (fuel : ℕ) (lower : Option ℕ) (n : ℕ) (rest : Bytes)
    → n < 10 ^ suc fuel
    → read lower 0 (decimal fuel n ++ rest) ≡ read lower n rest
unfolding decimal
read-decimal zero lower n rest lt = read-digit lower 0 n n rest (omega arith) (omega arith)
read-decimal (suc fuel) lower n rest lt = elim (Bool-cases (ltb n 10)) [
  | inl small ↦ rw (small, decimal) (read-digit lower 0 n n rest (ground arith) (omega arith))
  | inr large ↦
      rw (large, decimal)
        (ap (read lower 0) (append_assoc (decimal fuel (n / 10)) ((48 + n % 10) ∷ []) rest)
          ∙ read-decimal fuel lower (n / 10) ((48 + n % 10) ∷ rest) (omega arith)
          ∙ read-digit lower (n / 10) (n % 10) n rest (omega arith) (omega arith))
]

read-number :
    (lower : Option ℕ) (n : ℕ) (rest : Bytes)
    → n < 2 ^ 32
    → read lower 0 (number n ++ rest) ≡ read lower n rest
unfolding number
read-number lower n rest lt = read-decimal 9 lower n rest (omega arith)

abbrev pub IsUint32 : NumericRangeDimension → Type 0
IsUint32 d = (d.min < 2 ^ 32) × (d.max < 2 ^ 32)

-- What the reader has left once it has read a dimension.
read-write_dimension :
    (d : NumericRangeDimension) (rest : Bytes)
    → IsUint32 d
    → (lower : Option ℕ) × (n : ℕ) × (read none 0 (write_dimension d ++ rest) ≡ read lower n rest)
      × (dimension lower n ≡ d)
unfolding write_dimension dimension read
read-write_dimension d rest b = elim (Bool-cases (d.min == d.max)) [
  | inl same ↦ (
    none,
    d.min,
    rw (same, write_dimension)
        (ap (read none 0) (append_assoc (number d.min) [] rest) ∙ read-number none d.min rest b.0),
    ap (λ m. record { min = d.min; max = m }) ((==_iff d.min d.max).0 same),
  )
  | inr other ↦ (
    some d.min,
    d.max,
    rw (other, write_dimension)
        (ap (read none 0) (append_assoc (number d.min) (colon ∷ number d.max) rest)
          ∙ read-number none d.min (colon ∷ number d.max ++ rest) b.0
          ∙ read-number (some d.min) d.max rest b.1),
    refl,
  )
]

-- The text without the comma at its end.
unfoldable joined : NumericRangeDimension → List NumericRangeDimension → Bytes
joined d [] = write_dimension d
joined d (e ∷ es) = write_dimension d ++ comma ∷ joined e es

write_dimensions-joined :
    (d : NumericRangeDimension) (ds : List NumericRangeDimension)
    → write_dimensions (d ∷ ds) ≡ joined d ds ++ (comma ∷ [])
unfolding write_dimensions joined
write_dimensions-joined d [] = refl
write_dimensions-joined d (e ∷ es) =
    ap (λ t. write_dimension d ++ comma ∷ t) (write_dimensions-joined e es)
    ∙ sym (append_assoc (write_dimension d) (comma ∷ joined e es) (comma ∷ []))

pop_back-append : (cs : Bytes) (c : ℕ) → pop_back (cs ++ (c ∷ [])) ≡ ok cs
unfolding pop_back
pop_back-append [] c = refl
pop_back-append (a ∷ []) c = refl
pop_back-append (a ∷ b ∷ cs) c = ap (λ r. r >>= λ rest. ok (a ∷ rest)) (pop_back-append (b ∷ cs) c)

read-joined :
    (d : NumericRangeDimension) (ds : List NumericRangeDimension)
    → All IsUint32 (d ∷ ds)
    → read none 0 (joined d ds) ≡ d ∷ ds
unfolding read joined
read-joined d [] b =
    let (lower, n, left, same) = read-write_dimension d [] b.0 in
    ap (read none 0) (sym (append-nil (write_dimension d))) ∙ left ∙ ap (λ e. e ∷ []) same
read-joined d (e ∷ es) b =
    let (lower, n, left, same) = read-write_dimension d (comma ∷ joined e es) b.0 in
    left ∙ ap (λ x. x ∷ read none 0 (joined e es)) same ∙ ap (λ xs. d ∷ xs) (read-joined e es b.1)

-- toString is undefined for a range without dimensions. For any other, whose bounds are numbers of
-- 32 bits, it returns a text from which the reader of the format reads the dimensions back.
pub to_string-read :
    (ds : List NumericRangeDimension)
    → All IsUint32 ds
    → ((ds ≡ []) × (to_string ds ≡ undefined))
      ⊎ ((text : Bytes) × (to_string ds ≡ ok text) × (read none 0 text ≡ ds))
unfolding to_string write_dimensions pop_back
to_string-read [] b = inl (refl, refl)
to_string-read (d ∷ ds) b = inr (
  joined d ds,
  ap pop_back (write_dimensions-joined d ds) ∙ pop_back-append (joined d ds) comma,
  read-joined d ds b,
)
