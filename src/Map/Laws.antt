-- ===== src/Map/Laws.antt =====
-- What the operations of a map do to what can be found in it, and that they keep it in order.
use open62541pp.Prelude.{
  suc, ◌+◌, ◌≤◌, ◌≡◌, refl, Bool, true, false, if◌then◌else◌, Option, none, some, [], ◌∷◌, All,
  length, arith,
}
use open62541pp.Map.{Map, find, insert, erase, erase_if}
use open62541pp.Map.Order.{Ord, same}

-- What is left of a lookup when the items that pass the test are gone.
abbrev pub fresh {ℓ} : {V : Type ℓ} → (V → Bool) → Option V → Option V
fresh p none = none
fresh p (some v) = if p v then none else some v

module _ {ℓ κ} {K : Type ℓ} ⦃o : Ord K⦄ {V : Type κ} where
  abbrev pub IsSorted : Map K V → Type ℓ
  IsSorted [] = Unit
  IsSorted ((k, v) ∷ m) = All (λ e. o.ltb k e.0 ≡ true) m × IsSorted m

  pub find-insert :
      (k q : K) (v : V) (m : Map K V)
      → find q (insert k v m) ≡ (if same k q then some v else find q m)
  unfolding find insert
  find-insert k q v [] = ground (arith, o.tri k q)
  find-insert k q v ((j, w) ∷ m) = ground (
    arith,
    o.tri j k,
    o.tri j q,
    o.tri k q,
    o.trans q j k,
    o.trans q k j,
    o.trans k j q,
    o.trans j k q,
    find-insert k q v m,
  )

  pub find_below :
      (q k : K) (m : Map K V)
      → All (λ e. o.ltb k e.0 ≡ true) m
      → o.ltb k q ≡ false
      → find q m ≡ none
  unfolding find
  find_below q k [] s h = refl
  find_below q k ((j, w) ∷ m) s h =
      ground (arith, o.tri j q, o.trans k j q, s.0, find_below q k m s.1 h)

  -- In an ordered map `erase` removes the one entry that the key has, and `find` sees no other
  -- difference.
  pub find-erase :
      (k q : K) (m : Map K V)
      → IsSorted m
      → find q (erase k m) ≡ (if same k q then none else find q m)
  unfolding find erase
  find-erase k q [] s = ground (arith, o.tri k q)
  find-erase k q ((j, w) ∷ m) s = ground (
    arith,
    o.tri j k,
    o.tri j q,
    o.tri k q,
    o.trans q j k,
    o.trans q k j,
    o.trans k j q,
    o.trans j k q,
    find_below q j m s.0,
    find-erase k q m s.1,
  )

  -- Nothing but entries whose item passes the test is lost by `erase_if`.
  pub find-erase_if :
      (p : V → Bool) (q : K) (m : Map K V) → IsSorted m → find q (erase_if p m) ≡ fresh p (find q m)
  unfolding find erase_if
  find-erase_if p q [] s = refl
  find-erase_if p q ((j, w) ∷ m) s =
      ground (arith, o.tri j q, find_below q j m s.0, find-erase_if p q m s.1)

  All-insert :
      (j k : K) (v : V) (m : Map K V)
      → o.ltb j k ≡ true
      → All (λ e. o.ltb j e.0 ≡ true) m
      → All (λ e. o.ltb j e.0 ≡ true) (insert k v m)
  unfolding insert
  All-insert j k v [] h s = (h, tt)
  All-insert j k v ((i, w) ∷ m) h s = ground (arith, All-insert j k v m h s.1)

  All-mono :
      (j k : K) (m : Map K V)
      → o.ltb j k ≡ true
      → All (λ e. o.ltb k e.0 ≡ true) m
      → All (λ e. o.ltb j e.0 ≡ true) m
  All-mono j k [] h s = tt
  All-mono j k ((i, w) ∷ m) h s = (o.trans j k i h s.0, All-mono j k m h s.1)

  All-erase :
      (j k : K) (m : Map K V)
      → All (λ e. o.ltb j e.0 ≡ true) m
      → All (λ e. o.ltb j e.0 ≡ true) (erase k m)
  unfolding erase
  All-erase j k [] s = tt
  All-erase j k ((i, w) ∷ m) s = ground (arith, All-erase j k m s.1)

  All-erase_if :
      (p : V → Bool) (j : K) (m : Map K V)
      → All (λ e. o.ltb j e.0 ≡ true) m
      → All (λ e. o.ltb j e.0 ≡ true) (erase_if p m)
  unfolding erase_if
  All-erase_if p j [] s = tt
  All-erase_if p j ((i, w) ∷ m) s = ground (arith, All-erase_if p j m s.1)

  pub insert-IsSorted : (k : K) (v : V) (m : Map K V) → IsSorted m → IsSorted (insert k v m)
  unfolding insert
  insert-IsSorted k v [] s = (tt, tt)
  insert-IsSorted k v ((j, w) ∷ m) s =
      ground (arith, o.tri j k, insert-IsSorted k v m s.1, All-insert j k v m, All-mono k j m)

  pub erase-IsSorted : (k : K) (m : Map K V) → IsSorted m → IsSorted (erase k m)
  unfolding erase
  erase-IsSorted k [] s = tt
  erase-IsSorted k ((j, w) ∷ m) s = ground (arith, erase-IsSorted k m s.1, All-erase j k m s.0)

  pub erase_if-IsSorted : (p : V → Bool) (m : Map K V) → IsSorted m → IsSorted (erase_if p m)
  unfolding erase_if
  erase_if-IsSorted p [] s = tt
  erase_if-IsSorted p ((j, w) ∷ m) s =
      ground (arith, erase_if-IsSorted p m s.1, All-erase_if p j m s.0)

  pub length-erase :
      (k : K) (m : Map K V)
      → length m ≡ length (erase k m) + elim (find k m) [ none ↦ 0 | some _ ↦ 1 ]
  unfolding erase find
  length-erase k [] = refl
  length-erase k ((j, w) ∷ m) = ground (arith, o.tri j k, length-erase k m)

  pub length-erase_if : (p : V → Bool) (m : Map K V) → length (erase_if p m) ≤ length m
  unfolding erase_if
  length-erase_if p [] = omega arith
  length-erase_if p ((j, w) ∷ m) = ground (arith, length-erase_if p m)

  pub length-insert_new :
      (k : K) (v : V) (m : Map K V) → find k m ≡ none → length (insert k v m) ≡ suc (length m)
  unfolding find insert
  length-insert_new k v [] h = refl
  length-insert_new k v ((j, w) ∷ m) h = ground (arith, o.tri j k, length-insert_new k v m)

  pub erase_if_none : (p : V → Bool) (m : Map K V) → All (λ e. p e.1 ≡ false) m → erase_if p m ≡ m
  unfolding erase_if
  erase_if_none p [] h = refl
  erase_if_none p ((j, w) ∷ m) h = rw (h.0, erase_if_none p m h.1)

  pub All-insert_any :
      (p : V → Bool) (k : K) (v : V) (m : Map K V)
      → All (λ e. p e.1 ≡ false) m
      → p v ≡ false
      → All (λ e. p e.1 ≡ false) (insert k v m)
  unfolding insert
  All-insert_any p k v [] h l = (l, tt)
  All-insert_any p k v ((j, w) ∷ m) h l = ground (arith, All-insert_any p k v m h.1 l)
