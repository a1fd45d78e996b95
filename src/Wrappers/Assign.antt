-- ===== src/Wrappers/Assign.antt =====
-- Swapping and assigning wrappers keeps every resource with one owner.
use open62541pp.Prelude.{ℕ, ◌==◌, ◌≡◌, ◌∙◌, Bool, Bool-cases, inl, inr, Option, some, arith}
use open62541pp.Status.{StatusCodes}
use open62541pp.Wrappers.{Store, put, copy_assign, move_assign, on_two}
use open62541pp.Wrappers.Owned.{
  IsOwned, IsSafe, clear-IsOwned, move_native-IsOwned, copy_native-IsSafe,
}

module _ ⦃c : StatusCodes⦄ {V : Type 0} where
  pub swap-IsOwned :
      (a b : ℕ) (native other : Option ℕ) (s : Store V)
      → IsOwned s
      → s.wrappers a ≡ some native
      → s.wrappers b ≡ some other
      → IsOwned (record s { wrappers = put (put s.wrappers a (some other)) b (some native) })
  swap-IsOwned a b native other s owned at_a at_b = record {
    alive =
        λ d q h. ground (arith, at_a, at_b, h, owned.alive a q, owned.alive b q, owned.alive d q);
    unique = λ d e q h k. ground (
      arith,
      h,
      k,
      at_a,
      at_b,
      owned.unique d e q,
      owned.unique a b q,
      owned.unique a d q,
      owned.unique a e q,
      owned.unique b d q,
      owned.unique b e q,
    );
    owner = λ q w h.
        let (d, held) = owned.owner q w h in
        elim (Bool-cases (a == d)) [
          | inl first ↦ (b, ground (arith, at_a, held, first))
          | inr other ↦ elim (Bool-cases (b == d)) [
            | inl second ↦ (a, ground (arith, at_a, at_b, held, second, other))
            | inr third ↦ (d, ground (arith, held, other, third))
          ]
        ];
    fresh = owned.fresh;
  }

  pub copy_assign-IsSafe :
      (fails : Bool) (a b : ℕ) (native other : Option ℕ) (s : Store V)
      → IsOwned s
      → s.wrappers a ≡ some native
      → s.wrappers b ≡ some other
      → IsSafe (on_two (copy_assign fails a b) native other s)
  unfolding on_two
  copy_assign-IsSafe fails a b native other s owned at_a at_b = elim (Bool-cases (a == b)) [
    | inl same ↦ rw (on_two, same) (owned, λ e. cc e)
    | inr apart ↦
        let (s', cleared, owned', empty, rest) = clear-IsOwned a native s owned at_a in
        rw (on_two, apart, cleared)
          (copy_native-IsSafe fails a b other s' owned' empty (rest b apart ∙ at_b))
  ]

  pub move_assign-IsSafe :
      (a b : ℕ) (native other : Option ℕ) (s : Store V)
      → IsOwned s
      → s.wrappers a ≡ some native
      → s.wrappers b ≡ some other
      → IsSafe (on_two (move_assign a b) native other s)
  unfolding on_two
  move_assign-IsSafe a b native other s owned at_a at_b = elim (Bool-cases (a == b)) [
    | inl same ↦ rw (on_two, same) (owned, λ e. cc e)
    | inr apart ↦
        let (s', cleared, owned', empty, rest) = clear-IsOwned a native s owned at_a in
        rw (on_two, apart, cleared)
          (
            move_native-IsOwned a b other s' owned' (λ r h. cc (h, empty)) (rest b apart ∙ at_b),
            λ e. cc e,
          )
  ]
