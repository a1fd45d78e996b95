-- ===== src/Wrappers/Owned.antt =====
-- Every resource that is alive has exactly one owner.
use open62541pp.Prelude.{
  ℕ, ◌≤◌, ◌==◌, ◌≡◌, ◌≢◌, refl, Bool, true, false, Bool-cases, inl, inr, Option, none, some, arith,
}
use open62541pp.Status.{StatusCodes}
use open62541pp.Outcome.{Outcome, ok, undefined}
use open62541pp.Wrappers.{Store, put, clear, clear_native, copy_native, move_native}

module _ {V : Type 0} where
  pub record IsOwned (s : Store V) : Type 0 where
    pub alive : (a r : ℕ) → s.wrappers a ≡ some (some r) → (v : V) × (s.resources r ≡ some v)
    pub unique :
        (a b r : ℕ) → s.wrappers a ≡ some (some r) → s.wrappers b ≡ some (some r) → (a == b) ≡ true
    pub owner : (r : ℕ) (v : V) → s.resources r ≡ some v → (a : ℕ) × (s.wrappers a ≡ some (some r))
    pub fresh : (r : ℕ) → s.next_resource ≤ r → s.resources r ≡ none

  pub clear-IsOwned :
      (a : ℕ) (native : Option ℕ) (s : Store V)
      → IsOwned s
      → s.wrappers a ≡ some native
      → (s' : Store V) × (clear a s ≡ ok s')
        × IsOwned s'
        × (s'.wrappers a ≡ some none)
        × ((b : ℕ) → (a == b) ≡ false → s'.wrappers b ≡ s.wrappers b)
  unfolding clear
  clear-IsOwned a none s owned at = (s, rw (clear, at) refl, owned, at, λ b apart. refl)
  clear-IsOwned a (some r) s owned at =
      let (v, live) = owned.alive a r at in
      (
        record s { wrappers = put s.wrappers a (some none); resources = put s.resources r none },
        rw (clear, at, clear_native, live) refl,
        record {
          alive = λ b q h.
              let (w, found) = owned.alive b q (ground (arith, h)) in
              (w, ground (arith, found, h, at, owned.unique a b r));
          unique = λ b d q h k. ground (arith, h, k, owned.unique b d q);
          owner = λ q w h.
              let (b, held) = owned.owner q w (ground (arith, h)) in
              (b, ground (arith, held, h, at));
          fresh = λ q le. ground (arith, owned.fresh q, le);
        },
        ground arith,
        λ b apart. ground (arith, apart),
      )

  -- The state is sound, and nothing was undefined.
  abbrev pub IsSafe : Store V × Outcome (Unit {0}) → Type 0
  IsSafe (s, o) = IsOwned s × (o ≢ undefined)

  pub put-IsOwned :
      (a : ℕ) (s : Store V)
      → IsOwned s
      → ((r : ℕ) → s.wrappers a ≢ some (some r))
      → (native : Option (Option ℕ)) → ((r : ℕ) → native ≢ some (some r))
      → IsOwned (record s { wrappers = put s.wrappers a native })
  put-IsOwned a s owned empty native new = record {
    alive = λ b q h. owned.alive b q (ground (arith, h, new q));
    unique = λ b d q h k. ground (arith, h, k, new q, owned.unique b d q);
    owner = λ q w h. let (b, held) = owned.owner q w h in (b, ground (arith, held, empty q));
    fresh = owned.fresh;
  }

  pub move_native-IsOwned :
      (a b : ℕ) (native : Option ℕ) (s : Store V)
      → IsOwned s
      → ((r : ℕ) → s.wrappers a ≢ some (some r))
      → s.wrappers b ≡ some native
      → IsOwned (move_native a b native s)
  unfolding move_native
  move_native-IsOwned a b none s owned empty at =
      let first = put-IsOwned b s owned (λ r h. cc (at, h)) (some none) (λ r h. cc h) in
      put-IsOwned a (record s { wrappers = put s.wrappers b (some none) }) first
        (λ r h. empty r (ground (arith, h))) (some none) (λ r h. cc h)
  move_native-IsOwned a b (some r) s owned empty at = record {
    alive = λ d q h. elim (Bool-cases (a == d)) [
      | inl here ↦ owned.alive b q (ground (arith, at, h, here))
      | inr apart ↦ owned.alive d q (ground (arith, h, apart))
    ];
    unique = λ d e q h k.
        ground (arith, h, k, at, owned.unique d e q, owned.unique b d q, owned.unique b e q);
    owner = λ q w h.
        let (d, held) = owned.owner q w h in
        elim (Bool-cases (b == d)) [
          | inl moved ↦ (a, ground (arith, at, held, moved))
          | inr other ↦ (d, ground (arith, held, other, empty q))
        ];
    fresh = owned.fresh;
  }

  pub copy_native-IsSafe :
      ⦃c : StatusCodes⦄ (fails : Bool) (a b : ℕ) (native : Option ℕ) (s : Store V)
      → IsOwned s
      → s.wrappers a ≡ some none
      → s.wrappers b ≡ some native
      → IsSafe (copy_native fails a native s)
  unfolding copy_native
  copy_native-IsSafe fails a b none s owned empty at = (owned, λ e. cc e)
  copy_native-IsSafe fails a b (some r) s owned empty at =
      let (v, live) = owned.alive b r at in
      elim fails as (λ f. IsSafe (copy_native f a (some r) s)) [
        | true ↦ rw (copy_native, live) (owned, λ e. cc e)
        | false ↦
            rw (copy_native, live)
              (
                record {
                  alive = λ d q h. elim (Bool-cases (a == d)) [
                    | inl here ↦ (v, ground (arith, h, here))
                    | inr apart ↦
                        let (w, found) = owned.alive d q (ground (arith, h, apart)) in
                        (w, ground (arith, found, owned.fresh s.next_resource))
                  ];
                  unique = λ d e q h k. ground (
                    arith,
                    h,
                    k,
                    owned.unique d e q,
                    owned.alive d s.next_resource,
                    owned.alive e s.next_resource,
                    owned.fresh s.next_resource,
                  );
                  owner = λ q w h. elim (Bool-cases (s.next_resource == q)) [
                    | inl new ↦ (a, ground (arith, new))
                    | inr old ↦
                        let (d, held) = owned.owner q w (ground (arith, h, old)) in
                        (d, ground (arith, held, empty))
                  ];
                  fresh = λ q le. ground (arith, owned.fresh q, le);
                },
                λ e. cc e,
              )
      ]
