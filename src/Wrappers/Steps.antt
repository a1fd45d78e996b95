-- ===== src/Wrappers/Steps.antt =====
-- Where a program with wrappers can free a resource twice, use one that is gone, or leak one.
use open62541pp.Prelude.{
  ℕ, ◌≡◌, refl, Bool, true, false, inl, inr, Option, none, some, Option-cases, List, [], ◌∷◌, arith,
}
use mathlib.Core.Path.{subst}
use open62541pp.Status.{StatusCodes}
use open62541pp.Outcome.{Exn, Outcome, ok, throw, undefined}
use open62541pp.Wrappers.{
  Store, put, copy_native, Operation, default_construct, destroy, copy_construct, copy_assign,
  move_construct, move_assign, swap, constructed, on_two, step, cons, continue_with, run,
  no_objects,
}
use open62541pp.Wrappers.Assign.{swap-IsOwned, copy_assign-IsSafe, move_assign-IsSafe}
use open62541pp.Wrappers.Owned.{
  IsOwned, IsSafe, clear-IsOwned, put-IsOwned, move_native-IsOwned, copy_native-IsSafe,
}

-- A copy construction for which there is no memory.
abbrev pub fails_to_construct : Operation → Bool
fails_to_construct (copy_construct fails a b) = fails
fails_to_construct _ = false

-- Only copy constructions that fail have undefined behaviour.
abbrev pub AreDefined : List Operation → List (Outcome (Unit {0})) → Type 0
AreDefined (operation ∷ operations) (o ∷ os) =
    (o ≡ undefined → fails_to_construct operation ≡ true) × AreDefined operations os
AreDefined _ [] = Unit
AreDefined [] (o ∷ os) = Unit

module _ ⦃c : StatusCodes⦄ {V : Type 0} where
  -- The state is sound, and the operation is undefined only where its construction fails.
  abbrev IsSafeStep : Operation → Option (Store V × Outcome (Unit {0})) → Type 0
  IsSafeStep operation none = Unit
  IsSafeStep operation (some (s, o)) =
      IsOwned s × (o ≡ undefined → fails_to_construct operation ≡ true)

  defined_step :
      (operation : Operation) (result : Store V × Outcome (Unit {0}))
      → IsSafe result
      → IsSafeStep operation (some result)
  defined_step operation (s, o) (owned, defined) = (owned, λ e. absurd (defined e))

  copy_native-throws :
      (fails : Bool) (a : ℕ) (native : Option ℕ) (s : Store V) (e : Exn)
      → s.wrappers a ≡ some none
      → (copy_native fails a native s).1 ≡ throw e
      → ((copy_native fails a native s).0.wrappers a ≡ some none) × (fails ≡ true)
  unfolding copy_native
  copy_native-throws fails a none s e empty thrown = absurd (cc thrown)
  copy_native-throws fails a (some r) s e empty thrown = ground (arith, thrown)

  constructed-IsSafe :
      (fails : Bool) (a b : ℕ) (result : Store V × Outcome (Unit {0}))
      → IsSafe result
      → ((e : Exn) → result.1 ≡ throw e → (result.0.wrappers a ≡ some none) × (fails ≡ true))
      → IsSafeStep (copy_construct fails a b) (some (constructed a result))
  constructed-IsSafe fails a b (s, ok _) (owned, defined) thrown = (owned, λ e. cc e)
  constructed-IsSafe fails a b (s, throw e) (owned, defined) thrown =
      let (empty, failed) = thrown e refl in
      (put-IsOwned a s owned (λ r h. cc (h, empty)) none (λ r h. cc h), λ _. failed)
  constructed-IsSafe fails a b (s, undefined) (owned, defined) thrown = absurd (defined refl)

  step-IsSafe :
      (operation : Operation) (s : Store V) → IsOwned s → IsSafeStep operation (step operation s)
  unfolding step on_two
  step-IsSafe (default_construct a) s owned = elim (Option-cases (s.wrappers a)) [
    | inr (native, at) ↦ rw (step, at) tt
    | inl missing ↦
        rw (step, missing)
          (put-IsOwned a s owned (λ r h. cc (h, missing)) (some none) (λ r h. cc h), λ e. cc e)
  ]
  step-IsSafe (destroy a) s owned = elim (Option-cases (s.wrappers a)) [
    | inl missing ↦ rw (step, missing) tt
    | inr (native, at) ↦
        let (s', cleared, owned', empty, rest) = clear-IsOwned a native s owned at in
        rw (step, at, cleared)
          (put-IsOwned a s' owned' (λ r h. cc (h, empty)) none (λ r h. cc h), λ e. cc e)
  ]
  step-IsSafe (copy_construct fails a b) s owned = elim (Option-cases (s.wrappers a)) [
    | inr (native, at) ↦ rw (step, at) tt
    | inl missing ↦ elim (Option-cases (s.wrappers b)) [
      | inl no_other ↦ rw (step, missing, no_other) tt
      | inr (native, at) ↦
          let s1 : Store V = record s { wrappers = put s.wrappers a (some none) } in
          let owned1 : IsOwned s1 =
            put-IsOwned a s owned (λ r h. cc (h, missing)) (some none) (λ r h. cc h) in
          rw (step, missing, at)
            (constructed-IsSafe fails a b (copy_native fails a native s1)
              (copy_native-IsSafe fails a b native s1 owned1 (ground arith)
                (ground (arith, at, missing)))
              (λ e. copy_native-throws fails a native s1 e (ground arith)))
    ]
  ]
  step-IsSafe (move_construct a b) s owned = elim (Option-cases (s.wrappers a)) [
    | inr (native, at) ↦ rw (step, at) tt
    | inl missing ↦ elim (Option-cases (s.wrappers b)) [
      | inl no_other ↦ rw (step, missing, no_other) tt
      | inr (native, at) ↦
          rw (step, missing, at)
            (move_native-IsOwned a b native s owned (λ r h. cc (h, missing)) at, λ e. cc e)
    ]
  ]
  step-IsSafe (copy_assign fails a b) s owned = elim (Option-cases (s.wrappers a)) [
    | inl missing ↦ rw (step, missing) tt
    | inr (native, at_a) ↦ elim (Option-cases (s.wrappers b)) [
      | inl missing ↦ rw (step, at_a, missing) tt
      | inr (other, at_b) ↦
          rw (step, at_a, at_b)
            (defined_step (copy_assign fails a b) _
              (copy_assign-IsSafe fails a b native other s owned at_a at_b))
    ]
  ]
  step-IsSafe (move_assign a b) s owned = elim (Option-cases (s.wrappers a)) [
    | inl missing ↦ rw (step, missing) tt
    | inr (native, at_a) ↦ elim (Option-cases (s.wrappers b)) [
      | inl missing ↦ rw (step, at_a, missing) tt
      | inr (other, at_b) ↦
          rw (step, at_a, at_b)
            (defined_step (move_assign a b) _
              (move_assign-IsSafe a b native other s owned at_a at_b))
    ]
  ]
  step-IsSafe (swap a b) s owned = elim (Option-cases (s.wrappers a)) [
    | inl missing ↦ rw (step, missing) tt
    | inr (native, at_a) ↦ elim (Option-cases (s.wrappers b)) [
      | inl missing ↦ rw (step, at_a, missing) tt
      | inr (other, at_b) ↦
          rw (step, at_a, at_b) (swap-IsOwned a b native other s owned at_a at_b, λ e. cc e)
    ]
  ]

  abbrev AllSafe : List Operation → Option (Store V × List (Outcome (Unit {0}))) → Type 0
  AllSafe operations none = Unit
  AllSafe operations (some (end, os)) = IsOwned end × AreDefined operations os

  cons-AllSafe :
      (operation : Operation) (operations : List Operation) (o : Outcome (Unit {0}))
      (rest : Option (Store V × List (Outcome (Unit {0}))))
      → (o ≡ undefined → fails_to_construct operation ≡ true)
      → AllSafe operations rest
      → AllSafe (operation ∷ operations) (cons o rest)
  cons-AllSafe operation operations o none defined safe = tt
  cons-AllSafe operation operations o (some (end, os)) defined (owned, all) =
      (owned, (defined, all))

  after_step-AllSafe :
      (operation : Operation) (operations : List Operation)
      (result : Option (Store V × Outcome (Unit {0})))
      → IsSafeStep operation result
      → ((s : Store V) → IsOwned s → AllSafe operations (run operations s))
      → AllSafe
          (operation ∷ operations)
          (elim result [ none ↦ none | some r ↦ continue_with (run operations) r ])
  after_step-AllSafe operation operations none safe rest = tt
  after_step-AllSafe operation operations (some (s, undefined)) (owned, defined) rest =
      (owned, (defined, tt))
  after_step-AllSafe operation operations (some (s, ok t)) (owned, defined) rest =
      cons-AllSafe operation operations (ok t) (run operations s) defined (rest s owned)
  after_step-AllSafe operation operations (some (s, throw e)) (owned, defined) rest =
      cons-AllSafe operation operations (throw e) (run operations s) defined (rest s owned)

  run-AllSafe :
      (operations : List Operation) (s : Store V)
      → IsOwned s
      → AllSafe operations (run operations s)
  unfolding run
  run-AllSafe [] s owned = (owned, tt)
  run-AllSafe (operation ∷ operations) s owned =
      after_step-AllSafe operation operations (step operation s) (step-IsSafe operation s owned)
        (run-AllSafe operations)

  -- A program makes objects that own resources, copies, moves, assigns, swaps and destroys them, each
  -- also with itself, and copies may fail for lack of memory. From a sound state on, the only
  -- operation that can be undefined, and ends the run, is a copy construction whose copy fails: no
  -- other one frees or copies a resource that is gone. In the state at the end every object's
  -- resource is alive, no two objects have the same one, and every resource that is alive has an
  -- owner.
  pub run-IsOwned :
      (operations : List Operation) (s end : Store V) (os : List (Outcome (Unit {0})))
      → IsOwned s
      → run operations s ≡ some (end, os)
      → IsOwned end × AreDefined operations os
  run-IsOwned operations s end os owned ran =
      subst (AllSafe operations) ran (run-AllSafe operations s owned)

  pub no_objects-IsOwned : IsOwned {V = V} no_objects
  no_objects-IsOwned = record {
    alive = λ a r h. cc h;
    unique = λ a b r h k. cc h;
    owner = λ r v h. cc h;
    fresh = λ r le. refl;
  }
