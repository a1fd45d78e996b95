-- ===== src/Wrappers.antt =====
-- The class template Wrapper of include/open62541pp/wrapper.hpp, with the TypeHandlerNative of a type
-- of the C library: constructors, assignments, swap and destructor of objects that own what their
-- native value points to. A native value is null or owns one resource.
pub mod Owned
pub mod Assign
pub mod Steps
use open62541pp.Prelude.{
  ℕ, suc, ◌==◌, Bool, true, false, if◌then◌else◌, Option, none, some, List, [], ◌∷◌,
}
use open62541pp.Status.{StatusCodes, bad_out_of_memory}
use open62541pp.Outcome.{Outcome, ok, throw, undefined, bad_status}

-- The native values of the objects, by address, and the resources that are alive, with their
-- content.
pub record Store (V : Type 0) : Type 0 where
  pub wrappers : ℕ → Option (Option ℕ)
  pub resources : ℕ → Option V
  pub next_resource : ℕ

abbrev pub put {ℓ} : {A : Type ℓ} → (ℕ → A) → ℕ → A → ℕ → A
put memory a v b = if a == b then v else memory b

abbrev pub is_alive {ℓ} : {A : Type ℓ} → Option A → Bool
is_alive none = false
is_alive (some _) = true

module _ {V : Type 0} where
  -- Handler::clear, and `native = {}`: a resource that is not alive must not be freed.
  unfoldable pub clear_native : Option ℕ → ℕ → Store V → Outcome (Store V)
  clear_native none a s = ok s
  clear_native (some r) a s = elim (s.resources r) [
    | none ↦ undefined
    | some v ↦
        ok
          (record s { wrappers = put s.wrappers a (some none); resources = put s.resources r none })
  ]

  unfoldable pub clear : ℕ → Store V → Outcome (Store V)
  unfolding clear_native
  clear a s = elim (s.wrappers a) [ none ↦ undefined | some native ↦ clear_native native a s ]

  -- `native() = Handler::copy(…)`; the C library fails to copy when there is no memory.
  unfoldable pub copy_native :
      ⦃c : StatusCodes⦄ → Bool → ℕ → Option ℕ → Store V → Store V × Outcome (Unit {0})
  copy_native fails a none s = (s, ok tt)
  copy_native fails a (some r) s = elim (s.resources r) [
    | none ↦ (s, undefined)
    | some v ↦ if fails then (s, throw (bad_status bad_out_of_memory)) else (
      record s {
        wrappers = put s.wrappers a (some (some s.next_resource));
        resources = put s.resources s.next_resource (some v);
        next_resource = suc s.next_resource;
      },
      ok tt,
    )
  ]

  -- `native() = Handler::move(…)`: std::exchange(native, {}).
  unfoldable pub move_native : ℕ → ℕ → Option ℕ → Store V → Store V
  move_native a b native s = record s {
    wrappers = put (put s.wrappers b (some none)) a (some native);
  }

-- What a program does with its objects, by address. `fails`: whether the C library fails to copy.
pub data Operation : Type 0 where
  default_construct destroy : ℕ → Operation
  copy_construct copy_assign : Bool → ℕ → ℕ → Operation
  move_construct move_assign swap : ℕ → ℕ → Operation

module _ ⦃c : StatusCodes⦄ {V : Type 0} where
  -- When the copy in a constructor throws, the destructor of the base WrapperDestructorMixin, which is
  -- constructed already, clears the native value, which is not initialised.
  abbrev pub constructed : ℕ → Store V × Outcome (Unit {0}) → Store V × Outcome (Unit {0})
  constructed a (s, ok _) = (s, ok tt)
  constructed a (s, throw e) = (record s { wrappers = put s.wrappers a none }, undefined)
  constructed a (s, undefined) = (s, undefined)

  abbrev pub returned :
      Store V
      → Outcome (Store V)
      → (Store V → Store V × Outcome (Unit {0}))
      → Store V × Outcome (Unit {0})
  returned before (ok s) next = next s
  returned before (throw e) next = (before, throw e)
  returned before undefined next = (before, undefined)

  -- An operation on two objects, with their native values.
  unfoldable pub on_two : Operation → Option ℕ → Option ℕ → Store V → Store V × Outcome (Unit {0})
  unfolding clear copy_native move_native
  on_two (copy_assign fails a b) native other s =
      if a == b then (s, ok tt) else returned s (clear a s) (copy_native fails a other)
  on_two (move_assign a b) native other s =
      if a == b
      then (s, ok tt)
      else returned s (clear a s) (λ s'. (move_native a b other s', ok tt))
  on_two (swap a b) native other s =
      (record s { wrappers = put (put s.wrappers a (some other)) b (some native) }, ok tt)
  on_two _ native other s = (s, ok tt)

  -- None: the program has no such object, or has one already where it would construct one.
  unfoldable pub step : Operation → Store V → Option (Store V × Outcome (Unit {0}))
  unfolding on_two
  step (default_construct a) s =
      if is_alive (s.wrappers a)
      then none
      else some (record s { wrappers = put s.wrappers a (some none) }, ok tt)
  step (destroy a) s =
      if is_alive (s.wrappers a)
      then some
          (returned s (clear a s) (λ s'. (record s' { wrappers = put s'.wrappers a none }, ok tt)))
      else none
  step (copy_construct fails a b) s =
      if is_alive (s.wrappers a) then none else elim (s.wrappers b) [
        | none ↦ none
        | some native ↦ some (
            constructed a
              (copy_native fails a native (record s { wrappers = put s.wrappers a (some none) })))
      ]
  step (move_construct a b) s = if is_alive (s.wrappers a) then none else elim (s.wrappers b) [
    | none ↦ none
    | some native ↦ some (move_native a b native s, ok tt)
  ]
  step (copy_assign fails a b) s = elim (s.wrappers a) [
    | none ↦ none
    | some native ↦ elim (s.wrappers b) [
      | none ↦ none
      | some other ↦ some (on_two (copy_assign fails a b) native other s)
    ]
  ]
  step (move_assign a b) s = elim (s.wrappers a) [
    | none ↦ none
    | some native ↦ elim (s.wrappers b) [
      | none ↦ none
      | some other ↦ some (on_two (move_assign a b) native other s)
    ]
  ]
  step (swap a b) s = elim (s.wrappers a) [
    | none ↦ none
    | some native ↦ elim (s.wrappers b) [
      | none ↦ none
      | some other ↦ some (on_two (swap a b) native other s)
    ]
  ]

  abbrev pub cons :
      Outcome (Unit {0})
      → Option (Store V × List (Outcome (Unit {0})))
      → Option (Store V × List (Outcome (Unit {0})))
  cons o none = none
  cons o (some (end, os)) = some (end, o ∷ os)

  -- What is done after an operation, if its behaviour was defined.
  abbrev pub continue_with :
      (Store V → Option (Store V × List (Outcome (Unit {0}))))
      → Store V × Outcome (Unit {0})
      → Option (Store V × List (Outcome (Unit {0})))
  continue_with rest (s, undefined) = some (s, undefined ∷ [])
  continue_with rest (s, o) = cons o (rest s)

  -- A program, with what each operation returns or throws, the first one first, up to one whose
  -- behaviour is undefined.
  unfoldable pub run : List Operation → Store V → Option (Store V × List (Outcome (Unit {0})))
  unfolding step
  run [] s = some (s, [])
  run (operation ∷ operations) s = elim (step operation s) [
    | none ↦ none
    | some result ↦ continue_with (run operations) result
  ]

  abbrev pub no_objects : Store V
  no_objects = record { wrappers = λ a. none; resources = λ r. none; next_resource = 0 }
