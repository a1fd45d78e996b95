-- ===== src/Tests/Objects.antt =====
-- Examples of objects that own resources.
use open62541pp.Prelude.{
  ℕ, ◌≡◌, refl, ◌==◌, if◌then◌else◌, arith, true, false, none, some, List, [], ◌∷◌,
}
use open62541pp.Outcome.{Outcome, ok, throw, undefined, bad_status}
use open62541pp.Status.{bad_out_of_memory}
use open62541pp.Tests.Codes.{codes}
use open62541pp.Wrappers.{
  Store, put, Operation, destroy, copy_construct, copy_assign, move_construct, move_assign, swap,
  run,
}
use open62541pp.Wrappers.Owned.{IsOwned}
use open62541pp.Wrappers.Steps.{AreDefined, run-IsOwned}

-- The object at 1 owns the resource 0.
abbrev one_object : Store ℕ
one_object = record {
  wrappers = λ a. if a == 1 then some (some 0) else none;
  resources = λ r. if r == 0 then some 7 else none;
  next_resource = 1;
}

one_object-IsOwned : IsOwned one_object
one_object-IsOwned = record {
  alive = λ a r h. (7, ground (arith, h));
  unique = λ a b r h k. ground (arith, h, k);
  owner = λ r v h. (1, ground (arith, h));
  fresh = λ r le. ground (arith, le);
}

-- The second copy fails.
abbrev operations : List Operation
operations =
    copy_construct false 2 1
    ∷ move_assign 1 2
    ∷ copy_assign true 2 1
    ∷ copy_assign false 1 1
    ∷ swap 1 2
    ∷ move_construct 3 2
    ∷ destroy 3
    ∷ []

abbrev outcomes : List (Outcome (Unit {0}))
outcomes = ok tt ∷ ok tt ∷ throw (bad_status bad_out_of_memory) ∷ ok tt ∷ ok tt ∷ ok tt ∷ ok tt ∷ []

abbrev end : Store ℕ
unfolding run
end = elim (run operations one_object) [ none ↦ one_object | some (s, os) ↦ s ]

operations-end : run operations one_object ≡ some (end, outcomes)
unfolding run
operations-end = refl

run-IsOwned_example : IsOwned end × AreDefined operations outcomes
run-IsOwned_example =
    run-IsOwned operations one_object end outcomes one_object-IsOwned operations-end

-- The resource of the moved object is gone with it.
gone : end.resources 1 ≡ none
unfolding run end
gone = refl

-- A copy constructor that throws clears a native value that is not initialised.
failing_construction :
    run (copy_construct true 2 1 ∷ destroy 1 ∷ []) one_object
    ≡ some (
      record one_object { wrappers = put (put one_object.wrappers 2 (some none)) 2 none },
      undefined ∷ [],
    )
unfolding run
failing_construction = refl
