-- ===== src/Outcome/Catcher.antt =====
-- Callbacks of the user and what they throw: ExceptionCatcher of
-- include/open62541pp/detail/exceptioncatcher.hpp and CallbackAdapter of
-- include/open62541pp/services/detail/callbackadapter.hpp.
use open62541pp.Prelude.{◌≡◌, refl, Bool, true, false, Option, none, some, List, [], ◌∷◌, arith}
use open62541pp.Outcome.{Exn, Outcome, ok, throw}

-- User code, called with arguments `A`: it returns, or throws.
abbrev pub Callback {ℓ} : Type ℓ → Type ℓ
Callback A = A → Option Exn

pub record Catcher : Type 0 where
  pub exception : Option Exn

abbrev pub no_exception : Catcher
no_exception = record { exception = none }

unfoldable pub set_exception : Exn → Catcher → Catcher
set_exception e c = record c { exception = some e }

unfoldable pub has_exception : Catcher → Bool
has_exception c = elim c.exception [ none ↦ false | some _ ↦ true ]

-- `std::exchange(exception_, nullptr)`: the state after it, and what the call throws.
unfoldable pub rethrow : Catcher → Catcher × Outcome (Unit {0})
rethrow c = elim c.exception [ none ↦ (c, ok tt) | some e ↦ (no_exception, throw e) ]

unfoldable pub invoke {ℓ} : {A : Type ℓ} → Callback A → A → Catcher → Catcher
unfolding set_exception
invoke callback args c = elim (callback args) [ none ↦ c | some e ↦ set_exception e c ]

-- What the user has seen of an adapter: its catcher, if it has one, and the calls so far, the
-- latest first.
pub record Adapter {ℓ} (A : Type ℓ) : Type ℓ where
  pub catcher : Option Catcher
  pub calls : List A

-- CallbackAdapter::invoke: an empty std::function is not called; without a catcher the
-- exception is dropped.
unfoldable pub adapter_invoke {ℓ} : {A : Type ℓ} → Option (Callback A) → A → Adapter A → Adapter A
unfolding invoke
adapter_invoke none args a = a
adapter_invoke (some callback) args a = elim a.catcher [
  | none ↦ record a { calls = args ∷ a.calls }
  | some c ↦ record { catcher = some (invoke callback args c); calls = args ∷ a.calls }
]

-- A series of callbacks between two calls of `rethrow`, in order.
unfoldable pub invoke_all {ℓ} : {A : Type ℓ} → Callback A → List A → Catcher → Catcher
invoke_all callback [] c = c
invoke_all callback (x ∷ xs) c = invoke_all callback xs (invoke callback x c)

-- The exception of the last of the callbacks that throws.
unfoldable pub last_exception {ℓ} : {A : Type ℓ} → Callback A → List A → Option Exn → Option Exn
last_exception callback [] before = before
last_exception callback (x ∷ xs) before =
    last_exception callback xs (elim (callback x) [ none ↦ before | some e ↦ some e ])

pub invoke_all-exception {ℓ} :
    {A : Type ℓ} (callback : Callback A) (xs : List A) (c : Catcher)
    → (invoke_all callback xs c).exception ≡ last_exception callback xs c.exception
unfolding invoke_all last_exception invoke
invoke_all-exception callback [] c = refl
invoke_all-exception callback (x ∷ xs) c =
    ground (arith, invoke_all-exception callback xs (invoke callback x c))

-- After any series of callbacks `rethrow` throws the exception of the last callback that threw,
-- or the one that was pending before if none did, and returns if there is neither; the catcher
-- is empty afterwards, so a second `rethrow` returns.
pub rethrow-invoke_all {ℓ} :
    {A : Type ℓ} (callback : Callback A) (xs : List A) (c : Catcher)
    → ((rethrow (invoke_all callback xs c)).1
        ≡ elim (last_exception callback xs c.exception) [ none ↦ ok tt | some e ↦ throw e ])
      × ((rethrow (rethrow (invoke_all callback xs c)).0).1 ≡ ok tt)
      × (has_exception (rethrow (invoke_all callback xs c)).0 ≡ false)
unfolding rethrow has_exception
rethrow-invoke_all callback xs c = ground (arith, invoke_all-exception callback xs c)
