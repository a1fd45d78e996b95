-- ===== src/AccessControl/Sessions.antt =====
-- The session registry of src/server.cpp (activateSession, closeSession, applySessionRegistry and
-- Server::sessions) with its state in include/open62541pp/detail/server_context.hpp.
use open62541pp.Prelude.{
  ℕ, zero, suc, ◌≡◌, refl, ◌∙◌, ap, Bool, true, false, ◌&&◌, if◌then◌else◌, Option, none, some,
  List, [], ◌∷◌, Bool-cases, inl, inr,
}
use open62541pp.Map.{Map, find, insert, erase}
use open62541pp.Map.Order.{Ord, same}
use open62541pp.Map.Laws.{IsSorted, find-insert, find-erase, insert-IsSorted, erase-IsSorted}
use open62541pp.Status.{StatusCodes, is_good, bad_internal_error}
use open62541pp.Outcome.{Outcome, ok, undefined, ◌>>=◌}

-- A function pointer in UA_AccessControl: null, a user's, or the one of the registry.
pub data Hook {ℓ} (F : Type ℓ) : Type ℓ where
  null : Hook F
  user : F → Hook F
  registry : Hook F

-- What the user's function answers to an activation: a status, and the session's context.
abbrev pub Activate {ℓ κ} : Type ℓ → Type κ → Type (ℓ ⊔ κ)
Activate K C = Option K → ℕ × C

-- The user's closeSession returns nothing; of its calls the ids are kept.
pub record SessionRegistry {ℓ κ} (K : Type ℓ) (C : Type κ) : Type (ℓ ⊔ κ) where
  pub activate_session_user : Hook (Activate K C)
  pub close_session_user : Hook (Unit {0})
  pub closed : List (Option K)
  pub sessions : Map K C

-- The two pointers of UA_ServerConfig::accessControl.
pub record AccessControl {ℓ κ} (K : Type ℓ) (C : Type κ) : Type (ℓ ⊔ κ) where
  pub activate_session : Hook (Activate K C)
  pub close_session : Hook (Unit {0})

abbrev is_registry {ℓ} : {F : Type ℓ} → Hook F → Bool
is_registry registry = true
is_registry _ = false

module _ {ℓ κ} {K : Type ℓ} {C : Type κ} where
  unfoldable pub apply_session_registry :
      AccessControl K C × SessionRegistry K C → AccessControl K C × SessionRegistry K C
  apply_session_registry (config, context) =
      let (config', context') = if is_registry config.activate_session then (config, context) else (
        record config { activate_session = registry },
        record context { activate_session_user = config.activate_session },
      ) in
      if is_registry config'.close_session then (config', context') else (
        record config' { close_session = registry },
        record context' { close_session_user = config'.close_session },
      )

-- What reaches the two installed functions; `has_context` is whether the native server has a C++
-- server, and the session id may be null.
pub data Event {ℓ} (K : Type ℓ) : Type ℓ where
  activate : Option K → Event K
  close : Option K → Event K

abbrev installed {ℓ κ} : {K : Type ℓ} {C : Type κ} → AccessControl K C
installed = record { activate_session = registry; close_session = registry }

module _ {ℓ κ} {K : Type ℓ} ⦃o : Ord K⦄ {C : Type κ} where
  -- activateSession: the status, and the registry. Calling the registry's own function from itself
  -- never ends.
  unfoldable pub activate_session :
      ⦃c : StatusCodes⦄ → Bool → Option K → SessionRegistry K C → Outcome (ℕ × SessionRegistry K C)
  activate_session false session_id context = ok (bad_internal_error, context)
  activate_session true session_id context = elim context.activate_session_user [
    | null ↦ ok (bad_internal_error, context)
    | registry ↦ undefined
    | user f ↦
        let (status, session_context) = f session_id in
        elim session_id [
          | none ↦ ok (status, context)
          | some id ↦
              if is_good status
              then ok
                  (status, record context { sessions = insert id session_context context.sessions })
              else ok (status, context)
        ]
  ]

  unfoldable pub close_session :
      Bool → Option K → SessionRegistry K C → Outcome (SessionRegistry K C)
  close_session false session_id context = ok context
  close_session true session_id context = elim context.close_session_user [
    | null ↦ ok context
    | registry ↦ undefined
    | user _ ↦
        let context' = record context { closed = session_id ∷ context.closed } in
        elim session_id [
          | none ↦ ok context'
          | some id ↦ ok (record context' { sessions = erase id context'.sessions })
        ]
  ]

  unfoldable pub handle :
      ⦃c : StatusCodes⦄ → Event K → SessionRegistry K C → Outcome (SessionRegistry K C)
  unfolding activate_session close_session
  handle (activate id) context = activate_session true id context >>= λ r. ok r.1
  handle (close id) context = close_session true id context

  unfoldable pub handle_all :
      ⦃c : StatusCodes⦄ → List (Event K) → SessionRegistry K C → Outcome (SessionRegistry K C)
  unfolding handle
  handle_all [] context = ok context
  handle_all (e ∷ events) context = handle e context >>= handle_all events

  -- The session that one event leaves under an id.
  unfoldable pub after : Activate K C → K → Event K → Option C → Option C
  after f q (activate none) before = before
  after f q (activate (some id)) before =
      if is_good (f (some id)).0 && same id q then some (f (some id)).1 else before
  after f q (close none) before = before
  after f q (close (some id)) before = if same id q then none else before

  unfoldable pub after_all : Activate K C → K → List (Event K) → Option C → Option C
  unfolding after
  after_all f q [] before = before
  after_all f q (e ∷ events) before = after_all f q events (after f q e before)

  -- A registry that calls the user's functions.
  abbrev pub IsInstalled : Activate K C → SessionRegistry K C → Type (ℓ ⊔ κ)
  IsInstalled f context =
      (context.activate_session_user ≡ user f)
      × (context.close_session_user ≡ user tt)
      × IsSorted context.sessions

  handle-after :
      ⦃c : StatusCodes⦄
      → (f : Activate K C) (q : K) (e : Event K) (context : SessionRegistry K C)
      → IsInstalled f context
      → (context' : SessionRegistry K C) × (handle e context ≡ ok context')
        × (find q context'.sessions ≡ after f q e (find q context.sessions))
        × IsInstalled f context'
  unfolding handle activate_session close_session after
  handle-after f q (activate none) context (a, c, s) = (context, rw a refl, refl, (a, c, s))
  handle-after f q (activate (some id)) context (a, c, s) =
      elim (Bool-cases (is_good (f (some id)).0)) [
        | inr bad ↦ rw bad (context, rw (a, bad) refl, refl, (a, c, s))
        | inl good ↦ rw good (
          record context { sessions = insert id (f (some id)).1 context.sessions },
          rw (a, good) refl,
          find-insert id q (f (some id)).1 context.sessions,
          (a, c, insert-IsSorted id (f (some id)).1 context.sessions s),
        )
      ]
  handle-after f q (close none) context (a, c, s) =
      (record context { closed = none ∷ context.closed }, rw c refl, refl, (a, c, s))
  handle-after f q (close (some id)) context (a, c, s) = (
    record context { closed = some id ∷ context.closed; sessions = erase id context.sessions },
    rw c refl,
    find-erase id q context.sessions s,
    (a, c, erase-IsSorted id context.sessions s),
  )

  handle_all-after :
      ⦃c : StatusCodes⦄
      → (f : Activate K C) (q : K) (events : List (Event K)) (context : SessionRegistry K C)
      → IsInstalled f context
      → (context' : SessionRegistry K C) × (handle_all events context ≡ ok context')
        × (find q context'.sessions ≡ after_all f q events (find q context.sessions))
        × IsInstalled f context'
  unfolding handle_all after_all
  handle_all-after f q [] context installed = (context, refl, refl, installed)
  handle_all-after f q (e ∷ events) context installed =
      let (context', done, found, installed') = handle-after f q e context installed in
      let (context'', done', found', installed'') =
        handle_all-after f q events context' installed' in
      (context'', rw done done', found' ∙ ap (after_all f q events) found, installed'')

  -- applySessionRegistry may run before every start of the server.
  unfoldable pub apply_times :
      ℕ → AccessControl K C × SessionRegistry K C → AccessControl K C × SessionRegistry K C
  unfolding apply_session_registry
  apply_times zero s = s
  apply_times (suc k) s = apply_times k (apply_session_registry s)

  apply_times-installed :
      (k : ℕ) (context : SessionRegistry K C)
      → apply_times k (installed, context) ≡ (installed, context)
  unfolding apply_times apply_session_registry
  apply_times-installed zero context = refl
  apply_times-installed (suc k) context = apply_times-installed k context

  -- The registry is put before user functions `f`, any number of times over, and any events follow:
  -- every event is handled, and the registry has a session under an id if the last event that
  -- concerns the id is an activation that `f` answered with a good status, with the context that
  -- `f` gave; events with a null id, and refused activations, concern no id.
  pub sessions-after :
      ⦃c : StatusCodes⦄
      → (f : Activate K C) (q : K) (k : ℕ) (events : List (Event K)) (context : SessionRegistry K C)
      → IsSorted context.sessions
      → let context' =
          (apply_times
            (suc k)
            (record { activate_session = user f; close_session = user tt }, context)).1 in
        (context'' : SessionRegistry K C) × (handle_all events context' ≡ ok context'')
        × (find q context''.sessions ≡ after_all f q events (find q context.sessions))
  unfolding apply_times apply_session_registry
  sessions-after f q k events context sorted =
      let before = record context {
        activate_session_user = user f;
        close_session_user = user tt;
      } in
      let (context'', done, found, _) = handle_all-after f q events before (refl, refl, sorted) in
      (context'', rw (apply_times-installed k before) done, found)
