-- ===== src/NodeContexts/History.antt =====
-- Histories of a server's nodes: any operations on their contexts, in any order.
use open62541pp.Prelude.{ℕ, ◌≡◌, sym, ◌∙◌, none, some, List, [], ◌∷◌}
use open62541pp.Map.{find}
use open62541pp.Map.Order.{Ord}
use open62541pp.Status.{StatusCodes}
use open62541pp.Outcome.{ok}
use open62541pp.NodeContexts.{
  UniqueOrRawPtr, ValueCallbackBase, DataSourceBase, MethodCallback, NodeContext, Contexts,
  NodeStore, get,
}
use open62541pp.NodeContexts.Operations.{
  is_null_ptr, set_variable_node_value_callback, set_variable_node_value_backend, add_method,
  set_method_callback,
}
use open62541pp.NodeContexts.Entry.{load, load-ok}
use open62541pp.NodeContexts.Keys.{none-ne-some}
use open62541pp.NodeContexts.Step.{
  IsNodeStore, IsSound, set_plugin-IsSound, add_method-IsSound, set_method_callback-IsSound,
}

-- A call of one of the four operations.
pub data Operation (K S R V : Type 0) : Type 0 where
  value_callback : K → UniqueOrRawPtr (ValueCallbackBase K S R V) → Operation K S R V
  value_backend : K → UniqueOrRawPtr (DataSourceBase K S R V) → Operation K S R V
  new_method : K → MethodCallback K S V → Operation K S R V
  method_changed : K → MethodCallback K S V → Operation K S R V

module _ {K N : Type 0} ⦃o : Ord K⦄ ⦃c : StatusCodes⦄ (native : NodeStore K N)
    {S R V : Type 0} where
  -- The state after a call, whether it returns or throws.
  unfoldable pub after : Operation K S R V → N × Contexts K S R V → N × Contexts K S R V
  after (value_callback id callback) state =
      (set_variable_node_value_callback native id callback state).0
  after (value_backend id source) state = (set_variable_node_value_backend native id source state).0
  after (new_method id callback) state = (add_method native id callback state).0
  after (method_changed id callback) state = (set_method_callback native id callback state).0

  unfoldable pub after_all : List (Operation K S R V) → N × Contexts K S R V → N × Contexts K S R V
  unfolding after
  after_all [] state = state
  after_all (x ∷ xs) state = after_all xs (after x state)

-- No context yet.
abbrev pub initial : {K S R V : Type 0} → Contexts K S R V
initial = record { node_contexts = []; heap = λ a. none; next = 0 }

module _ {K N : Type 0} ⦃o : Ord K⦄ ⦃c : StatusCodes⦄ (native : NodeStore K N)
    (laws : IsNodeStore native) {S R V : Type 0} where
  after-IsSound :
      (x : Operation K S R V) (state : N × Contexts K S R V)
      → IsSound native laws state
      → IsSound native laws (after native x state)
  unfolding after set_variable_node_value_callback set_variable_node_value_backend
  after-IsSound (value_callback id callback) (n, s) sound =
      set_plugin-IsSound native laws (is_null_ptr (get callback))
        (λ x. record x { value_callback = callback }) (native.set_value_callback id) id n s
        (laws.value_callback_set id) sound
  after-IsSound (value_backend id source) (n, s) sound =
      set_plugin-IsSound native laws (is_null_ptr (get source))
        (λ x. record x { data_source = source }) (native.set_data_source id) id n s
        (laws.data_source_set id) sound
  after-IsSound (new_method id callback) (n, s) sound =
      add_method-IsSound native laws id callback n s sound
  after-IsSound (method_changed id callback) (n, s) sound =
      set_method_callback-IsSound native laws id callback n s sound

  after_all-IsSound :
      (xs : List (Operation K S R V)) (state : N × Contexts K S R V)
      → IsSound native laws state
      → IsSound native laws (after_all native xs state)
  unfolding after_all
  after_all-IsSound [] state sound = sound
  after_all-IsSound (x ∷ xs) state sound =
      after_all-IsSound xs (after native x state) (after-IsSound x state sound)

  pub initial-IsSound :
      (n : N)
      → ((q : K) → native.context_of q n ≡ none)
      → IsSound native laws (n, initial {K = K} {S = S} {R = R} {V = V})
  unfolding find
  initial-IsSound n unset = (
    record {
      sorted = tt;
      below = λ q a h. absurd (none-ne-some h);
      alive = λ q a h. absurd (none-ne-some h);
      one_key = λ q r a h k. absurd (none-ne-some h);
    },
    λ q a h. absurd (none-ne-some (sym (unset q) ∙ h)),
  )

  -- A server starts with nodes without contexts, and any operations on contexts follow, of which
  -- each may return or throw: if a node then has a context pointer, the pointer is the address
  -- that the context map has under the node's id, and points to a context that is alive.
  pub after_all-load :
      (xs : List (Operation K S R V)) (n : N) (q : K) (a : ℕ)
      → ((r : K) → native.context_of r n ≡ none)
      → native.context_of q (after_all native xs (n, initial)).0 ≡ some a
      → (find q (after_all native xs (n, initial)).1.node_contexts ≡ some a)
        × (x : NodeContext K S R V) × (load (some a) (after_all native xs (n, initial)).1 ≡ ok x)
  after_all-load xs n q a unset pointer =
      let (owned, pointers) = after_all-IsSound xs (n, initial) (initial-IsSound n unset) in
      let found = pointers q a pointer in
      let (x, there) = owned.alive q a found in (found, x, load-ok a _ x there)
