-- ===== src/NodeContexts/Operations.antt =====
-- The operations that put callbacks into the contexts of nodes: setVariableNodeValueCallback and
-- setVariableNodeValueBackend of src/server.cpp, and addMethod<Server> and
-- setMethodCallback<Server> of src/services_nodemanagement.cpp.
use open62541pp.Prelude.{ℕ, Bool, true, false, if◌then◌else◌, Option, none, some}
use open62541pp.Map.Order.{Ord}
use open62541pp.Status.{StatusCodes, good}
use open62541pp.Outcome.{Outcome, ok, throw, undefined, throw_if_bad, get_status_code, ◌>>=◌}
use open62541pp.Result.{Result, from_value, from_bad}
use open62541pp.NodeContexts.{
  UniqueOrRawPtr, get, ValueCallbackBase, DataSourceBase, MethodCallback, NodeContext, Contexts,
  NodeStore, obtain, modify, insert_owned, make_context, delete_context,
}

-- detail::tryInvoke, of a call that returns a value: its Result.
unfoldable pub invoke_result {ℓ} : ⦃c : StatusCodes⦄ → {A : Type ℓ} → Outcome A → Outcome (Result A)
unfolding from_value from_bad get_status_code
invoke_result (ok value) = ok (from_value value good)
invoke_result (throw e) = ok (from_bad (record { code = get_status_code (some e) }))
invoke_result undefined = undefined

abbrev pub is_null_ptr {ℓ} : {T : Type ℓ} → Option T → Bool
is_null_ptr none = true
is_null_ptr (some _) = false

module _ {K S R V : Type 0} ⦃o : Ord K⦄ where
  module _ {N : Type 0} ⦃c : StatusCodes⦄ (native : NodeStore K N) where
    -- What setVariableNodeValueCallbackImpl and setVariableNodeValueBackend share: the pointer is
    -- moved into the context, the context is set, and `create` is called through the pointer.
    unfoldable pub set_plugin :
        Bool
        → (NodeContext K S R V → NodeContext K S R V)
        → (N → ℕ × N)
        → K
        → N × Contexts K S R V
        → (N × Contexts K S R V) × Outcome (Unit {0})
    unfolding obtain modify
    set_plugin is_null assign set_native id (nodes, s) =
        let (a, s1) = obtain id s in
        let s2 = modify assign a s1 in
        let (status, nodes1) = native.set_node_context id a nodes in
        elim (throw_if_bad status) [
          | throw e ↦ ((nodes1, s2), throw e)
          | undefined ↦ ((nodes1, s2), undefined)
          | ok _ ↦
              if is_null
              then ((nodes1, s2), undefined)
              else let (status', nodes2) = set_native nodes1 in ((nodes2, s2), throw_if_bad status')
        ]

    unfoldable pub set_variable_node_value_callback :
        K
        → UniqueOrRawPtr (ValueCallbackBase K S R V)
        → N × Contexts K S R V
        → (N × Contexts K S R V) × Outcome (Unit {0})
    unfolding set_plugin get
    set_variable_node_value_callback id callback =
        set_plugin (is_null_ptr (get callback)) (λ x. record x { value_callback = callback })
          (native.set_value_callback id) id

    unfoldable pub set_variable_node_value_backend :
        K
        → UniqueOrRawPtr (DataSourceBase K S R V)
        → N × Contexts K S R V
        → (N × Contexts K S R V) × Outcome (Unit {0})
    unfolding set_plugin get
    set_variable_node_value_backend id source =
        set_plugin (is_null_ptr (get source)) (λ x. record x { data_source = source })
          (native.set_data_source id) id

    -- The lambda of addMethod<Server>.
    unfoldable pub try_add_method :
        K → MethodCallback K S V → N × Contexts K S R V → (N × Contexts K S R V) × Outcome K
    unfolding make_context delete_context insert_owned
    try_add_method id callback (nodes, s) =
        let s1 = make_context callback s in
        let (status, added, nodes1) = native.add_method_node id s.next nodes in
        elim (throw_if_bad status) [
          | throw e ↦ ((nodes1, delete_context s.next s1), throw e)
          | undefined ↦ ((nodes1, s1), undefined)
          | ok _ ↦ ((nodes1, insert_owned added s.next s1), ok added)
        ]

    unfoldable pub add_method :
        K
        → MethodCallback K S V
        → N × Contexts K S R V
        → (N × Contexts K S R V) × Outcome (Result K)
    unfolding try_add_method invoke_result
    add_method id callback state =
        let (state', result) = try_add_method id callback state in (state', invoke_result result)

    -- The lambda of setMethodCallback<Server>.
    unfoldable pub try_set_method_callback :
        K
        → MethodCallback K S V
        → N × Contexts K S R V
        → (N × Contexts K S R V) × Outcome (Unit {0})
    unfolding make_context delete_context insert_owned
    try_set_method_callback id callback (nodes, s) =
        let s1 = make_context callback s in
        let (status, nodes1) = native.set_method_callback id nodes in
        elim (throw_if_bad status) [
          | throw e ↦ ((nodes1, delete_context s.next s1), throw e)
          | undefined ↦ ((nodes1, s1), undefined)
          | ok _ ↦
              let (status', nodes2) = native.set_node_context id s.next nodes1 in
              elim (throw_if_bad status') [
                | throw e ↦ ((nodes2, delete_context s.next s1), throw e)
                | undefined ↦ ((nodes2, s1), undefined)
                | ok _ ↦ ((nodes2, insert_owned id s.next s1), ok tt)
              ]
        ]

    unfoldable pub set_method_callback :
        K → MethodCallback K S V → N × Contexts K S R V → (N × Contexts K S R V) × Outcome ℕ
    unfolding try_set_method_callback invoke_result
    set_method_callback id callback state =
        let (state', result) = try_set_method_callback id callback state in
        (state', invoke_result result >>= λ r. ok r.code)
