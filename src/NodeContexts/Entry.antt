-- ===== src/NodeContexts/Entry.antt =====
-- The functions that the C library calls for a node: src/plugin/nodestore.cpp, and methodCallback of
-- src/services_nodemanagement.cpp. `pointer` is the node's context pointer, and may be null.
use open62541pp.Prelude.{ℕ, ◌≡◌, refl, Bool, true, false, Option, none, some, List}
use open62541pp.Status.{StatusCodes, good, bad_internal_error}
use open62541pp.Outcome.{Outcome, ok, throw, undefined, bad_status, try_invoke, ◌>>=◌, ◌>>◌}
use open62541pp.Outcome.Catcher.{Callback, Adapter, adapter_invoke}
use open62541pp.NodeContexts.{
  Args, ValueCallbackBase, DataSourceBase, MethodCallback, simple, full, NodeContext, Contexts, get,
}

-- The two members of UA_ValueCallback and of UA_DataSource, and the exception of `create`.
unfoldable pub create : ⦃c : StatusCodes⦄ → Bool → Outcome (Unit {0})
create true = throw (bad_status bad_internal_error)
create false = ok tt

-- getSession: there is a session if the native server has a C++ server and the id is not null.
unfoldable pub get_session {ℓ} : {S : Type ℓ} → Bool → Option S → Option S
get_session false session = none
get_session true session = session

module _ {K S V : Type 0} ⦃c : StatusCodes⦄ where
  -- The full signature asserts that there are a C++ server, a session and both ids.
  unfoldable pub call_method :
      MethodCallback K S V → Option S → K → K → List V → List V → Outcome (ℕ × List V)
  unfolding try_invoke
  call_method (simple (some callback)) session method_id object_id input output =
      let (result, output') = callback input output in
      try_invoke (result >> ok good) >>= λ code. ok (code, output')
  call_method (simple none) session method_id object_id input output =
      ok (bad_internal_error, output)
  call_method (full none) session method_id object_id input output = ok (bad_internal_error, output)
  call_method (full (some callback)) none method_id object_id input output = undefined
  call_method (full (some callback)) (some session) method_id object_id input output =
      let (result, output') = callback session method_id object_id input output in
      try_invoke result >>= λ code. ok (code, output')

module _ {K S R V : Type 0} where
  -- `static_cast<NodeContext*>(nodeContext)`; a null or dangling pointer is undefined.
  unfoldable pub load : Option ℕ → Contexts K S R V → Outcome (NodeContext K S R V)
  load none s = undefined
  load (some a) s = elim (s.heap a) [ none ↦ undefined | some context ↦ ok context ]

  pub load-ok :
      (a : ℕ) (s : Contexts K S R V) (x : NodeContext K S R V)
      → s.heap a ≡ some x
      → load (some a) s ≡ ok x
  unfolding load
  load-ok a s x h = rw (h, load) refl

  -- What onReadNative and onWriteNative share; the catcher is null without a C++ server.
  unfoldable pub invoke_value_callback :
      (ValueCallbackBase K S R V → Callback (Args K S R V))
      → Option (ValueCallbackBase K S R V)
      → Option S
      → K
      → Option R
      → V
      → Adapter (Args K S R V)
      → Adapter (Args K S R V)
  unfolding adapter_invoke
  invoke_value_callback select (some callback) (some session) id range value a = elim a.catcher [
    | none ↦ a
    | some _ ↦
        adapter_invoke (some (select callback))
          (record { session = session; node_id = id; range = range; value = value }) a
  ]
  invoke_value_callback select _ _ id range value a = a

  abbrev pub has_catcher : Adapter (Args K S R V) → Bool
  has_catcher a = elim a.catcher [ none ↦ false | some _ ↦ true ]

  unfoldable pub on_read_native :
      Option S
      → K
      → Option ℕ
      → Option R
      → V
      → Contexts K S R V
      → Adapter (Args K S R V)
      → Outcome (Adapter (Args K S R V))
  unfolding load invoke_value_callback get_session get
  on_read_native session id pointer range value s a = load pointer s >>= λ context. ok (
      invoke_value_callback (λ v. v.on_read) (get context.value_callback)
        (get_session (has_catcher a) session) id range value a)

  unfoldable pub on_write_native :
      Option S
      → K
      → Option ℕ
      → Option R
      → V
      → Contexts K S R V
      → Adapter (Args K S R V)
      → Outcome (Adapter (Args K S R V))
  unfolding load invoke_value_callback get_session get
  on_write_native session id pointer range value s a = load pointer s >>= λ context. ok (
      invoke_value_callback (λ v. v.on_write) (get context.value_callback)
        (get_session (has_catcher a) session) id range value a)

  module _ ⦃c : StatusCodes⦄ where
    unfoldable pub invoke_read :
        Option (DataSourceBase K S R V) → Option S → K → Bool → Option R → V → Outcome (ℕ × V)
    unfolding try_invoke
    invoke_read (some source) (some session) id timestamp range value =
        let (status, value') =
          source.read (record { session = session; node_id = id; range = range; value = value })
            timestamp in
        try_invoke status >>= λ code. ok (code, value')
    invoke_read _ _ id timestamp range value = ok (bad_internal_error, value)

    -- The status and the value that the C library gets; `has_wrapper`: whether there is a C++ server.
    unfoldable pub read_native :
        Bool → Option S → K → Option ℕ → Bool → Option R → V → Contexts K S R V → Outcome (ℕ × V)
    unfolding load invoke_read get_session get
    read_native has_wrapper session id pointer timestamp range value s =
        load pointer s >>= λ context.
        invoke_read (get context.data_source) (get_session has_wrapper session) id timestamp range
          value

    unfoldable pub invoke_write :
        Option (DataSourceBase K S R V) → Option S → K → Option R → V → Outcome ℕ
    unfolding try_invoke
    invoke_write (some source) (some session) id range value =
        try_invoke
          (source.write (record { session = session; node_id = id; range = range; value = value }))
    invoke_write _ _ id range value = ok bad_internal_error

    unfoldable pub write_native :
        Bool → Option S → K → Option ℕ → Option R → V → Contexts K S R V → Outcome ℕ
    unfolding load invoke_write get_session get
    write_native has_wrapper session id pointer range value s = load pointer s >>= λ context.
        invoke_write (get context.data_source) (get_session has_wrapper session) id range value

    unfoldable pub method_callback :
        Option S → K → K → Option ℕ → List V → List V → Contexts K S R V → Outcome (ℕ × List V)
    unfolding load call_method
    method_callback session method_id object_id pointer input output s =
        load pointer s >>= λ context.
        call_method context.method_callback session method_id object_id input output
