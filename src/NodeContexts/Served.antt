-- ===== src/NodeContexts/Served.antt =====
-- A callback that was set for a node is the one that the C library's calls reach.
use mathlib.Core.Option
use open62541pp.Prelude.{
  ℕ, ◌==◌, ◌≡◌, ◌≢◌, refl, sym, ap, ◌∙◌, Bool, true, false, List, Option, none, some, inl, inr,
  Bool-cases, ==_iff, arith,
}
use open62541pp.Map.{find}
use open62541pp.Map.Order.{Ord, same}
use open62541pp.Status.{StatusCodes, is_bad}
use open62541pp.Outcome.{Exn, ok, throw, undefined, throw_if_bad_cases}
use open62541pp.Outcome.Catcher.{Catcher, Adapter, adapter_invoke}
use open62541pp.NodeContexts.{
  UniqueOrRawPtr, Args, ValueCallbackBase, NodeContext, Contexts, NodeStore, empty_context, update,
  get, obtain_at, obtain, modify,
}
use open62541pp.NodeContexts.Operations.{is_null_ptr, set_plugin, set_variable_node_value_callback}
use open62541pp.NodeContexts.Entry.{
  load-ok, get_session, invoke_value_callback, on_read_native, on_write_native,
}
use open62541pp.NodeContexts.Keys.{same_refl}
use open62541pp.NodeContexts.Owned.{IsOwned}
use open62541pp.NodeContexts.Step.{IsNodeStore, IsSound}

false-ne-true : false ≢ true
false-ne-true h = cc

undefined-ne-ok {ℓ} : {A : Type ℓ} {a : A} → undefined ≢ ok a
undefined-ne-ok h = cc

throw-ne-ok {ℓ} : {A : Type ℓ} {e : Exn} {a : A} → throw e ≢ ok a
throw-ne-ok h = cc

module _ {K S R V : Type 0} ⦃o : Ord K⦄ where
  -- What is at the address that `nodeContexts[id]` gives: what was there, or an empty context.
  abbrev pub IsAt : Contexts K S R V → Option ℕ → NodeContext K S R V → Type 0
  IsAt s none x = x ≡ empty_context
  IsAt s (some a) x = s.heap a ≡ some x

  obtain_at-heap :
      (id : K) (s : Contexts K S R V) (x : Option ℕ)
      → IsOwned s
      → find id s.node_contexts ≡ x
      → (y : NodeContext K S R V) × ((obtain_at id s x).1.heap (obtain_at id s x).0 ≡ some y)
        × IsAt s x y
        × ((q : K) (b : ℕ)
            → same id q ≡ false
            → find q s.node_contexts ≡ some b
            → ((obtain_at id s x).1.heap b ≡ s.heap b) × (((obtain_at id s x).0 == b) ≡ false))
  unfolding obtain_at
  obtain_at-heap id s none owned h =
      (empty_context, ground arith, refl, λ q b other found. ground (arith, owned.below q b found))
  obtain_at-heap id s (some a) owned h =
      let (y, there) = owned.alive id a h in
      (
        y,
        there,
        there,
        λ q b other found. (
          refl,
          elim (Bool-cases (a == b)) [
            | inl e ↦ absurd (
                false-ne-true
                  (sym other ∙ owned.one_key id q b (h ∙ ap some ((==_iff a b).0 e)) found))
            | inr e ↦ e
          ],
        ),
      )

update_here {ℓ} : {A : Type ℓ} (heap : ℕ → Option A) (a : ℕ) (x : Option A) → update heap a x a ≡ x
update_here heap a x = ground arith

update_apart {ℓ} :
    {A : Type ℓ} (heap : ℕ → Option A) (a : ℕ) (x : Option A) (b : ℕ)
    → (a == b) ≡ false
    → update heap a x b ≡ heap b
update_apart heap a x b h = rw h refl

module _ {K N : Type 0} ⦃o : Ord K⦄ ⦃c : StatusCodes⦄ (native : NodeStore K N)
    (laws : IsNodeStore native) {S R V : Type 0} where
  -- The state behind a call that returned.
  set_plugin_returned :
      (is_null : Bool) (assign : NodeContext K S R V → NodeContext K S R V) (set_native : N → ℕ × N)
      (id : K) (n : N) (s : Contexts K S R V)
      → (set_plugin native is_null assign set_native id (n, s)).1 ≡ ok tt
      → (is_bad (native.set_node_context id (obtain id s).0 n).0 ≡ false)
        × ((set_plugin native is_null assign set_native id (n, s)).0 ≡ (
          (set_native (native.set_node_context id (obtain id s).0 n).1).1,
          modify assign (obtain id s).0 (obtain id s).1,
        ))
  unfolding set_plugin
  set_plugin_returned is_null assign set_native id n s done =
      elim (throw_if_bad_cases (native.set_node_context id (obtain id s).0 n).0) [
        | inl (bad, e, thrown, _) ↦ absurd (throw-ne-ok (rw (thrown, set_plugin) at done))
        | inr (fine, returned) ↦ elim (Bool-cases is_null) [
          | inl null ↦ absurd (undefined-ne-ok (rw (returned, null, set_plugin) at done))
          | inr there ↦ (fine, rw (returned, there, set_plugin) refl)
        ]
      ]

  -- A plugin is set in the context of a node: the node's pointer is the address of the context,
  -- and all else, in this context and in the others, is as before.
  set_plugin-installed :
      (is_null : Bool) (assign : NodeContext K S R V → NodeContext K S R V) (set_native : N → ℕ × N)
      (id : K) (n : N) (s : Contexts K S R V)
      → ((m : N) (q : K) → native.context_of q (set_native m).1 ≡ native.context_of q m)
      → IsSound native laws (n, s)
      → (set_plugin native is_null assign set_native id (n, s)).1 ≡ ok tt
      → let state' = (set_plugin native is_null assign set_native id (n, s)).0 in
        (a : ℕ) × (x : NodeContext K S R V) × (native.context_of id state'.0 ≡ some a)
        × (state'.1.heap a ≡ some (assign x))
        × IsAt s (find id s.node_contexts) x
        × ((q : K) (b : ℕ)
            → same id q ≡ false
            → native.context_of q n ≡ some b
            → (native.context_of q state'.0 ≡ some b) × (state'.1.heap b ≡ s.heap b))
  unfolding obtain modify
  set_plugin-installed is_null assign set_native id n s quiet (owned, pointers) done =
      let (fine, e) = set_plugin_returned is_null assign set_native id n s done in
      let a = (obtain id s).0 in
      let (x, there, before, others) = obtain_at-heap id s (find id s.node_contexts) owned refl in
      let m = (native.set_node_context id a n).1 in
      (
        a,
        x,
        ap (λ r. native.context_of id r.0) e
            ∙ quiet m id
            ∙ laws.set id a n id fine
            ∙ rw (same_refl id) refl,
        ap (λ r. r.1.heap a) e
            ∙ update_here (obtain id s).1.heap a _
            ∙ ap (Option.map assign) there,
        before,
        λ q b other pointer.
            let (same_heap, apart) = others q b other (pointers q b pointer) in
            (
              ap (λ r. native.context_of q r.0) e
                  ∙ quiet m q
                  ∙ laws.set id a n q fine
                  ∙ rw other pointer,
              ap (λ r. r.1.heap b) e ∙ update_apart (obtain id s).1.heap a _ b apart ∙ same_heap,
            ),
      )

  -- The pointer, the context map and the contexts are in step, and setVariableNodeValueCallback
  -- returns for a callback `v`. Then the node has a context pointer, with which each read and each
  -- write that the C library reports for a session, with a C++ server, calls the function of `v`
  -- once with the arguments of the report, an exception of it going to the catcher; a data source
  -- and a method callback that the node's context had are still there; and the pointers and the
  -- contexts of all other nodes are as before.
  pub set_variable_node_value_callback-serves :
      (id : K) (callback : UniqueOrRawPtr (ValueCallbackBase K S R V))
      (v : ValueCallbackBase K S R V) (n : N) (s : Contexts K S R V)
      → get callback ≡ some v
      → IsSound native laws (n, s)
      → (set_variable_node_value_callback native id callback (n, s)).1 ≡ ok tt
      → let state' = (set_variable_node_value_callback native id callback (n, s)).0 in
        (a : ℕ) × (x : NodeContext K S R V) × (native.context_of id state'.0 ≡ some a)
        × ((session : S) (range : Option R) (value : V) (calls : List (Args K S R V)) (k : Catcher)
            → let args : Args K S R V = record {
              session = session;
              node_id = id;
              range = range;
              value = value;
            } in
              let seen : Adapter (Args K S R V) = record { catcher = some k; calls = calls } in
              (on_read_native (some session) id (some a) range value state'.1 seen
                ≡ ok (adapter_invoke (some v.on_read) args seen))
              × (on_write_native (some session) id (some a) range value state'.1 seen
                  ≡ ok (adapter_invoke (some v.on_write) args seen)))
        × IsAt s (find id s.node_contexts) x
        × (state'.1.heap a ≡ some (record x { value_callback = callback }))
        × ((q : K) (b : ℕ)
            → same id q ≡ false
            → native.context_of q n ≡ some b
            → (native.context_of q state'.0 ≡ some b) × (state'.1.heap b ≡ s.heap b))
  unfolding set_variable_node_value_callback on_read_native on_write_native invoke_value_callback
      get_session
  set_variable_node_value_callback-serves id callback v n s given sound done =
      let (a, x, pointer, there, before, others) =
        set_plugin-installed (is_null_ptr (get callback))
          (λ x. record x { value_callback = callback }) (native.set_value_callback id) id n s
          (laws.value_callback_set id) sound done in
      let loaded =
        load-ok a (set_variable_node_value_callback native id callback (n, s)).0.1
          (record x { value_callback = callback }) there in
      (
        a,
        x,
        pointer,
        λ session range value calls k. (
          rw (loaded, on_read_native) (rw given refl),
          rw (loaded, on_write_native) (rw given refl),
        ),
        before,
        there,
        others,
      )
