-- ===== src/NodeContexts/Step.antt =====
-- The operations on node contexts keep every context pointer of a node valid.
use open62541pp.Prelude.{ℕ, ◌≡◌, sym, ◌∙◌, Bool, true, false, some, inl, inr, Bool-cases}
use open62541pp.Map.{find}
use open62541pp.Map.Order.{Ord}
use open62541pp.Status.{StatusCodes, is_bad}
use open62541pp.Outcome.{throw_if_bad_cases}
use open62541pp.NodeContexts.{
  MethodCallback, NodeContext, Contexts, NodeStore, obtain, modify, make_context, delete_context,
}
use open62541pp.NodeContexts.Operations.{
  set_plugin, try_add_method, add_method, try_set_method_callback, set_method_callback,
}
use open62541pp.NodeContexts.Keys.{with_key, with_key_follows}
use open62541pp.NodeContexts.Owned.{
  IsOwned, obtain-IsOwned, modify-IsOwned, insert-IsOwned, delete-IsOwned,
}

-- What the C library says of these functions: a call that returns a bad status changes no context
-- pointer; the other ones set the pointer of one node, or none.
pub record IsNodeStore {K N : Type 0} ⦃o : Ord K⦄ (native : NodeStore K N) : Type 0 where
  pub refused :
      (id : K) (a : ℕ) (n : N) (q : K)
      → is_bad (native.set_node_context id a n).0 ≡ true
      → native.context_of q (native.set_node_context id a n).1 ≡ native.context_of q n
  pub set :
      (id : K) (a : ℕ) (n : N) (q : K)
      → is_bad (native.set_node_context id a n).0 ≡ false
      → native.context_of q (native.set_node_context id a n).1
        ≡ with_key id a q (native.context_of q n)
  pub value_callback_set :
      (id : K) (n : N) (q : K)
      → native.context_of q (native.set_value_callback id n).1 ≡ native.context_of q n
  pub data_source_set :
      (id : K) (n : N) (q : K)
      → native.context_of q (native.set_data_source id n).1 ≡ native.context_of q n
  pub method_callback_set :
      (id : K) (n : N) (q : K)
      → native.context_of q (native.set_method_callback id n).1 ≡ native.context_of q n
  pub not_added :
      (id : K) (a : ℕ) (n : N) (q : K)
      → is_bad (native.add_method_node id a n).0 ≡ true
      → native.context_of q (native.add_method_node id a n).2 ≡ native.context_of q n
  pub added :
      (id : K) (a : ℕ) (n : N) (q : K)
      → is_bad (native.add_method_node id a n).0 ≡ false
      → native.context_of q (native.add_method_node id a n).2
        ≡ with_key (native.add_method_node id a n).1 a q (native.context_of q n)

module _ {K N : Type 0} ⦃o : Ord K⦄ ⦃c : StatusCodes⦄ (native : NodeStore K N)
    (laws : IsNodeStore native) {S R V : Type 0} where
  -- A node's context pointer is the address that the map has under the node's id.
  abbrev pub IsSound : N × Contexts K S R V → Type 0
  IsSound (n, s) =
      IsOwned s
      × ((q : K) (a : ℕ) → native.context_of q n ≡ some a → find q s.node_contexts ≡ some a)

  -- What stands once the context of a node has been set.
  context_set :
      (assign : NodeContext K S R V → NodeContext K S R V) (id : K) (n : N) (s : Contexts K S R V)
      → is_bad (native.set_node_context id (obtain id s).0 n).0 ≡ false
      → IsSound (n, s)
      → IsSound (
        (native.set_node_context id (obtain id s).0 n).1,
        modify assign (obtain id s).0 (obtain id s).1,
      )
  unfolding modify
  context_set assign id n s fine (owned, pointers) =
      let (owned', found, _) = obtain-IsOwned id s owned in
      let a = (obtain id s).0 in
      (
        modify-IsOwned assign a (obtain id s).1 owned',
        λ q b h.
            with_key_follows id a q (native.context_of q n) (find q s.node_contexts) _ b (found q)
              (pointers q b) (sym (laws.set id a n q fine) ∙ h),
      )

  context_refused :
      (assign : NodeContext K S R V → NodeContext K S R V) (id : K) (n : N) (s : Contexts K S R V)
      → is_bad (native.set_node_context id (obtain id s).0 n).0 ≡ true
      → IsSound (n, s)
      → IsSound (
        (native.set_node_context id (obtain id s).0 n).1,
        modify assign (obtain id s).0 (obtain id s).1,
      )
  unfolding modify
  context_refused assign id n s bad (owned, pointers) =
      let (owned', _, kept) = obtain-IsOwned id s owned in
      let a = (obtain id s).0 in
      (
        modify-IsOwned assign a (obtain id s).1 owned',
        λ q b h. kept q b (pointers q b (sym (laws.refused id a n q bad) ∙ h)),
      )

  pub set_plugin-IsSound :
      (is_null : Bool) (assign : NodeContext K S R V → NodeContext K S R V) (set_native : N → ℕ × N)
      (id : K) (n : N) (s : Contexts K S R V)
      → ((m : N) (q : K) → native.context_of q (set_native m).1 ≡ native.context_of q m)
      → IsSound (n, s)
      → IsSound (set_plugin native is_null assign set_native id (n, s)).0
  unfolding set_plugin
  set_plugin-IsSound is_null assign set_native id n s quiet sound =
      let status = (native.set_node_context id (obtain id s).0 n).0 in
      elim (throw_if_bad_cases status) [
        | inl (bad, e, thrown, _) ↦
            rw (thrown, set_plugin) (context_refused assign id n s bad sound)
        | inr (fine, done) ↦
            let (owned', pointers') = context_set assign id n s fine sound in
            elim (Bool-cases is_null) [
              | inl null ↦ rw (done, null, set_plugin) (owned', pointers')
              | inr there ↦
                  rw (done, there, set_plugin)
                    (owned', λ q b h. pointers' q b (sym (quiet _ q) ∙ h))
            ]
      ]

  pub add_method-IsSound :
      (id : K) (callback : MethodCallback K S V) (n : N) (s : Contexts K S R V)
      → IsSound (n, s)
      → IsSound (add_method native id callback (n, s)).0
  unfolding add_method try_add_method delete_context make_context
  add_method-IsSound id callback n s (owned, pointers) =
      let r = native.add_method_node id s.next n in
      elim (throw_if_bad_cases r.0) [
        | inl (bad, e, thrown, _) ↦
            rw (thrown, try_add_method)
              (
                delete-IsOwned callback s owned,
                λ q b h. pointers q b (sym (laws.not_added id s.next n q bad) ∙ h),
              )
        | inr (fine, done) ↦
            let (owned', found) = insert-IsOwned r.1 callback s owned in
            rw (done, try_add_method)
              (
                owned',
                λ q b h.
                    with_key_follows r.1 s.next q (native.context_of q n) (find q s.node_contexts) _
                      b (found q) (pointers q b) (sym (laws.added id s.next n q fine) ∙ h),
              )
      ]

  pub set_method_callback-IsSound :
      (id : K) (callback : MethodCallback K S V) (n : N) (s : Contexts K S R V)
      → IsSound (n, s)
      → IsSound (set_method_callback native id callback (n, s)).0
  unfolding set_method_callback try_set_method_callback delete_context make_context
  set_method_callback-IsSound id callback n s (owned, pointers) =
      let r = native.set_method_callback id n in
      let r' = native.set_node_context id s.next r.1 in
      let quiet = λ (q : K). laws.method_callback_set id n q in
      elim (throw_if_bad_cases r.0) [
        | inl (bad, e, thrown, _) ↦
            rw (thrown, try_set_method_callback)
              (delete-IsOwned callback s owned, λ q b h. pointers q b (sym (quiet q) ∙ h))
        | inr (fine, done) ↦ elim (throw_if_bad_cases r'.0) [
          | inl (bad', e, thrown', _) ↦
              rw (done, thrown', try_set_method_callback)
                (
                  delete-IsOwned callback s owned,
                  λ q b h. pointers q b (sym (laws.refused id s.next r.1 q bad' ∙ quiet q) ∙ h),
                )
          | inr (fine', done') ↦
              let (owned', found) = insert-IsOwned id callback s owned in
              rw (done, done', try_set_method_callback)
                (
                  owned',
                  λ q b h.
                      with_key_follows id s.next q (native.context_of q r.1)
                        (find q s.node_contexts) _ b (found q)
                        (λ k. pointers q b (sym (quiet q) ∙ k))
                        (sym (laws.set id s.next r.1 q fine') ∙ h),
                )
        ]
      ]
