-- ===== src/NodeContexts/Owned.antt =====
-- The addresses in the context map: each belongs to one key, and its context is alive.
use open62541pp.Prelude.{
  ℕ, suc, ◌<◌, ◌≤◌, ◌==◌, ◌≡◌, ◌≢◌, refl, sym, ap, ◌∙◌, true, Option, none, some, Bool-cases,
  ==_iff, inl, inr, arith,
}
use mathlib.Core.Option
use open62541pp.Map.{find}
use open62541pp.Map.Order.{Ord, same}
use open62541pp.Map.Laws.{IsSorted, find-insert, insert-IsSorted}
use open62541pp.NodeContexts.{
  NodeContext, MethodCallback, Contexts, empty_context, update, obtain_at, obtain, modify,
  insert_owned, make_context, delete_context,
}
use open62541pp.NodeContexts.Keys.{
  same-eq, same_trans, with_key, with_key_cases, with_key_same, free_other, none-ne-some,
  true-ne-false,
}

module _ {K S R V : Type 0} ⦃o : Ord K⦄ where
  pub record IsOwned (s : Contexts K S R V) : Type 0 where
    pub sorted : IsSorted s.node_contexts
    pub below : (q : K) (a : ℕ) → find q s.node_contexts ≡ some a → a < s.next
    pub alive :
        (q : K) (a : ℕ)
        → find q s.node_contexts ≡ some a
        → (x : NodeContext K S R V) × (s.heap a ≡ some x)
    pub one_key :
        (q r : K) (a : ℕ)
        → find q s.node_contexts ≡ some a
        → find r s.node_contexts ≡ some a
        → same q r ≡ true

  -- The next address is put under a key: what stood there may be deleted, but nothing else.
  put-IsOwned :
      (id : K) (s t : Contexts K S R V)
      → IsOwned s
      → t.next ≡ suc s.next
      → IsSorted t.node_contexts
      → ((q : K) → find q t.node_contexts ≡ with_key id s.next q (find q s.node_contexts))
      → (x : NodeContext K S R V) × (t.heap s.next ≡ some x)
      → ((b : ℕ) → b ≢ s.next → find id s.node_contexts ≢ some b → t.heap b ≡ s.heap b)
      → IsOwned t
  put-IsOwned id s t owned next sorted found new rest = record {
    sorted = sorted;
    below = λ q a h. elim (with_key_cases id s.next q _ a (sym (found q) ∙ h)) [
      | inl (e, here) ↦ omega (arith, next, here)
      | inr (e, old) ↦ omega (arith, next, owned.below q a old)
    ];
    alive = λ q a h. elim (with_key_cases id s.next q _ a (sym (found q) ∙ h)) [
      | inl (e, here) ↦ (new.0, ap t.heap (sym here) ∙ new.1)
      | inr (e, old) ↦
          let (x, there) = owned.alive q a old in
          (
            x,
            rest a (λ last. absurd (omega (arith, last, owned.below q a old)))
                  (λ mine. true-ne-false (sym (owned.one_key id q a mine old) ∙ e))
                ∙ there,
          )
    ];
    one_key = λ q r a h k. elim (with_key_cases id s.next q _ a (sym (found q) ∙ h)) [
      | inl (e, here) ↦ elim (with_key_cases id s.next r _ a (sym (found r) ∙ k)) [
        | inl (e', here') ↦ same_trans id q r e e'
        | inr (e', old) ↦ absurd (omega (arith, here, owned.below r a old))
      ]
      | inr (e, old) ↦ elim (with_key_cases id s.next r _ a (sym (found r) ∙ k)) [
        | inl (e', here) ↦ absurd (omega (arith, here, owned.below q a old))
        | inr (e', old') ↦ owned.one_key q r a old old'
      ]
    ];
  }

  -- Nothing is put, and what is alive below `next` stays alive.
  keep-IsOwned :
      (s t : Contexts K S R V)
      → IsOwned s
      → s.next ≤ t.next
      → t.node_contexts ≡ s.node_contexts
      → ((b : ℕ) (x : NodeContext K S R V)
          → b < s.next
          → s.heap b ≡ some x
          → (y : NodeContext K S R V) × (t.heap b ≡ some y))
      → IsOwned t
  keep-IsOwned s t owned next map rest = record {
    sorted = rw map owned.sorted;
    below = λ q a h. omega (arith, next, owned.below q a (ap (find q) (sym map) ∙ h));
    alive = λ q a h.
        let old = ap (find q) (sym map) ∙ h in
        let (x, there) = owned.alive q a old in rest a x (owned.below q a old) there;
    one_key =
        λ q r a h k. owned.one_key q r a (ap (find q) (sym map) ∙ h) (ap (find r) (sym map) ∙ k);
  }

  update_self :
      (heap : ℕ → Option (NodeContext K S R V)) (a : ℕ) (x : Option (NodeContext K S R V))
      → update heap a x a ≡ x
  update_self heap a x = ground arith

  update_other :
      (heap : ℕ → Option (NodeContext K S R V)) (a : ℕ) (x : Option (NodeContext K S R V)) (b : ℕ)
      → b ≢ a
      → update heap a x b ≡ heap b
  update_other heap a x b h = ground arith

  obtain_at-IsOwned :
      (id : K) (s : Contexts K S R V) (x : Option ℕ)
      → find id s.node_contexts ≡ x
      → IsOwned s
      → IsOwned (obtain_at id s x).1
        × ((q : K)
            → find q (obtain_at id s x).1.node_contexts
              ≡ with_key id (obtain_at id s x).0 q (find q s.node_contexts))
        × ((q : K) (b : ℕ)
            → find q s.node_contexts ≡ some b
            → find q (obtain_at id s x).1.node_contexts ≡ some b)
  unfolding obtain_at
  obtain_at-IsOwned id s (some a) h owned =
      (owned, λ q. with_key_same id a q s.node_contexts h, λ q b there. there)
  obtain_at-IsOwned id s none h owned =
      let t = (obtain_at id s none).1 in
      let found = λ (q : K). find-insert id q s.next s.node_contexts in
      (
        put-IsOwned id s t owned refl (insert-IsSorted id s.next s.node_contexts owned.sorted) found
            (empty_context, update_self s.heap s.next (some empty_context))
            (λ b ne _. update_other s.heap s.next (some empty_context) b ne),
        found,
        λ q b there. elim (Bool-cases (same id q)) [
          | inl e ↦
              absurd
                (none-ne-some (sym h ∙ ap (λ k. find k s.node_contexts) (same-eq id q e) ∙ there))
          | inr e ↦ found q ∙ rw e there
        ],
      )

  -- `nodeContexts[id]` gives an address that the map has under the id, and keeps every other.
  pub obtain-IsOwned :
      (id : K) (s : Contexts K S R V)
      → IsOwned s
      → IsOwned (obtain id s).1
        × ((q : K)
            → find q (obtain id s).1.node_contexts
              ≡ with_key id (obtain id s).0 q (find q s.node_contexts))
        × ((q : K) (b : ℕ)
            → find q s.node_contexts ≡ some b
            → find q (obtain id s).1.node_contexts ≡ some b)
  unfolding obtain
  obtain-IsOwned id s owned = obtain_at-IsOwned id s (find id s.node_contexts) refl owned

  pub modify-IsOwned :
      (f : NodeContext K S R V → NodeContext K S R V) (a : ℕ) (s : Contexts K S R V)
      → IsOwned s
      → IsOwned (modify f a s)
  unfolding modify
  modify-IsOwned f a s owned =
      keep-IsOwned s (modify f a s) owned (omega arith) refl λ b y below there.
        elim (Bool-cases (a == b)) [
          | inl e ↦
              let there' = ap s.heap ((==_iff a b).0 e) ∙ there in
              (f y, rw e (ap (Option.map f) there'))
          | inr e ↦ (y, rw e there)
        ]

  -- A new context is inserted under an id, and what stood there is deleted.
  pub insert-IsOwned :
      (id : K) (callback : MethodCallback K S V) (s : Contexts K S R V)
      → IsOwned s
      → IsOwned (insert_owned id s.next (make_context callback s))
        × ((q : K)
            → find q (insert_owned id s.next (make_context callback s)).node_contexts
              ≡ with_key id s.next q (find q s.node_contexts))
  unfolding insert_owned make_context
  insert-IsOwned id callback s owned =
      let found = λ (q : K). find-insert id q s.next s.node_contexts in
      let context : NodeContext K S R V = record empty_context { method_callback = callback } in
      let heap = update s.heap s.next (some context) in
      (
        put-IsOwned id s (insert_owned id s.next (make_context callback s)) owned refl
            (insert-IsSorted id s.next s.node_contexts owned.sorted) found
            (
              context,
              free_other (find id s.node_contexts) heap s.next
                    (λ e. absurd (omega (arith, owned.below id s.next e)))
                  ∙ update_self s.heap s.next (some context),
            )
            (λ b ne other.
              free_other (find id s.node_contexts) heap b other
              ∙ update_other s.heap s.next (some context) b ne),
        found,
      )

  -- A new context is deleted again.
  pub delete-IsOwned :
      (callback : MethodCallback K S V) (s : Contexts K S R V)
      → IsOwned s
      → IsOwned (delete_context s.next (make_context callback s))
  unfolding delete_context make_context
  delete-IsOwned callback s owned =
      keep-IsOwned s (delete_context s.next (make_context callback s)) owned (omega arith) refl
        λ b y below there. (
          y,
          let ne = λ (e : b ≡ s.next). absurd (omega (arith, e, below)) in
              update_other (make_context callback s).heap s.next none b ne
              ∙ update_other s.heap s.next
                  (some (record empty_context { method_callback = callback })) b ne
              ∙ there,
        )
