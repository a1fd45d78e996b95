-- ===== src/Monitoring/Delivery.antt =====
-- Which notifications reach the user.
use open62541pp.Prelude.{
  ℕ, zero, suc, ◌≡◌, refl, ap, ◌∙◌, inl, inr, Bool, true, false, Bool-cases, ◌==◌, ◌&&◌,
  if◌then◌else◌, Option, none, some, List, [], ◌∷◌, All, length, get_elem?, arith,
}
use open62541pp.Map.{find}
use open62541pp.Map.Order.{nat_ord, pair_ord, same}
use open62541pp.Map.Laws.{IsSorted, fresh}
use open62541pp.ContextMap.Laws.{find-insert_context}
use open62541pp.Status.{is_good}
use open62541pp.Outcome.{ok}
use open62541pp.Outcome.Catcher.{Callback, Adapter}
use open62541pp.Monitoring.Contexts.{Call, MonitoredItemContext, data_change_callback_native}
use open62541pp.Monitoring.Create.{
  Connection, CreateResult, item_stale, make_monitored_item_contexts, deliver_early,
  store_monitored_item_context, store_results,
}

abbrev pub key_is : ℕ → ℕ → ℕ × ℕ → Bool
key_is sub mon q = q.0 == sub && q.1 == mon

-- What is last said to have been created under an id: the element at the position of the last
-- good result with that id.
unfoldable pub last_good {ℓ} : {X : Type ℓ} → ℕ → List CreateResult → List X → Option X
last_good mon (r ∷ rs) (x ∷ xs) = elim (last_good mon rs xs) [
  | some y ↦ some y
  | none ↦ if is_good r.status_code && r.monitored_item_id == mon then some x else none
]
last_good mon _ _ = none

-- The element for a key, if the results are those of subscription `sub`.
abbrev pub created {ℓ} : {X : Type ℓ} → ℕ → List CreateResult → List X → ℕ × ℕ → Option X
created sub results xs q = if q.0 == sub then last_good q.1 results xs else none

same-key : (sub mon : ℕ) (q : ℕ × ℕ) → same (sub, mon) q ≡ key_is sub mon q
same-key sub mon (a, b) = ground arith

fresh_if {ℓ} :
    {V : Type ℓ} (p : V → Bool) (b : Bool) (y : V) (o : Option V)
    → p y ≡ false
    → fresh p (if b then some y else fresh p o) ≡ (if b then some y else fresh p o)
fresh_if p true y o h = rw h
fresh_if p false y none h = refl
fresh_if p false y (some v) h = ground arith

module _ {ℓ} {R D F N : Type ℓ} where
  abbrev pub NotInserted : MonitoredItemContext R D F N → Type 0
  NotInserted c = c.inserted ≡ false

  pub fresh_contexts :
      (items : List R) (dc ev del : Option (Callback (Call D F N)))
      → All NotInserted (make_monitored_item_contexts items dc ev del)
  unfolding make_monitored_item_contexts
  fresh_contexts [] dc ev del = tt
  fresh_contexts (x ∷ items) dc ev del = (refl, fresh_contexts items dc ev del)

  pub fresh_contexts_not_stale :
      (items : List R) (dc ev del : Option (Callback (Call D F N)))
      → All (λ x. x.stale ≡ false) (make_monitored_item_contexts items dc ev del)
  unfolding make_monitored_item_contexts
  fresh_contexts_not_stale [] dc ev del = tt
  fresh_contexts_not_stale (x ∷ items) dc ev del = (refl, fresh_contexts_not_stale items dc ev del)

  pub length-make_monitored_item_contexts :
      (items : List R) (dc ev del : Option (Callback (Call D F N)))
      → length (make_monitored_item_contexts items dc ev del) ≡ length items
  unfolding make_monitored_item_contexts
  length-make_monitored_item_contexts [] dc ev del = refl
  length-make_monitored_item_contexts (x ∷ items) dc ev del =
      ap suc (length-make_monitored_item_contexts items dc ev del)

  early_dropped :
      (contexts : List (MonitoredItemContext R D F N)) (sub i mon : ℕ) (value : Option D)
      (a : Adapter (Call D F N))
      → All NotInserted contexts
      → data_change_callback_native sub mon (get_elem? contexts i) value a ≡ a
  unfolding data_change_callback_native
  early_dropped [] sub i mon value a f = refl
  early_dropped (x ∷ contexts) sub zero mon value a f = ground arith
  early_dropped (x ∷ contexts) sub (suc i) mon value a f =
      early_dropped contexts sub i mon value a f.1

  pub deliver_early_dropped :
      (contexts : List (MonitoredItemContext R D F N)) (sub : ℕ) (early : List (ℕ × ℕ × D))
      (a : Adapter (Call D F N))
      → All NotInserted contexts
      → deliver_early sub contexts early a ≡ a
  unfolding deliver_early
  deliver_early_dropped contexts sub [] a f = refl
  deliver_early_dropped contexts sub ((i, mon, v) ∷ early) a f =
      rw (early_dropped contexts sub i mon (some v) a f)
        (deliver_early_dropped contexts sub early a f)

  -- The context of an item that is in use.
  abbrev pub live : ℕ × ℕ → Connection R D F N → Option (MonitoredItemContext R D F N)
  live q c = fresh item_stale (find q c.monitored_items)

  abbrev pub inserted_context : MonitoredItemContext R D F N → MonitoredItemContext R D F N
  inserted_context x = record x { inserted = true }

  live-store :
      (q : ℕ × ℕ) (sub : ℕ) (r : CreateResult) (x : MonitoredItemContext R D F N)
      (c : Connection R D F N)
      → IsSorted c.monitored_items
      → x.stale ≡ false
      → (live q (store_monitored_item_context sub r x c) ≡ (
          if is_good r.status_code && key_is sub r.monitored_item_id q
          then some (inserted_context x)
          else live q c))
        × IsSorted (store_monitored_item_context sub r x c).monitored_items
        × ((store_monitored_item_context sub r x c).adapter ≡ c.adapter)
  unfolding store_monitored_item_context
  live-store q sub r x c sorted not_stale = elim (Bool-cases (is_good r.status_code)) [
    | inr refused ↦ rw refused (refl, sorted, refl)
    | inl created ↦
        let (found, sorted') =
          find-insert_context item_stale c.monitored_items sorted (sub, r.monitored_item_id) q
            (inserted_context x) in
        rw created (
          ap (fresh item_stale) found
              ∙ rw (same-key sub r.monitored_item_id q) (
                  fresh_if item_stale (key_is sub r.monitored_item_id q) (inserted_context x)
                    (find q c.monitored_items) not_stale),
          sorted',
          refl,
        )
  ]

  -- What the loop over the results leaves behind.
  abbrev pub Stored :
      ℕ
      → List CreateResult
      → List (MonitoredItemContext R D F N)
      → Connection R D F N
      → Connection R D F N
      → ℕ × ℕ
      → Type ℓ
  Stored sub results contexts c c' q =
      (live q c' ≡ elim (created sub results contexts q) [
        | none ↦ live q c
        | some x ↦ some (inserted_context x)
      ])
      × IsSorted c'.monitored_items
      × (c'.adapter ≡ c.adapter)

  pub store_results-Stored :
      (q : ℕ × ℕ) (sub : ℕ) (results : List CreateResult)
      (contexts : List (MonitoredItemContext R D F N)) (c : Connection R D F N)
      → length results ≡ length contexts
      → All (λ x. x.stale ≡ false) contexts
      → IsSorted c.monitored_items
      → (c' : Connection R D F N) × (store_results sub results contexts c ≡ ok c')
        × Stored sub results contexts c c' q
  unfolding store_results last_good
  store_results-Stored q sub [] contexts c same_length live_contexts sorted =
      (c, refl, (ground arith, sorted, refl))
  store_results-Stored q sub (r ∷ rs) [] c same_length live_contexts sorted = absurd (omega arith)
  store_results-Stored q sub (r ∷ rs) (x ∷ xs) c same_length live_contexts sorted =
      let (now, sorted', same_adapter) = live-store q sub r x c sorted live_contexts.0 in
      let (c', done, (after, sorted'', same_adapter')) =
        store_results-Stored q sub rs xs (store_monitored_item_context sub r x c) (omega arith)
          live_contexts.1 sorted' in
      (c', done, (ground (arith, now, after), sorted'', same_adapter' ∙ same_adapter))
