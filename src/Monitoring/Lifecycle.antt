-- ===== src/Monitoring/Lifecycle.antt =====
-- The life of a monitored item: created by createMonitoredItemsDataChange, notified, listed by
-- Subscription::monitoredItems, deleted.
use open62541pp.Prelude.{
  ℕ, ◌≡◌, refl, sym, ap, ◌∙◌, Bool, Bool-cases, inl, inr, true, false, ◌==◌, ◌&&◌, if◌then◌else◌,
  Option, none, some, List, [], ◌∷◌, anyb, length, arith,
}
use open62541pp.Map.{Map, find}
use open62541pp.Map.Order.{nat_ord, pair_ord, same}
use open62541pp.Map.Laws.{
  IsSorted, fresh, find_below, find-insert, find-erase_if, erase_if-IsSorted,
}
use open62541pp.ContextMap.{erase_stale, contains, iterate}
use open62541pp.Status.{is_good}
use open62541pp.Outcome.{ok}
use open62541pp.Outcome.Catcher.{Callback, Adapter, adapter_invoke}
use open62541pp.Monitoring.Contexts.{
  Call, data_change, item_deleted, MonitoredItemContext, data_change_callback_native,
  delete_callback_native,
}
use open62541pp.Monitoring.Create.{
  Connection, CreateResult, item_stale, make_monitored_item_context, make_monitored_item_contexts,
  store_monitored_item_contexts, create_monitored_items_data_change,
}
use open62541pp.Monitoring.Notify.{
  notify_data_change, notify_item_deleted, keys_of, monitored_items,
}
use open62541pp.Monitoring.Delivery.{
  fresh_contexts, fresh_contexts_not_stale, length-make_monitored_item_contexts,
  deliver_early_dropped, live, inserted_context, last_good, created, Stored, store_results-Stored,
}

-- The results that count: none if the service as a whole failed.
abbrev pub answered : ℕ → List CreateResult → List CreateResult
answered service_result results = if is_good service_result then results else []

same_refl : (q : ℕ × ℕ) → same q q ≡ true
same_refl (a, b) = ground arith

fresh-some {ℓ} :
    {V : Type ℓ} (p : V → Bool) (o : Option V) (x : V) → fresh p o ≡ some x → o ≡ some x
fresh-some p none x h = h
fresh-some p (some v) x h = ground arith

module _ {ℓ} {R D F N : Type ℓ} where
  -- For an ordered map of items and a result for every item, createMonitoredItemsDataChange returns.
  -- Afterwards the context of an item in use is that of the last good result with its id, marked as
  -- inserted, if the service result is good and there is such a result, and else what it was
  -- before; the map is in order; and no notification that arrived during the call has reached the
  -- user.
  pub create_monitored_items_data_change-Stored :
      (sub : ℕ) (items : List R) (dc del : Option (Callback (Call D F N)))
      (early : List (ℕ × ℕ × D)) (service : ℕ) (results : List CreateResult)
      (c : Connection R D F N) (q : ℕ × ℕ)
      → length results ≡ length items
      → IsSorted c.monitored_items
      → (c' : Connection R D F N) × (create_monitored_items_data_change sub items dc del early
            service results c
          ≡ ok c')
        × Stored sub
            (answered service results)
            (make_monitored_item_contexts items dc none del)
            c
            c'
            q
  unfolding create_monitored_items_data_change store_monitored_item_contexts last_good
  create_monitored_items_data_change-Stored sub items dc del early service results c q same_length
        sorted =
      let contexts = make_monitored_item_contexts items dc none del in
      rw (deliver_early_dropped contexts sub early c.adapter (fresh_contexts items dc none del))
        (elim (Bool-cases (is_good service)) [
          | inr failed ↦ rw failed (c, refl, (ground arith, sorted, refl))
          | inl good ↦ rw good (
              store_results-Stored q sub results contexts c
                (same_length ∙ sym (length-make_monitored_item_contexts items dc none del))
                (fresh_contexts_not_stale items dc none del) sorted)
        ])

  -- The notifications for an item in use.
  live-notify :
      (sub mon : ℕ) (q : ℕ × ℕ) (x : MonitoredItemContext R D F N) (c : Connection R D F N)
      → live (sub, mon) c ≡ some x
      → x.inserted ≡ true
      → let d = notify_item_deleted sub mon c in
        ((v : D)
          → (notify_data_change sub mon (some v) c).adapter
            ≡ adapter_invoke x.data_change_callback (data_change sub mon v) c.adapter)
        × (d.adapter ≡ adapter_invoke x.delete_callback (item_deleted sub mon) c.adapter)
        × (live q d ≡ (if same (sub, mon) q then none else live q c))
  unfolding notify_data_change data_change_callback_native notify_item_deleted
      delete_callback_native
  live-notify sub mon q x c in_use inserted =
      let found = fresh-some item_stale (find (sub, mon) c.monitored_items) x in_use in
      (
        λ v. rw (found, inserted) refl,
        rw (notify_item_deleted, found) refl,
        rw (notify_item_deleted, found)
            (ap (fresh item_stale)
                (find-insert (sub, mon) q (record x { stale = true }) c.monitored_items)
              ∙ ground arith),
      )

  last_good-make :
      (mon : ℕ) (results : List CreateResult) (items : List R)
      (dc ev del : Option (Callback (Call D F N))) (x : MonitoredItemContext R D F N)
      → last_good mon results (make_monitored_item_contexts items dc ev del) ≡ some x
      → (x.data_change_callback ≡ dc) × (x.event_callback ≡ ev) × (x.delete_callback ≡ del)
  unfolding last_good make_monitored_item_contexts make_monitored_item_context
  last_good-make mon [] items dc ev del x h = ground arith
  last_good-make mon (r ∷ rs) [] dc ev del x h = ground arith
  last_good-make mon (r ∷ rs) (i ∷ items) dc ev del x h =
      ground (arith, last_good-make mon rs items dc ev del x)

  -- What an item does that was created with the callbacks `dc` and `del`.
  abbrev pub IsServed :
      ℕ
      → ℕ
      → Option (Callback (Call D F N))
      → Option (Callback (Call D F N))
      → Adapter (Call D F N)
      → Connection R D F N
      → Type ℓ
  IsServed sub mon dc del a c =
      ((v : D)
        → (notify_data_change sub mon (some v) c).adapter
          ≡ adapter_invoke dc (data_change sub mon v) a)
      × ((notify_item_deleted sub mon c).adapter ≡ adapter_invoke del (item_deleted sub mon) a)
      × (live (sub, mon) (notify_item_deleted sub mon c) ≡ none)

  -- For an ordered map of items and a result for every item: if the call created item `mon` of
  -- subscription `sub`, then after it a data change of the item calls the data change callback of
  -- the request, once and with the item's ids and the value; and the deletion of the item calls the
  -- delete callback once and takes the item out of use.
  pub created-IsServed :
      (sub mon : ℕ) (items : List R) (dc del : Option (Callback (Call D F N)))
      (early : List (ℕ × ℕ × D)) (service : ℕ) (results : List CreateResult)
      (c : Connection R D F N) (x : MonitoredItemContext R D F N)
      → length results ≡ length items
      → IsSorted c.monitored_items
      → created sub
          (answered service results)
          (make_monitored_item_contexts items dc none del)
          (sub, mon)
        ≡ some x
      → (c' : Connection R D F N) × (create_monitored_items_data_change sub items dc del early
            service results c
          ≡ ok c')
        × IsServed sub mon dc del c.adapter c'
  created-IsServed sub mon items dc del early service results c x same_length sorted made =
      let (c', done, (in_use, _, same_adapter)) =
        create_monitored_items_data_change-Stored sub items dc del early service results c
          (sub, mon) same_length sorted in
      let (changes, _, deletes) =
        last_good-make mon (answered service results) items dc none del x (ground (arith, made)) in
      let (notified, erased, gone) =
        live-notify sub mon (sub, mon) (inserted_context x) c' (in_use ∙ rw made refl) refl in
      (
        c',
        done,
        (
          λ v. notified v ∙ rw (changes, same_adapter) refl,
          erased ∙ rw (deletes, same_adapter) refl,
          gone ∙ rw (same_refl (sub, mon)) refl,
        ),
      )

  listed-keys_of :
      (sub : ℕ) (q : ℕ × ℕ) (m : Map (ℕ × ℕ) (MonitoredItemContext R D F N))
      → IsSorted m
      → anyb (same q) (keys_of sub m) ≡ (q.0 == sub && contains q m)
  unfolding keys_of contains find
  listed-keys_of sub q [] s = ground arith
  listed-keys_of sub (a, b) (((i, j), v) ∷ m) s =
      ground (arith, find_below (a, b) (i, j) m s.0, listed-keys_of sub (a, b) m s.1)

  -- For an ordered map of items, `Subscription::monitoredItems` lists exactly the items of the
  -- subscription that are in use; it drops the contexts of those that are not, keeps all others, and
  -- calls nothing of the user.
  pub monitored_items-live :
      (sub : ℕ) (q : ℕ × ℕ) (c : Connection R D F N)
      → IsSorted c.monitored_items
      → let r = monitored_items sub c in
        (anyb (same q) r.1 ≡ (q.0 == sub && elim (live q c) [ none ↦ false | some _ ↦ true ]))
        × (find q r.0.monitored_items ≡ live q c)
        × (r.0.adapter ≡ c.adapter)
  unfolding monitored_items erase_stale iterate contains
  monitored_items-live sub q c sorted =
      let left = find-erase_if item_stale q c.monitored_items sorted in
      let listed = listed-keys_of sub q _ (erase_if-IsSorted item_stale c.monitored_items sorted) in
      (listed ∙ rw (contains, left) refl, left, refl)
