-- ===== src/Monitoring/Create.antt =====
-- The services that create subscriptions and monitored items. What the C library answers, and the notifications that it delivers while it is
-- called, are arguments.
use open62541pp.Prelude.{
  ℕ, Bool, true, false, if◌then◌else◌, Option, none, some, List, [], ◌∷◌, map, get_elem?,
}
use open62541pp.Map.{Map}
use open62541pp.Map.Order.{nat_ord, pair_ord}
use open62541pp.ContextMap.{insert_context}
use open62541pp.Status.{is_good}
use open62541pp.Outcome.{Outcome, ok, undefined}
use open62541pp.Outcome.Catcher.{Callback, Adapter}
use open62541pp.Monitoring.Contexts.{
  Call, MonitoredItemContext, SubscriptionContext, data_change_callback_native,
  event_callback_native,
}

-- The members of ClientContext and ServerContext that concern monitoring; the adapter holds the
-- exception catcher of the connection.
pub record Connection {ℓ} (R D F N : Type ℓ) : Type ℓ where
  pub adapter : Adapter (Call D F N)
  pub subscriptions : Map ℕ (SubscriptionContext D F N)
  pub monitored_items : Map (ℕ × ℕ) (MonitoredItemContext R D F N)

pub record CreateResult : Type 0 where
  pub status_code : ℕ
  pub monitored_item_id : ℕ

module _ {ℓ} {R D F N : Type ℓ} where
  abbrev pub item_stale : MonitoredItemContext R D F N → Bool
  item_stale c = c.stale

  unfoldable pub make_monitored_item_context :
      R
      → Option (Callback (Call D F N))
      → Option (Callback (Call D F N))
      → Option (Callback (Call D F N))
      → MonitoredItemContext R D F N
  make_monitored_item_context item data_change event delete = record {
    stale = false;
    inserted = false;
    item_to_monitor = item;
    data_change_callback = data_change;
    event_callback = event;
    delete_callback = delete;
  }

  -- A new context for every item of the request.
  unfoldable pub make_monitored_item_contexts :
      List R
      → Option (Callback (Call D F N))
      → Option (Callback (Call D F N))
      → Option (Callback (Call D F N))
      → List (MonitoredItemContext R D F N)
  unfolding make_monitored_item_context
  make_monitored_item_contexts items data_change event delete =
      map (λ item. make_monitored_item_context item data_change event delete) items

  unfoldable pub store_monitored_item_context :
      ℕ → CreateResult → MonitoredItemContext R D F N → Connection R D F N → Connection R D F N
  store_monitored_item_context subscription_id result context c =
      if is_good result.status_code
      then record c {
        monitored_items =
            insert_context item_stale (subscription_id, result.monitored_item_id)
              (record context { inserted = true }) c.monitored_items;
      }
      else c

  -- The loop over the results; a result without a context is read past the end.
  unfoldable pub store_results :
      ℕ
      → List CreateResult
      → List (MonitoredItemContext R D F N)
      → Connection R D F N
      → Outcome (Connection R D F N)
  unfolding store_monitored_item_context
  store_results subscription_id [] contexts c = ok c
  store_results subscription_id (result ∷ results) [] c = undefined
  store_results subscription_id (result ∷ results) (context ∷ contexts) c =
      store_results subscription_id results contexts
        (store_monitored_item_context subscription_id result context c)

  unfoldable pub store_monitored_item_contexts :
      ℕ
      → ℕ
      → List CreateResult
      → List (MonitoredItemContext R D F N)
      → Connection R D F N
      → Outcome (Connection R D F N)
  unfolding store_results
  store_monitored_item_contexts subscription_id service_result results contexts c =
      if is_good service_result then store_results subscription_id results contexts c else ok c

  -- Notifications that arrive while the create call runs: position of the item, id, value.
  unfoldable pub deliver_early :
      ℕ
      → List (MonitoredItemContext R D F N)
      → List (ℕ × ℕ × D)
      → Adapter (Call D F N)
      → Adapter (Call D F N)
  unfolding data_change_callback_native
  deliver_early subscription_id contexts [] a = a
  deliver_early subscription_id contexts ((i, mon_id, value) ∷ rest) a =
      deliver_early subscription_id contexts rest
        (data_change_callback_native subscription_id mon_id (get_elem? contexts i) (some value) a)

  unfoldable pub deliver_early_events :
      ℕ
      → List (MonitoredItemContext R D F N)
      → List (ℕ × ℕ × F)
      → Adapter (Call D F N)
      → Adapter (Call D F N)
  unfolding event_callback_native
  deliver_early_events subscription_id contexts [] a = a
  deliver_early_events subscription_id contexts ((i, mon_id, fields) ∷ rest) a =
      deliver_early_events subscription_id contexts rest
        (event_callback_native subscription_id mon_id (get_elem? contexts i) fields a)

  unfoldable pub create_monitored_items_data_change :
      ℕ
      → List R
      → Option (Callback (Call D F N))
      → Option (Callback (Call D F N))
      → List (ℕ × ℕ × D)
      → ℕ
      → List CreateResult
      → Connection R D F N
      → Outcome (Connection R D F N)
  unfolding make_monitored_item_contexts deliver_early store_monitored_item_contexts
  create_monitored_items_data_change subscription_id items data_change delete early service_result
        results c =
      let contexts = make_monitored_item_contexts items data_change none delete in
      store_monitored_item_contexts subscription_id service_result results contexts
        (record c { adapter = deliver_early subscription_id contexts early c.adapter })

  unfoldable pub create_monitored_items_event :
      ℕ
      → List R
      → Option (Callback (Call D F N))
      → Option (Callback (Call D F N))
      → List (ℕ × ℕ × F)
      → ℕ
      → List CreateResult
      → Connection R D F N
      → Outcome (Connection R D F N)
  unfolding make_monitored_item_contexts deliver_early_events store_monitored_item_contexts
  create_monitored_items_event subscription_id items event delete early service_result results c =
      let contexts = make_monitored_item_contexts items none event delete in
      store_monitored_item_contexts subscription_id service_result results contexts
        (record c { adapter = deliver_early_events subscription_id contexts early c.adapter })

  -- createMonitoredItemDataChange<Server>: the subscription id is 0.
  unfoldable pub create_monitored_item_data_change_server :
      R
      → Option (Callback (Call D F N))
      → Option (Callback (Call D F N))
      → List (ℕ × ℕ × D)
      → CreateResult
      → Connection R D F N
      → Connection R D F N
  unfolding make_monitored_item_context deliver_early store_monitored_item_context
  create_monitored_item_data_change_server item data_change delete early result c =
      let context = make_monitored_item_context item data_change none delete in
      store_monitored_item_context 0 result context
        (record c { adapter = deliver_early 0 (context ∷ []) early c.adapter })

  unfoldable pub create_subscription :
      Option (Callback (Call D F N))
      → Option (Callback (Call D F N))
      → ℕ
      → ℕ
      → Connection R D F N
      → Connection R D F N
  unfolding insert_context
  create_subscription status_change delete service_result subscription_id c =
      if is_good service_result
      then record c {
        subscriptions =
            insert_context (λ s. s.stale) subscription_id
              (record {
                stale = false;
                status_change_callback = status_change;
                delete_callback = delete;
              })
              c.subscriptions;
      }
      else c
