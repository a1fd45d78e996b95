-- ===== src/Monitoring/Notify.antt =====
-- What happens to monitored items and subscriptions after they were created: the notifications
-- of the C library, deletion, and the lists that the user asks for.
use open62541pp.Prelude.{ℕ, ◌==◌, if◌then◌else◌, Option, none, some, List, [], ◌∷◌}
use open62541pp.Map.{Map, find, insert}
use open62541pp.Map.Order.{nat_ord, pair_ord}
use open62541pp.ContextMap.{erase_stale, erase_context, iterate}
use open62541pp.Status.{StatusCodes, bad_monitored_item_id_invalid}
use open62541pp.Outcome.{Outcome, ok, throw, bad_status}
use open62541pp.Monitoring.Contexts.{
  MonitoredItemContext, SubscriptionContext, data_change_callback_native, event_callback_native,
  delete_callback_native, status_change_callback_native, delete_subscription_callback_native,
}
use open62541pp.Monitoring.Create.{Connection, item_stale}

module _ {ℓ} {D F N : Type ℓ} where
  unfoldable pub subscription_ids : Map ℕ (SubscriptionContext D F N) → List ℕ
  subscription_ids [] = []
  subscription_ids ((key, _) ∷ pairs) = key ∷ subscription_ids pairs

module _ {ℓ} {R D F N : Type ℓ} where
  -- The C library calls back for an item: a value, an event, or that the item was deleted.
  unfoldable pub notify_data_change : ℕ → ℕ → Option D → Connection R D F N → Connection R D F N
  unfolding data_change_callback_native
  notify_data_change sub_id mon_id value c = record c {
    adapter =
        data_change_callback_native sub_id mon_id (find (sub_id, mon_id) c.monitored_items) value
          c.adapter;
  }

  unfoldable pub notify_event : ℕ → ℕ → F → Connection R D F N → Connection R D F N
  unfolding event_callback_native
  notify_event sub_id mon_id fields c = record c {
    adapter =
        event_callback_native sub_id mon_id (find (sub_id, mon_id) c.monitored_items) fields
          c.adapter;
  }

  -- `stale` is set in the context itself.
  unfoldable pub notify_item_deleted : ℕ → ℕ → Connection R D F N → Connection R D F N
  unfolding delete_callback_native
  notify_item_deleted sub_id mon_id c = elim (find (sub_id, mon_id) c.monitored_items) [
    | none ↦ c
    | some self ↦
        let r = delete_callback_native sub_id mon_id self c.adapter in
        record c { adapter = r.1; monitored_items = insert (sub_id, mon_id) r.0 c.monitored_items }
  ]

  -- deleteMonitoredItem<Server>
  unfoldable pub delete_monitored_item_server : ℕ → Connection R D F N → Connection R D F N
  unfolding erase_context
  delete_monitored_item_server mon_id c = record c {
    monitored_items = (erase_context (0, mon_id) c.monitored_items).0;
  }

  unfoldable pub keys_of : ℕ → Map (ℕ × ℕ) (MonitoredItemContext R D F N) → List (ℕ × ℕ)
  keys_of subscription_id [] = []
  keys_of subscription_id ((key, _) ∷ pairs) =
      if key.0 == subscription_id
      then key ∷ keys_of subscription_id pairs
      else keys_of subscription_id pairs

  -- Subscription::monitoredItems
  unfoldable pub monitored_items : ℕ → Connection R D F N → Connection R D F N × List (ℕ × ℕ)
  unfolding erase_stale iterate keys_of
  monitored_items subscription_id c =
      let items = (erase_stale item_stale c.monitored_items).0 in
      (record c { monitored_items = items }, keys_of subscription_id (iterate items))

  -- MonitoredItem::nodeId and attributeId read this.
  unfoldable pub get_item_to_monitor : ⦃s : StatusCodes⦄ → ℕ → ℕ → Connection R D F N → Outcome R
  get_item_to_monitor sub_id mon_id c = elim (find (sub_id, mon_id) c.monitored_items) [
    | none ↦ throw (bad_status bad_monitored_item_id_invalid)
    | some context ↦ ok context.item_to_monitor
  ]

  unfoldable pub notify_status_change : ℕ → Option N → Connection R D F N → Connection R D F N
  unfolding status_change_callback_native
  notify_status_change sub_id notification c = record c {
    adapter =
        status_change_callback_native sub_id (find sub_id c.subscriptions) notification c.adapter;
  }

  unfoldable pub notify_subscription_deleted : ℕ → Connection R D F N → Connection R D F N
  unfolding delete_subscription_callback_native
  notify_subscription_deleted sub_id c = elim (find sub_id c.subscriptions) [
    | none ↦ c
    | some self ↦
        let r = delete_subscription_callback_native sub_id self c.adapter in
        record c { adapter = r.1; subscriptions = insert sub_id r.0 c.subscriptions }
  ]

  -- Client::subscriptions
  unfoldable pub subscriptions : Connection R D F N → Connection R D F N × List ℕ
  unfolding erase_stale iterate subscription_ids
  subscriptions c =
      let subs = (erase_stale (λ (s : SubscriptionContext D F N). s.stale) c.subscriptions).0 in
      (record c { subscriptions = subs }, subscription_ids (iterate subs))
