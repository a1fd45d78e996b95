-- ===== src/Monitoring/Contexts.antt =====
-- MonitoredItemContext and SubscriptionContext with their static callbacks. `R` is what an item
-- monitors (ReadValueId), `D` a data value, `F` the fields of an event, `N` a status change.
use open62541pp.Prelude.{ℕ, Bool, true, false, Option, none, some}
use open62541pp.Outcome.Catcher.{Callback, Adapter, adapter_invoke}

-- The calls that the user has seen.
pub data Call {ℓ} (D F N : Type ℓ) : Type ℓ where
  data_change : ℕ → ℕ → D → Call D F N
  event : ℕ → ℕ → F → Call D F N
  item_deleted : ℕ → ℕ → Call D F N
  status_change : ℕ → N → Call D F N
  subscription_deleted : ℕ → Call D F N

pub record MonitoredItemContext {ℓ} (R D F N : Type ℓ) : Type ℓ where
  pub stale : Bool
  pub inserted : Bool
  pub item_to_monitor : R
  pub data_change_callback : Option (Callback (Call D F N))
  pub event_callback : Option (Callback (Call D F N))
  pub delete_callback : Option (Callback (Call D F N))

pub record SubscriptionContext {ℓ} (D F N : Type ℓ) : Type ℓ where
  pub stale : Bool
  pub status_change_callback : Option (Callback (Call D F N))
  pub delete_callback : Option (Callback (Call D F N))

module _ {ℓ} {R D F N : Type ℓ} where
  -- The context pointer and the value pointer may be null.
  unfoldable pub data_change_callback_native :
      ℕ
      → ℕ
      → Option (MonitoredItemContext R D F N)
      → Option D
      → Adapter (Call D F N)
      → Adapter (Call D F N)
  unfolding adapter_invoke
  data_change_callback_native sub_id mon_id (some self) (some value) a = elim self.inserted [
    | true ↦ adapter_invoke self.data_change_callback (data_change sub_id mon_id value) a
    | false ↦ a
  ]
  data_change_callback_native sub_id mon_id _ _ a = a

  -- The callback of the server passes no subscription id.
  unfoldable pub data_change_callback_native_server :
      ℕ
      → Option (MonitoredItemContext R D F N)
      → Option D
      → Adapter (Call D F N)
      → Adapter (Call D F N)
  unfolding data_change_callback_native
  data_change_callback_native_server mon_id self value a =
      data_change_callback_native 0 mon_id self value a

  unfoldable pub event_callback_native :
      ℕ
      → ℕ
      → Option (MonitoredItemContext R D F N)
      → F
      → Adapter (Call D F N)
      → Adapter (Call D F N)
  unfolding adapter_invoke
  event_callback_native sub_id mon_id none fields a = a
  event_callback_native sub_id mon_id (some self) fields a = elim self.inserted [
    | true ↦ adapter_invoke self.event_callback (event sub_id mon_id fields) a
    | false ↦ a
  ]

  unfoldable pub delete_callback_native :
      ℕ
      → ℕ
      → MonitoredItemContext R D F N
      → Adapter (Call D F N)
      → MonitoredItemContext R D F N × Adapter (Call D F N)
  unfolding adapter_invoke
  delete_callback_native sub_id mon_id self a = (
    record self { stale = true },
    adapter_invoke self.delete_callback (item_deleted sub_id mon_id) a,
  )

module _ {ℓ} {D F N : Type ℓ} where
  unfoldable pub status_change_callback_native :
      ℕ
      → Option (SubscriptionContext D F N)
      → Option N
      → Adapter (Call D F N)
      → Adapter (Call D F N)
  unfolding adapter_invoke
  status_change_callback_native sub_id (some self) (some notification) a =
      adapter_invoke self.status_change_callback (status_change sub_id notification) a
  status_change_callback_native sub_id _ _ a = a

  unfoldable pub delete_subscription_callback_native :
      ℕ
      → SubscriptionContext D F N
      → Adapter (Call D F N)
      → SubscriptionContext D F N × Adapter (Call D F N)
  unfolding adapter_invoke
  delete_subscription_callback_native sub_id self a = (
    record self { stale = true },
    adapter_invoke self.delete_callback (subscription_deleted sub_id) a,
  )
