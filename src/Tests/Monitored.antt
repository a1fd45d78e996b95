-- ===== src/Tests/Monitored.antt =====
-- Examples of monitored items.
use open62541pp.Prelude.{
  ℕ, ◌==◌, ◌&&◌, ◌≡◌, refl, Bool, true, false, none, some, List, [], ◌∷◌, anyb,
}
use open62541pp.Map.{find}
use open62541pp.Map.Order.{nat_ord, pair_ord, same}
use open62541pp.Status.{is_good}
use open62541pp.Outcome.{ok}
use open62541pp.Outcome.Catcher.{Callback, no_exception}
use open62541pp.Monitoring.Contexts.{Call, MonitoredItemContext}
use open62541pp.Monitoring.Create.{
  Connection, CreateResult, make_monitored_item_context, make_monitored_item_contexts,
  create_monitored_items_data_change,
}
use open62541pp.Monitoring.Notify.{monitored_items}
use open62541pp.Monitoring.Delivery.{live, Stored, last_good, created}
use open62541pp.Monitoring.Lifecycle.{
  answered, IsServed, create_monitored_items_data_change-Stored, created-IsServed,
  monitored_items-live,
}

abbrev quiet : Callback (Call ℕ ℕ ℕ)
quiet call = none

abbrev context : ℕ → Bool → MonitoredItemContext ℕ ℕ ℕ ℕ
context item stale = record {
  stale = stale;
  inserted = true;
  item_to_monitor = item;
  data_change_callback = none;
  event_callback = none;
  delete_callback = none;
}

-- Subscription 2 has an item in use and a deleted one.
abbrev connection : Connection ℕ ℕ ℕ ℕ
connection = record {
  adapter = record { catcher = some no_exception; calls = [] };
  subscriptions = [];
  monitored_items = ((2, 3), context 100 true) ∷ ((2, 8), context 101 false) ∷ [];
}

abbrev items : List ℕ
items = 200 ∷ 201 ∷ []

-- The first item is created under the id of the deleted one, the second is refused.
abbrev results : List CreateResult
results =
    record { status_code = 0; monitored_item_id = 3 }
    ∷ record { status_code = 2147614720; monitored_item_id = 0 }
    ∷ []

create_monitored_items_data_change-Stored_example :
    (c' : Connection ℕ ℕ ℕ ℕ) × (create_monitored_items_data_change 2 items
        (some quiet)
        (some quiet)
        ((0, 3, 7) ∷ [])
        0
        results
        connection
      ≡ ok c')
    × Stored 2
        (answered 0 results)
        (make_monitored_item_contexts items (some quiet) none (some quiet))
        connection
        c'
        (2, 8)
create_monitored_items_data_change-Stored_example =
    create_monitored_items_data_change-Stored 2 items (some quiet) (some quiet) ((0, 3, 7) ∷ []) 0
      results connection (2, 8) refl ((refl, tt), (tt, tt))

abbrev first_context : MonitoredItemContext ℕ ℕ ℕ ℕ
first_context = record {
  stale = false;
  inserted = false;
  item_to_monitor = 200;
  data_change_callback = some quiet;
  event_callback = none;
  delete_callback = some quiet;
}

first_created :
    created 2
      (answered 0 results)
      (make_monitored_item_contexts items (some quiet) none (some quiet))
      (2, 3)
    ≡ some first_context
unfolding last_good make_monitored_item_contexts make_monitored_item_context is_good
first_created = refl

created-IsServed_example :
    (c' : Connection ℕ ℕ ℕ ℕ) × (create_monitored_items_data_change 2 items
        (some quiet)
        (some quiet)
        ((0, 3, 7) ∷ [])
        0
        results
        connection
      ≡ ok c')
    × IsServed 2 3 (some quiet) (some quiet) connection.adapter c'
created-IsServed_example =
    created-IsServed 2 3 items (some quiet) (some quiet) ((0, 3, 7) ∷ []) 0 results connection
      first_context refl ((refl, tt), (tt, tt)) first_created

monitored_items-live_example :
    let r = monitored_items 2 connection in
    (anyb (same (2, 3)) r.1
      ≡ (2 == 2 && elim (live (2, 3) connection) [ none ↦ false | some _ ↦ true ]))
    × (find (2, 3) r.0.monitored_items ≡ live (2, 3) connection)
    × (r.0.adapter ≡ connection.adapter)
monitored_items-live_example = monitored_items-live 2 (2, 3) connection ((refl, tt), (tt, tt))
