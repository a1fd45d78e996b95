-- ===== src/Callbacks.antt =====
-- Timed and repeated callbacks of clients and servers: src/callback.cpp. The C library's functions
-- are arguments; the context that they are given is named by the id of its callback. Dates are not
-- before the year 1601 and below 2 ^ 63, so that the sums of toMonotonic do not wrap.
pub mod Once
use open62541pp.Prelude.{ℕ, ◌+◌, ◌-◌, Bool, true, false, Option, none, some, List, [], ◌∷◌}
use open62541pp.Map.{Map, find, insert}
use open62541pp.Map.Order.{nat_ord}
use open62541pp.Status.{StatusCodes}
use open62541pp.Outcome.{Outcome, ok, throw, undefined, throw_if_bad, ◌>>=◌, ◌>>◌}
use open62541pp.ContextMap.{Staleable, insert_context, erase_context}

-- A `std::function<void()>`: empty, or what calling it does.
abbrev pub Callback : Type 0
Callback = Option (Outcome (Unit {0}))

abbrev pub CallbackContext : Type 0
CallbackContext = Staleable Callback

-- `calls` are the ids of the functions that were called, the last one first.
pub record Connection : Type 0 where
  pub callbacks : Map ℕ CallbackContext
  pub calls : List ℕ

abbrev pub context_stale : CallbackContext → Bool
context_stale context = context.stale

-- The call under `tryInvoke`, whose result is dropped: an exception of any class ends there.
unfoldable pub call_item : ℕ → Callback → List ℕ → Outcome (List ℕ)
call_item id none calls = ok calls
call_item id (some undefined) calls = undefined
call_item id (some (ok _)) calls = ok (id ∷ calls)
call_item id (some (throw e)) calls = ok (id ∷ calls)

unfoldable pub update_context : Bool → CallbackContext → CallbackContext
update_context false context = context
update_context true context = record { stale = true; item = none }

-- The context that was erased from the map is a dangling pointer.
unfoldable pub invoke_context : ℕ → Bool → Connection → Option CallbackContext → Outcome Connection
unfolding call_item update_context
invoke_context id remove connection none = undefined
invoke_context id remove connection (some context) =
    call_item id context.item connection.calls >>= λ calls. ok (record {
      callbacks = insert id (update_context remove context) connection.callbacks;
      calls = calls;
    })

unfoldable pub invoke_callback : ℕ → Bool → Connection → Outcome Connection
unfolding invoke_context
invoke_callback id remove connection =
    invoke_context id remove connection (find id connection.callbacks)

unfoldable pub timed_callback : ℕ → Connection → Outcome Connection
unfolding invoke_callback
timed_callback id connection = invoke_callback id true connection

unfoldable pub repeated_callback : ℕ → Connection → Outcome Connection
unfolding invoke_callback
repeated_callback id connection = invoke_callback id false connection

-- `std::max(date - now + nowMonotonic, 0)`
unfoldable pub to_monotonic : ℕ → ℕ → ℕ → ℕ
to_monotonic now now_monotonic date = date + now_monotonic - now

module _ ⦃c : StatusCodes⦄ where
  -- What both functions do with the status and the id that the C library returns.
  unfoldable pub store_callback : Callback → ℕ × ℕ → Connection → Outcome (ℕ × Connection)
  store_callback callback (status, id) connection =
      throw_if_bad status
      >> ok (
        id,
        record connection {
          callbacks =
              insert_context context_stale id (record { stale = false; item = callback })
                connection.callbacks;
        },
      )

  unfoldable pub add_timed_callback :
      (ℕ → ℕ × ℕ) → ℕ × ℕ → Callback → ℕ → Connection → Outcome (ℕ × Connection)
  unfolding store_callback to_monotonic
  add_timed_callback native (now, now_monotonic) callback date connection =
      store_callback callback (native (to_monotonic now now_monotonic date)) connection

  unfoldable pub add_repeated_callback {ℓ} :
      {D : Type ℓ} → (D → ℕ × ℕ) → Callback → D → Connection → Outcome (ℕ × Connection)
  unfolding store_callback
  add_repeated_callback native callback interval connection =
      store_callback callback (native interval) connection

  unfoldable pub change_repeated_callback_interval {ℓ} :
      {D : Type ℓ} → (ℕ → D → ℕ) → ℕ → D → Outcome (Unit {0})
  change_repeated_callback_interval native id interval = throw_if_bad (native id interval)

-- The C library forgets the callback besides.
unfoldable pub remove_callback : ℕ → Connection → Connection
remove_callback id connection = record connection {
  callbacks = (erase_context id connection.callbacks).0;
}
