-- ===== src/Tests/Scheduled.antt =====
-- Examples of timed and repeated callbacks.
use open62541pp.Prelude.{ℕ, ◌≡◌, ◌≢◌, refl, false, none, some, [], ◌∷◌}
use open62541pp.Map.{find}
use open62541pp.Map.Order.{nat_ord}
use open62541pp.Status.{is_bad}
use open62541pp.Outcome.{foreign, ok, throw, undefined}
use open62541pp.ContextMap.{insert_context}
use open62541pp.Tests.Codes.{codes}
use open62541pp.Callbacks.{
  Callback, CallbackContext, Connection, context_stale, to_monotonic, add_timed_callback,
  timed_callback,
}
use open62541pp.Callbacks.Once.{
  called, repeat_callback, called_times, timed_callback-once, repeat_callback-called,
}

abbrev throwing : Callback
throwing = some (throw foreign)

throwing-ne-undefined : throwing ≢ some undefined
throwing-ne-undefined h = cc

abbrev other : CallbackContext
other = record { stale = false; item = some (ok tt) }

abbrev connection : Connection
connection = record { callbacks = (2, other) ∷ []; calls = [] }

abbrev native : ℕ → ℕ × ℕ
native date = (0, 7)

good-is_bad : is_bad 0 ≡ false
unfolding is_bad
good-is_bad = refl

timed_callback-once_example :
    (s1 s2 s3 : Connection) × (add_timed_callback native (1000, 50) throwing 1200 connection
      ≡ ok (7, s1))
    × (timed_callback 7 s1 ≡ ok s2)
    × (s2.calls ≡ called 7 throwing connection.calls)
    × (timed_callback 7 s2 ≡ ok s3)
    × (s3.calls ≡ s2.calls)
    × (find 7 (insert_context context_stale 9 other s3.callbacks) ≡ none)
timed_callback-once_example =
    timed_callback-once native 1000 50 throwing 1200 connection 0 7 9 other refl good-is_bad
      (tt, tt) throwing-ne-undefined refl

in_map : find 2 connection.callbacks ≡ some other
unfolding find
in_map = refl

other-ne-undefined : other.item ≢ some undefined
other-ne-undefined h = cc

repeat_callback-called_example :
    (s' : Connection) × (repeat_callback 3 2 connection ≡ ok s')
    × (s'.calls ≡ called_times 3 2 other.item connection.calls)
    × (find 2 s'.callbacks ≡ some other)
repeat_callback-called_example =
    repeat_callback-called 3 2 connection other in_map other-ne-undefined

counted : called_times 3 2 other.item connection.calls ≡ 2 ∷ 2 ∷ 2 ∷ []
unfolding called_times called
counted = refl

past : to_monotonic 1000 50 900 ≡ 0
unfolding to_monotonic
past = refl
