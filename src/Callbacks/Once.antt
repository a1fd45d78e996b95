-- ===== src/Callbacks/Once.antt =====
-- The life of a timed callback of src/callback.cpp.
use open62541pp.Prelude.{
  ℕ, zero, suc, ◌≡◌, ◌≢◌, refl, ◌∙◌, ap, Bool, true, false, if◌then◌else◌, none, some, List, ◌∷◌,
  arith,
}
use open62541pp.Map.{find, insert}
use open62541pp.Map.Order.{nat_ord, same}
use open62541pp.Map.Laws.{IsSorted, fresh, find-insert, insert-IsSorted}
use open62541pp.Outcome.{Outcome, ok, throw, undefined, throw_if_bad, ◌>>=◌}
use open62541pp.ContextMap.{insert_context}
use open62541pp.ContextMap.Laws.{find-insert_context}
use open62541pp.Callbacks.{
  Callback, CallbackContext, Connection, context_stale, call_item, update_context, invoke_context,
  invoke_callback, timed_callback, repeated_callback, store_callback, add_timed_callback,
  to_monotonic,
}
use open62541pp.Status.{StatusCodes, is_bad}

same_refl : (id : ℕ) → same id id ≡ true
same_refl id = ground arith

if_true {ℓ} : {A : Type ℓ} (b : Bool) (x y : A) → b ≡ true → (if b then x else y) ≡ x
if_true b x y h = rw h refl

if_false {ℓ} : {A : Type ℓ} (b : Bool) (x y : A) → b ≡ false → (if b then x else y) ≡ y
if_false b x y h = rw h refl

abbrev after_call : ℕ → Bool → Connection → CallbackContext → List ℕ → Connection
after_call id remove s context calls = record {
  callbacks = insert id (update_context remove context) s.callbacks;
  calls = calls;
}

invoke-found :
    (id : ℕ) (remove : Bool) (s : Connection) (context : CallbackContext) (calls : List ℕ)
    → find id s.callbacks ≡ some context
    → call_item id context.item s.calls ≡ ok calls
    → invoke_callback id remove s ≡ ok (after_call id remove s context calls)
unfolding invoke_callback invoke_context
invoke-found id remove s context calls h k =
    ap (invoke_context id remove s) h
    ∙ ap (λ m. m >>= λ calls'. ok (after_call id remove s context calls')) k

-- The calls once a function was called, whatever it returned or threw.
unfoldable pub called : ℕ → Callback → List ℕ → List ℕ
called id none calls = calls
called id (some _) calls = id ∷ calls

call_item-called :
    (id : ℕ) (callback : Callback) (calls : List ℕ)
    → callback ≢ some undefined
    → call_item id callback calls ≡ ok (called id callback calls)
unfolding call_item called
call_item-called id none calls defined = refl
call_item-called id (some (ok x)) calls defined = refl
call_item-called id (some (throw e)) calls defined = refl
call_item-called id (some undefined) calls defined = absurd (defined refl)

-- What is found under an id behind a call.
found_after :
    (id : ℕ) (remove : Bool) (s : Connection) (context : CallbackContext) (calls : List ℕ)
    → find id (after_call id remove s context calls).callbacks
      ≡ some (update_context remove context)
found_after id remove s context calls =
    find-insert id id (update_context remove context) s.callbacks ∙ if_true _ _ _ (same_refl id)

module _ ⦃c : StatusCodes⦄ where
  stored : (status : ℕ) → is_bad status ≡ false → throw_if_bad status ≡ ok tt
  unfolding throw_if_bad
  stored status fine = rw fine refl

  store_callback-found :
      (callback : Callback) (status id : ℕ) (s : Connection)
      → is_bad status ≡ false
      → IsSorted s.callbacks
      → (s' : Connection) × (store_callback callback (status, id) s ≡ ok (id, s'))
        × (find id s'.callbacks ≡ some (record { stale = false; item = callback }))
        × (s'.calls ≡ s.calls)
        × IsSorted s'.callbacks
  unfolding store_callback
  store_callback-found callback status id s fine sorted =
      let context : CallbackContext = record { stale = false; item = callback } in
      let (found, sorted') = find-insert_context context_stale s.callbacks sorted id id context in
      (
        record s { callbacks = insert_context context_stale id context s.callbacks },
        rw (stored status fine) refl,
        found ∙ if_true _ _ _ (same_refl id),
        refl,
        sorted',
      )

  -- The C library takes a timed callback with a status that is not bad, and calling the function
  -- returns or throws. Then the callback is added; when the C library fires it, the function is
  -- called, and nothing is thrown; if it were fired once more, nothing would be called; and the
  -- context is freed as soon as a callback with another id is added.
  pub timed_callback-once :
      (native : ℕ → ℕ × ℕ) (now now_monotonic : ℕ) (callback : Callback) (date : ℕ) (s : Connection)
      (status id q : ℕ) (other : CallbackContext)
      → native (to_monotonic now now_monotonic date) ≡ (status, id)
      → is_bad status ≡ false
      → IsSorted s.callbacks
      → callback ≢ some undefined
      → same q id ≡ false
      → (s1 s2 s3 : Connection) × (add_timed_callback native (now, now_monotonic) callback date s
          ≡ ok (id, s1))
        × (timed_callback id s1 ≡ ok s2)
        × (s2.calls ≡ called id callback s.calls)
        × (timed_callback id s2 ≡ ok s3)
        × (s3.calls ≡ s2.calls)
        × (find id (insert_context context_stale q other s3.callbacks) ≡ none)
  unfolding add_timed_callback timed_callback call_item update_context
  timed_callback-once native now now_monotonic callback date s status id q other answer fine sorted
        defined distinct =
      let (s1, added, found1, calls1, sorted1) =
        store_callback-found callback status id s fine sorted in
      let context : CallbackContext = record { stale = false; item = callback } in
      let gone : CallbackContext = record { stale = true; item = none } in
      let s2 = after_call id true s1 context (called id callback s1.calls) in
      let found2 = found_after id true s1 context (called id callback s1.calls) in
      let s3 = after_call id true s2 gone s2.calls in
      let sorted3 =
        insert-IsSorted id gone s2.callbacks (insert-IsSorted id gone s1.callbacks sorted1) in
      (
        s1,
        s2,
        s3,
        ap (λ r. store_callback callback r s) answer ∙ added,
        invoke-found id true s1 context (called id callback s1.calls) found1
            (call_item-called id callback s1.calls defined),
        ap (called id callback) calls1,
        invoke-found id true s2 gone s2.calls found2 refl,
        refl,
        (find-insert_context context_stale s3.callbacks sorted3 q id other).0
            ∙ if_false _ _ _ distinct
            ∙ ap (fresh context_stale) (found_after id true s2 gone s2.calls),
      )

-- The C library fires a callback `times` times.
unfoldable pub repeat_callback : ℕ → ℕ → Connection → Outcome Connection
unfolding repeated_callback
repeat_callback zero id s = ok s
repeat_callback (suc times) id s = repeated_callback id s >>= repeat_callback times id

unfoldable pub called_times : ℕ → ℕ → Callback → List ℕ → List ℕ
unfolding called
called_times zero id callback calls = calls
called_times (suc times) id callback calls =
    called_times times id callback (called id callback calls)

-- The function of a callback that is in the map is called each time that the callback fires as a
-- repeated one, whatever the function returns or throws, and the callback stays in the map.
pub repeat_callback-called :
    (times id : ℕ) (s : Connection) (context : CallbackContext)
    → find id s.callbacks ≡ some context
    → context.item ≢ some undefined
    → (s' : Connection) × (repeat_callback times id s ≡ ok s')
      × (s'.calls ≡ called_times times id context.item s.calls)
      × (find id s'.callbacks ≡ some context)
unfolding repeat_callback repeated_callback called_times update_context
repeat_callback-called zero id s context found defined = (s, refl, refl, found)
repeat_callback-called (suc times) id s context found defined =
    let calls = called id context.item s.calls in
    let next = after_call id false s context calls in
    let (s', done, count, found') =
      repeat_callback-called times id next context (found_after id false s context calls) defined in
    (
      s',
      ap (λ m. m >>= repeat_callback times id)
            (invoke-found id false s context calls found
              (call_item-called id context.item s.calls defined))
          ∙ done,
      count,
      found',
    )
