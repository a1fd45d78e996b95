-- ===== src/Tests/Nodes.antt =====
-- Examples of node contexts.
use open62541pp.Prelude.{
  ℕ, ◌==◌, ◌≡◌, refl, true, false, ltb, if◌then◌else◌, Option, none, some, List, [], ◌∷◌, arith,
}
use open62541pp.Map.{find, insert}
use open62541pp.Map.Order.{nat_ord, same}
use open62541pp.Status.{is_bad}
use open62541pp.Outcome.{ok, throw_if_bad, std_exception}
use open62541pp.Outcome.Catcher.{Catcher, Adapter, adapter_invoke}
use open62541pp.Tests.Codes.{codes}
use open62541pp.NodeContexts.{
  UniqueOrRawPtr, Args, ValueCallbackBase, DataSourceBase, simple, NodeContext, Contexts, NodeStore,
  update, get,
}
use open62541pp.NodeContexts.Operations.{
  set_variable_node_value_callback, set_variable_node_value_backend, add_method,
  set_method_callback,
}
use open62541pp.NodeContexts.Entry.{load, on_read_native, on_write_native}
use open62541pp.NodeContexts.Keys.{with_key}
use open62541pp.NodeContexts.Step.{IsNodeStore}
use open62541pp.NodeContexts.History.{
  Operation, value_callback, value_backend, new_method, method_changed, after_all, initial,
  after_all-load, initial-IsSound,
}
use open62541pp.NodeContexts.Served.{IsAt, set_variable_node_value_callback-serves}

-- The nodes with an id below 10 exist; a node is its context pointer.
abbrev Nodes : Type 0
Nodes = ℕ → Option ℕ

abbrev bad : ℕ
bad = 2147680256

abbrev put_node : ℕ → ℕ → Nodes → ℕ × Nodes
put_node id a n = if ltb id 10 then (0, update n id (some a)) else (bad, n)

abbrev native : NodeStore ℕ Nodes
native = record {
  set_node_context = put_node;
  set_value_callback = λ id n. (if ltb id 10 then 0 else bad, n);
  set_data_source = λ id n. (if ltb id 10 then 0 else bad, n);
  set_method_callback = λ id n. (if ltb id 10 then 0 else bad, n);
  add_method_node = λ id a n. ((put_node id a n).0, id, (put_node id a n).1);
  context_of = λ id n. n id;
}

bad-is_bad : (is_bad bad ≡ true) × (is_bad 0 ≡ false)
unfolding is_bad
bad-is_bad = (refl, refl)

put_node_refused :
    (id a : ℕ) (n : Nodes) (q : ℕ) → is_bad (put_node id a n).0 ≡ true → (put_node id a n).1 q ≡ n q
put_node_refused id a n q h = ground (arith, bad-is_bad)

put_node_set :
    (id a : ℕ) (n : Nodes) (q : ℕ)
    → is_bad (put_node id a n).0 ≡ false
    → (put_node id a n).1 q ≡ with_key id a q (n q)
put_node_set id a n q h = ground (arith, bad-is_bad)

native-IsNodeStore : IsNodeStore native
native-IsNodeStore = record {
  refused = put_node_refused;
  set = put_node_set;
  value_callback_set = λ id n q. refl;
  data_source_set = λ id n q. refl;
  method_callback_set = λ id n q. refl;
  not_added = put_node_refused;
  added = put_node_set;
}

abbrev no_nodes : Nodes
no_nodes id = none

-- `S` is the context of a session, `R` and `V` are numbers.
abbrev State : Type 0
State = Nodes × Contexts ℕ ℕ ℕ ℕ

-- Throws when it is told a write of 7.
abbrev watcher : ValueCallbackBase ℕ ℕ ℕ ℕ
watcher = record {
  on_read = λ args. none;
  on_write = λ args. if args.value == 7 then some std_exception else none;
}

abbrev source : DataSourceBase ℕ ℕ ℕ ℕ
source = record { read = λ args timestamp. (ok 0, 42); write = λ args. ok bad }

abbrev operations : List (Operation ℕ ℕ ℕ ℕ)
operations =
    value_callback 3 (record { unique_ptr = some watcher; raw_ptr = some watcher })
    ∷ new_method 4 (simple none)
    ∷ value_backend 12 (record { unique_ptr = none; raw_ptr = some source })
    ∷ method_changed 4 (simple none)
    ∷ value_backend 3 (record { unique_ptr = none; raw_ptr = some source })
    ∷ []

pointer_of_four : native.context_of 4 (after_all native operations (no_nodes, initial)).0 ≡ some 3
unfolding after_all set_variable_node_value_callback set_variable_node_value_backend add_method
    set_method_callback find throw_if_bad is_bad insert
pointer_of_four = refl

after_all-load_example :
    (find 4 (after_all native operations (no_nodes, initial)).1.node_contexts ≡ some 3)
    × (x : NodeContext ℕ ℕ ℕ ℕ) × (load (some 3) (after_all native operations (no_nodes, initial)).1
        ≡ ok x)
after_all-load_example =
    after_all-load native native-IsNodeStore operations no_nodes 4 3 (λ r. refl) pointer_of_four

abbrev watched : UniqueOrRawPtr (ValueCallbackBase ℕ ℕ ℕ ℕ)
watched = record { unique_ptr = some watcher; raw_ptr = some watcher }

abbrev start : State
start = (no_nodes, initial)

watched-get : get watched ≡ some watcher
unfolding get
watched-get = refl

watching : (set_variable_node_value_callback native 3 watched start).1 ≡ ok tt
unfolding set_variable_node_value_callback find throw_if_bad is_bad insert
watching = refl

set_variable_node_value_callback-serves_example :
    let state' = (set_variable_node_value_callback native 3 watched start).0 in
    (a : ℕ) × (x : NodeContext ℕ ℕ ℕ ℕ) × (native.context_of 3 state'.0 ≡ some a)
    × ((session : ℕ) (range : Option ℕ) (value : ℕ) (calls : List (Args ℕ ℕ ℕ ℕ)) (k : Catcher)
        → let args : Args ℕ ℕ ℕ ℕ = record {
          session = session;
          node_id = 3;
          range = range;
          value = value;
        } in
          let seen : Adapter (Args ℕ ℕ ℕ ℕ) = record { catcher = some k; calls = calls } in
          (on_read_native (some session) 3 (some a) range value state'.1 seen
            ≡ ok (adapter_invoke (some watcher.on_read) args seen))
          × (on_write_native (some session) 3 (some a) range value state'.1 seen
              ≡ ok (adapter_invoke (some watcher.on_write) args seen)))
    × IsAt start.1 (find 3 start.1.node_contexts) x
    × (state'.1.heap a ≡ some (record x { value_callback = watched }))
    × ((q : ℕ) (b : ℕ)
        → same 3 q ≡ false
        → native.context_of q no_nodes ≡ some b
        → (native.context_of q state'.0 ≡ some b) × (state'.1.heap b ≡ start.1.heap b))
set_variable_node_value_callback-serves_example =
    set_variable_node_value_callback-serves native native-IsNodeStore 3 watched watcher no_nodes
      initial watched-get (initial-IsSound native native-IsNodeStore no_nodes (λ q. refl)) watching
