-- ===== src/NodeContexts.antt =====
-- The contexts of a server's nodes: NodeContext of include/open62541pp/detail/server_context.hpp,
-- UniqueOrRawPtr of detail/ptr.hpp, and the context map of a server. `K` is a node id, `S` a
-- session, `R` a numeric range and `V` a value. A user's object that is passed by reference
-- outlives its use.

pub mod Entry
pub mod Keys
pub mod Operations
pub mod Owned
pub mod Step
pub mod History
pub mod Served
use open62541pp.Prelude.{ℕ, suc, ◌==◌, Bool, true, false, if◌then◌else◌, Option, none, some, List}
use mathlib.Core.Option
use open62541pp.Map.{Map, find, insert}
use open62541pp.Map.Order.{Ord}
use open62541pp.Status.{StatusCodes, good}
use open62541pp.Outcome.{Outcome, ok, throw, undefined, throw_if_bad, get_status_code, ◌>>=◌}
use open62541pp.Result.{Result, from_value, from_bad}
use open62541pp.Outcome.Catcher.{Callback}

-- `unique_ptr` owns what `raw_ptr` points to, or is null.
pub record UniqueOrRawPtr {ℓ} (T : Type ℓ) : Type ℓ where
  pub unique_ptr : Option T
  pub raw_ptr : Option T

module _ {ℓ} {T : Type ℓ} where
  unfoldable pub from_unique : Option T → UniqueOrRawPtr T
  from_unique ptr = record { unique_ptr = ptr; raw_ptr = ptr }

  unfoldable pub from_raw : Option T → UniqueOrRawPtr T
  from_raw ptr = record { unique_ptr = none; raw_ptr = ptr }

  unfoldable pub get : UniqueOrRawPtr T → Option T
  get p = p.raw_ptr

-- What a node's callback is called with.
pub record Args (K S R V : Type 0) : Type 0 where
  pub session : S
  pub node_id : K
  pub range : Option R
  pub value : V

pub record ValueCallbackBase (K S R V : Type 0) : Type 0 where
  pub on_read : Callback (Args K S R V)
  pub on_write : Callback (Args K S R V)

-- `read` is told whether to set a timestamp, and leaves a value behind besides its outcome.
pub record DataSourceBase (K S R V : Type 0) : Type 0 where
  pub read : Args K S R V → Bool → Outcome ℕ × V
  pub write : Args K S R V → Outcome ℕ

-- The std::variant of the two signatures; a std::function may be empty. Both leave the output
-- arguments behind; the full one is told the session and the ids of the method and its object.
pub data MethodCallback (K S V : Type 0) : Type 0 where
  simple : Option (List V → List V → Outcome (Unit {0}) × List V) → MethodCallback K S V
  full : Option (S → K → K → List V → List V → Outcome ℕ × List V) → MethodCallback K S V

pub record NodeContext (K S R V : Type 0) : Type 0 where
  pub value_callback : UniqueOrRawPtr (ValueCallbackBase K S R V)
  pub data_source : UniqueOrRawPtr (DataSourceBase K S R V)
  pub method_callback : MethodCallback K S V

abbrev pub empty_context : {K S R V : Type 0} → NodeContext K S R V
empty_context = record {
  value_callback = record { unique_ptr = none; raw_ptr = none };
  data_source = record { unique_ptr = none; raw_ptr = none };
  method_callback = simple none;
}

-- The context map, and the contexts that are alive, by address; no address from `next` on is in use.
pub record Contexts (K S R V : Type 0) : Type 0 where
  pub node_contexts : Map K ℕ
  pub heap : ℕ → Option (NodeContext K S R V)
  pub next : ℕ

-- The functions of the C library that set a node's context pointer and callbacks: each returns a
-- status and the nodes afterwards.
pub record NodeStore (K N : Type 0) : Type 0 where
  pub set_node_context : K → ℕ → N → ℕ × N
  pub set_value_callback : K → N → ℕ × N
  pub set_data_source : K → N → ℕ × N
  pub set_method_callback : K → N → ℕ × N
  pub add_method_node : K → ℕ → N → ℕ × K × N
  pub context_of : K → N → Option ℕ

abbrev pub update {ℓ} : {A : Type ℓ} → (ℕ → Option A) → ℕ → Option A → ℕ → Option A
update heap a v b = if a == b then v else heap b

unfoldable pub free {ℓ} : {A : Type ℓ} → Option ℕ → (ℕ → Option A) → ℕ → Option A
free none heap = heap
free (some old) heap = update heap old none

module _ {K S R V : Type 0} ⦃o : Ord K⦄ where
  -- `nodeContexts[id]`: the address, and the contexts afterwards. `eraseStale` does nothing here,
  -- as a NodeContext has no member `stale`.
  unfoldable pub obtain_at : K → Contexts K S R V → Option ℕ → ℕ × Contexts K S R V
  obtain_at id s (some a) = (a, s)
  obtain_at id s none = (
    s.next,
    record {
      node_contexts = insert id s.next s.node_contexts;
      heap = update s.heap s.next (some empty_context);
      next = suc s.next;
    },
  )

  unfoldable pub obtain : K → Contexts K S R V → ℕ × Contexts K S R V
  unfolding obtain_at
  obtain id s = obtain_at id s (find id s.node_contexts)

  -- An assignment through a pointer to a context that is alive.
  unfoldable pub modify :
      (NodeContext K S R V → NodeContext K S R V) → ℕ → Contexts K S R V → Contexts K S R V
  modify f a s = record s { heap = update s.heap a (Option.map f (s.heap a)) }

  -- `nodeContexts.insert(id, std::move(nodeContext))`: a context that stood there is deleted.
  unfoldable pub insert_owned : K → ℕ → Contexts K S R V → Contexts K S R V
  unfolding free
  insert_owned id a s = record s {
    node_contexts = insert id a s.node_contexts;
    heap = free (find id s.node_contexts) s.heap;
  }

  -- `std::make_unique<NodeContext>()`, with a method callback.
  unfoldable pub make_context : MethodCallback K S V → Contexts K S R V → Contexts K S R V
  make_context callback s = record s {
    heap = update s.heap s.next (some (record empty_context { method_callback = callback }));
    next = suc s.next;
  }

  unfoldable pub delete_context : ℕ → Contexts K S R V → Contexts K S R V
  delete_context a s = record s { heap = update s.heap a none }
