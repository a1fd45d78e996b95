-- ===== src/Server/Handles.antt =====
-- The life of a Server object of src/server.cpp: its constructors, its destructor, moving, and the
-- Deleter of its native server. A Server owns a ServerContext and a native server, and the
-- configuration of the native server points back to the Server. Of a ServerContext the flag
-- `running` is kept.
pub mod Moves
use open62541pp.Prelude.{
  ℕ, suc, ◌==◌, Bool, true, false, if◌then◌else◌, Option, none, some, List, ◌∷◌,
}
use open62541pp.Status.{StatusCodes, bad_out_of_memory}
use open62541pp.Outcome.{Outcome, ok, throw, undefined, bad_status, ◌>>=◌}

-- The members of a Server: two unique pointers.
pub record Handles : Type 0 where
  pub context : Option ℕ
  pub server : Option ℕ

-- The calls of UA_Server_run_shutdown and UA_Server_delete.
pub data Call : Type 0 where
  shut_down : ℕ → Call
  deleted : ℕ → Call

-- Objects, contexts and native servers that are alive, by address. A native server has the address
-- that its configuration holds; `calls` has the last call first.
pub record Program : Type 0 where
  pub wrappers : ℕ → Option Handles
  pub contexts : ℕ → Option Bool
  pub servers : ℕ → Option (Option ℕ)
  pub next_context : ℕ
  pub calls : List Call

abbrev pub update {ℓ} : {A : Type ℓ} → (ℕ → Option A) → ℕ → Option A → ℕ → Option A
update memory a v b = if a == b then v else memory b

-- Reading through a pointer, which may be null or dangling.
unfoldable pub deref {ℓ} : {A : Type ℓ} → (ℕ → Option A) → Option ℕ → Outcome A
deref memory none = undefined
deref memory (some a) = elim (memory a) [ none ↦ undefined | some v ↦ ok v ]

-- `detail::getContext(server)->running`, by way of the object that the configuration points to.
unfoldable pub is_running : Program → ℕ → Outcome Bool
unfolding deref
is_running p id = do
  wrapper ← deref p.servers (some id)
  handles ← deref p.wrappers wrapper
  deref p.contexts handles.context

-- Server::Deleter
unfoldable pub delete_server : Option ℕ → Program → Outcome Program
unfolding is_running
delete_server none p = ok p
delete_server (some id) p = is_running p id >>= λ running. ok (record p {
  servers = update p.servers id none;
  calls = deleted id ∷ (if running then shut_down id ∷ p.calls else p.calls);
})

-- The destructor of a `std::unique_ptr<ServerContext>`.
unfoldable pub delete_context : Option ℕ → Program → Program
delete_context none p = p
delete_context (some c) p = record p { contexts = update p.contexts c none }

unfoldable pub set_wrapper_as_context_pointer : ℕ → Program → Outcome Program
unfolding deref
set_wrapper_as_context_pointer a p = deref p.wrappers (some a) >>= λ handles.
    deref p.servers handles.server >>= λ _. elim handles.server [
      | none ↦ undefined
      | some id ↦ ok (record p { servers = update p.servers id (some (some a)) })
    ]

-- The constructors, of an object at `a`: `native` is the native server, given or made from the
-- configuration, or null. When the constructor throws, the context is gone again.
unfoldable pub construct : ⦃c : StatusCodes⦄ → ℕ → Option ℕ → Program → Outcome Program
unfolding set_wrapper_as_context_pointer
construct a none p = throw (bad_status bad_out_of_memory)
construct a (some id) p = set_wrapper_as_context_pointer a (record p {
  wrappers =
      update p.wrappers a (some (record { context = some p.next_context; server = some id }));
  contexts = update p.contexts p.next_context (some false);
  next_context = suc p.next_context;
})

abbrev pub moved_from : Handles
moved_from = record { context = none; server = none }

unfoldable pub move_construct : ℕ → ℕ → Program → Outcome Program
unfolding deref set_wrapper_as_context_pointer
move_construct a other p = deref p.wrappers (some other) >>= λ handles.
    set_wrapper_as_context_pointer a
      (record p { wrappers = update (update p.wrappers other (some moved_from)) a (some handles) })

-- The first member is assigned before the second one.
unfoldable pub move_assign : ℕ → ℕ → Program → Outcome Program
unfolding deref delete_context delete_server set_wrapper_as_context_pointer
move_assign a other p = if a == other then ok p else (do
  handles ← deref p.wrappers (some a)
  handles' ← deref p.wrappers (some other)
  let context_moved = delete_context handles.context (record p {
    wrappers =
        update (update p.wrappers other (some (record handles' { context = none }))) a
          (some (record handles { context = handles'.context }));
  })
  let both_moved = record context_moved {
    wrappers = update (update p.wrappers other (some moved_from)) a (some handles');
  }
  q ← delete_server handles.server both_moved
  set_wrapper_as_context_pointer a q)

-- The members are destroyed in the reverse order of their declaration.
unfoldable pub destroy : ℕ → Program → Outcome Program
unfolding deref delete_context delete_server
destroy a p = do
  handles ← deref p.wrappers (some a)
  q ← delete_server handles.server p
  let r = delete_context handles.context q
  ok (record r { wrappers = update r.wrappers a none })
