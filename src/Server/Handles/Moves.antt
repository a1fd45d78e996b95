-- ===== src/Server/Handles/Moves.antt =====
-- What a Server object deletes when it is destroyed, moved from, or assigned to.
use open62541pp.Prelude.{ℕ, ◌≡◌, ◌≢◌, refl, ap, Bool, if◌then◌else◌, none, some, List, ◌∷◌, arith}
use open62541pp.Outcome.{ok, ◌>>=◌}
use open62541pp.Server.Handles.{
  Call, shut_down, deleted, Program, update, moved_from, move_construct, move_assign, destroy,
}

-- The object at `a` is alive and owns the context `c` and the native server `id`, both alive; the
-- native server's configuration points to the object; `r` is whether the server runs.
pub record IsHandle (p : Program) (a c id : ℕ) (r : Bool) : Type 0 where
  pub wrapper : p.wrappers a ≡ some (record { context = some c; server = some id })
  pub context : p.contexts c ≡ some r
  pub pointer : p.servers id ≡ some (some a)

-- The calls that the Deleter makes for the native server `id`.
abbrev pub with_deleted : ℕ → Bool → List Call → List Call
with_deleted id running calls = deleted id ∷ (if running then shut_down id ∷ calls else calls)

-- The end of a Server: its native server is shut down if it runs, and deleted; then its context is
-- deleted; all else is as before.
pub destroy-deletes :
    (p : Program) (a c id : ℕ) (r : Bool)
    → IsHandle p a c id r
    → destroy a p
      ≡ ok (record p {
        wrappers = update p.wrappers a none;
        contexts = update p.contexts c none;
        servers = update p.servers id none;
        calls = with_deleted id r p.calls;
      })
unfolding destroy
destroy-deletes p a c id r h = ground (arith)

-- The new object owns what the other had, the other nothing, and nothing is deleted.
pub move_construct-IsHandle :
    (p : Program) (a b c id : ℕ) (r : Bool)
    → a ≢ b
    → IsHandle p b c id r
    → (q : Program) × (move_construct a b p ≡ ok q)
      × IsHandle q a c id r
      × (q.wrappers b ≡ some moved_from)
      × (q.calls ≡ p.calls)
unfolding move_construct
move_construct-IsHandle p a b c id r apart h = (
  record p {
    wrappers =
        update (update p.wrappers b (some moved_from)) a
          (some (record { context = some c; server = some id }));
    servers = update p.servers id (some (some a));
  },
  ground arith,
  record { wrapper = ground arith; context = ground arith; pointer = ground arith },
  ground arith,
  refl,
)

-- A Server is moved to another one, both alive with a context and a native server of their own:
-- no step has undefined behaviour; the target owns what the other had, the other nothing; the old
-- native server and the old context of the target are deleted. Whether the old native server is shut
-- down before is decided by the flag of the other one's context: it is shut down if the other server
-- runs, whether it runs itself or not.
pub move_assign-IsHandle :
    (p : Program) (a b c c' id id' : ℕ) (r r' : Bool)
    → a ≢ b
    → c ≢ c'
    → id ≢ id'
    → IsHandle p a c id r
    → IsHandle p b c' id' r'
    → (q : Program) × (move_assign a b p ≡ ok q)
      × IsHandle q a c' id' r'
      × (q.wrappers b ≡ some moved_from)
      × (q.servers id ≡ none)
      × (q.contexts c ≡ none)
      × (q.calls ≡ with_deleted id r' p.calls)
unfolding move_assign
move_assign-IsHandle p a b c c' id id' r r' apart apart_c apart_id h h' = (
  record p {
    wrappers =
        update (update p.wrappers b (some moved_from)) a
          (some (record { context = some c'; server = some id' }));
    contexts = update p.contexts c none;
    servers = update (update p.servers id none) id' (some (some a));
    calls = with_deleted id r' p.calls;
  },
  ground arith,
  record { wrapper = ground arith; context = ground arith; pointer = ground arith },
  ground arith,
  ground arith,
  ground arith,
  refl,
)

-- The end of an object that was moved from: nothing is deleted.
destroy-moved_from :
    (p : Program) (a : ℕ)
    → p.wrappers a ≡ some moved_from
    → destroy a p ≡ ok (record p { wrappers = update p.wrappers a none })
unfolding destroy
destroy-moved_from p a h = ground arith

-- A Server at `b` is moved to a new object at `a`, and both objects come to their end, the one
-- moved from first: no step has undefined behaviour, the native server is deleted once, shut down
-- before if it runs, and it and the context are gone.
pub move_construct-destroy :
    (p : Program) (a b c id : ℕ) (r : Bool)
    → a ≢ b
    → IsHandle p b c id r
    → (q : Program) × ((move_construct a b p >>= destroy b >>= destroy a) ≡ ok q)
      × (q.wrappers a ≡ none)
      × (q.wrappers b ≡ none)
      × (q.servers id ≡ none)
      × (q.contexts c ≡ none)
      × (q.calls ≡ with_deleted id r p.calls)
move_construct-destroy p a b c id r apart h =
    let (m, moved, owner, left, calls) = move_construct-IsHandle p a b c id r apart h in
    let m' : Program = record m { wrappers = update m.wrappers b none } in
    let owner' : IsHandle m' a c id r = record {
      wrapper = ground (arith, owner.wrapper, apart);
      context = owner.context;
      pointer = owner.pointer;
    } in
    (
      record m' {
        wrappers = update m'.wrappers a none;
        contexts = update m.contexts c none;
        servers = update m.servers id none;
        calls = with_deleted id r m.calls;
      },
      rw (moved, destroy-moved_from m b left) (destroy-deletes m' a c id r owner'),
      ground arith,
      ground arith,
      ground arith,
      ground arith,
      ap (with_deleted id r) calls,
    )
