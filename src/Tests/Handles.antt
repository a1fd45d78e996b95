-- ===== src/Tests/Handles.antt =====
-- Examples of Server objects that are moved, assigned and destroyed.
use open62541pp.Prelude.{◌≡◌, refl, ◌==◌, true, false, arith, if◌then◌else◌, none, some, [], ◌∷◌}
use open62541pp.Outcome.{ok, ◌>>=◌}
use open62541pp.Server.Handles.{
  Program, shut_down, deleted, moved_from, move_construct, move_assign, destroy,
}
use open62541pp.Server.Handles.Moves.{
  IsHandle, with_deleted, move_assign-IsHandle, move_construct-destroy,
}

-- The objects at 1 and 2 have the contexts 5 and 6, and the native servers 7 and 8; only the first
-- server runs.
abbrev two_servers : Program
two_servers = record {
  wrappers = λ a.
      if a == 1
      then some (record { context = some 5; server = some 7 })
      else if a == 2
      then some (record { context = some 6; server = some 8 })
      else none;
  contexts = λ c. if c == 5 then some true else if c == 6 then some false else none;
  servers = λ id. if id == 7 then some (some 1) else if id == 8 then some (some 2) else none;
  next_context = 9;
  calls = [];
}

first-IsHandle : IsHandle two_servers 1 5 7 true
first-IsHandle = record { wrapper = refl; context = refl; pointer = refl }

second-IsHandle : IsHandle two_servers 2 6 8 false
second-IsHandle = record { wrapper = refl; context = refl; pointer = refl }

-- The running server is deleted and not shut down.
move_assign-IsHandle_example :
    (q : Program) × (move_assign 1 2 two_servers ≡ ok q)
    × IsHandle q 1 6 8 false
    × (q.wrappers 2 ≡ some moved_from)
    × (q.servers 7 ≡ none)
    × (q.contexts 5 ≡ none)
    × (q.calls ≡ with_deleted 7 false [])
move_assign-IsHandle_example =
    move_assign-IsHandle two_servers 1 2 5 6 7 8 true false (λ e. omega (arith, e))
      (λ e. omega (arith, e)) (λ e. omega (arith, e)) first-IsHandle second-IsHandle

move_construct-destroy_example :
    (q : Program) × ((move_construct 3 1 two_servers >>= destroy 1 >>= destroy 3) ≡ ok q)
    × (q.wrappers 3 ≡ none)
    × (q.wrappers 1 ≡ none)
    × (q.servers 7 ≡ none)
    × (q.contexts 5 ≡ none)
    × (q.calls ≡ deleted 7 ∷ shut_down 7 ∷ [])
move_construct-destroy_example =
    move_construct-destroy two_servers 3 1 5 7 true (λ e. omega (arith, e)) first-IsHandle
