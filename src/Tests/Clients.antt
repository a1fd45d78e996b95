-- ===== src/Tests/Clients.antt =====
-- Examples of the client's callbacks and its loop.
use open62541pp.Prelude.{
  ℕ, ◌+◌, ◌≡◌, refl, true, false, if◌then◌else◌, none, some, List, [], ◌∷◌, map, anyb,
}
use open62541pp.Outcome.{std_exception}
use open62541pp.Outcome.Catcher.{no_exception}
use open62541pp.Tests.Codes.{codes}
use open62541pp.Client.States.{connected, StateCodes, ClientContext, state_callbacks_run}
use open62541pp.Client.Edges.{count, entries, is_set, reported, count-state_callbacks_run}
use open62541pp.Client.Loop.{Iteration, State, run, is_running}
use open62541pp.Client.Ending.{Ends, is_waiting, quits, run-Ends}

instance abbrev state_codes : StateCodes
state_codes = record {
  channel_open = 6;
  channel_closed = 0;
  session_active = 4;
  session_closed_code = 0;
  channels_differ = refl;
  sessions_differ = refl;
}

abbrev client : ClientContext
client = record {
  adapter = record { catcher = some no_exception; calls = [] };
  last_session_state = 0;
  last_channel_state = 0;
  state_callbacks = λ s. some (λ call. none);
}

-- Connect, lose the channel, connect again.
abbrev reports : List (ℕ × ℕ)
reports = (1, 0) ∷ (6, 0) ∷ (6, 4) ∷ (0, 2) ∷ (6, 4) ∷ []

count-state_callbacks_run_example :
    count connected (state_callbacks_run reports client).adapter.calls
    ≡ 0 + (if is_set client connected then entries 6 0 (map (reported connected) reports) else 0)
unfolding count
count-state_callbacks_run_example = count-state_callbacks_run connected reports client

connected_twice : entries 6 0 (map (reported connected) reports) ≡ 2
unfolding entries
connected_twice = refl

abbrev iterations : List Iteration
iterations =
    record { status = 0; thrown = none ∷ []; stops = false }
    ∷ record { status = 0; thrown = none ∷ some std_exception ∷ []; stops = false }
    ∷ record { status = 0; thrown = []; stops = true }
    ∷ []

abbrev idle : State
idle = record { running = false; catcher = no_exception }

run-Ends_example :
    let r = run iterations idle in
    Ends none iterations r.1
    × (is_running r.0 ≡ is_waiting r.1)
    × (anyb quits iterations ≡ true → is_running r.0 ≡ false)
run-Ends_example = run-Ends iterations idle refl
