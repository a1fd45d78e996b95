-- ===== src/Client/Edges.antt =====
-- How often each state callback is called.
use open62541pp.Prelude.{
  ℕ, ◌+◌, ◌≡◌, refl, Bool, true, false, ◌==◌, not, ◌&&◌, ◌||◌, if◌then◌else◌, Option, none, some,
  List, [], ◌∷◌, map, arith,
}
use open62541pp.Outcome.Catcher.{Callback, Adapter, adapter_invoke}
use open62541pp.Client.States.{
  ClientState, disconnected, connected, session_activated, session_closed, StateCodes,
  ClientContext, invoke_state_callback, session_switch, channel_switch, state_callback,
  state_callbacks_run, state_eq,
}

-- How often a state is entered from another one.
unfoldable pub entries : ℕ → ℕ → List ℕ → ℕ
entries state last [] = 0
entries state last (x ∷ xs) =
    (if x == state && not (last == state) then 1 else 0) + entries state x xs

unfoldable pub count : ClientState → List ClientState → ℕ
count s [] = 0
count s (x ∷ xs) = (if state_eq s x then 1 else 0) + count s xs

abbrev pub is_set : ClientContext → ClientState → Bool
is_set c s = elim (c.state_callbacks s) [ none ↦ false | some _ ↦ true ]

module _ ⦃k : StateCodes⦄ where
  -- The state that a callback is about, and where it is found in a report and in the context.
  abbrev pub code_of : ClientState → ℕ
  code_of disconnected = k.channel_closed
  code_of connected = k.channel_open
  code_of session_activated = k.session_active
  code_of session_closed = k.session_closed_code

  abbrev pub reported : ClientState → ℕ × ℕ → ℕ
  reported disconnected report = report.0
  reported connected report = report.0
  reported session_activated report = report.1
  reported session_closed report = report.1

  abbrev pub last_reported : ClientState → ClientContext → ℕ
  last_reported s c = reported s (c.last_channel_state, c.last_session_state)

  count-adapter_invoke :
      (s t : ClientState) (f : Option (Callback ClientState)) (a : Adapter ClientState)
      → count s (adapter_invoke f t a).calls
        ≡ (if elim f [ none ↦ false | some _ ↦ true ] && state_eq s t then 1 else 0)
          + count s a.calls
  unfolding count adapter_invoke
  count-adapter_invoke s t none a = ground arith
  count-adapter_invoke s t (some f) a = ground arith

  count-invoke :
      (s t : ClientState) (c : ClientContext)
      → count s (invoke_state_callback t c).adapter.calls
        ≡ (if is_set c t && state_eq s t then 1 else 0) + count s c.adapter.calls
  unfolding invoke_state_callback
  count-invoke s t c = count-adapter_invoke s t (c.state_callbacks t) c.adapter

  -- What one change of a state adds.
  count-session_switch :
      (s : ClientState) (session : ℕ) (c : ClientContext)
      → count s (session_switch session c).adapter.calls
        ≡ count s c.adapter.calls
          + (if is_set c s
                && ((state_eq s session_activated && session == k.session_active)
                    || (state_eq s session_closed && session == k.session_closed_code))
              then 1
              else 0)
  unfolding session_switch
  count-session_switch disconnected session c = ground (
    arith,
    count-invoke disconnected session_activated c,
    count-invoke disconnected session_closed c,
  )
  count-session_switch connected session c =
      ground
        (arith, count-invoke connected session_activated c, count-invoke connected session_closed c)
  count-session_switch session_activated session c = ground (
    arith,
    k.sessions_differ,
    count-invoke session_activated session_activated c,
    count-invoke session_activated session_closed c,
  )
  count-session_switch session_closed session c = ground (
    arith,
    k.sessions_differ,
    count-invoke session_closed session_activated c,
    count-invoke session_closed session_closed c,
  )

  count-channel_switch :
      (s : ClientState) (channel : ℕ) (c : ClientContext)
      → count s (channel_switch channel c).adapter.calls
        ≡ count s c.adapter.calls
          + (if is_set c s
                && ((state_eq s connected && channel == k.channel_open)
                    || (state_eq s disconnected && channel == k.channel_closed))
              then 1
              else 0)
  unfolding channel_switch
  count-channel_switch disconnected channel c = ground (
    arith,
    k.channels_differ,
    count-invoke disconnected connected c,
    count-invoke disconnected disconnected c,
  )
  count-channel_switch connected channel c = ground (
    arith,
    k.channels_differ,
    count-invoke connected connected c,
    count-invoke connected disconnected c,
  )
  count-channel_switch session_activated channel c = ground (
    arith,
    count-invoke session_activated connected c,
    count-invoke session_activated disconnected c,
  )
  count-channel_switch session_closed channel c =
      ground
        (arith, count-invoke session_closed connected c, count-invoke session_closed disconnected c)

  session_switch-keeps :
      (session : ℕ) (c : ClientContext)
      → ((session_switch session c).state_callbacks ≡ c.state_callbacks)
        × ((session_switch session c).last_channel_state ≡ c.last_channel_state)
  unfolding session_switch invoke_state_callback
  session_switch-keeps session c = ground arith

  channel_switch-keeps :
      (channel : ℕ) (c : ClientContext)
      → (channel_switch channel c).state_callbacks ≡ c.state_callbacks
  unfolding channel_switch invoke_state_callback
  channel_switch-keeps channel c = ground arith

  count-state_callback :
      (s : ClientState) (channel session : ℕ) (c : ClientContext)
      → count s (state_callback channel session c).adapter.calls
        ≡ count s c.adapter.calls
          + (if is_set c s
                && (reported s (channel, session) == code_of s
                    && not (last_reported s c == code_of s))
              then 1
              else 0)
  unfolding state_callback
  count-state_callback disconnected channel session c = ground (
    arith,
    count-session_switch disconnected session c,
    session_switch-keeps session c,
    count-channel_switch disconnected channel c,
    count-channel_switch disconnected channel (session_switch session c),
  )
  count-state_callback connected channel session c = ground (
    arith,
    count-session_switch connected session c,
    session_switch-keeps session c,
    count-channel_switch connected channel c,
    count-channel_switch connected channel (session_switch session c),
  )
  count-state_callback session_activated channel session c = ground (
    arith,
    count-session_switch session_activated session c,
    session_switch-keeps session c,
    count-channel_switch session_activated channel c,
    count-channel_switch session_activated channel (session_switch session c),
  )
  count-state_callback session_closed channel session c = ground (
    arith,
    count-session_switch session_closed session c,
    session_switch-keeps session c,
    count-channel_switch session_closed channel c,
    count-channel_switch session_closed channel (session_switch session c),
  )

  state_callback-keeps :
      (s : ClientState) (channel session : ℕ) (c : ClientContext)
      → ((state_callback channel session c).state_callbacks ≡ c.state_callbacks)
        × (last_reported s (state_callback channel session c) ≡ reported s (channel, session))
  unfolding state_callback
  state_callback-keeps s channel session c = (
    ground (
      arith,
      session_switch-keeps session c,
      channel_switch-keeps channel c,
      channel_switch-keeps channel (session_switch session c),
    ),
    elim s [
      | disconnected ↦ refl
      | connected ↦ refl
      | session_activated ↦ refl
      | session_closed ↦ refl
    ],
  )

  -- Whatever states the C library reports, each of the four callbacks, if set, is called once for
  -- every time that its state is entered from another one, counted from the state that was last
  -- reported before; and a callback that is not set is not called.
  pub count-state_callbacks_run :
      (s : ClientState) (reports : List (ℕ × ℕ)) (c : ClientContext)
      → count s (state_callbacks_run reports c).adapter.calls
        ≡ count s c.adapter.calls
          + (if is_set c s
              then entries (code_of s) (last_reported s c) (map (reported s) reports)
              else 0)
  unfolding state_callbacks_run entries
  count-state_callbacks_run s [] c = ground arith
  count-state_callbacks_run s ((channel, session) ∷ reports) c =
      let (same_callbacks, last) = state_callback-keeps s channel session c in
      ground (
        arith,
        same_callbacks,
        last,
        count-state_callback s channel session c,
        count-state_callbacks_run s reports (state_callback channel session c),
      )
