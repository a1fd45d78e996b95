-- ===== src/Client/States.antt =====
-- State callbacks of src/client.cpp, for open62541 from v1.1 on, with the members of
-- include/open62541pp/detail/client_context.hpp that they use. `Adapter` holds the exception catcher
-- and what the user has seen.
use open62541pp.Prelude.{ℕ, ◌≡◌, Bool, true, false, ◌==◌, if◌then◌else◌, Option, List, [], ◌∷◌}
use open62541pp.Outcome.Catcher.{Callback, Adapter, adapter_invoke}

-- detail::ClientState
pub data ClientState : Type 0 where
  disconnected connected session_activated session_closed : ClientState

-- The enumerators of UA_SecureChannelState and UA_SessionState that the source names. Their values
-- are those of open62541's headers.
pub record StateCodes : Type 0 where
  pub channel_open : ℕ
  pub channel_closed : ℕ
  pub session_active : ℕ
  pub session_closed_code : ℕ
  pub channels_differ : (channel_open == channel_closed) ≡ false
  pub sessions_differ : (session_active == session_closed_code) ≡ false

pub record ClientContext : Type 0 where
  pub adapter : Adapter ClientState
  pub last_session_state : ℕ
  pub last_channel_state : ℕ
  pub state_callbacks : ClientState → Option (Callback ClientState)

unfoldable pub invoke_state_callback : ClientState → ClientContext → ClientContext
unfolding adapter_invoke
invoke_state_callback state context = record context {
  adapter = adapter_invoke (context.state_callbacks state) state context.adapter;
}

module _ ⦃k : StateCodes⦄ where
  unfoldable pub session_switch : ℕ → ClientContext → ClientContext
  unfolding invoke_state_callback
  session_switch session_state context =
      if session_state == k.session_active
      then invoke_state_callback session_activated context
      else if session_state == k.session_closed_code
      then invoke_state_callback session_closed context
      else context

  unfoldable pub channel_switch : ℕ → ClientContext → ClientContext
  unfolding invoke_state_callback
  channel_switch channel_state context =
      if channel_state == k.channel_open
      then invoke_state_callback connected context
      else if channel_state == k.channel_closed
      then invoke_state_callback disconnected context
      else context

  -- stateCallback, for a client that has a context.
  unfoldable pub state_callback : ℕ → ℕ → ClientContext → ClientContext
  unfolding session_switch channel_switch
  state_callback channel_state session_state context =
      let seen =
        if session_state == context.last_session_state
        then context
        else session_switch session_state context in
      let seen' =
        if channel_state == seen.last_channel_state
        then seen
        else channel_switch channel_state seen in
      record seen' { last_channel_state = channel_state; last_session_state = session_state }

  -- The states that the C library reports, one after the other: channel, session.
  unfoldable pub state_callbacks_run : List (ℕ × ℕ) → ClientContext → ClientContext
  unfolding state_callback
  state_callbacks_run [] context = context
  state_callbacks_run ((channel, session) ∷ reports) context =
      state_callbacks_run reports (state_callback channel session context)

-- setStateCallback, as onConnected, onDisconnected, onSessionActivated and onSessionClosed call it.
abbrev pub state_eq : ClientState → ClientState → Bool
state_eq disconnected disconnected = true
state_eq connected connected = true
state_eq session_activated session_activated = true
state_eq session_closed session_closed = true
state_eq _ _ = false

unfoldable pub set_state_callback :
    ClientState → Option (Callback ClientState) → ClientContext → ClientContext
set_state_callback state callback context = record context {
  state_callbacks = λ s. if state_eq state s then callback else context.state_callbacks s;
}
