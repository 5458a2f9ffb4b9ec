-- ===== src/Peer/Callback.antt =====
-- `network_connection_status_changed`, the callback that Steam posts when a connection changes state.
-- Its last lines set `m_nUserData` in a copy of the call's data, which nothing reads afterwards.
use godot_godaemon_multiplay.Prelude.{
  ℕ, Bool, true, false, not, ◌&&◌, ◌||◌, none, some, ◌==◌, if◌then◌else◌, minus_one,
}
use godot_godaemon_multiplay.HashMap.{lookup}
use godot_godaemon_multiplay.Godot.{is_connected, connected}
use godot_godaemon_multiplay.EResult.{is_ok}
use godot_godaemon_multiplay.Steam.{Env}
use godot_godaemon_multiplay.Steam.Types
use godot_godaemon_multiplay.Steam.Types.{
  NetworkingConnectionState, StatusChanged, app_exception_generic, unspecified, ConnectionEnd,
}
use godot_godaemon_multiplay.Connection.{send_peer}
use godot_godaemon_multiplay.Peer.State.{SteamMultiplayerPeer, is_active}
use godot_godaemon_multiplay.Peer.Action.{Session, Action, modify, on_connection}
use godot_godaemon_multiplay.Peer.Settings.{is_server}
use godot_godaemon_multiplay.Peer.Registry.{add_connection}
use godot_godaemon_multiplay.Peer.Lifecycle.{close, disconnect_peer}
use godot_godaemon_multiplay.Peer.Poll.{peer_id_at}

-- The comparisons of states that the callback makes.
abbrev pub is_none : NetworkingConnectionState → Bool
is_none Types.none = true
is_none _ = false

abbrev pub is_connecting : NetworkingConnectionState → Bool
is_connecting Types.connecting = true
is_connecting _ = false

abbrev pub is_finding_route : NetworkingConnectionState → Bool
is_finding_route Types.finding_route = true
is_finding_route _ = false

abbrev pub is_state_connected : NetworkingConnectionState → Bool
is_state_connected Types.connected = true
is_state_connected _ = false

abbrev pub is_closed_by_peer : NetworkingConnectionState → Bool
is_closed_by_peer Types.closed_by_peer = true
is_closed_by_peer _ = false

abbrev pub is_problem_detected_locally : NetworkingConnectionState → Bool
is_problem_detected_locally Types.problem_detected_locally = true
is_problem_detected_locally _ = false

-- A new connection has arrived on a listen socket.
unfoldable pub has_arrived : StatusChanged → Bool
has_arrived ev = not (ev.listen_socket == 0) && (is_none ev.old_state && is_connecting ev.state)

-- The remote host has accepted a connection.
unfoldable pub was_accepted : StatusChanged → Bool
was_accepted ev =
    (is_connecting ev.old_state || is_finding_route ev.old_state) && is_state_connected ev.state

-- The remote host has rejected or closed a connection.
unfoldable pub was_closed_by_peer : StatusChanged → Bool
was_closed_by_peer ev =
    (is_connecting ev.old_state || is_state_connected ev.old_state) && is_closed_by_peer ev.state

-- A connection was lost on this side.
unfoldable pub was_lost : StatusChanged → Bool
was_lost ev =
    (is_connecting ev.old_state || is_state_connected ev.old_state)
    && is_problem_detected_locally ev.state

-- The guards before the branches: the call is not for this peer, or was handled before.
unfoldable pub is_ignored : {W : Type 0} → Env W → StatusChanged → SteamMultiplayerPeer → Bool
is_ignored env ev p =
    p.is_loopback_client
    || ((not (is_server p) && not (ev.connection == p.connection))
        || ((is_server p
              && (not (ev.listen_socket == p.listen_socket)
                  || ev.listen_socket == env.invalid_listen_socket))
            || ev.user_data == 1))

module _ {W : Type 0} (env : Env W) where
  unfoldable pub close_handle : ℕ → ConnectionEnd → Action W (Unit {0})
  close_handle handle reason s =
      if env.sockets
      then some (tt, record s { world = (env.close_connection handle reason false s.world).1 })
      else none

  unfoldable pub accept_handle : ℕ → Action W (Unit {0})
  accept_handle handle s =
      if env.sockets
      then (let (result, w) = env.accept_connection handle s.world in
          if is_ok result
          then some (tt, record s { world = w })
          else close_handle handle app_exception_generic (record s { world = w }))
      else none

  -- A new connection has arrived: the server accepts it, or closes it where that fails.
  unfoldable pub on_arrived : StatusChanged → Action W (Unit {0})
  on_arrived ev s = if is_server s.peer then accept_handle ev.connection s else some (tt, s)

  -- The client's `Ref` to its connection with the server, which is told the client's id.
  unfoldable pub client_accepted : StatusChanged → Action W (Unit {0})
  client_accepted ev s =
      let added =
        add_connection env ev.identity_remote ev.connection
          (record s.peer { connection_status = connected }) in
      let joined : Session W = record s {
        peer = record added.1 { client_steam_connection = added.0 };
      } in
      elim (on_connection added.0 (send_peer env joined.peer.unique_id) joined) [
        | none ↦ none
        | some (error_code, t) ↦ some (tt, t)
      ]

  unfoldable pub on_accepted : StatusChanged → Action W (Unit {0})
  on_accepted ev s =
      if is_server s.peer
      then modify (λ p. (add_connection env ev.identity_remote ev.connection p).1) s
      else if is_connected s.peer.connection_status
      then some (tt, s)
      else client_accepted ev s

  -- `if (_is_active()) close();`
  unfoldable pub close_if_active : Action W (Unit {0})
  close_if_active s = if is_active s.peer then close env s else some (tt, s)

  -- Either way a connection ends, on a client that is connected.
  unfoldable pub connected_client_ended : Action W (Unit {0})
  connected_client_ended s = elim (disconnect_peer env 1 true s) [
    | none ↦ none
    | some (_, t) ↦ close_if_active t
  ]

  -- On any client; the result is `handled`.
  unfoldable pub client_ended : Action W Bool
  client_ended s =
      if is_connected s.peer.connection_status
      then elim (connected_client_ended s) [ none ↦ none | some (_, t) ↦ some (true, t) ]
      else elim (close_if_active s) [ none ↦ none | some (_, t) ↦ some (false, t) ]

  unfoldable pub server_ended : ℕ → Action W Bool
  server_ended steam_id s = elim (lookup steam_id s.peer.connections_by_steam_id64) [
    | none ↦ some (false, s)
    | some a ↦ elim (peer_id_at a s.peer) [
      | none ↦ none
      | some peer_id ↦
          if peer_id == minus_one
          then some (false, s)
          else elim (disconnect_peer env peer_id false s) [
            | none ↦ none
            | some (_, t) ↦ some (true, t)
          ]
    ]
  ]

  unfoldable pub on_ended : StatusChanged → Action W (Unit {0})
  on_ended ev s =
      elim (if is_server s.peer then server_ended ev.identity_remote s else client_ended s) [
        | none ↦ none
        | some (handled, t) ↦
            if handled then close_handle ev.connection unspecified t else some (tt, t)
      ]

  unfoldable pub network_connection_status_changed : StatusChanged → Action W (Unit {0})
  network_connection_status_changed ev s =
      if is_ignored env ev s.peer
      then some (tt, s)
      else if has_arrived ev
      then on_arrived ev s
      else if was_accepted ev
      then on_accepted ev s
      else if was_closed_by_peer ev
      then on_ended ev s
      else if was_lost ev
      then on_ended ev s
      else some (tt, s)
