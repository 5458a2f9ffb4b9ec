-- ===== src/Peer/Lifecycle.antt =====
-- Opening and closing: `create_host`, `create_client`, `_close` and
-- `_disconnect_peer` of `SteamMultiplayerPeer`.
use godot_godaemon_multiplay.Prelude.{
  ℕ, Bool, false, not, ◌&&◌, ◌||◌, none, some, [], ◌∷◌, ◌==◌, if◌then◌else◌, is_negative,
}
use godot_godaemon_multiplay.HashMap.{HashMap, has, erase}
use godot_godaemon_multiplay.Godot.{
  Error, ok, err_already_in_use, err_cant_open, err_unavailable, err_cant_create, err_cant_connect,
  is_connected, connected, connecting, disconnected, peer_disconnected,
}
use godot_godaemon_multiplay.Steam.{Env}
use godot_godaemon_multiplay.Connection
use godot_godaemon_multiplay.Connection.{SteamConnection}
use godot_godaemon_multiplay.Config.{Conversions, get_convert_options}
use godot_godaemon_multiplay.Peer.State.{
  mode_none, mode_server, mode_client, SteamMultiplayerPeer, is_active, mode_is_client, object_at,
  emit_signal,
}
use godot_godaemon_multiplay.Peer.Action.{Action, pure, lift, call, call_, modify, ◌>>=◌, ◌>>◌}
use godot_godaemon_multiplay.Peer.Settings.{is_server}
use godot_godaemon_multiplay.Peer.Registry.{get_connection_by_peer}

-- `port <= 0` on an `int`.
abbrev pub not_positive : ℕ → Bool
not_positive port = port == 0 || is_negative port

-- What `_close` leaves of the peer.
unfoldable pub reset : SteamMultiplayerPeer → SteamMultiplayerPeer
reset p = record p {
  host_loopback_peer = false;
  peer_id_to_steam_id = [];
  connections_by_steam_id64 = [];
  loopback_connections_by_steam_id64 = [];
  active_mode = mode_none;
  unique_id = 0;
  connection_status = disconnected;
  is_loopback_client = false;
}

-- What `_disconnect_peer` erases for a peer id and the Steam id of its connection.
unfoldable pub forget_peer : ℕ → ℕ → SteamMultiplayerPeer → SteamMultiplayerPeer
forget_peer peer steam_id p = record p {
  connections_by_steam_id64 = erase steam_id p.connections_by_steam_id64;
  loopback_connections_by_steam_id64 =
      if has steam_id p.loopback_connections_by_steam_id64
      then erase steam_id p.loopback_connections_by_steam_id64
      else p.loopback_connections_by_steam_id64;
  peer_id_to_steam_id = erase peer p.peer_id_to_steam_id;
}

-- A forced disconnect makes a client forget its connections, so as not to close them again.
unfoldable pub forget_connections : SteamMultiplayerPeer → SteamMultiplayerPeer
forget_connections p = record p {
  connections_by_steam_id64 = [];
  loopback_connections_by_steam_id64 = [];
}

module _ {W : Type 0} (env : Env W) where
  unfoldable pub close_listen_socket : SteamMultiplayerPeer → W → Bool × W
  close_listen_socket p w =
      if env.sockets then env.close_listen_socket p.listen_socket w else (false, w)

  -- The loop of `_close` over all connections.
  unfoldable pub close_loop : HashMap ℕ → Action W (Unit {0})
  close_loop [] s = some (tt, s)
  close_loop ((steam_id, a) ∷ rest) s = elim (object_at a s.peer) [
    | none ↦ none
    | some c ↦ close_loop rest (record s { world = (Connection.close env c s.world).1 })
  ]

  -- The listen socket of a server and the host of a loopback client, after that loop.
  unfoldable pub leave : SteamMultiplayerPeer → W → W
  leave p w =
      let unbound = if is_server p then (close_listen_socket p w).1 else w in
      if p.host_loopback_peer then env.disconnect_host_peer p.unique_id unbound else unbound

  unfoldable pub close : Action W (Unit {0})
  close s =
      if not (is_active s.peer)
      then some (tt, s)
      else if not (is_connected s.peer.connection_status)
      then some (tt, s)
      else elim (close_loop s.peer.connections_by_steam_id64 s) [
        | none ↦ none
        | some (_, t) ↦ some (tt, record { peer = reset t.peer; world = leave t.peer t.world })
      ]

  -- The last part of `_disconnect_peer`.
  unfoldable pub close_if_forced : Bool → Action W (Unit {0})
  close_if_forced force s =
      if force && mode_is_client s.peer.active_mode
      then close (record s { peer = forget_connections s.peer })
      else some (tt, s)

  -- `_disconnect_peer` once the connection `c` is closed.
  unfoldable pub drop_peer : ℕ → Bool → SteamConnection → Action W (Unit {0})
  drop_peer peer force c s = elim (Connection.flush env c s.world) [
    | none ↦ none
    | some w ↦ close_if_forced force (record {
      peer = emit_signal (peer_disconnected peer) (forget_peer peer c.steam_id s.peer);
      world = w;
    })
  ]

  unfoldable pub disconnect_peer : ℕ → Bool → Action W (Unit {0})
  disconnect_peer peer force s =
      if not (is_active s.peer) then some (tt, s) else elim (get_connection_by_peer peer s.peer) [
        | none ↦ some (tt, s)
        | some a ↦ elim (object_at a s.peer) [
          | none ↦ none
          | some c ↦
              (let (closed, w) = Connection.close env c s.world in
                if closed
                then drop_peer peer force c (record s { world = w })
                else some (tt, record s { world = w }))
        ]
      ]

module _ {W : Type 0} (env : Env W) (conv : Conversions) where
  host_opened : ℕ → Action W Error
  host_opened port = do
    modify (λ p. record p {
      unique_id = 1;
      active_mode = mode_server;
      connection_status = connected;
      virtual_port = port;
    })
    pure ok

  -- `create_host` behind its three guards.
  unfoldable pub open_host : ℕ → Action W Error
  unfolding host_opened
  open_host port = do
    call_ env.init_relay_network_access
    options ← lift (λ p. get_convert_options env conv p.configs)
    socket ← call (env.create_listen_socket_p2p port options)
    modify (λ p. record p { listen_socket = socket })
    if socket == env.invalid_listen_socket then pure err_cant_create else host_opened port

  unfoldable pub create_host : ℕ → Action W Error
  create_host port s =
      if is_active s.peer
      then some (err_already_in_use, s)
      else if not_positive port
      then some (err_cant_open, s)
      else if not env.sockets
      then some (err_unavailable, s)
      else open_host port s

  client_refused : Action W Error
  client_refused = do modify (λ p. record p { unique_id = 0 }); pure err_cant_connect

  client_opened : ℕ → Action W Error
  client_opened port = do
    modify (λ p. record p {
      active_mode = mode_client;
      connection_status = connecting;
      virtual_port = port;
    })
    pure ok

  -- `create_client` behind its three guards.
  unfoldable pub open_client : ℕ → ℕ → Action W Error
  unfolding client_refused client_opened
  open_client identity_remote port = do
    id ← call env.generate_unique_id
    modify (λ p. record p { unique_id = id })
    call_ env.init_relay_network_access
    options ← lift (λ p. get_convert_options env conv p.configs)
    handle ← call (env.connect_p2p identity_remote port options)
    modify (λ p. record p { connection = handle })
    if handle == env.invalid_connection then client_refused else client_opened port

  unfoldable pub create_client : ℕ → ℕ → Action W Error
  create_client identity_remote port s =
      if is_active s.peer
      then some (err_already_in_use, s)
      else if not_positive port
      then some (err_cant_open, s)
      else if not env.sockets
      then some (err_unavailable, s)
      else open_client identity_remote port s
