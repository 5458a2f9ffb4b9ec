-- ===== src/Peer/Loopback.antt =====
-- `create_loopback_client`: a client in the same process as its host, over a pair of sockets. The
-- host is another `SteamMultiplayerPeer`, which the call changes too.
use godot_godaemon_multiplay.Prelude.{ℕ, ◌+◌, true, not, Option, none, some, if◌then◌else◌, u32}
use godot_godaemon_multiplay.Godot.{
  Error, ok, err_already_in_use, err_unavailable, err_cant_connect, connected,
}
use godot_godaemon_multiplay.Steam.{Env}
use godot_godaemon_multiplay.Connection.{send_peer}
use godot_godaemon_multiplay.Config.{Conversions, apply_options}
use godot_godaemon_multiplay.Peer.State.{SteamMultiplayerPeer, mode_client, is_active}
use godot_godaemon_multiplay.Peer.Action.{
  Session, Action, gets, call, modify, on_connection, ◌>>=◌, ◌>>◌,
}
use godot_godaemon_multiplay.Peer.Registry.{setup_loopback_connection}

-- `host->loopback_idx += 1`.
abbrev pub next_loopback : SteamMultiplayerPeer → SteamMultiplayerPeer
next_loopback host = record host { loopback_idx = u32 (host.loopback_idx + 1) }

module _ {W : Type 0} (env : Env W) (conv : Conversions) where
  -- `configs->apply_options(handle)` for this peer's and the host's options.
  unfoldable pub apply_both : SteamMultiplayerPeer → ℕ → ℕ → Action W (Unit {0})
  apply_both host host_handle client_handle s =
      elim (apply_options env conv client_handle s.peer.configs s.world) [
        | none ↦ none
        | some w ↦ elim (apply_options env conv host_handle host.configs w) [
          | none ↦ none
          | some w' ↦ some (tt, record s { world = w' })
        ]
      ]

  -- The client's part once the socket pair is there.
  unfoldable pub client_joined : ℕ → ℕ → Action W (Unit {0})
  client_joined client_id handle = do
    a ← gets (λ p. (setup_loopback_connection client_id handle p).0)
    modify (λ p. (setup_loopback_connection client_id handle p).1)
    modify (λ p. record p { client_steam_connection = a })
    modify (λ p. record p { active_mode = mode_client; connection_status = connected })
    id ← call env.generate_unique_id
    modify (λ p. record p { unique_id = id })
    on_connection a (send_peer env id)
    modify (λ p. record p { is_loopback_client = true; host_loopback_peer = true })

  -- Behind the guards: the client's session and the host after the call.
  unfoldable pub join_host :
      SteamMultiplayerPeer → Session W → Option (Error × SteamMultiplayerPeer × Session W)
  unfolding apply_both client_joined
  join_host host s =
      let counted = next_loopback host in
      let host_id = env.individual_steam_id counted.loopback_idx in
      let client_id = env.individual_steam_id 1 in
      let (pair, w) =
        env.create_socket_pair host_id client_id (env.init_relay_network_access s.world) in
      elim pair [
        | none ↦ some (err_cant_connect, counted, record s { world = w })
        | some (host_handle, client_handle) ↦
            let opened : Session W = record {
              peer = record s.peer { connection = client_handle };
              world = w;
            } in
            elim (apply_both counted host_handle client_handle opened) [
              | none ↦ none
              | some (_, t) ↦ elim (client_joined client_id client_handle t) [
                | none ↦ none
                | some (_, u) ↦
                    some (ok, (setup_loopback_connection host_id host_handle counted).1, u)
              ]
            ]
      ]

  -- The same through the pointer `host`, which is null by default.
  unfoldable pub join_given_host :
      Option SteamMultiplayerPeer
      → Session W
      → Option (Error × Option SteamMultiplayerPeer × Session W)
  join_given_host none s = none
  join_given_host (some host) s = elim (join_host host s) [
    | none ↦ none
    | some (e, h, t) ↦ some (e, some h, t)
  ]

  unfoldable pub create_loopback_client :
      Option SteamMultiplayerPeer
      → Session W
      → Option (Error × Option SteamMultiplayerPeer × Session W)
  create_loopback_client host s =
      if is_active s.peer
      then some (err_already_in_use, host, s)
      else if not env.sockets
      then some (err_unavailable, host, s)
      else join_given_host host s
