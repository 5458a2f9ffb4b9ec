-- ===== src/Peer/Opening.antt =====
-- `create_host`, `create_client` and `create_loopback_client`.
use godot_godaemon_multiplay.Prelude.{
  Option, some, ℕ, ◌≡◌, ◌≢◌, ◌⊎◌, inl, inr, true, false, none, List, arith, ◌==◌, Option-cases,
}
use godot_godaemon_multiplay.Godot.{Error, ok, connected, connecting}
use godot_godaemon_multiplay.Steam.{Env, GivesClientIds}
use godot_godaemon_multiplay.Config.{Conversions, get_options, size}
use godot_godaemon_multiplay.Config.Options.{
  has_string, get_convert_options-Converted, get_convert_options_string, ConfigCall, config_after,
  apply_options-config_after,
}
use godot_godaemon_multiplay.Peer.State.{SteamMultiplayerPeer, mode_server, mode_client, is_active}
use godot_godaemon_multiplay.Peer.Action.{Session}
use godot_godaemon_multiplay.Peer.Settings.{is_server}
use godot_godaemon_multiplay.Peer.Lifecycle.{
  not_positive, open_host, create_host, open_client, create_client,
}
use godot_godaemon_multiplay.Peer.Loopback.{
  next_loopback, join_host, join_given_host, create_loopback_client,
}
use godot_godaemon_multiplay.Peer.Ends.{Ends}

module _ {W : Type 0} (env : Env W) (conv : Conversions) where
  -- What `create_host` promises: on `OK` an inactive peer became a connected server with id 1 on the
  -- port; on any other result at most the listen socket has changed.
  abbrev pub OpensHost : ℕ → Session W → Error → Session W → Type 0
  OpensHost port s e t =
      ((e ≡ ok)
        × (is_active s.peer ≡ false)
        × (not_positive port ≡ false)
        × (t.peer.active_mode ≡ mode_server)
        × (t.peer.connection_status ≡ connected)
        × (t.peer.unique_id ≡ 1)
        × (t.peer.virtual_port ≡ port))
      ⊎ ((e ≢ ok) × (t.peer ≡ record s.peer { listen_socket = t.peer.listen_socket }))

  -- Where no option is a string, `create_host` does not crash. On `OK` the peer was inactive and
  -- the port positive, and it is now a connected server with id 1 on the port; on any other
  -- result at most the listen socket has changed.
  pub create_host-OpensHost :
      (port : ℕ) (s : Session W)
      → has_string (get_options s.peer.configs) ≡ false
      → Ends (create_host env conv port s) (OpensHost port s)
  unfolding create_host open_host
  create_host-OpensHost port s plain =
      let (options, e, numbers) = get_convert_options-Converted env conv s.peer.configs plain in
      ground (arith, e)

  -- What `create_client` promises: on `OK` an inactive peer became a client that is connecting, on
  -- the port, with an id that is not the server's; on any other result at most the connection's
  -- handle has changed, and the id, to 0.
  abbrev pub OpensClient : ℕ → Session W → Error → Session W → Type 0
  OpensClient port s e t =
      ((e ≡ ok)
        × (is_active s.peer ≡ false)
        × (not_positive port ≡ false)
        × (t.peer.active_mode ≡ mode_client)
        × (t.peer.connection_status ≡ connecting)
        × (is_server t.peer ≡ false)
        × (t.peer.virtual_port ≡ port))
      ⊎ ((e ≢ ok)
          × (t.peer
              ≡ record s.peer { connection = t.peer.connection; unique_id = t.peer.unique_id })
          × ((t.peer.unique_id ≡ s.peer.unique_id) ⊎ (t.peer.unique_id ≡ 0)))

  -- Where no option is a string and the engine's ids are as documented, `create_client` does not
  -- crash. On `OK` the peer was inactive and the port positive, and it is now a client that is
  -- connecting on the port and whose id is not the server's; on any other result at most the
  -- connection's handle and the id, to 0, have changed.
  pub create_client-OpensClient :
      (user port : ℕ) (s : Session W)
      → GivesClientIds env
      → has_string (get_options s.peer.configs) ≡ false
      → Ends (create_client env conv user port s) (OpensClient port s)
  unfolding create_client open_client
  create_client-OpensClient user port s ids plain =
      let (options, e, numbers) = get_convert_options-Converted env conv s.peer.configs plain in
      ground (arith, e, ids s.world)

  -- With a string among the options, an inactive peer, a positive port and Steam there,
  -- `create_host` and `create_client` crash.
  pub create_string_crash :
      (user port : ℕ) (s : Session W)
      → is_active s.peer ≡ false
      → not_positive port ≡ false
      → env.sockets ≡ true
      → has_string (get_options s.peer.configs) ≡ true
      → (create_host env conv port s ≡ none) × (create_client env conv user port s ≡ none)
  unfolding create_host open_host create_client open_client
  create_string_crash user port s idle positive up string =
      let e = get_convert_options_string env conv s.peer.configs string in
      (ground (arith, e), ground (arith, e))

  -- With any option set by a script's calls, with Steam there, and where Steam always gives a
  -- socket pair, `create_loopback_client` of an inactive peer crashes, whatever the host:
  -- `apply_options` writes through a pointer that was never set, or the host is null.
  pub create_loopback_client_crash :
      (calls : List ConfigCall) (host : Option SteamMultiplayerPeer) (s : Session W)
      → is_active s.peer ≡ false
      → env.sockets ≡ true
      → ((ids : ℕ × ℕ) (w : W) → (env.create_socket_pair ids.0 ids.1 w).0 ≢ none)
      → s.peer.configs ≡ config_after calls
      → (size (config_after calls) == 0) ≡ false
      → create_loopback_client env conv host s ≡ none
  unfolding create_loopback_client join_given_host join_host
  create_loopback_client_crash calls none s idle up pairs set some_option = ground arith
  create_loopback_client_crash calls (some host) s idle up pairs set some_option =
      let host_id = env.individual_steam_id (next_loopback host).loopback_idx in
      let client_id = env.individual_steam_id 1 in
      let opened = env.init_relay_network_access s.world in
      elim (Option-cases (env.create_socket_pair host_id client_id opened).0) [
        | inl missing ↦ absurd (pairs (host_id, client_id) opened missing)
        | inr ((host_handle, client_handle), e) ↦
            let w = (env.create_socket_pair host_id client_id opened).1 in
            ground (arith, e, apply_options-config_after env conv calls client_handle w)
      ]
