-- ===== src/Peer/Joining.antt =====
-- A loopback client that joins its host.
use godot_godaemon_multiplay.Prelude.{
  ℕ, ◌≡◌, refl, ◌≢◌, ◌⊎◌, inl, inr, true, false, some, [], arith, Bool-cases, Option-cases,
  get_elem?-append_new, bytes_of_u32,
}
use godot_godaemon_multiplay.HashMap.{lookup, lookup-insert, has}
use godot_godaemon_multiplay.Godot
use godot_godaemon_multiplay.Godot.{
  Error, ok, err_already_in_use, err_unavailable, err_cant_connect, connected, is_connected,
  transfer_mode_value,
}
use godot_godaemon_multiplay.Steam.{Env}
use godot_godaemon_multiplay.Packet.{new_packet}
use godot_godaemon_multiplay.Connection.{new_connection, send_peer, send_setup_peer}
use godot_godaemon_multiplay.Connection.Drain.{send-Drains}
use godot_godaemon_multiplay.Config.{Conversions, apply_options, apply_loop}
use godot_godaemon_multiplay.Peer.State.{
  SteamMultiplayerPeer, mode_client, is_active, write_object, new_ref,
}
use godot_godaemon_multiplay.Peer.Action.{Session}
use godot_godaemon_multiplay.Peer.Registry.{setup_loopback_connection}
use godot_godaemon_multiplay.Peer.Loopback.{
  next_loopback, apply_both, client_joined, join_host, join_given_host, create_loopback_client,
}
use godot_godaemon_multiplay.Peer.Ends.{on_connection_eq}
use godot_godaemon_multiplay.Peer.Invariant.{
  IsRegistry, setup_loopback_connection-IsRegistry, write_object-IsRegistry,
}

module _ {W : Type 0} (env : Env W) (conv : Conversions) where
  -- The client is a connected loopback client, and the user `identity` has a loopback connection.
  abbrev pub IsJoined : ℕ → SteamMultiplayerPeer → Type 0
  IsJoined identity p =
      (p.active_mode ≡ mode_client)
      × (is_connected p.connection_status ≡ true)
      × (p.is_loopback_client ≡ true)
      × (p.host_loopback_peer ≡ true)
      × (lookup identity p.loopback_connections_by_steam_id64 ≡ some p.client_steam_connection)

  client_joined-IsJoined :
      (up : env.sockets ≡ true) (identity handle : ℕ) (s : Session W)
      → IsRegistry s.peer
      → (t : Session W) × (client_joined env conv identity handle s ≡ some (tt, t))
        × IsRegistry t.peer
        × IsJoined identity t.peer
  unfolding client_joined setup_loopback_connection new_connection send_peer send_setup_peer
  client_joined-IsJoined up identity handle s r =
      let p = (setup_loopback_connection identity handle s.peer).1 in
      let (id, w) = env.generate_unique_id s.world in
      let c = new_connection identity handle in
      let there = get_elem?-append_new s.peer.connection_objects c in
      let (rest, w', e, d) =
        send-Drains env up
          (new_packet env.constants (bytes_of_u32 id) (transfer_mode_value Godot.reliable)) c w in
      let c' = record c { pending_retry_packets = rest } in
      let a = new_ref s.peer in
      let q : SteamMultiplayerPeer = record p {
        client_steam_connection = a;
        active_mode = mode_client;
        connection_status = connected;
        unique_id = id;
      } in
      let sent =
        on_connection_eq a (send_peer env id) (record { peer = q; world = w }) c c' ok w' there e in
      let registry =
        write_object-IsRegistry a c c' p there refl refl
          (setup_loopback_connection-IsRegistry identity handle s.peer r) in
      (
        record {
          peer = record (write_object a c' q) {
            is_loopback_client = true;
            host_loopback_peer = true;
          };
          world = w';
        },
        ground (arith, sent),
        record {
          by_steam_id = registry.by_steam_id;
          by_peer_id = registry.by_peer_id;
          loopback = registry.loopback;
        },
        (
          refl,
          refl,
          refl,
          refl,
          ground
              (arith, lookup-insert identity identity a s.peer.loopback_connections_by_steam_id64),
        ),
      )

  -- What `create_loopback_client` promises.
  abbrev pub Joins :
      SteamMultiplayerPeer → Session W → Error → SteamMultiplayerPeer → Session W → Type 0
  Joins host s e h t =
      IsRegistry h
      × IsRegistry t.peer
      × (((e ≡ ok)
            × (is_active s.peer ≡ false)
            × IsJoined (env.individual_steam_id 1) t.peer
            × (h.loopback_idx ≡ (next_loopback host).loopback_idx)
            × (has (env.individual_steam_id (next_loopback host).loopback_idx)
                  h.loopback_connections_by_steam_id64
                ≡ true))
          ⊎ ((e ≢ ok) × (t.peer ≡ s.peer) × (h ≡ record host { loopback_idx = h.loopback_idx })))

  next_loopback-IsRegistry :
      (host : SteamMultiplayerPeer) → IsRegistry host → IsRegistry (next_loopback host)
  next_loopback-IsRegistry host rh = record {
    by_steam_id = rh.by_steam_id;
    by_peer_id = rh.by_peer_id;
    loopback = rh.loopback;
  }

  -- The call ends, and what it leaves is as promised.
  abbrev pub EndsJoined : SteamMultiplayerPeer → Session W → Type 0
  EndsJoined host s =
      (e : Error) × (h : SteamMultiplayerPeer) × (t : Session W) × (create_loopback_client env conv
          (some host) s
        ≡ some (e, some h, t))
      × Joins host s e h t

  create_loopback_client_given_pair :
      (host : SteamMultiplayerPeer) (s : Session W) (host_handle client_handle : ℕ)
      → IsRegistry host
      → IsRegistry s.peer
      → host.configs.options ≡ []
      → s.peer.configs.options ≡ []
      → is_active s.peer ≡ false
      → env.sockets ≡ true
      → (env.create_socket_pair
          (env.individual_steam_id (next_loopback host).loopback_idx)
          (env.individual_steam_id 1)
          (env.init_relay_network_access s.world)).0
        ≡ some (host_handle, client_handle)
      → EndsJoined host s
  unfolding create_loopback_client join_given_host join_host apply_both apply_options apply_loop has
      setup_loopback_connection
  create_loopback_client_given_pair host s host_handle client_handle rh rs plain_host plain idle up
        e =
      let counted = next_loopback host in
      let counted_registry = next_loopback-IsRegistry host rh in
      let host_id = env.individual_steam_id counted.loopback_idx in
      let client_id = env.individual_steam_id 1 in
      let opened = env.init_relay_network_access s.world in
      let w = (env.create_socket_pair host_id client_id opened).1 in
      let u : Session W = record {
        peer = record s.peer { connection = client_handle };
        world = w;
      } in
      let (t, run, registry, joined) = client_joined-IsJoined up client_id client_handle u (record {
        by_steam_id = rs.by_steam_id;
        by_peer_id = rs.by_peer_id;
        loopback = rs.loopback;
      }) in
      (
        ok,
        (setup_loopback_connection host_id host_handle counted).1,
        t,
        ground (arith, e, plain, plain_host, run),
        (
          setup_loopback_connection-IsRegistry host_id host_handle counted counted_registry,
          registry,
          inl (
            refl,
            idle,
            joined,
            refl,
            ground (
              arith,
              lookup-insert host_id host_id (new_ref counted)
                  counted.loopback_connections_by_steam_id64,
            ),
          ),
        ),
      )

  -- On two registries without options, `create_loopback_client` does not crash and leaves two
  -- registries. On `OK` an inactive peer became a connected loopback client whose loopback
  -- connection is the one it sends on, and the host has a loopback connection under the number
  -- that it counted; on any other result the client is as before, and the host too but for that
  -- number.
  pub create_loopback_client-Joins :
      (host : SteamMultiplayerPeer) (s : Session W)
      → IsRegistry host
      → IsRegistry s.peer
      → host.configs.options ≡ []
      → s.peer.configs.options ≡ []
      → EndsJoined host s
  unfolding create_loopback_client join_given_host join_host
  create_loopback_client-Joins host s rh rs plain_host plain =
      let counted = next_loopback host in
      let counted_registry = next_loopback-IsRegistry host rh in
      let host_id = env.individual_steam_id counted.loopback_idx in
      let client_id = env.individual_steam_id 1 in
      let opened = env.init_relay_network_access s.world in
      elim (Bool-cases (is_active s.peer)) [
        | inl active ↦ (
          err_already_in_use,
          host,
          s,
          ground arith,
          (rh, rs, inr ((λ h. absurd (ground (arith, h))), refl, refl)),
        )
        | inr idle ↦ elim (Bool-cases env.sockets) [
          | inr down ↦ (
            err_unavailable,
            host,
            s,
            ground arith,
            (rh, rs, inr ((λ h. absurd (ground (arith, h))), refl, refl)),
          )
          | inl up ↦ elim (Option-cases (env.create_socket_pair host_id client_id opened).0) [
            | inl missing ↦ (
              err_cant_connect,
              counted,
              record s { world = (env.create_socket_pair host_id client_id opened).1 },
              ground (arith, missing),
              (counted_registry, rs, inr ((λ h. absurd (ground (arith, h))), refl, refl)),
            )
            | inr ((host_handle, client_handle), e) ↦
                create_loopback_client_given_pair host s host_handle client_handle rh rs plain_host
                  plain idle up e
          ]
        ]
      ]
