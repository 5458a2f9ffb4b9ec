-- ===== src/Peer/Meeting.antt =====
-- A client and a server that meet: Steam's reports and the exchange of setup packets, at both ends.
use godot_godaemon_multiplay.Prelude.{
  ℕ, ◌≡◌, ◌≢◌, refl, true, false, Option, none, some, List, [], arith, ◌==◌,
}
use godot_godaemon_multiplay.HashMap.{lookup, lookup-insert}
use godot_godaemon_multiplay.Godot.{ok, connected, is_connected}
use godot_godaemon_multiplay.Steam.{Env}
use godot_godaemon_multiplay.Steam.Types.{StatusChanged}
use godot_godaemon_multiplay.Packet.{SteamPacketPeer}
use godot_godaemon_multiplay.Connection.{new_connection, send_peer}
use godot_godaemon_multiplay.Connection.Drain.{attempt}
use godot_godaemon_multiplay.Connection.Setup.{setup_packet, send_peer-attempt}
use godot_godaemon_multiplay.Peer.State.{SteamMultiplayerPeer, new_ref, write_object}
use godot_godaemon_multiplay.Peer.Action.{Session}
use godot_godaemon_multiplay.Peer.Settings.{is_server}
use godot_godaemon_multiplay.Peer.Registry.{add_connection}
use godot_godaemon_multiplay.Peer.Callback.{
  has_arrived, was_accepted, is_ignored, client_accepted, on_accepted,
  network_connection_status_changed,
}
use godot_godaemon_multiplay.Peer.Control.{Whenever}
use godot_godaemon_multiplay.Peer.Status.{added_object}
use godot_godaemon_multiplay.Peer.Ends.{Ends, on_connection_eq}

-- What an action ensures, and what it keeps if it ends.
pub Ends-Whenever :
    {W A : Type 0} (Q R : A → Session W → Type 0) (r : Option (A × Session W))
    → Ends r Q
    → Whenever r R
    → Ends r (λ a t. Q a t × R a t)
Ends-Whenever Q R none h k = h
Ends-Whenever Q R (some (a, t)) h k = (h, k)

pub Ends-and :
    {W A : Type 0} (Q R : A → Session W → Type 0) (r : Option (A × Session W))
    → Ends r Q
    → Ends r R
    → Ends r (λ a t. Q a t × R a t)
Ends-and Q R none h k = h
Ends-and Q R (some (a, t)) h k = (h, k)

was_accepted-has_arrived : (ev : StatusChanged) → was_accepted ev ≡ true → has_arrived ev ≡ false
unfolding was_accepted has_arrived
was_accepted-has_arrived ev h = ground arith

module _ {W : Type 0} (env : Env W) (up : env.sockets ≡ true) where
  pub added_entry :
      (user handle : ℕ) (p : SteamMultiplayerPeer)
      → user ≢ env.own_steam_id
      → lookup user (add_connection env user handle p).1.connections_by_steam_id64
        ≡ some (add_connection env user handle p).0
  unfolding add_connection
  added_entry user handle p other =
      let e : (user == env.own_steam_id) ≡ false = ground arith in
      rw e (ground (arith, lookup-insert user user (new_ref p) p.connections_by_steam_id64))

  -- What the callback makes of an accepted connection on a server.
  pub accepted_by_server :
      (ev : StatusChanged) (s : Session W)
      → is_ignored env ev s.peer ≡ false
      → was_accepted ev ≡ true
      → is_server s.peer ≡ true
      → network_connection_status_changed env ev s
        ≡ some
            (tt, record s { peer = (add_connection env ev.identity_remote ev.connection s.peer).1 })
  unfolding network_connection_status_changed on_accepted
  accepted_by_server ev s heard accepted server =
      ground (arith, was_accepted-has_arrived ev accepted)

  -- The client's peer before it tells its id.
  abbrev pub client_joining : StatusChanged → SteamMultiplayerPeer → SteamMultiplayerPeer
  client_joining ev p =
      let added =
        add_connection env ev.identity_remote ev.connection
          (record p { connection_status = connected }) in
      record added.1 { client_steam_connection = added.0 }

  joining_id :
      (ev : StatusChanged) (p : SteamMultiplayerPeer)
      → (client_joining ev p).unique_id ≡ p.unique_id
  unfolding add_connection
  joining_id ev p = ground arith

  new_is_empty : (user handle : ℕ) → (new_connection user handle).pending_retry_packets ≡ []
  unfolding new_connection
  new_is_empty user handle = refl

  -- The client's session once it has told its id: `rest` is what still waits on the new connection.
  abbrev pub client_joined : StatusChanged → Session W → List SteamPacketPeer → Session W
  client_joined ev s rest = record {
    peer =
        write_object (client_joining ev s.peer).client_steam_connection
          (record (new_connection ev.identity_remote ev.connection) {
            pending_retry_packets = rest;
          })
          (client_joining ev s.peer);
    world = (attempt env ev.connection (setup_packet env s.peer.unique_id) s.world).1;
  }

  pub client_accepted_eq :
      (ev : StatusChanged) (s : Session W)
      → ev.identity_remote ≢ env.own_steam_id
      → (rest : List SteamPacketPeer) × (client_accepted env ev s
          ≡ some (tt, client_joined ev s rest))
  unfolding client_accepted new_connection
  client_accepted_eq ev s other =
      let c = new_connection ev.identity_remote ev.connection in
      let q = client_joining ev s.peer in
      let (rest, e) = send_peer-attempt env q.unique_id c s.world up refl in
      let sent =
        on_connection_eq q.client_steam_connection (send_peer env q.unique_id)
          (record { peer = q; world = s.world }) c _ ok _
          (added_object env up ev.identity_remote ev.connection
            (record s.peer { connection_status = connected }) other)
          e in
      (rest, rw (client_accepted, sent, joining_id ev s.peer) refl)

  pub accepted_by_client :
      (ev : StatusChanged) (s : Session W)
      → is_ignored env ev s.peer ≡ false
      → was_accepted ev ≡ true
      → is_server s.peer ≡ false
      → is_connected s.peer.connection_status ≡ false
      → network_connection_status_changed env ev s ≡ client_accepted env ev s
  unfolding network_connection_status_changed on_accepted
  accepted_by_client ev s heard accepted cl away =
      ground (arith, was_accepted-has_arrived ev accepted)
