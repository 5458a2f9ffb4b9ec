-- ===== src/Peer/Accepted.antt =====
-- What Steam's report of an accepted connection does at either end.
use godot_godaemon_multiplay.Prelude.{
  ℕ, ◌≡◌, ◌≢◌, refl, subst, ◌∙◌, true, false, some, List, arith, ◌==◌,
}
use godot_godaemon_multiplay.Godot.{connected, is_connected}
use godot_godaemon_multiplay.Steam.{Env}
use godot_godaemon_multiplay.Steam.Types.{StatusChanged}
use godot_godaemon_multiplay.Packet.{SteamPacketPeer}
use godot_godaemon_multiplay.Connection.{new_connection}
use godot_godaemon_multiplay.Connection.Drain.{attempt}
use godot_godaemon_multiplay.Connection.Setup.{setup_packet}
use godot_godaemon_multiplay.Peer.State.{SteamMultiplayerPeer, is_active}
use godot_godaemon_multiplay.Peer.Action.{Session}
use godot_godaemon_multiplay.Peer.Settings.{is_server}
use godot_godaemon_multiplay.Peer.Registry.{add_connection}
use godot_godaemon_multiplay.Peer.Callback.{
  was_accepted, is_ignored, network_connection_status_changed,
}
use godot_godaemon_multiplay.Peer.Refs.{load-store_self}
use godot_godaemon_multiplay.Peer.Status.{added_object}
use godot_godaemon_multiplay.Peer.Ends.{Ends, Ends-of_eq}
use godot_godaemon_multiplay.Peer.Meeting.{
  added_entry, accepted_by_server, client_joining, client_joined, client_accepted_eq,
  accepted_by_client,
}
use godot_godaemon_multiplay.Peer.Agreement.{Awaits}

module _ {W : Type 0} (env : Env W) (up : env.sockets ≡ true) where
  server-Awaits :
      (user handle : ℕ) (p : SteamMultiplayerPeer)
      → user ≢ env.own_steam_id
      → is_active p ≡ true
      → is_connected p.connection_status ≡ true
      → Awaits env up user
          (add_connection env user handle p).0
          (new_connection user handle)
          (add_connection env user handle p).1
  unfolding add_connection new_connection
  server-Awaits user handle p other active here =
      let e : (user == env.own_steam_id) ≡ false = ground arith in
      record {
        entry = added_entry env up user handle p other;
        there = added_object env up user handle p other;
        with_user = refl;
        unset = refl;
        active = rw e active;
        here = rw e here;
      }

  client-Awaits :
      (ev : StatusChanged) (s : Session W) (rest : List SteamPacketPeer)
      → ev.identity_remote ≢ env.own_steam_id
      → is_active s.peer ≡ true
      → Awaits env up ev.identity_remote
          (client_joining env up ev s.peer).client_steam_connection
          (record (new_connection ev.identity_remote ev.connection) {
            pending_retry_packets = rest;
          })
          (client_joined env up ev s rest).peer
  unfolding new_connection
  client-Awaits ev s rest other active =
      let p : SteamMultiplayerPeer = record s.peer { connection_status = connected } in
      let w = server-Awaits ev.identity_remote ev.connection p other active refl in
      let c = new_connection ev.identity_remote ev.connection in
      let added = add_connection env ev.identity_remote ev.connection p in
      record {
        entry = w.entry;
        there =
            load-store_self added.0 added.1.connection_objects
              (record c { pending_retry_packets = rest }) c w.there;
        with_user = refl;
        unset = refl;
        active = w.active;
        here = w.here;
      }

  -- A report that the callback acts on as the acceptance of a connection by another user.
  pub record Reports (ev : StatusChanged) (user : ℕ) (p : SteamMultiplayerPeer) : Type 0 where
    pub with_user : ev.identity_remote ≡ user
    pub heard : is_ignored env ev p ≡ false
    pub accepted : was_accepted ev ≡ true

  -- The connection to a user that the server has accepted, as the setup packets find it.
  abbrev pub Bound : ℕ → ℕ → Session W → Session W → Type 0
  Bound user handle s t =
      Awaits env up user (add_connection env user handle s.peer).0 (new_connection user handle)
        t.peer
      × (t.world ≡ s.world)
      × (t.peer.emitted ≡ s.peer.emitted)
      × (t.peer.unique_id ≡ s.peer.unique_id)
      × (t.peer.active_mode ≡ s.peer.active_mode)

  pub server-Bound :
      (ev : StatusChanged) (user : ℕ) (s : Session W)
      → user ≢ env.own_steam_id
      → Reports ev user s.peer
      → is_active s.peer ≡ true
      → is_connected s.peer.connection_status ≡ true
      → is_server s.peer ≡ true
      → Ends (network_connection_status_changed env ev s) (λ _ t. Bound user ev.connection s t)
  unfolding add_connection
  server-Bound ev user s other r active here server =
      let e : (user == env.own_steam_id) ≡ false = ground arith in
      Ends-of_eq (λ _ t. Bound user ev.connection s t) _ tt
        (record s { peer = (add_connection env user ev.connection s.peer).1 })
        (subst
          (λ u.
            network_connection_status_changed env ev s
            ≡ some (tt, record s { peer = (add_connection env u ev.connection s.peer).1 }))
          r.with_user (accepted_by_server env up ev s r.heard r.accepted server))
        (
          server-Awaits user ev.connection s.peer other active here,
          refl,
          rw e refl,
          rw e refl,
          rw e refl,
        )

  -- The session of a client that has told its id.
  abbrev pub Told : StatusChanged → ℕ → Session W → Session W → Type 0
  Told ev user s t =
      ((rest : List SteamPacketPeer) × Awaits env up user
          (client_joining env up ev s.peer).client_steam_connection
          (record (new_connection user ev.connection) { pending_retry_packets = rest }) t.peer)
      × (t.world ≡ (attempt env ev.connection (setup_packet env s.peer.unique_id) s.world).1)
      × (t.peer.emitted ≡ s.peer.emitted)
      × (t.peer.unique_id ≡ s.peer.unique_id)

  pub client-Told :
      (ev : StatusChanged) (user : ℕ) (s : Session W)
      → user ≢ env.own_steam_id
      → Reports ev user s.peer
      → is_active s.peer ≡ true
      → is_connected s.peer.connection_status ≡ false
      → is_server s.peer ≡ false
      → Ends (network_connection_status_changed env ev s) (λ _ t. Told ev user s t)
  unfolding add_connection
  client-Told ev user s other r active away cl =
      let other' : ev.identity_remote ≢ env.own_steam_id =
        λ e. other (ground (arith, e, r.with_user)) in
      let (rest, e) = client_accepted_eq env up ev s other' in
      let e' : (ev.identity_remote == env.own_steam_id) ≡ false = ground arith in
      subst (λ u. Ends (network_connection_status_changed env ev s) (λ _ t. Told ev u s t))
        r.with_user
        (Ends-of_eq (λ _ t. Told ev ev.identity_remote s t) _ tt (client_joined env up ev s rest)
          (accepted_by_client env up ev s r.heard r.accepted cl away ∙ e)
          ((rest, client-Awaits ev s rest other' active), refl, rw e' refl, rw e' refl))
