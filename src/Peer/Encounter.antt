-- ===== src/Peer/Encounter.antt =====
-- A client and a server that meet: the reports of Steam and the exchange of setup packets.
use godot_godaemon_multiplay.Prelude.{
  ℕ, ◌≡◌, ◌≢◌, ◌<◌, ◌≤◌, refl, sym, subst, true, false, arith, bytes_of_u32,
}
use godot_godaemon_multiplay.Godot.{is_connected}
use godot_godaemon_multiplay.Steam.{Env}
use godot_godaemon_multiplay.Steam.Types.{Message, StatusChanged}
use godot_godaemon_multiplay.Connection.{new_connection}
use godot_godaemon_multiplay.Connection.Drain.{attempt}
use godot_godaemon_multiplay.Connection.Setup.{setup_packet, setup_packet_bytes}
use godot_godaemon_multiplay.Peer.State.{mode_client, mode_server}
use godot_godaemon_multiplay.Peer.Action.{Session}
use godot_godaemon_multiplay.Peer.Settings.{is_server}
use godot_godaemon_multiplay.Peer.Registry.{add_connection}
use godot_godaemon_multiplay.Peer.Poll.{process_one}
use godot_godaemon_multiplay.Peer.Callback.{network_connection_status_changed}
use godot_godaemon_multiplay.Peer.Ends.{Ends, Ends-mono, Ends-eq}
use godot_godaemon_multiplay.Peer.Handshake.{process_one-reply}
use godot_godaemon_multiplay.Peer.Meeting.{Ends-and, client_joining}
use godot_godaemon_multiplay.Peer.Agreement.{answer_world, delivered, Knows, awaited-Knows}
use godot_godaemon_multiplay.Peer.Accepted.{Reports, Bound, Told, server-Bound, client-Told}

-- The two ends: the client's user is `env_c.own_steam_id`, the server's `env_s.own_steam_id`.
module _ {V W : Type 0} (env_c : Env V) (env_s : Env W) (up_c : env_c.sockets ≡ true)
    (up_s : env_s.sockets ≡ true) (different : env_c.own_steam_id ≢ env_s.own_steam_id)
    (fits_c : 4 ≤ env_c.max_steam_packet_size) (fits_s : 4 ≤ env_s.max_steam_packet_size) where
  -- What the server makes of the client's setup packet.
  server_learns :
      (ev : StatusChanged) (id flags : ℕ) (s t : Session W)
      → id < 2147483648
      → id ≢ 1
      → s.peer.unique_id ≡ 1
      → s.peer.active_mode ≡ mode_server
      → Bound env_s up_s env_c.own_steam_id ev.connection s t
      → Ends
          (process_one env_s (delivered env_c.own_steam_id flags (setup_packet env_c id)) t)
          (λ _ u.
            (u.world ≡ (attempt env_s ev.connection (setup_packet env_s 1) s.world).1)
            × Knows env_s env_c.own_steam_id id s.peer.emitted u.peer)
  unfolding new_connection
  server_learns ev id flags s t small new own mode (w, world, told, same, kept) =
      let user = env_c.own_steam_id in
      let Done : Unit {0} → Session W → Type 0 = λ _ u.
        (u.world ≡ (attempt env_s ev.connection (setup_packet env_s 1) s.world).1)
        × Knows env_s user id s.peer.emitted u.peer in
      let msg : Message = record {
        identity_peer = user;
        flags = flags;
        payload = bytes_of_u32 id;
      } in
      let a = (add_connection env_s user ev.connection s.peer).0 in
      let c = new_connection user ev.connection in
      let serves : is_server t.peer ≡ true = ground arith in
      let answered =
        Ends-eq _ _ _
          (process_one-reply env_s up_s user id a flags c t different (omega arith) w.entry w.there
            w.unset)
          (answer_world env_s up_s a id c t serves w.there w.unset refl) in
      let known =
        awaited-Knows env_s up_s user a id flags c t different small (λ e. new (ground arith))
          (λ e. absurd (ground arith)) w in
      subst
        (λ bytes.
          Ends
            (process_one env_s (record { identity_peer = user; flags = flags; payload = bytes }) t)
            Done)
        (sym (setup_packet_bytes env_c id fits_c))
        (Ends-mono _ Done (process_one env_s msg t) (Ends-and _ _ _ answered known)
          λ _ u (sent, (by_user, by_id, heard, reachable)). (
            ground (arith, sent, world, own, same),
            (by_user, by_id, ground (arith, heard, told), reachable),
          ))

  client_learns :
      (ev : StatusChanged) (flags : ℕ) (s t : Session V)
      → s.peer.unique_id ≢ 1
      → Told env_c up_c ev env_s.own_steam_id s t
      → Ends
          (process_one env_c (delivered env_s.own_steam_id flags (setup_packet env_s 1)) t)
          (λ _ u. Knows env_c env_s.own_steam_id 1 s.peer.emitted u.peer)
  client_learns ev flags s t other ((rest, w), _, told, own) =
      let user = env_s.own_steam_id in
      let Done : Unit {0} → Session V → Type 0 = λ _ u. Knows env_c user 1 s.peer.emitted u.peer in
      let msg : Message = record {
        identity_peer = user;
        flags = flags;
        payload = bytes_of_u32 1;
      } in
      let c = new_connection user ev.connection in
      subst
        (λ bytes.
          Ends
            (process_one env_c (record { identity_peer = user; flags = flags; payload = bytes }) t)
            Done)
        (sym (setup_packet_bytes env_s 1 fits_s))
        (Ends-mono _ Done (process_one env_c msg t)
          (awaited-Knows env_c up_c user
            (client_joining env_c up_c ev s.peer).client_steam_connection 1 flags
            (record c { pending_retry_packets = rest }) t (λ e. different (sym e)) (omega arith)
            (λ e. other (ground arith)) (λ _. refl) w)
          λ _ u (by_user, by_id, heard, reachable).
            (by_user, by_id, ground (arith, heard, told), reachable))

  -- A client and a server that differ in their users meet, with Steam there and a size limit of
  -- at least four bytes at both ends. The client is joining, with a peer id that is positive as
  -- an `int32_t` or 0 and not 1; the server is connected and has the id 1; and each end hears a
  -- report that a connection to the other end's user was accepted. Then no step crashes. The
  -- client's callback makes an attempt to send the setup packet with its id. The server that
  -- gets this packet after its own callback makes an attempt to answer with the setup packet of
  -- the id 1 on the connection of its report. When the packets have been delivered, each end's
  -- lookups give the other's user and id for each other, the last signal emitted was
  -- `peer_connected` with the other's id, and `_put_packet` lets a packet for the other end
  -- through.
  pub client_and_server_meet :
      (ev_c ev_s : StatusChanged) (flags_c flags_s : ℕ) (s : Session V) (v : Session W)
      → Reports env_c up_c ev_c env_s.own_steam_id s.peer
      → s.peer.active_mode ≡ mode_client
      → is_connected s.peer.connection_status ≡ false
      → s.peer.unique_id < 2147483648
      → s.peer.unique_id ≢ 1
      → Reports env_s up_s ev_s env_c.own_steam_id v.peer
      → v.peer.active_mode ≡ mode_server
      → is_connected v.peer.connection_status ≡ true
      → v.peer.unique_id ≡ 1
      → Ends (network_connection_status_changed env_c ev_c s) (λ _ s'.
        (s'.world ≡ (attempt env_c ev_c.connection (setup_packet env_c s.peer.unique_id) s.world).1)
        × Ends (network_connection_status_changed env_s ev_s v) (λ _ v'.
          Ends
            (process_one env_s
              (delivered env_c.own_steam_id flags_c (setup_packet env_c s.peer.unique_id))
              v')
            (λ _ v''.
              (v''.world ≡ (attempt env_s ev_s.connection (setup_packet env_s 1) v.world).1)
              × Knows env_s env_c.own_steam_id s.peer.unique_id v.peer.emitted v''.peer))
        × Ends
            (process_one env_c (delivered env_s.own_steam_id flags_s (setup_packet env_s 1)) s')
            (λ _ s''. Knows env_c env_s.own_steam_id 1 s.peer.emitted s''.peer))
  client_and_server_meet ev_c ev_s flags_c flags_s s v r_c mode_c away small new r_s mode_s here
        own =
      Ends-mono (λ _ t. Told env_c up_c ev_c env_s.own_steam_id s t) _ _
        (client-Told env_c up_c ev_c env_s.own_steam_id s (λ e. different (sym e)) r_c
          (ground arith) away (ground arith))
        λ _ s' (rest, sent, told, kept). (
          sent,
          Ends-mono (λ _ t. Bound env_s up_s env_c.own_steam_id ev_s.connection v t) _ _
              (server-Bound env_s up_s ev_s env_c.own_steam_id v different r_s (ground arith) here
                (ground arith))
              (λ _ v' bound.
                server_learns ev_s s.peer.unique_id flags_c v v' small new own mode_s bound),
          client_learns ev_c flags_s s s' new (rest, sent, told, kept),
        )
