-- ===== src/Peer/Agreement.antt =====
-- A client and a server that have met: what each end knows of the other.
use godot_godaemon_multiplay.Prelude.{
  ℕ, ◌≡◌, ◌≢◌, ◌<◌, refl, true, false, some, List, [], ◌∷◌, arith, ◌==◌, ==_iff, minus_one,
  bytes_of_u32, is_negative,
}
use godot_godaemon_multiplay.HashMap.{lookup, has, insert, lookup-insert}
use godot_godaemon_multiplay.Godot.{Signal, peer_connected, ok, is_connected}
use godot_godaemon_multiplay.Steam.{Env}
use godot_godaemon_multiplay.Steam.Types.{Message}
use godot_godaemon_multiplay.Packet.{SteamPacketPeer}
use godot_godaemon_multiplay.Connection.{SteamConnection, send_peer}
use godot_godaemon_multiplay.Connection.Drain.{attempt}
use godot_godaemon_multiplay.Connection.Setup.{setup_packet, send_peer-attempt}
use godot_godaemon_multiplay.Peer.State.{
  SteamMultiplayerPeer, mode_client, is_active, object_at, write_object, emit_signal,
}
use godot_godaemon_multiplay.Peer.Action.{Session}
use godot_godaemon_multiplay.Peer.Settings.{is_server, set_target_peer}
use godot_godaemon_multiplay.Peer.Registry.{
  assign_peer_id, get_peer_id_from_steam64, get_steam64_from_peer_id,
}
use godot_godaemon_multiplay.Peer.Packets.{put_packet_error}
use godot_godaemon_multiplay.Peer.Poll.{answer_if_server, announce, reply_ping, process_one}
use godot_godaemon_multiplay.Peer.Refs.{load-store_self}
use godot_godaemon_multiplay.Peer.Control.{SameControl, process_one-Keeps}
use godot_godaemon_multiplay.Peer.Ends.{Ends, Ends-mono, Ends-of_eq, on_connection_eq}
use godot_godaemon_multiplay.Peer.Handshake.{
  IsAnnounced, process_one-IsAnnounced, IsAnnounced-Introduces,
}
use godot_godaemon_multiplay.Peer.Meeting.{Ends-Whenever}

module _ {W : Type 0} (env : Env W) (up : env.sockets ≡ true) where
  -- A server answers on the connection that the id came on.
  pub answer_world :
      (a id : ℕ) (c : SteamConnection) (s : Session W)
      → is_server s.peer ≡ true
      → object_at a s.peer ≡ some c
      → c.peer_id ≡ minus_one
      → c.pending_retry_packets ≡ []
      → Ends (reply_ping env a (record s { peer = assign_peer_id a id c s.peer })) (λ _ t.
        t.world ≡ (attempt env c.steam_connection (setup_packet env s.peer.unique_id) s.world).1)
  unfolding reply_ping answer_if_server announce assign_peer_id
  answer_world a id c s server there unset empty =
      let e : (c.peer_id == minus_one) ≡ true = (==_iff c.peer_id minus_one).1 unset in
      let d = record c { peer_id = id } in
      let q : SteamMultiplayerPeer = record (write_object a d s.peer) {
        peer_id_to_steam_id = insert id a s.peer.peer_id_to_steam_id;
      } in
      let there' = load-store_self a s.peer.connection_objects d c there in
      let (rest, sending) = send_peer-attempt env s.peer.unique_id d s.world up empty in
      let d' = record d { pending_retry_packets = rest } in
      let sent =
        on_connection_eq a (send_peer env q.unique_id) (record s { peer = q }) d d' ok _ there'
          sending in
      let told = load-store_self a q.connection_objects d' d there' in
      Ends-of_eq
        (λ _ t.
          t.world ≡ (attempt env c.steam_connection (setup_packet env s.peer.unique_id) s.world).1)
        (reply_ping env a (record s { peer = assign_peer_id a id c s.peer })) tt
        (record {
          peer = emit_signal (peer_connected id) (write_object a d' q);
          world = (attempt env c.steam_connection (setup_packet env s.peer.unique_id) s.world).1;
        })
        (rw e (ground (arith, sent, told))) refl

-- A message from a user with the bytes of a packet.
abbrev pub delivered : ℕ → ℕ → SteamPacketPeer → Message
delivered user flags packet = record { identity_peer = user; flags = flags; payload = packet.bytes }

-- The peer is in a session, both lookups agree on the user and the id, and the last signal told it.
abbrev pub Knows : {W : Type 0} → Env W → ℕ → ℕ → List Signal → SteamMultiplayerPeer → Type 0
Knows env user id told p =
    (get_peer_id_from_steam64 env user p ≡ some id)
    × (get_steam64_from_peer_id env id p ≡ some user)
    × (p.emitted ≡ peer_connected id ∷ told)
    × (put_packet_error env (set_target_peer id p) ≡ ok)

module _ {W : Type 0} (env : Env W) (up : env.sockets ≡ true) where
  -- A session in which the other end's id is still to come.
  pub record Awaits (user a : ℕ) (c : SteamConnection) (p : SteamMultiplayerPeer) : Type 0 where
    pub entry : lookup user p.connections_by_steam_id64 ≡ some a
    pub there : object_at a p ≡ some c
    pub with_user : c.steam_id ≡ user
    pub unset : c.peer_id ≡ minus_one
    pub active : is_active p ≡ true
    pub here : is_connected p.connection_status ≡ true

  -- The guards of `_put_packet` for a peer that is known, on a server or for the server.
  put_packet_error-known :
      (id a : ℕ) (p q : SteamMultiplayerPeer)
      → SameControl p q
      → is_active p ≡ true
      → is_connected p.connection_status ≡ true
      → q.peer_id_to_steam_id ≡ insert id a p.peer_id_to_steam_id
      → (p.active_mode ≡ mode_client → id ≡ 1)
      → is_negative id ≡ false
      → put_packet_error env (set_target_peer id q) ≡ ok
  unfolding put_packet_error set_target_peer has
  put_packet_error-known id a p q (mode, status, own, loop) active here peers cl small = ground (
    arith,
    lookup-insert id id a p.peer_id_to_steam_id,
    lookup-insert id 1 a p.peer_id_to_steam_id,
  )

  pub awaited-Knows :
      (user a id flags : ℕ) (c : SteamConnection) (s : Session W)
      → user ≢ env.own_steam_id
      → id < 2147483648
      → id ≢ s.peer.unique_id
      → (s.peer.active_mode ≡ mode_client → id ≡ 1)
      → Awaits user a c s.peer
      → Ends
          (process_one env
            (record { identity_peer = user; flags = flags; payload = bytes_of_u32 id })
            s)
          (λ _ t. Knows env user id s.peer.emitted t.peer)
  awaited-Knows user a id flags c s other small new cl w =
      let msg : Message = record {
        identity_peer = user;
        flags = flags;
        payload = bytes_of_u32 id;
      } in
      Ends-mono (λ _ t. IsAnnounced env up s.peer a user id tt t × SameControl s.peer t.peer)
        (λ _ t. Knows env user id s.peer.emitted t.peer) (process_one env msg s)
        (Ends-Whenever (IsAnnounced env up s.peer a user id) (λ _ t. SameControl s.peer t.peer)
          (process_one env msg s)
          (process_one-IsAnnounced env up user id a flags c s other (omega arith) w.entry w.there
            w.with_user w.unset)
          (process_one-Keeps env msg s))
        λ _ t (announced, same).
          let (by_user, by_id, told) =
            IsAnnounced-Introduces env up s.peer a user id t other new w.entry announced in
          let (_, peers, _, _, _, _) = announced in
          (
            by_user,
            by_id,
            told,
            put_packet_error-known id a s.peer t.peer same w.active w.here peers cl (ground arith),
          )
