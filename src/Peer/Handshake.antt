-- ===== src/Peer/Handshake.antt =====
-- The exchange of peer ids: what a ping with an id does to a connection that has none.
use godot_godaemon_multiplay.Prelude.{
  ℕ, ◌≡◌, sym, ◌∙◌, ◌<◌, refl, ◌≢◌, inl, inr, true, some, ◌∷◌, arith, ◌==◌, ==_iff, Bool-cases,
  minus_one, bytes_of_u32, u32_of_bytes-bytes_of_u32, length-bytes_of_u32,
}
use godot_godaemon_multiplay.HashMap.{lookup, has, insert, lookup-insert}
use godot_godaemon_multiplay.Godot
use godot_godaemon_multiplay.Godot.{ok, peer_connected, transfer_mode_value}
use godot_godaemon_multiplay.Steam.{Env}
use godot_godaemon_multiplay.Packet.{new_packet}
use godot_godaemon_multiplay.Connection.{SteamConnection, send_peer, send_setup_peer}
use godot_godaemon_multiplay.Connection.Drain.{send-Drains}
use godot_godaemon_multiplay.Peer.State.{SteamMultiplayerPeer, object_at, write_object, emit_signal}
use godot_godaemon_multiplay.Peer.Action.{Session}
use godot_godaemon_multiplay.Peer.Settings.{is_server}
use godot_godaemon_multiplay.Peer.Registry.{
  assign_peer_id, set_steam_id_peer, connection_of, get_peer_id_from_steam64,
  get_steam64_from_peer_id, get_connection_by_peer,
}
use godot_godaemon_multiplay.Peer.Poll.{
  take_peer_id, answer_if_server, announce, reply_ping, answer_ping, process_ping, process_one,
}
use godot_godaemon_multiplay.Peer.Refs.{load-store_self, load-store_ne}
use godot_godaemon_multiplay.Peer.Ends.{
  Ends, Ends-mono, Ends-of_eq, Ends-eq, Ends-bind, on_connection_eq,
}

-- The peer id `id` now belongs to the connection behind `a`, which is with the user `user`; apart
-- from that entry and the connections, the fields that the lookups read are those of `p`.
abbrev pub IsBound : ℕ → ℕ → ℕ → SteamMultiplayerPeer → SteamMultiplayerPeer → Type 0
IsBound a user id p q =
    (q.peer_id_to_steam_id ≡ insert id a p.peer_id_to_steam_id)
    × (q.connections_by_steam_id64 ≡ p.connections_by_steam_id64)
    × (q.unique_id ≡ p.unique_id)
    × (q.emitted ≡ p.emitted)
    × ((b : ℕ) → b ≢ a → object_at b q ≡ object_at b p)
    × ((d : SteamConnection) × (object_at a q ≡ some d) × (d.peer_id ≡ id) × (d.steam_id ≡ user))

assign_peer_id-IsBound :
    (a user id : ℕ) (c : SteamConnection) (p : SteamMultiplayerPeer)
    → object_at a p ≡ some c
    → c.peer_id ≡ minus_one
    → c.steam_id ≡ user
    → IsBound a user id p (assign_peer_id a id c p)
unfolding assign_peer_id
assign_peer_id-IsBound a user id c p there unset with_user =
    let e : (c.peer_id == minus_one) ≡ true = (==_iff c.peer_id minus_one).1 unset in
    let d = record c { peer_id = id } in
    rw e (
      refl,
      refl,
      refl,
      refl,
      (λ b ne. load-store_ne a b p.connection_objects d (λ e. ne (sym e))),
      (d, load-store_self a p.connection_objects d c there, refl, with_user),
    )

module _ {W : Type 0} (env : Env W) (up : env.sockets ≡ true) (p : SteamMultiplayerPeer) where
  answer_if_server-IsBound :
      (a user id : ℕ) (s : Session W)
      → IsBound a user id p s.peer
      → Ends (answer_if_server env a s) (λ _ t. IsBound a user id p t.peer)
  unfolding answer_if_server send_peer send_setup_peer
  answer_if_server-IsBound a user id s
        (peers, conns, own, told, others, (d, there, is_id, is_user)) =
      let (rest, w, e, _) =
        send-Drains env up
          (new_packet env.constants (bytes_of_u32 s.peer.unique_id)
            (transfer_mode_value Godot.reliable))
          d s.world in
      let d' = record d { pending_retry_packets = rest } in
      let sent = on_connection_eq a (send_peer env s.peer.unique_id) s d d' ok w there e in
      let t : Session W = record { peer = write_object a d' s.peer; world = w } in
      elim (Bool-cases (is_server s.peer)) [
        | inl server ↦
            Ends-of_eq (λ _ t. IsBound a user id p t.peer) (answer_if_server env a s) tt t
              (ground (arith, sent))
              (
                peers,
                conns,
                own,
                told,
                (λ b ne.
                    load-store_ne a b s.peer.connection_objects d' (λ e. ne (sym e)) ∙ others b ne),
                (d', load-store_self a s.peer.connection_objects d' d there, is_id, is_user),
              )
        | inr client ↦
            Ends-of_eq (λ _ t. IsBound a user id p t.peer) (answer_if_server env a s) tt s
              (ground arith) (peers, conns, own, told, others, (d, there, is_id, is_user))
      ]

  -- The same once `peer_connected` is emitted.
  abbrev pub IsAnnounced : ℕ → ℕ → ℕ → Unit {0} → Session W → Type 0
  IsAnnounced a user id _ t =
      (t.peer.emitted ≡ peer_connected id ∷ p.emitted)
      × (t.peer.peer_id_to_steam_id ≡ insert id a p.peer_id_to_steam_id)
      × (t.peer.connections_by_steam_id64 ≡ p.connections_by_steam_id64)
      × (t.peer.unique_id ≡ p.unique_id)
      × ((b : ℕ) → b ≢ a → object_at b t.peer ≡ object_at b p)
      × ((d : SteamConnection) × (object_at a t.peer ≡ some d)
          × (d.peer_id ≡ id)
          × (d.steam_id ≡ user))

  announce-IsAnnounced :
      (a user id : ℕ) (s : Session W)
      → IsBound a user id p s.peer
      → Ends (announce env a s) (IsAnnounced a user id)
  unfolding announce
  announce-IsAnnounced a user id s (peers, conns, own, told, others, (d, there, is_id, is_user)) =
      Ends-of_eq _ (announce env a s) tt
        (record s { peer = emit_signal (peer_connected d.peer_id) s.peer }) (ground (arith, there))
        (ground arith, peers, conns, own, others, (d, there, is_id, is_user))

  reply_ping-IsAnnounced :
      (a user id : ℕ) (s : Session W)
      → IsBound a user id p s.peer
      → Ends (reply_ping env a s) (IsAnnounced a user id)
  unfolding reply_ping
  reply_ping-IsAnnounced a user id s bound =
      Ends-bind (λ _ t. IsBound a user id p t.peer) (IsAnnounced a user id) _
        (λ _ t. announce env a t) (answer_if_server-IsBound a user id s bound)
        (λ _ t b. announce-IsAnnounced a user id t b)

  -- Both lookups agree on the user and the id, and the signal with the id was emitted last.
  abbrev pub Introduces : ℕ → ℕ → Unit {0} → Session W → Type 0
  Introduces user id _ t =
      (get_peer_id_from_steam64 env user t.peer ≡ some id)
      × (get_steam64_from_peer_id env id t.peer ≡ some user)
      × (t.peer.emitted ≡ peer_connected id ∷ p.emitted)

  pub IsAnnounced-Introduces :
      (a user id : ℕ) (t : Session W)
      → user ≢ env.own_steam_id
      → id ≢ p.unique_id
      → lookup user p.connections_by_steam_id64 ≡ some a
      → IsAnnounced a user id tt t
      → Introduces user id tt t
  unfolding get_peer_id_from_steam64 get_steam64_from_peer_id connection_of has
  IsAnnounced-Introduces a user id t other taken entry
        (told, peers, conns, own, others, (d, there, is_id, is_user)) =
      (
        ground (arith, other, entry, conns, there, is_id),
        ground
            (arith, taken, own, peers, lookup-insert id id a p.peer_id_to_steam_id, there, is_user),
        told,
      )

module _ {W : Type 0} (env : Env W) (up : env.sockets ≡ true) where
  pub process_one-reply :
      (user id a flags : ℕ) (c : SteamConnection) (s : Session W)
      → user ≢ env.own_steam_id
      → id < 4294967295
      → lookup user s.peer.connections_by_steam_id64 ≡ some a
      → object_at a s.peer ≡ some c
      → c.peer_id ≡ minus_one
      → process_one env
          (record { identity_peer = user; flags = flags; payload = bytes_of_u32 id })
          s
        ≡ reply_ping env a (record s { peer = assign_peer_id a id c s.peer })
  unfolding process_one process_ping answer_ping take_peer_id set_steam_id_peer
      get_peer_id_from_steam64 connection_of has
  process_one-reply user id a flags c s other small entry there unset =
      ground (arith, length-bytes_of_u32 id, u32_of_bytes-bytes_of_u32 id, there)

  pub process_one-IsAnnounced :
      (user id a flags : ℕ) (c : SteamConnection) (s : Session W)
      → user ≢ env.own_steam_id
      → id < 4294967295
      → lookup user s.peer.connections_by_steam_id64 ≡ some a
      → object_at a s.peer ≡ some c
      → c.steam_id ≡ user
      → c.peer_id ≡ minus_one
      → Ends
          (process_one env
            (record { identity_peer = user; flags = flags; payload = bytes_of_u32 id })
            s)
          (IsAnnounced env up s.peer a user id)
  process_one-IsAnnounced user id a flags c s other small entry there with_user unset =
      Ends-eq (IsAnnounced env up s.peer a user id) _ _
        (process_one-reply user id a flags c s other small entry there unset)
        (reply_ping-IsAnnounced env up s.peer a user id
          (record s { peer = assign_peer_id a id c s.peer })
          (assign_peer_id-IsBound a user id c s.peer there unset with_user))

  -- With Steam there, a message with the four bytes of a peer id, from a user whose connection
  -- has no id yet, binds the id: afterwards each lookup finds the other, and `peer_connected`
  -- was emitted with the id. The user is not the own one, and the id is neither the own one nor
  -- the mark of a missing id.
  pub process_one-Introduces :
      (user id a flags : ℕ) (c : SteamConnection) (s : Session W)
      → user ≢ env.own_steam_id
      → id < 4294967295
      → id ≢ s.peer.unique_id
      → lookup user s.peer.connections_by_steam_id64 ≡ some a
      → object_at a s.peer ≡ some c
      → c.steam_id ≡ user
      → c.peer_id ≡ minus_one
      → Ends
          (process_one env
            (record { identity_peer = user; flags = flags; payload = bytes_of_u32 id })
            s)
          (Introduces env up s.peer user id)
  process_one-Introduces user id a flags c s other small taken entry there with_user unset =
      Ends-mono (IsAnnounced env up s.peer a user id) (Introduces env up s.peer user id) _
        (process_one-IsAnnounced user id a flags c s other small entry there with_user unset)
        (λ _ t. IsAnnounced-Introduces env up s.peer a user id t other taken entry)

  -- With Steam there, a message with a peer id that another user has, from a user whose
  -- connection has no id yet, takes the id over: afterwards the id leads to the new user and its
  -- connection, while the lookups by Steam id give it for both users. Neither user is the own
  -- one, and the id is neither the own one nor the mark of a missing id.
  pub peer_id_taken_over :
      (user other_user id a b flags : ℕ) (c d : SteamConnection) (s : Session W)
      → user ≢ env.own_steam_id
      → other_user ≢ env.own_steam_id
      → id < 4294967295
      → id ≢ s.peer.unique_id
      → lookup user s.peer.connections_by_steam_id64 ≡ some a
      → object_at a s.peer ≡ some c
      → c.steam_id ≡ user
      → c.peer_id ≡ minus_one
      → lookup other_user s.peer.connections_by_steam_id64 ≡ some b
      → object_at b s.peer ≡ some d
      → d.peer_id ≡ id
      → Ends
          (process_one env
            (record { identity_peer = user; flags = flags; payload = bytes_of_u32 id })
            s)
          (λ _ t.
            (get_steam64_from_peer_id env id t.peer ≡ some user)
            × (get_peer_id_from_steam64 env user t.peer ≡ some id)
            × (get_peer_id_from_steam64 env other_user t.peer ≡ some id)
            × (get_connection_by_peer id t.peer ≡ some a))
  unfolding get_peer_id_from_steam64 connection_of has get_connection_by_peer
  peer_id_taken_over user other_user id a b flags c d s other other' small taken entry there
        with_user unset entry' there' has_id =
      let ne : b ≢ a = λ e. absurd (ground (arith, there, there', e, unset, has_id)) in
      Ends-mono (IsAnnounced env up s.peer a user id) _ _
        (process_one-IsAnnounced user id a flags c s other small entry there with_user unset)
        λ _ t announced.
          let (by_user, by_id, _) =
            IsAnnounced-Introduces env up s.peer a user id t other taken entry announced in
          let (_, peers, conns, _, others, _) = announced in
          (
            by_id,
            by_user,
            ground (arith, other', entry', conns, others b ne, there', has_id),
            ground (arith, peers, lookup-insert id id a s.peer.peer_id_to_steam_id),
          )
