-- ===== src/Connection/Setup.antt =====
-- The packet that tells the remote user a peer id.
use godot_godaemon_multiplay.Prelude.{
  List, inl, inr, Bool-cases, ◌∷◌, ℕ, ◌≤◌, ◌≡◌, true, false, some, [], arith, bytes_of_u32,
}
use godot_godaemon_multiplay.Godot
use godot_godaemon_multiplay.Godot.{Error, transfer_mode_value}
use godot_godaemon_multiplay.EResult.{is_ok}
use godot_godaemon_multiplay.Steam.{Env, AreDocumented}
use godot_godaemon_multiplay.Packet.{SteamPacketPeer, empty_packet, new_packet}
use godot_godaemon_multiplay.Connection.{
  SteamConnection, has_reliable_flag, send_pending_loop, send_pending, add_packet, send,
  send_setup_peer, send_peer,
}
use godot_godaemon_multiplay.Connection.Drain.{attempt, raw_send-attempt}

module _ {W : Type 0} (env : Env W) where
  -- The packet that `_send_setup_peer` builds for a peer id.
  abbrev pub setup_packet : ℕ → SteamPacketPeer
  setup_packet peer_id =
      new_packet env.constants (bytes_of_u32 peer_id) (transfer_mode_value Godot.reliable)

  setup_packet_mode :
      (peer_id : ℕ) → 4 ≤ env.max_steam_packet_size → (setup_packet peer_id).transfer_mode ≡ 2
  unfolding new_packet empty_packet bytes_of_u32
  setup_packet_mode peer_id fits = ground arith

  -- With Steam there, a setup packet is sent with Godot's `TRANSFER_MODE_RELIABLE`, which Steam
  -- does not read as its own reliable flag: with the documented flags, and a size limit of at
  -- least its four bytes, where Steam refuses it on a connection with an empty queue, the peer
  -- id is not kept for a retry, and the caller is told `OK`.
  pub send_peer_not_retried :
      (peer_id : ℕ) (c : SteamConnection) (w : W)
      → AreDocumented env.constants
      → env.sockets ≡ true
      → 4 ≤ env.max_steam_packet_size
      → c.pending_retry_packets ≡ []
      → is_ok (attempt env c.steam_connection (setup_packet peer_id) w).0 ≡ false
      → send_peer env peer_id c w
        ≡ some (
          Error.ok,
          record c { pending_retry_packets = [] },
          (attempt env c.steam_connection (setup_packet peer_id) w).1,
        )
  unfolding send_peer send_setup_peer send add_packet send_pending send_pending_loop
      has_reliable_flag
  send_peer_not_retried peer_id c w documented up fits empty refused = ground (
    arith,
    raw_send-attempt env c.steam_connection up (setup_packet peer_id) w,
    setup_packet_mode peer_id fits,
  )

  -- On a connection with an empty queue a setup packet is attempted once, whatever Steam says.
  pub send_peer-attempt :
      (peer_id : ℕ) (c : SteamConnection) (w : W)
      → env.sockets ≡ true
      → c.pending_retry_packets ≡ []
      → (rest : List SteamPacketPeer) × (send_peer env peer_id c w
          ≡ some (
            Error.ok,
            record c { pending_retry_packets = rest },
            (attempt env c.steam_connection (setup_packet peer_id) w).1,
          ))
  unfolding send_peer send_setup_peer send add_packet send_pending send_pending_loop
  send_peer-attempt peer_id c w up empty =
      let p = setup_packet peer_id in
      let tried = raw_send-attempt env c.steam_connection up p w in
      elim (Bool-cases (is_ok (attempt env c.steam_connection p w).0)) [
        | inl accepted ↦ ([], ground (arith, tried))
        | inr refused ↦ elim (Bool-cases (has_reliable_flag env.send_reliable p.transfer_mode)) [
          | inl reliable ↦ (p ∷ [], ground (arith, tried))
          | inr lossy ↦ ([], ground (arith, tried))
        ]
      ]

  -- The bytes that the other end gets are the peer id's.
  pub setup_packet_bytes :
      (peer_id : ℕ)
      → 4 ≤ env.max_steam_packet_size
      → (setup_packet peer_id).bytes ≡ bytes_of_u32 peer_id
  unfolding new_packet empty_packet bytes_of_u32
  setup_packet_bytes peer_id fits = ground arith
