-- ===== src/Peer/Packets.antt =====
-- Sending and receiving packets: the `PacketPeer` part of `SteamMultiplayerPeer`.
use godot_godaemon_multiplay.Prelude.{
  ℕ, not, ◌&&◌, Option, none, some, List, [], ◌∷◌, ◌==◌, if◌then◌else◌, length, abs32,
}
use godot_godaemon_multiplay.HashMap.{HashMap, has}
use godot_godaemon_multiplay.Godot.{
  Error, ok, err_unavailable, err_unconfigured, err_invalid_parameter, err_bug, TransferMode,
  reliable, unreliable, is_connected,
}
use godot_godaemon_multiplay.Steam.{Constants, Env}
use godot_godaemon_multiplay.Packet.{SteamPacketPeer, new_packet}
use godot_godaemon_multiplay.Connection.{has_reliable_flag, send}
use godot_godaemon_multiplay.Peer.State.{SteamMultiplayerPeer, is_active, mode_is_client}
use godot_godaemon_multiplay.Peer.Action.{Action, on_connection}
use godot_godaemon_multiplay.Peer.Settings.{get_steam_transfer_flag}
use godot_godaemon_multiplay.Peer.Registry.{get_connection_by_peer, connection_of}

-- `_get_packet`: the error and, on success, the packet behind `r_buffer` and `r_buffer_size`.
unfoldable pub get_packet :
    SteamMultiplayerPeer → (Error × Option SteamPacketPeer) × SteamMultiplayerPeer
get_packet p = elim p.incoming_packets [
  | [] ↦ ((err_unavailable, none), p)
  | packet ∷ rest ↦
      ((ok, some packet), record p { next_received_packet = some packet; incoming_packets = rest })
]

unfoldable pub get_available_packet_count : SteamMultiplayerPeer → ℕ
get_available_packet_count p = length p.incoming_packets

unfoldable pub get_packet_mode : Constants → SteamMultiplayerPeer → TransferMode
get_packet_mode c p =
    if is_active p
    then elim p.incoming_packets [
      | [] ↦ reliable
      | packet ∷ rest ↦
          if has_reliable_flag c.send_reliable packet.transfer_mode then reliable else unreliable
    ]
    else reliable

-- `_get_packet_peer` looks the sender up in a map that is constant there.
unfoldable pub get_packet_peer : SteamMultiplayerPeer → Option ℕ
get_packet_peer p =
    if is_active p
    then elim p.incoming_packets [
      | [] ↦ some 1
      | packet ∷ rest ↦ elim (connection_of packet.sender p.connections_by_steam_id64 p) [
        | none ↦ none
        | some c ↦ some c.peer_id
      ]
    ]
    else some 1

module _ {W : Type 0} (env : Env W) where
  -- The loop of `_put_packet` over all connections, from the value to return so far.
  unfoldable pub broadcast_loop : HashMap ℕ → SteamPacketPeer → Error → Action W Error
  broadcast_loop [] packet result s = some (result, s)
  broadcast_loop ((steam_id, a) ∷ rest) packet result s =
      elim (on_connection a (send env packet) s) [
        | none ↦ none
        | some (ok, t) ↦ broadcast_loop rest packet result t
        | some (error_code, t) ↦ broadcast_loop rest packet error_code t
      ]

  -- The guards of `_put_packet`, in order; `ok` if all pass.
  unfoldable pub put_packet_error : SteamMultiplayerPeer → Error
  put_packet_error p =
      if not (is_active p)
      then err_unconfigured
      else if not (is_connected p.connection_status)
      then err_unconfigured
      else if not (p.target_peer == 0) && not (has (abs32 p.target_peer) p.peer_id_to_steam_id)
      then err_invalid_parameter
      else if mode_is_client p.active_mode && not (has 1 p.peer_id_to_steam_id)
      then err_bug
      else ok

  -- What `_put_packet` does once its guards have passed.
  unfoldable pub put_packet_send : List ℕ → Action W Error
  put_packet_send buffer s =
      let packet = new_packet env.constants buffer (get_steam_transfer_flag env.constants s.peer) in
      if s.peer.target_peer == 0
      then broadcast_loop s.peer.connections_by_steam_id64 packet ok s
      else elim (get_connection_by_peer s.peer.target_peer s.peer) [
        | none ↦ none
        | some a ↦ on_connection a (send env packet) s
      ]

  unfoldable pub put_packet : List ℕ → Action W Error
  put_packet buffer s = elim (put_packet_error s.peer) [
    | ok ↦ put_packet_send buffer s
    | error ↦ some (error, s)
  ]
