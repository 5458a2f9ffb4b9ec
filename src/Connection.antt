-- ===== src/Connection.antt =====
-- `SteamConnection` (godaemon-cpp/steam_connection.h and .cpp): a connection to one remote user
-- with the packets that wait to be sent. `none` is a call through a null `SteamNetworkingSockets()`.
-- The fields `m_bActive` and `m_ulTickCountLastData` are never read or written, and left out.
pub mod Drain
pub mod Setup
use godot_godaemon_multiplay.Prelude.{
  ℕ, Bool, true, false, not, Option, none, some, List, [], ◌∷◌, ◌++◌, ◌==◌, if◌then◌else◌,
  minus_one, bit_and, bytes_of_u32,
}
use godot_godaemon_multiplay.Godot
use godot_godaemon_multiplay.Godot.{Error, transfer_mode_value}
use godot_godaemon_multiplay.EResult.{EResult, is_ok}
use godot_godaemon_multiplay.Steam.{Env}
use godot_godaemon_multiplay.Steam.Types.{app_generic}
use godot_godaemon_multiplay.Packet.{SteamPacketPeer, new_packet}

pub record SteamConnection : Type 0 where
  pub steam_id : ℕ
  pub steam_connection : ℕ
  pub peer_id : ℕ
  pub last_msg_timestamp : ℕ
  pub pending_retry_packets : List SteamPacketPeer

-- The constructor; `steam_connection` is set by the caller right after.
unfoldable pub new_connection : ℕ → ℕ → SteamConnection
new_connection steam_id handle = record {
  steam_id = steam_id;
  steam_connection = handle;
  peer_id = minus_one;
  last_msg_timestamp = 0;
  pending_retry_packets = [];
}

-- `operator==`.
unfoldable pub same_user : SteamConnection → SteamConnection → Bool
same_user c d = c.steam_id == d.steam_id

-- `packet->transfer_mode & k_nSteamNetworkingSend_Reliable`, as a condition.
unfoldable pub has_reliable_flag : ℕ → ℕ → Bool
has_reliable_flag reliable mode = not (bit_and mode reliable == 0)

module _ {W : Type 0} (env : Env W) where
  -- `_raw_send` on the handle of the connection.
  unfoldable pub raw_send : ℕ → SteamPacketPeer → W → Option (EResult × W)
  raw_send handle packet w =
      if env.sockets
      then some (env.send_message_to_connection handle packet.bytes packet.transfer_mode w)
      else none

  -- The loop of `_send_pending`, from the packets that wait to those that still wait.
  unfoldable pub send_pending_loop :
      ℕ → List SteamPacketPeer → W → Option (List SteamPacketPeer × W)
  send_pending_loop handle [] w = some ([], w)
  send_pending_loop handle (packet ∷ rest) w = elim (raw_send handle packet w) [
    | none ↦ none
    | some (error_code, w') ↦ elim (is_ok error_code) [
      | true ↦ send_pending_loop handle rest w'
      | false ↦ elim (has_reliable_flag env.send_reliable packet.transfer_mode) [
        | true ↦ some (packet ∷ rest, w')
        | false ↦ send_pending_loop handle rest w'
      ]
    ]
  ]

  unfoldable pub send_pending : SteamConnection → W → Option (Error × SteamConnection × W)
  send_pending c w = elim (send_pending_loop c.steam_connection c.pending_retry_packets w) [
    | none ↦ none
    | some (pending, w') ↦ some (Error.ok, record c { pending_retry_packets = pending }, w')
  ]

  unfoldable pub add_packet : SteamPacketPeer → SteamConnection → SteamConnection
  add_packet packet c = record c { pending_retry_packets = c.pending_retry_packets ++ packet ∷ [] }

  unfoldable pub send : SteamPacketPeer → SteamConnection → W → Option (Error × SteamConnection × W)
  send packet c w = send_pending (add_packet packet c) w

  -- With an invalid handle `flush` prints an error and does nothing.
  unfoldable pub flush : SteamConnection → W → Option W
  flush c w =
      if c.steam_connection == env.invalid_connection
      then some w
      else if env.sockets
      then some (env.flush_messages_on_connection c.steam_connection w)
      else none

  unfoldable pub close : SteamConnection → W → Bool × W
  close c w =
      if not env.sockets
      then (false, w)
      else if c.steam_connection == env.invalid_connection
      then (false, w)
      else env.close_connection c.steam_connection app_generic false w

  -- The destructor: it closes the handle, lingering, and drops the packets.
  unfoldable pub destroy : SteamConnection → W → Option W
  destroy c w =
      if env.sockets
      then some (env.close_connection c.steam_connection app_generic true w).1
      else none

  -- `SetupPeerPayload` is one `uint32_t`; the packet's mode is Godot's `TRANSFER_MODE_RELIABLE`.
  unfoldable pub send_setup_peer : ℕ → SteamConnection → W → Option (Error × SteamConnection × W)
  send_setup_peer payload c w =
      send (new_packet env.constants (bytes_of_u32 payload) (transfer_mode_value Godot.reliable)) c
        w

  -- The default payload: `peer_id = -1`.
  unfoldable pub request_peer : SteamConnection → W → Option (Error × SteamConnection × W)
  request_peer c w = send_setup_peer minus_one c w

  unfoldable pub send_peer : ℕ → SteamConnection → W → Option (Error × SteamConnection × W)
  send_peer peer_id c w = send_setup_peer peer_id c w
