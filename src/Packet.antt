-- ===== src/Packet.antt =====
-- `SteamPacketPeer` (godaemon-cpp/steam_packet_peer.h and .cpp). The array `data` is given by its
-- first `size` bytes; `sender` is 0 until `_process_message` sets it.
use godot_godaemon_multiplay.Prelude.{ℕ, List, [], ltb, if◌then◌else◌, length}
use godot_godaemon_multiplay.Steam.{Constants}

pub record SteamPacketPeer : Type 0 where
  pub bytes : List ℕ
  pub size : ℕ
  pub sender : ℕ
  pub transfer_mode : ℕ

-- The constructor without arguments.
unfoldable pub empty_packet : Constants → SteamPacketPeer
empty_packet c = record { bytes = []; size = 0; sender = 0; transfer_mode = c.send_reliable }

-- The constructor from a buffer: past the limit it prints an error and leaves the packet empty.
unfoldable pub new_packet : Constants → List ℕ → ℕ → SteamPacketPeer
new_packet c buffer mode =
    if ltb c.max_steam_packet_size (length buffer)
    then empty_packet c
    else record { bytes = buffer; size = length buffer; sender = 0; transfer_mode = mode }
