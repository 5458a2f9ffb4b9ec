-- ===== src/Peer/Settings.antt =====
-- The setters and getters of `SteamMultiplayerPeer`, and the flags that it sends with.
use godot_godaemon_multiplay.Prelude.{ℕ, ◌*◌, Bool, true, false, ◌==◌, if◌then◌else◌, bit_or}
use godot_godaemon_multiplay.Godot.{
  TransferMode, unreliable, unreliable_ordered, reliable, ConnectionStatus,
}
use godot_godaemon_multiplay.Steam.{Constants}
use godot_godaemon_multiplay.Config.{SteamPeerConfig, Variant}
use godot_godaemon_multiplay.Config
use godot_godaemon_multiplay.Peer.State.{
  Mode, mode_none, mode_server, mode_client, SteamMultiplayerPeer, is_active,
}

-- `_get_max_packet_size`, `_get_packet_channel` and `_get_transfer_channel`.
unfoldable pub get_max_packet_size : Constants → SteamMultiplayerPeer → ℕ
get_max_packet_size c p = c.max_steam_packet_size

unfoldable pub get_packet_channel : SteamMultiplayerPeer → ℕ
get_packet_channel p = 0

unfoldable pub get_transfer_channel : SteamMultiplayerPeer → ℕ
get_transfer_channel p = 0

-- `_set_transfer_channel` has an empty body.
unfoldable pub set_transfer_channel : ℕ → SteamMultiplayerPeer → SteamMultiplayerPeer
set_transfer_channel channel p = p

unfoldable pub set_transfer_mode : TransferMode → SteamMultiplayerPeer → SteamMultiplayerPeer
set_transfer_mode mode p = record p { transfer_mode = mode }

unfoldable pub get_transfer_mode : SteamMultiplayerPeer → TransferMode
get_transfer_mode p = p.transfer_mode

unfoldable pub set_target_peer : ℕ → SteamMultiplayerPeer → SteamMultiplayerPeer
set_target_peer peer p = record p { target_peer = peer }

-- `_is_server`.
abbrev pub is_server : SteamMultiplayerPeer → Bool
is_server p = p.unique_id == 1

-- `_get_unique_id`: 0 while not active.
unfoldable pub get_unique_id : SteamMultiplayerPeer → ℕ
get_unique_id p = if is_active p then p.unique_id else 0

-- `_is_server_relay_supported`.
abbrev pub relays : Mode → Bool
relays mode_server = true
relays mode_client = true
relays mode_none = false

unfoldable pub is_server_relay_supported : SteamMultiplayerPeer → Bool
is_server_relay_supported p = relays p.active_mode

unfoldable pub get_connection_status : SteamMultiplayerPeer → ConnectionStatus
get_connection_status p = p.connection_status

unfoldable pub set_listen_socket : ℕ → SteamMultiplayerPeer → SteamMultiplayerPeer
set_listen_socket socket p = record p { listen_socket = socket }

unfoldable pub get_listen_socket : SteamMultiplayerPeer → ℕ
get_listen_socket p = p.listen_socket

unfoldable pub set_no_nagle : Bool → SteamMultiplayerPeer → SteamMultiplayerPeer
set_no_nagle b p = record p { no_nagle = b }

unfoldable pub get_no_nagle : SteamMultiplayerPeer → Bool
get_no_nagle p = p.no_nagle

unfoldable pub set_no_delay : Bool → SteamMultiplayerPeer → SteamMultiplayerPeer
set_no_delay b p = record p { no_delay = b }

unfoldable pub get_no_delay : SteamMultiplayerPeer → Bool
get_no_delay p = p.no_delay

unfoldable pub set_configs : SteamPeerConfig → SteamMultiplayerPeer → SteamMultiplayerPeer
set_configs c p = record p { configs = c }

unfoldable pub get_configs : SteamMultiplayerPeer → SteamPeerConfig
get_configs p = p.configs

unfoldable pub set_config : ℕ → Variant → SteamMultiplayerPeer → SteamMultiplayerPeer
set_config config value p = record p { configs = Config.set_config config value p.configs }

unfoldable pub clear_config : ℕ → SteamMultiplayerPeer → SteamMultiplayerPeer
clear_config config p = record p { configs = Config.clear_config config p.configs }

unfoldable pub clear_all_configs : SteamMultiplayerPeer → SteamMultiplayerPeer
clear_all_configs p = record p { configs = Config.clear_all_configs p.configs }

-- A `bool` as C++ multiplies with it.
abbrev pub bool_value : Bool → ℕ
bool_value true = 1
bool_value false = 0

-- The `switch` of `_get_steam_transfer_flag`; its three cases are all values of the enumeration.
abbrev pub mode_flag : Constants → TransferMode → ℕ
mode_flag c reliable = c.send_reliable
mode_flag c unreliable = c.send_unreliable
mode_flag c unreliable_ordered = c.send_reliable

-- `_get_steam_transfer_flag`.
unfoldable pub get_steam_transfer_flag : Constants → SteamMultiplayerPeer → ℕ
unfolding get_transfer_mode
get_steam_transfer_flag c p =
    let flags =
      bit_or (c.send_no_nagle * bool_value p.no_nagle) (c.send_no_delay * bool_value p.no_delay) in
    bit_or (mode_flag c (get_transfer_mode p)) flags
