-- ===== src/Peer/State.antt =====
-- The state of a `SteamMultiplayerPeer` (steam_multiplayer_peer.h). A `Ref<SteamConnection>` is a
-- number, so that the three maps can share an object: 0 is the null `Ref`, and n + 1 the object at
-- place n of `connection_objects`. An object is kept when the last `Ref` to it is gone: its
-- destructor does not run. `emitted` lists the signals, the newest first.
use godot_godaemon_multiplay.Prelude.{
  ℕ, zero, suc, Bool, true, false, Option, none, List, [], ◌∷◌, ◌++◌, minus_one, length, get_elem?,
  set,
}
use godot_godaemon_multiplay.HashMap.{HashMap}
use godot_godaemon_multiplay.Godot.{TransferMode, ConnectionStatus, Signal, reliable, disconnected}
use godot_godaemon_multiplay.Packet.{SteamPacketPeer}
use godot_godaemon_multiplay.Connection.{SteamConnection}
use godot_godaemon_multiplay.Config.{SteamPeerConfig, new_config}

abbrev pub null_ref : ℕ
null_ref = 0

abbrev pub load : ℕ → List SteamConnection → Option SteamConnection
load zero objects = none
load (suc i) objects = get_elem? objects i

abbrev pub store : ℕ → SteamConnection → List SteamConnection → List SteamConnection
store zero c objects = objects
store (suc i) c objects = set objects i c

pub data Mode : Type 0 where
  mode_none mode_server mode_client : Mode

pub record SteamMultiplayerPeer : Type 0 where
  pub active_mode : Mode
  pub unique_id : ℕ
  pub target_peer : ℕ
  pub transfer_mode : TransferMode
  pub no_nagle : Bool
  pub no_delay : Bool
  pub configs : SteamPeerConfig
  pub loopback_idx : ℕ
  pub connections_by_steam_id64 : HashMap ℕ
  pub peer_id_to_steam_id : HashMap ℕ
  pub loopback_connections_by_steam_id64 : HashMap ℕ
  pub listen_socket : ℕ
  pub connection : ℕ
  pub client_steam_connection : ℕ
  pub host_loopback_peer : Bool
  pub virtual_port : ℕ
  pub is_loopback_client : Bool
  pub next_received_packet : Option SteamPacketPeer
  pub incoming_packets : List SteamPacketPeer
  pub connection_status : ConnectionStatus
  pub connection_objects : List SteamConnection
  pub emitted : List Signal

-- The members' initial values and the constructor. `listen_socket` and `connection` have none: they
-- hold the words `listen` and `handle` that happen to be there.
unfoldable pub new_peer : ℕ → ℕ → SteamMultiplayerPeer
new_peer listen handle = record {
  active_mode = mode_none;
  unique_id = 0;
  target_peer = minus_one;
  transfer_mode = reliable;
  no_nagle = false;
  no_delay = false;
  configs = new_config;
  loopback_idx = 0;
  connections_by_steam_id64 = [];
  peer_id_to_steam_id = [];
  loopback_connections_by_steam_id64 = [];
  listen_socket = listen;
  connection = handle;
  client_steam_connection = null_ref;
  host_loopback_peer = false;
  virtual_port = minus_one;
  is_loopback_client = false;
  next_received_packet = none;
  incoming_packets = [];
  connection_status = disconnected;
  connection_objects = [];
  emitted = [];
}

abbrev pub mode_is_active : Mode → Bool
mode_is_active mode_none = false
mode_is_active mode_server = true
mode_is_active mode_client = true

abbrev pub mode_is_client : Mode → Bool
mode_is_client mode_client = true
mode_is_client mode_none = false
mode_is_client mode_server = false

-- `_is_active`.
abbrev pub is_active : SteamMultiplayerPeer → Bool
is_active p = mode_is_active p.active_mode

-- The object behind a `Ref`.
abbrev pub object_at : ℕ → SteamMultiplayerPeer → Option SteamConnection
object_at a p = load a p.connection_objects

-- Writes the object behind a `Ref`.
abbrev pub write_object : ℕ → SteamConnection → SteamMultiplayerPeer → SteamMultiplayerPeer
write_object a c p = record p { connection_objects = store a c p.connection_objects }

-- `memnew`: the `Ref` to a new object, and the peer with the object.
abbrev pub new_ref : SteamMultiplayerPeer → ℕ
new_ref p = suc (length p.connection_objects)

abbrev pub new_object : SteamConnection → SteamMultiplayerPeer → SteamMultiplayerPeer
new_object c p = record p { connection_objects = p.connection_objects ++ c ∷ [] }

abbrev pub emit_signal : Signal → SteamMultiplayerPeer → SteamMultiplayerPeer
emit_signal s p = record p { emitted = s ∷ p.emitted }
