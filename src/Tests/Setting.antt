-- ===== src/Tests/Setting.antt =====
-- A small world for the witnesses: a counter of the calls made, Steam with its documented constants,
-- and a server that knows two users, of whom only the first has a peer id.
use godot_godaemon_multiplay.Prelude.{
  ℕ, ◌+◌, refl, arith, true, false, some, none, List, [], ◌∷◌, minus_one,
}
use godot_godaemon_multiplay.EResult.{EResult}
use godot_godaemon_multiplay.Godot.{reliable, connected, disconnected}
use godot_godaemon_multiplay.Steam.{Constants, Env, AreDocumented}
use godot_godaemon_multiplay.Steam.Types.{Message, StatusChanged, NetworkingConnectionState}
use godot_godaemon_multiplay.Packet.{SteamPacketPeer}
use godot_godaemon_multiplay.Connection.{SteamConnection}
use godot_godaemon_multiplay.Config.{SteamPeerConfig, Conversions, Variant}
use godot_godaemon_multiplay.Peer.State.{
  SteamMultiplayerPeer, null_ref, mode_none, mode_server, mode_client,
}
use godot_godaemon_multiplay.Peer.Action.{Session}
use godot_godaemon_multiplay.Peer.Invariant.{IsRegistry}

abbrev pub documented : Constants
documented = record {
  send_unreliable = 0;
  send_no_nagle = 1;
  send_no_delay = 4;
  send_reliable = 8;
  max_steam_packet_size = 524288;
  invalid_connection = 0;
  invalid_listen_socket = 0;
  config_connection_user_data = 40;
}

pub documented-AreDocumented : AreDocumented documented
documented-AreDocumented = record {
  unreliable_is = refl;
  no_nagle_is = refl;
  no_delay_is = refl;
  reliable_is = refl;
}

-- Steam answers every send with the result, and hands out the messages on every connection.
abbrev pub steam : EResult → List Message → Env ℕ
steam result messages = record {
  constants = documented;
  sockets = true;
  own_steam_id = 7;
  individual_steam_id = λ account. 1000 + account;
  send_message_to_connection = λ handle bytes flags w. (result, w + 1);
  flush_messages_on_connection = λ handle w. w + 1;
  close_connection = λ handle reason linger w. (true, w + 1);
  accept_connection = λ handle w. (EResult.ok, w + 1);
  receive_messages_on_connection = λ handle count w. (messages, w + 1);
  init_relay_network_access = λ w. w + 1;
  create_listen_socket_p2p = λ port options w. (9, w + 1);
  close_listen_socket = λ handle w. (true, w + 1);
  connect_p2p = λ user port options w. (12, w + 1);
  create_socket_pair = λ host client w. (some (21, 22), w + 1);
  set_connection_config_value = λ handle value w. w + 1;
  generate_unique_id = λ w. (77, w + 1);
  disconnect_host_peer = λ peer w. w + 1;
}

abbrev pub accepting : Env ℕ
accepting = steam EResult.ok []

abbrev pub failing : Env ℕ
failing = steam EResult.fail []

abbrev pub conversions : Conversions
conversions = record { to_float32 = λ x. x; to_object = λ v. 0 }

abbrev pub known_connection : SteamConnection
known_connection = record {
  steam_id = 42;
  steam_connection = 11;
  peer_id = 5;
  last_msg_timestamp = 0;
  pending_retry_packets = [];
}

abbrev pub fresh_connection : SteamConnection
fresh_connection = record {
  steam_id = 43;
  steam_connection = 12;
  peer_id = minus_one;
  last_msg_timestamp = 0;
  pending_retry_packets = [];
}

abbrev pub packet_of : ℕ → SteamPacketPeer
packet_of sender = record { bytes = 1 ∷ 2 ∷ []; size = 2; sender = sender; transfer_mode = 8 }

abbrev pub config_of : ℕ → Variant → SteamPeerConfig
config_of key value = record { options = (key, value) ∷ []; option_array = none }

abbrev pub idle_peer : SteamPeerConfig → SteamMultiplayerPeer
idle_peer configs = record {
  active_mode = mode_none;
  unique_id = 0;
  target_peer = 0;
  transfer_mode = reliable;
  no_nagle = false;
  no_delay = false;
  configs = configs;
  loopback_idx = 0;
  connections_by_steam_id64 = [];
  peer_id_to_steam_id = [];
  loopback_connections_by_steam_id64 = [];
  listen_socket = 9;
  connection = 12;
  client_steam_connection = null_ref;
  host_loopback_peer = false;
  virtual_port = minus_one;
  is_loopback_client = false;
  next_received_packet = none;
  incoming_packets = [];
  connection_status = disconnected;
  connection_objects = [];
  emitted = [];
}

abbrev pub empty_config : SteamPeerConfig
empty_config = record { options = []; option_array = none }

-- The server, with a target and the packets that wait to be got.
abbrev pub server : ℕ → List SteamPacketPeer → SteamMultiplayerPeer
server target packets = record (idle_peer empty_config) {
  active_mode = mode_server;
  unique_id = 1;
  target_peer = target;
  connections_by_steam_id64 = (42, 1) ∷ (43, 2) ∷ [];
  peer_id_to_steam_id = (5, 1) ∷ [];
  incoming_packets = packets;
  connection_status = connected;
  connection_objects = known_connection ∷ fresh_connection ∷ [];
}

pub server-IsRegistry :
    (target : ℕ) (packets : List SteamPacketPeer) → IsRegistry (server target packets)
server-IsRegistry target packets = record {
  by_steam_id = ((known_connection, refl, refl), ((fresh_connection, refl, refl), tt));
  by_peer_id = ((known_connection, refl, (refl, λ h. absurd (ground (arith, h)))), tt);
  loopback = tt;
}

abbrev pub client : SteamMultiplayerPeer
client = record (idle_peer empty_config) { active_mode = mode_client }

abbrev pub at : SteamMultiplayerPeer → Session ℕ
at p = record { peer = p; world = 0 }

-- A report on a connection with a user.
abbrev pub report : NetworkingConnectionState → NetworkingConnectionState → ℕ → ℕ → StatusChanged
report old new socket user = record {
  connection = 12;
  old_state = old;
  state = new;
  listen_socket = socket;
  identity_remote = user;
  user_data = 0;
}
