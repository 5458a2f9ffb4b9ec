-- ===== src/Config/PeerNames.antt =====
-- `SteamMultiplayerPeer::SteamNetworkingConfig` (godaemon-cpp/steam_multiplayer_peer.h), which repeats
-- the enumeration of `SteamPeerConfig`.
use godot_godaemon_multiplay.Prelude.{◌≡◌, refl, ap, ◌≢◌, ◌⊎◌, inl, inr, Option, none, some}
use godot_godaemon_multiplay.Config.Names
use godot_godaemon_multiplay.Config.Names.{SteamNetworkingConfig}

pub data PeerNetworkingConfig : Type 0 where
  invalid fake_packet_loss_send fake_packet_loss_recv fake_packet_lag_send : PeerNetworkingConfig
  fake_packet_lag_recv fake_packet_reorder_send fake_packet_reorder_recv : PeerNetworkingConfig
  fake_packet_reorder_time fake_packet_dup_send fake_packet_dup_revc : PeerNetworkingConfig
  fake_packet_dup_time_max packet_trace_max_bytes : PeerNetworkingConfig
  fake_rate_limit_send_rate fake_rate_limit_send_burst : PeerNetworkingConfig
  fake_rate_limit_recv_rate fake_rate_limit_recv_burst : PeerNetworkingConfig
  out_of_order_correction_window_microseconds connection_user_data : PeerNetworkingConfig
  timeout_initial timeout_connected send_buffer_size recv_buffer_size : PeerNetworkingConfig
  recv_buffer_messages recv_max_message_size recv_max_segments_per_packet : PeerNetworkingConfig
  send_rate_min send_rate_max nagle_time ip_allow_without_auth : PeerNetworkingConfig
  mtu_packet_size mtu_data_size unencrypted symmetric_connect : PeerNetworkingConfig
  local_virtual_port dual_wifi_enable enable_diagnostics_ui : PeerNetworkingConfig
  sdr_client_consec_ping_timeout_fail_initial : PeerNetworkingConfig
  sdr_client_consec_ping_timeout_fail : PeerNetworkingConfig
  sdr_client_min_pings_before_ping_accurate sdr_client_single_socket : PeerNetworkingConfig
  sdr_client_force_relay_cluster sdr_client_dev_ticket : PeerNetworkingConfig
  sdr_client_force_proxy_addr sdr_client_fake_cluster_ping : PeerNetworkingConfig
  sdr_client_limit_ping_probes_to_nearest_n log_level_ack_rtt : PeerNetworkingConfig
  log_level_packet_decode log_level_message log_level_packet_gaps : PeerNetworkingConfig
  log_level_p2p_rendezvous log_level_srd_relay_pings : PeerNetworkingConfig
  callback_connection_status_changed callback_auth_status_changed : PeerNetworkingConfig
  callback_relay_network_status_changed callback_message_session_request : PeerNetworkingConfig
  callback_messages_session_failed callback_create_connection_signaling : PeerNetworkingConfig
  callback_fake_ip_result p2p_stun_server_list p2p_transport_ice_enable : PeerNetworkingConfig
  p2p_transport_ice_penalty p2p_transport_sdr_penalty p2p_turn_server_list : PeerNetworkingConfig
  p2p_turn_user_list p2p_turn_pass_list p2p_transport_ice_implementation : PeerNetworkingConfig
  ecn value_force32bit : PeerNetworkingConfig

-- The enumerator of `SteamPeerConfig` with the same Steam constant.
unfoldable pub peer_config_value : PeerNetworkingConfig → SteamNetworkingConfig
peer_config_value invalid = Names.invalid
peer_config_value fake_packet_loss_send = Names.fake_packet_loss_send
peer_config_value fake_packet_loss_recv = Names.fake_packet_loss_recv
peer_config_value fake_packet_lag_send = Names.fake_packet_lag_send
peer_config_value fake_packet_lag_recv = Names.fake_packet_lag_recv
peer_config_value fake_packet_reorder_send = Names.fake_packet_reorder_send
peer_config_value fake_packet_reorder_recv = Names.fake_packet_reorder_recv
peer_config_value fake_packet_reorder_time = Names.fake_packet_reorder_time
peer_config_value fake_packet_dup_send = Names.fake_packet_dup_send
peer_config_value fake_packet_dup_revc = Names.fake_packet_dup_revc
peer_config_value fake_packet_dup_time_max = Names.fake_packet_dup_time_max
peer_config_value packet_trace_max_bytes = Names.packet_trace_max_bytes
peer_config_value fake_rate_limit_send_rate = Names.fake_rate_limit_send_rate
peer_config_value fake_rate_limit_send_burst = Names.fake_rate_limit_send_burst
peer_config_value fake_rate_limit_recv_rate = Names.fake_rate_limit_recv_rate
peer_config_value fake_rate_limit_recv_burst = Names.fake_rate_limit_recv_burst
peer_config_value out_of_order_correction_window_microseconds =
    Names.out_of_order_correction_window_microseconds
peer_config_value connection_user_data = Names.connection_user_data
peer_config_value timeout_initial = Names.timeout_initial
peer_config_value timeout_connected = Names.timeout_connected
peer_config_value send_buffer_size = Names.send_buffer_size
peer_config_value recv_buffer_size = Names.recv_buffer_size
peer_config_value recv_buffer_messages = Names.recv_buffer_messages
peer_config_value recv_max_message_size = Names.recv_max_message_size
peer_config_value recv_max_segments_per_packet = Names.recv_max_segments_per_packet
peer_config_value send_rate_min = Names.send_rate_min
peer_config_value send_rate_max = Names.send_rate_max
peer_config_value nagle_time = Names.nagle_time
peer_config_value ip_allow_without_auth = Names.ip_allow_without_auth
peer_config_value mtu_packet_size = Names.mtu_packet_size
peer_config_value mtu_data_size = Names.mtu_data_size
peer_config_value unencrypted = Names.unencrypted
peer_config_value symmetric_connect = Names.symmetric_connect
peer_config_value local_virtual_port = Names.local_virtual_port
peer_config_value dual_wifi_enable = Names.dual_wifi_enable
peer_config_value enable_diagnostics_ui = Names.enable_diagnostics_ui
peer_config_value sdr_client_consec_ping_timeout_fail_initial =
    Names.sdr_client_consec_ping_timeout_fail_initial
peer_config_value sdr_client_consec_ping_timeout_fail = Names.sdr_client_consec_ping_timeout_fail
peer_config_value sdr_client_min_pings_before_ping_accurate =
    Names.sdr_client_min_pings_before_ping_accurate
peer_config_value sdr_client_single_socket = Names.sdr_client_single_socket
peer_config_value sdr_client_force_relay_cluster = Names.sdr_client_force_relay_cluster
peer_config_value sdr_client_dev_ticket = Names.sdr_client_dev_ticket
peer_config_value sdr_client_force_proxy_addr = Names.sdr_client_force_proxy_addr
peer_config_value sdr_client_fake_cluster_ping = Names.sdr_client_fake_cluster_ping
peer_config_value sdr_client_limit_ping_probes_to_nearest_n =
    Names.sdr_client_limit_ping_probes_to_nearest_n
peer_config_value log_level_ack_rtt = Names.log_level_ack_rtt
peer_config_value log_level_packet_decode = Names.log_level_packet_decode
peer_config_value log_level_message = Names.log_level_message
peer_config_value log_level_packet_gaps = Names.log_level_packet_gaps
peer_config_value log_level_p2p_rendezvous = Names.log_level_p2p_rendezvous
peer_config_value log_level_srd_relay_pings = Names.log_level_srd_relay_pings
peer_config_value callback_connection_status_changed = Names.callback_connection_status_changed
peer_config_value callback_auth_status_changed = Names.callback_auth_status_changed
peer_config_value callback_relay_network_status_changed =
    Names.callback_relay_network_status_changed
peer_config_value callback_message_session_request = Names.callback_message_session_request
peer_config_value callback_messages_session_failed = Names.callback_messages_session_failed
peer_config_value callback_create_connection_signaling = Names.callback_create_connection_signaling
peer_config_value callback_fake_ip_result = Names.callback_fake_ip_result
peer_config_value p2p_stun_server_list = Names.p2p_stun_server_list
peer_config_value p2p_transport_ice_enable = Names.p2p_transport_ice_enable
peer_config_value p2p_transport_ice_penalty = Names.p2p_transport_ice_penalty
peer_config_value p2p_transport_sdr_penalty = Names.p2p_transport_sdr_penalty
peer_config_value p2p_turn_server_list = Names.p2p_turn_server_list
peer_config_value p2p_turn_user_list = Names.p2p_turn_user_list
peer_config_value p2p_turn_pass_list = Names.p2p_turn_pass_list
peer_config_value p2p_transport_ice_implementation = Names.p2p_transport_ice_implementation
peer_config_value ecn = Names.ecn
peer_config_value value_force32bit = Names.value_force32bit

-- The enumerator of `SteamMultiplayerPeer` for one of `SteamPeerConfig`, if there is one.
named_in_peer : SteamNetworkingConfig → Option PeerNetworkingConfig
named_in_peer Names.invalid = some invalid
named_in_peer Names.fake_packet_loss_send = some fake_packet_loss_send
named_in_peer Names.fake_packet_loss_recv = some fake_packet_loss_recv
named_in_peer Names.fake_packet_lag_send = some fake_packet_lag_send
named_in_peer Names.fake_packet_lag_recv = some fake_packet_lag_recv
named_in_peer Names.fake_packet_reorder_send = some fake_packet_reorder_send
named_in_peer Names.fake_packet_reorder_recv = some fake_packet_reorder_recv
named_in_peer Names.fake_packet_reorder_time = some fake_packet_reorder_time
named_in_peer Names.fake_packet_dup_send = some fake_packet_dup_send
named_in_peer Names.fake_packet_dup_revc = some fake_packet_dup_revc
named_in_peer Names.fake_packet_dup_time_max = some fake_packet_dup_time_max
named_in_peer Names.packet_trace_max_bytes = some packet_trace_max_bytes
named_in_peer Names.fake_rate_limit_send_rate = some fake_rate_limit_send_rate
named_in_peer Names.fake_rate_limit_send_burst = some fake_rate_limit_send_burst
named_in_peer Names.fake_rate_limit_recv_rate = some fake_rate_limit_recv_rate
named_in_peer Names.fake_rate_limit_recv_burst = some fake_rate_limit_recv_burst
named_in_peer Names.out_of_order_correction_window_microseconds =
    some out_of_order_correction_window_microseconds
named_in_peer Names.connection_user_data = some connection_user_data
named_in_peer Names.timeout_initial = some timeout_initial
named_in_peer Names.timeout_connected = some timeout_connected
named_in_peer Names.send_buffer_size = some send_buffer_size
named_in_peer Names.recv_buffer_size = some recv_buffer_size
named_in_peer Names.recv_buffer_messages = some recv_buffer_messages
named_in_peer Names.recv_max_message_size = some recv_max_message_size
named_in_peer Names.recv_max_segments_per_packet = some recv_max_segments_per_packet
named_in_peer Names.send_rate_min = some send_rate_min
named_in_peer Names.send_rate_max = some send_rate_max
named_in_peer Names.nagle_time = some nagle_time
named_in_peer Names.ip_allow_without_auth = some ip_allow_without_auth
named_in_peer Names.ip_local_host_allow_without_auth = none
named_in_peer Names.mtu_packet_size = some mtu_packet_size
named_in_peer Names.mtu_data_size = some mtu_data_size
named_in_peer Names.unencrypted = some unencrypted
named_in_peer Names.symmetric_connect = some symmetric_connect
named_in_peer Names.local_virtual_port = some local_virtual_port
named_in_peer Names.dual_wifi_enable = some dual_wifi_enable
named_in_peer Names.enable_diagnostics_ui = some enable_diagnostics_ui
named_in_peer Names.sdr_client_consec_ping_timeout_fail_initial =
    some sdr_client_consec_ping_timeout_fail_initial
named_in_peer Names.sdr_client_consec_ping_timeout_fail = some sdr_client_consec_ping_timeout_fail
named_in_peer Names.sdr_client_min_pings_before_ping_accurate =
    some sdr_client_min_pings_before_ping_accurate
named_in_peer Names.sdr_client_single_socket = some sdr_client_single_socket
named_in_peer Names.sdr_client_force_relay_cluster = some sdr_client_force_relay_cluster
named_in_peer Names.sdr_client_dev_ticket = some sdr_client_dev_ticket
named_in_peer Names.sdr_client_force_proxy_addr = some sdr_client_force_proxy_addr
named_in_peer Names.sdr_client_fake_cluster_ping = some sdr_client_fake_cluster_ping
named_in_peer Names.sdr_client_limit_ping_probes_to_nearest_n =
    some sdr_client_limit_ping_probes_to_nearest_n
named_in_peer Names.log_level_ack_rtt = some log_level_ack_rtt
named_in_peer Names.log_level_packet_decode = some log_level_packet_decode
named_in_peer Names.log_level_message = some log_level_message
named_in_peer Names.log_level_packet_gaps = some log_level_packet_gaps
named_in_peer Names.log_level_p2p_rendezvous = some log_level_p2p_rendezvous
named_in_peer Names.log_level_srd_relay_pings = some log_level_srd_relay_pings
named_in_peer Names.callback_connection_status_changed = some callback_connection_status_changed
named_in_peer Names.callback_auth_status_changed = some callback_auth_status_changed
named_in_peer Names.callback_relay_network_status_changed =
    some callback_relay_network_status_changed
named_in_peer Names.callback_message_session_request = some callback_message_session_request
named_in_peer Names.callback_messages_session_failed = some callback_messages_session_failed
named_in_peer Names.callback_create_connection_signaling = some callback_create_connection_signaling
named_in_peer Names.callback_fake_ip_result = some callback_fake_ip_result
named_in_peer Names.p2p_stun_server_list = some p2p_stun_server_list
named_in_peer Names.p2p_transport_ice_enable = some p2p_transport_ice_enable
named_in_peer Names.p2p_transport_ice_penalty = some p2p_transport_ice_penalty
named_in_peer Names.p2p_transport_sdr_penalty = some p2p_transport_sdr_penalty
named_in_peer Names.p2p_turn_server_list = some p2p_turn_server_list
named_in_peer Names.p2p_turn_user_list = some p2p_turn_user_list
named_in_peer Names.p2p_turn_pass_list = some p2p_turn_pass_list
named_in_peer Names.p2p_transport_ice_implementation = some p2p_transport_ice_implementation
named_in_peer Names.ecn = some ecn
named_in_peer Names.value_force32bit = some value_force32bit

named_in_peer-value : (p : PeerNetworkingConfig) → named_in_peer (peer_config_value p) ≡ some p
unfolding named_in_peer peer_config_value
named_in_peer-value invalid = refl
named_in_peer-value _ = refl

value_of_named :
    (c : SteamNetworkingConfig)
    → (c ≡ Names.ip_local_host_allow_without_auth)
      ⊎ ((p : PeerNetworkingConfig) × (peer_config_value p ≡ c))
unfolding peer_config_value
value_of_named Names.invalid = inr (invalid, refl)
value_of_named Names.fake_packet_loss_send = inr (fake_packet_loss_send, refl)
value_of_named Names.fake_packet_loss_recv = inr (fake_packet_loss_recv, refl)
value_of_named Names.fake_packet_lag_send = inr (fake_packet_lag_send, refl)
value_of_named Names.fake_packet_lag_recv = inr (fake_packet_lag_recv, refl)
value_of_named Names.fake_packet_reorder_send = inr (fake_packet_reorder_send, refl)
value_of_named Names.fake_packet_reorder_recv = inr (fake_packet_reorder_recv, refl)
value_of_named Names.fake_packet_reorder_time = inr (fake_packet_reorder_time, refl)
value_of_named Names.fake_packet_dup_send = inr (fake_packet_dup_send, refl)
value_of_named Names.fake_packet_dup_revc = inr (fake_packet_dup_revc, refl)
value_of_named Names.fake_packet_dup_time_max = inr (fake_packet_dup_time_max, refl)
value_of_named Names.packet_trace_max_bytes = inr (packet_trace_max_bytes, refl)
value_of_named Names.fake_rate_limit_send_rate = inr (fake_rate_limit_send_rate, refl)
value_of_named Names.fake_rate_limit_send_burst = inr (fake_rate_limit_send_burst, refl)
value_of_named Names.fake_rate_limit_recv_rate = inr (fake_rate_limit_recv_rate, refl)
value_of_named Names.fake_rate_limit_recv_burst = inr (fake_rate_limit_recv_burst, refl)
value_of_named Names.out_of_order_correction_window_microseconds =
    inr (out_of_order_correction_window_microseconds, refl)
value_of_named Names.connection_user_data = inr (connection_user_data, refl)
value_of_named Names.timeout_initial = inr (timeout_initial, refl)
value_of_named Names.timeout_connected = inr (timeout_connected, refl)
value_of_named Names.send_buffer_size = inr (send_buffer_size, refl)
value_of_named Names.recv_buffer_size = inr (recv_buffer_size, refl)
value_of_named Names.recv_buffer_messages = inr (recv_buffer_messages, refl)
value_of_named Names.recv_max_message_size = inr (recv_max_message_size, refl)
value_of_named Names.recv_max_segments_per_packet = inr (recv_max_segments_per_packet, refl)
value_of_named Names.send_rate_min = inr (send_rate_min, refl)
value_of_named Names.send_rate_max = inr (send_rate_max, refl)
value_of_named Names.nagle_time = inr (nagle_time, refl)
value_of_named Names.ip_allow_without_auth = inr (ip_allow_without_auth, refl)
value_of_named Names.ip_local_host_allow_without_auth = inl refl
value_of_named Names.mtu_packet_size = inr (mtu_packet_size, refl)
value_of_named Names.mtu_data_size = inr (mtu_data_size, refl)
value_of_named Names.unencrypted = inr (unencrypted, refl)
value_of_named Names.symmetric_connect = inr (symmetric_connect, refl)
value_of_named Names.local_virtual_port = inr (local_virtual_port, refl)
value_of_named Names.dual_wifi_enable = inr (dual_wifi_enable, refl)
value_of_named Names.enable_diagnostics_ui = inr (enable_diagnostics_ui, refl)
value_of_named Names.sdr_client_consec_ping_timeout_fail_initial =
    inr (sdr_client_consec_ping_timeout_fail_initial, refl)
value_of_named Names.sdr_client_consec_ping_timeout_fail =
    inr (sdr_client_consec_ping_timeout_fail, refl)
value_of_named Names.sdr_client_min_pings_before_ping_accurate =
    inr (sdr_client_min_pings_before_ping_accurate, refl)
value_of_named Names.sdr_client_single_socket = inr (sdr_client_single_socket, refl)
value_of_named Names.sdr_client_force_relay_cluster = inr (sdr_client_force_relay_cluster, refl)
value_of_named Names.sdr_client_dev_ticket = inr (sdr_client_dev_ticket, refl)
value_of_named Names.sdr_client_force_proxy_addr = inr (sdr_client_force_proxy_addr, refl)
value_of_named Names.sdr_client_fake_cluster_ping = inr (sdr_client_fake_cluster_ping, refl)
value_of_named Names.sdr_client_limit_ping_probes_to_nearest_n =
    inr (sdr_client_limit_ping_probes_to_nearest_n, refl)
value_of_named Names.log_level_ack_rtt = inr (log_level_ack_rtt, refl)
value_of_named Names.log_level_packet_decode = inr (log_level_packet_decode, refl)
value_of_named Names.log_level_message = inr (log_level_message, refl)
value_of_named Names.log_level_packet_gaps = inr (log_level_packet_gaps, refl)
value_of_named Names.log_level_p2p_rendezvous = inr (log_level_p2p_rendezvous, refl)
value_of_named Names.log_level_srd_relay_pings = inr (log_level_srd_relay_pings, refl)
value_of_named Names.callback_connection_status_changed =
    inr (callback_connection_status_changed, refl)
value_of_named Names.callback_auth_status_changed = inr (callback_auth_status_changed, refl)
value_of_named Names.callback_relay_network_status_changed =
    inr (callback_relay_network_status_changed, refl)
value_of_named Names.callback_message_session_request = inr (callback_message_session_request, refl)
value_of_named Names.callback_messages_session_failed = inr (callback_messages_session_failed, refl)
value_of_named Names.callback_create_connection_signaling =
    inr (callback_create_connection_signaling, refl)
value_of_named Names.callback_fake_ip_result = inr (callback_fake_ip_result, refl)
value_of_named Names.p2p_stun_server_list = inr (p2p_stun_server_list, refl)
value_of_named Names.p2p_transport_ice_enable = inr (p2p_transport_ice_enable, refl)
value_of_named Names.p2p_transport_ice_penalty = inr (p2p_transport_ice_penalty, refl)
value_of_named Names.p2p_transport_sdr_penalty = inr (p2p_transport_sdr_penalty, refl)
value_of_named Names.p2p_turn_server_list = inr (p2p_turn_server_list, refl)
value_of_named Names.p2p_turn_user_list = inr (p2p_turn_user_list, refl)
value_of_named Names.p2p_turn_pass_list = inr (p2p_turn_pass_list, refl)
value_of_named Names.p2p_transport_ice_implementation = inr (p2p_transport_ice_implementation, refl)
value_of_named Names.ecn = inr (ecn, refl)
value_of_named Names.value_force32bit = inr (value_force32bit, refl)

-- The enumeration of `SteamMultiplayerPeer` names every option of `SteamPeerConfig` once, but for
-- `NETWORKING_CONFIG_IP_LOCAL_HOST_ALLOW_WITHOUT_AUTH`, which it lacks.
pub peer_config_value_image :
    ((a b : PeerNetworkingConfig) → peer_config_value a ≡ peer_config_value b → a ≡ b)
    × ((p : PeerNetworkingConfig) → peer_config_value p ≢ Names.ip_local_host_allow_without_auth)
    × ((c : SteamNetworkingConfig)
        → (c ≡ Names.ip_local_host_allow_without_auth)
          ⊎ ((p : PeerNetworkingConfig) × (peer_config_value p ≡ c)))
unfolding named_in_peer
peer_config_value_image = (
  (λ a b h. cc (named_in_peer-value a, named_in_peer-value b, ap named_in_peer h)),
  (λ p h. cc (named_in_peer-value p, ap named_in_peer h)),
  value_of_named,
)
