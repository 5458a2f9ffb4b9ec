-- ===== src/Config/Names.antt =====
-- The option names of `SteamPeerConfig::SteamNetworkingConfig` (godaemon-cpp/steam_peer_config.h),
-- the list that `SteamPeerConfig::_bind_methods` binds (steam_peer_config.cpp), and the enumeration
-- of the same name in `SteamMultiplayerPeer` (steam_multiplayer_peer.h).
use godot_godaemon_multiplay.Prelude.{ℕ, zero, suc, ◌≡◌, refl, List, [], ◌∷◌, map, some, get_elem?}

pub data SteamNetworkingConfig : Type 0 where
  invalid fake_packet_loss_send fake_packet_loss_recv : SteamNetworkingConfig
  fake_packet_lag_send fake_packet_lag_recv fake_packet_reorder_send : SteamNetworkingConfig
  fake_packet_reorder_recv fake_packet_reorder_time fake_packet_dup_send : SteamNetworkingConfig
  fake_packet_dup_revc fake_packet_dup_time_max packet_trace_max_bytes : SteamNetworkingConfig
  fake_rate_limit_send_rate fake_rate_limit_send_burst : SteamNetworkingConfig
  fake_rate_limit_recv_rate fake_rate_limit_recv_burst : SteamNetworkingConfig
  out_of_order_correction_window_microseconds connection_user_data : SteamNetworkingConfig
  timeout_initial timeout_connected send_buffer_size recv_buffer_size : SteamNetworkingConfig
  recv_buffer_messages recv_max_message_size recv_max_segments_per_packet : SteamNetworkingConfig
  send_rate_min send_rate_max nagle_time ip_allow_without_auth : SteamNetworkingConfig
  ip_local_host_allow_without_auth mtu_packet_size mtu_data_size : SteamNetworkingConfig
  unencrypted symmetric_connect local_virtual_port dual_wifi_enable : SteamNetworkingConfig
  enable_diagnostics_ui sdr_client_consec_ping_timeout_fail_initial : SteamNetworkingConfig
  sdr_client_consec_ping_timeout_fail : SteamNetworkingConfig
  sdr_client_min_pings_before_ping_accurate sdr_client_single_socket : SteamNetworkingConfig
  sdr_client_force_relay_cluster sdr_client_dev_ticket : SteamNetworkingConfig
  sdr_client_force_proxy_addr sdr_client_fake_cluster_ping : SteamNetworkingConfig
  sdr_client_limit_ping_probes_to_nearest_n log_level_ack_rtt : SteamNetworkingConfig
  log_level_packet_decode log_level_message log_level_packet_gaps : SteamNetworkingConfig
  log_level_p2p_rendezvous log_level_srd_relay_pings : SteamNetworkingConfig
  callback_connection_status_changed callback_auth_status_changed : SteamNetworkingConfig
  callback_relay_network_status_changed callback_message_session_request : SteamNetworkingConfig
  callback_messages_session_failed callback_create_connection_signaling : SteamNetworkingConfig
  callback_fake_ip_result p2p_stun_server_list p2p_transport_ice_enable : SteamNetworkingConfig
  p2p_transport_ice_penalty p2p_transport_sdr_penalty : SteamNetworkingConfig
  p2p_turn_server_list p2p_turn_user_list p2p_turn_pass_list : SteamNetworkingConfig
  p2p_transport_ice_implementation ecn value_force32bit : SteamNetworkingConfig

-- The calls of `BIND_ENUM_CONSTANT`, in their order.
unfoldable pub bound_constants : List SteamNetworkingConfig
bound_constants =
    invalid ∷ fake_packet_loss_send ∷ fake_packet_loss_recv ∷ fake_packet_lag_send
    ∷ fake_packet_lag_recv ∷ fake_packet_reorder_send ∷ fake_packet_reorder_recv
    ∷ fake_packet_reorder_time ∷ fake_packet_dup_send ∷ fake_packet_dup_revc
    ∷ fake_packet_dup_time_max ∷ packet_trace_max_bytes ∷ fake_rate_limit_send_rate
    ∷ fake_rate_limit_send_burst ∷ fake_rate_limit_recv_rate ∷ fake_rate_limit_recv_burst
    ∷ out_of_order_correction_window_microseconds ∷ connection_user_data ∷ timeout_initial
    ∷ timeout_connected ∷ send_buffer_size ∷ recv_buffer_size ∷ recv_buffer_messages
    ∷ recv_max_message_size ∷ recv_max_segments_per_packet ∷ send_rate_min ∷ send_rate_max
    ∷ nagle_time ∷ ip_allow_without_auth ∷ ip_local_host_allow_without_auth ∷ mtu_packet_size
    ∷ mtu_data_size ∷ unencrypted ∷ symmetric_connect ∷ local_virtual_port ∷ dual_wifi_enable
    ∷ enable_diagnostics_ui ∷ sdr_client_consec_ping_timeout_fail_initial
    ∷ sdr_client_consec_ping_timeout_fail ∷ sdr_client_min_pings_before_ping_accurate
    ∷ sdr_client_single_socket ∷ sdr_client_force_relay_cluster ∷ sdr_client_dev_ticket
    ∷ sdr_client_force_proxy_addr ∷ sdr_client_fake_cluster_ping
    ∷ sdr_client_limit_ping_probes_to_nearest_n ∷ log_level_ack_rtt ∷ log_level_packet_decode
    ∷ log_level_message ∷ log_level_packet_gaps ∷ log_level_p2p_rendezvous
    ∷ log_level_srd_relay_pings ∷ callback_connection_status_changed ∷ callback_auth_status_changed
    ∷ callback_relay_network_status_changed ∷ callback_message_session_request
    ∷ callback_messages_session_failed ∷ callback_create_connection_signaling
    ∷ callback_fake_ip_result ∷ p2p_stun_server_list ∷ p2p_transport_ice_enable
    ∷ p2p_transport_ice_penalty ∷ p2p_transport_sdr_penalty ∷ p2p_turn_server_list
    ∷ p2p_turn_user_list ∷ p2p_turn_pass_list ∷ p2p_transport_ice_implementation ∷ ecn
    ∷ value_force32bit ∷ []

-- The place of an enumerator in the declaration, from 0.
unfoldable pub declaration_order : SteamNetworkingConfig → ℕ
declaration_order invalid = 0
declaration_order fake_packet_loss_send = 1
declaration_order fake_packet_loss_recv = 2
declaration_order fake_packet_lag_send = 3
declaration_order fake_packet_lag_recv = 4
declaration_order fake_packet_reorder_send = 5
declaration_order fake_packet_reorder_recv = 6
declaration_order fake_packet_reorder_time = 7
declaration_order fake_packet_dup_send = 8
declaration_order fake_packet_dup_revc = 9
declaration_order fake_packet_dup_time_max = 10
declaration_order packet_trace_max_bytes = 11
declaration_order fake_rate_limit_send_rate = 12
declaration_order fake_rate_limit_send_burst = 13
declaration_order fake_rate_limit_recv_rate = 14
declaration_order fake_rate_limit_recv_burst = 15
declaration_order out_of_order_correction_window_microseconds = 16
declaration_order connection_user_data = 17
declaration_order timeout_initial = 18
declaration_order timeout_connected = 19
declaration_order send_buffer_size = 20
declaration_order recv_buffer_size = 21
declaration_order recv_buffer_messages = 22
declaration_order recv_max_message_size = 23
declaration_order recv_max_segments_per_packet = 24
declaration_order send_rate_min = 25
declaration_order send_rate_max = 26
declaration_order nagle_time = 27
declaration_order ip_allow_without_auth = 28
declaration_order ip_local_host_allow_without_auth = 29
declaration_order mtu_packet_size = 30
declaration_order mtu_data_size = 31
declaration_order unencrypted = 32
declaration_order symmetric_connect = 33
declaration_order local_virtual_port = 34
declaration_order dual_wifi_enable = 35
declaration_order enable_diagnostics_ui = 36
declaration_order sdr_client_consec_ping_timeout_fail_initial = 37
declaration_order sdr_client_consec_ping_timeout_fail = 38
declaration_order sdr_client_min_pings_before_ping_accurate = 39
declaration_order sdr_client_single_socket = 40
declaration_order sdr_client_force_relay_cluster = 41
declaration_order sdr_client_dev_ticket = 42
declaration_order sdr_client_force_proxy_addr = 43
declaration_order sdr_client_fake_cluster_ping = 44
declaration_order sdr_client_limit_ping_probes_to_nearest_n = 45
declaration_order log_level_ack_rtt = 46
declaration_order log_level_packet_decode = 47
declaration_order log_level_message = 48
declaration_order log_level_packet_gaps = 49
declaration_order log_level_p2p_rendezvous = 50
declaration_order log_level_srd_relay_pings = 51
declaration_order callback_connection_status_changed = 52
declaration_order callback_auth_status_changed = 53
declaration_order callback_relay_network_status_changed = 54
declaration_order callback_message_session_request = 55
declaration_order callback_messages_session_failed = 56
declaration_order callback_create_connection_signaling = 57
declaration_order callback_fake_ip_result = 58
declaration_order p2p_stun_server_list = 59
declaration_order p2p_transport_ice_enable = 60
declaration_order p2p_transport_ice_penalty = 61
declaration_order p2p_transport_sdr_penalty = 62
declaration_order p2p_turn_server_list = 63
declaration_order p2p_turn_user_list = 64
declaration_order p2p_turn_pass_list = 65
declaration_order p2p_transport_ice_implementation = 66
declaration_order ecn = 67
declaration_order value_force32bit = 68

abbrev pub count_up : ℕ → ℕ → List ℕ
count_up from zero = []
count_up from (suc n) = from ∷ count_up (suc from) n

bound_at : (c : SteamNetworkingConfig) → get_elem? bound_constants (declaration_order c) ≡ some c
unfolding bound_constants declaration_order
bound_at invalid = refl
bound_at _ = refl

-- Every enumerator of `SteamNetworkingConfig` is bound for scripts exactly once, in the order of
-- its declaration: the enumerator declared at place n is bound by call n, and the calls run
-- through the places 0, 1, …, 68 and no further.
pub bound_constants_complete :
    ((c : SteamNetworkingConfig) → get_elem? bound_constants (declaration_order c) ≡ some c)
    × (map declaration_order bound_constants ≡ count_up 0 69)
bound_constants_complete = (bound_at, unfold bound_constants declaration_order in refl)
