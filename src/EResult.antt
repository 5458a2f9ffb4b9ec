-- ===== src/EResult.antt =====
-- Steam's `EResult`, by the enumerators that both `_convert_eresult_to_string` switches name
-- (godaemon-cpp/steam_connection.cpp and steam_multiplayer_peer.cpp). `unnamed n` stands for a value
-- that the switches do not list, told apart by a number.
pub mod Text
pub mod Injective
use godot_godaemon_multiplay.Prelude.{ℕ, Bool, true, false}

pub data EResult : Type 0 where
  none ok fail no_connection invalid_password logged_in_elsewhere invalid_protocol_ver : EResult
  invalid_param file_not_found busy invalid_state invalid_name invalid_email duplicate_name :
      EResult
  access_denied timeout banned account_not_found invalid_steam_id service_unavailable : EResult
  not_logged_on pending encryption_failure insufficient_privilege limit_exceeded revoked : EResult
  expired already_redeemed duplicate_request already_owned ip_not_found persist_failed : EResult
  locking_failed logon_session_replaced connect_failed handshake_failed io_failure : EResult
  remote_disconnect shopping_cart_not_found blocked ignored no_match account_disabled : EResult
  service_read_only account_not_featured administrator_ok content_version try_another_cm : EResult
  password_required_to_kick_session already_logged_in_elsewhere suspended cancelled : EResult
  data_corruption disk_full remote_call_failed password_unset external_account_unlinked : EResult
  psn_ticket_invalid external_account_already_linked remote_file_conflict illegal_password : EResult
  same_as_previous_value account_logon_denied cannot_use_old_password invalid_login_auth_code :
      EResult
  account_logon_denied_no_mail hardware_not_capable_of_ipt ipt_init_error : EResult
  parental_control_restricted facebook_query_error expired_login_auth_code : EResult
  ip_login_restriction_failed account_locked_down account_logon_denied_verified_email_required :
      EResult
  no_matching_url bad_response require_password_re_entry value_out_of_range unexpected_error :
      EResult
  disabled invalid_ceg_submission restricted_device region_locked rate_limit_exceeded : EResult
  account_login_denied_need_two_factor item_deleted account_login_denied_throttle : EResult
  two_factor_code_mismatch two_factor_activation_code_mismatch : EResult
  account_associated_to_multiple_partners not_modified no_mobile_device time_not_synced : EResult
  sms_code_failed account_limit_exceeded account_activity_limit_exceeded : EResult
  phone_activity_limit_exceeded refund_to_wallet email_send_failure not_settled need_captcha :
      EResult
  gslt_denied gs_owner_denied invalid_item_type ip_banned gslt_expired insufficient_funds : EResult
  too_many_pending no_site_licenses_found wg_network_send_exceeded account_not_friends : EResult
  limited_user_account cant_remove_item account_deleted existing_user_cancelled_license : EResult
  community_cooldown no_launcher_specified must_agree_to_ssa launcher_migrated : EResult
  steam_realm_mismatch invalid_signature parse_failure no_verified_phone insufficient_battery :
      EResult
  charger_required cached_credential_invalid phone_number_is_voip : EResult
  unnamed : ℕ → EResult

-- `e == k_EResultOK`.
unfoldable pub is_ok : EResult → Bool
is_ok ok = true
is_ok _ = false
