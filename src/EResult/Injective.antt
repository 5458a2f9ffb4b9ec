-- ===== src/EResult/Injective.antt =====
-- The strings of `_convert_eresult_to_string`, compared.
use text.Mathlib.Text.{◌==◌ as str_eq}
use godot_godaemon_multiplay.Prelude.{String, ◌≡◌, refl, ap, sym, ◌∙◌, List, [], ◌∷◌, if◌then◌else◌}
use godot_godaemon_multiplay.EResult.{EResult}
use godot_godaemon_multiplay.EResult.Text.{
  connection_convert_eresult_to_string, peer_convert_eresult_to_string,
}

-- A reader of the strings: the first result of a list with that text.
read_among : String → List EResult → EResult
read_among s [] = EResult.unnamed 0
read_among s (e ∷ es) =
    if str_eq (connection_convert_eresult_to_string e) s then e else read_among s es

abbrev named : List EResult
named =
    EResult.none ∷ EResult.ok ∷ EResult.fail ∷ EResult.no_connection ∷ EResult.invalid_password
    ∷ EResult.logged_in_elsewhere ∷ EResult.invalid_protocol_ver ∷ EResult.invalid_param
    ∷ EResult.file_not_found ∷ EResult.busy ∷ EResult.invalid_state ∷ EResult.invalid_name
    ∷ EResult.invalid_email ∷ EResult.duplicate_name ∷ EResult.access_denied ∷ EResult.timeout
    ∷ EResult.banned ∷ EResult.account_not_found ∷ EResult.invalid_steam_id
    ∷ EResult.service_unavailable ∷ EResult.not_logged_on ∷ EResult.pending
    ∷ EResult.encryption_failure ∷ EResult.insufficient_privilege ∷ EResult.limit_exceeded
    ∷ EResult.revoked ∷ EResult.expired ∷ EResult.already_redeemed ∷ EResult.duplicate_request
    ∷ EResult.already_owned ∷ EResult.ip_not_found ∷ EResult.persist_failed ∷ EResult.locking_failed
    ∷ EResult.logon_session_replaced ∷ EResult.connect_failed ∷ EResult.handshake_failed
    ∷ EResult.io_failure ∷ EResult.remote_disconnect ∷ EResult.shopping_cart_not_found
    ∷ EResult.blocked ∷ EResult.ignored ∷ EResult.no_match ∷ EResult.account_disabled
    ∷ EResult.service_read_only ∷ EResult.account_not_featured ∷ EResult.administrator_ok
    ∷ EResult.content_version ∷ EResult.try_another_cm ∷ EResult.password_required_to_kick_session
    ∷ EResult.already_logged_in_elsewhere ∷ EResult.suspended ∷ EResult.cancelled
    ∷ EResult.data_corruption ∷ EResult.disk_full ∷ EResult.remote_call_failed
    ∷ EResult.password_unset ∷ EResult.external_account_unlinked ∷ EResult.psn_ticket_invalid
    ∷ EResult.external_account_already_linked ∷ EResult.remote_file_conflict
    ∷ EResult.illegal_password ∷ EResult.same_as_previous_value ∷ EResult.account_logon_denied
    ∷ EResult.cannot_use_old_password ∷ EResult.invalid_login_auth_code
    ∷ EResult.account_logon_denied_no_mail ∷ EResult.hardware_not_capable_of_ipt
    ∷ EResult.ipt_init_error ∷ EResult.parental_control_restricted ∷ EResult.facebook_query_error
    ∷ EResult.expired_login_auth_code ∷ EResult.ip_login_restriction_failed
    ∷ EResult.account_locked_down ∷ EResult.account_logon_denied_verified_email_required
    ∷ EResult.no_matching_url ∷ EResult.bad_response ∷ EResult.require_password_re_entry
    ∷ EResult.value_out_of_range ∷ EResult.unexpected_error ∷ EResult.disabled
    ∷ EResult.invalid_ceg_submission ∷ EResult.restricted_device ∷ EResult.region_locked
    ∷ EResult.rate_limit_exceeded ∷ EResult.account_login_denied_need_two_factor
    ∷ EResult.item_deleted ∷ EResult.account_login_denied_throttle
    ∷ EResult.two_factor_code_mismatch ∷ EResult.two_factor_activation_code_mismatch
    ∷ EResult.account_associated_to_multiple_partners ∷ EResult.not_modified
    ∷ EResult.no_mobile_device ∷ EResult.time_not_synced ∷ EResult.sms_code_failed
    ∷ EResult.account_limit_exceeded ∷ EResult.account_activity_limit_exceeded
    ∷ EResult.phone_activity_limit_exceeded ∷ EResult.refund_to_wallet ∷ EResult.email_send_failure
    ∷ EResult.not_settled ∷ EResult.need_captcha ∷ EResult.gslt_denied ∷ EResult.gs_owner_denied
    ∷ EResult.invalid_item_type ∷ EResult.ip_banned ∷ EResult.gslt_expired
    ∷ EResult.insufficient_funds ∷ EResult.too_many_pending ∷ EResult.no_site_licenses_found
    ∷ EResult.wg_network_send_exceeded ∷ EResult.account_not_friends ∷ EResult.limited_user_account
    ∷ EResult.cant_remove_item ∷ EResult.account_deleted ∷ EResult.existing_user_cancelled_license
    ∷ EResult.community_cooldown ∷ EResult.no_launcher_specified ∷ EResult.must_agree_to_ssa
    ∷ EResult.launcher_migrated ∷ EResult.steam_realm_mismatch ∷ EResult.invalid_signature
    ∷ EResult.parse_failure ∷ EResult.no_verified_phone ∷ EResult.insufficient_battery
    ∷ EResult.charger_required ∷ EResult.cached_credential_invalid ∷ EResult.phone_number_is_voip
    ∷ []

-- The named result with the text `s`, or `unnamed 0`.
eresult_of_string : String → EResult
unfolding read_among
eresult_of_string s = read_among s named

-- Every result that the switch names is read back from its string.
abbrev pub IsNamed : EResult → Type 0
IsNamed (EResult.unnamed n) = ⊥
IsNamed _ = Unit {0}

read_back :
    (e : EResult) → IsNamed e → eresult_of_string (connection_convert_eresult_to_string e) ≡ e
unfolding eresult_of_string connection_convert_eresult_to_string
read_back EResult.none h = refl
read_back (EResult.unnamed n) h = elim h [ ]
read_back _ h = refl

-- Both copies of `_convert_eresult_to_string` give the same text for every result.
pub convert_eresult_to_string_agree :
    (e : EResult) → connection_convert_eresult_to_string e ≡ peer_convert_eresult_to_string e
unfolding connection_convert_eresult_to_string peer_convert_eresult_to_string
convert_eresult_to_string_agree EResult.none = refl
convert_eresult_to_string_agree _ = refl

-- Two results that the switch names have the same text only if they are the same result.
pub convert_eresult_to_string_injective :
    (a b : EResult)
    → IsNamed a
    → IsNamed b
    → connection_convert_eresult_to_string a ≡ connection_convert_eresult_to_string b
    → a ≡ b
convert_eresult_to_string_injective a b ha hb h =
    sym (read_back a ha) ∙ ap eresult_of_string h ∙ read_back b hb
