-- ===== src/EResult/Text/Connection.antt =====
-- `_convert_eresult_to_string` of godaemon-cpp/steam_connection.cpp.
use godot_godaemon_multiplay.Prelude.{String, Option}
use godot_godaemon_multiplay.EResult.{EResult}

-- The cases up to `k_EResultCannotUseOldPassword`.
unfoldable pub connection_first_cases : EResult → Option String
connection_first_cases EResult.none = Option.some "k_EResultNone"
connection_first_cases EResult.ok = Option.some "k_EResultOK"
connection_first_cases EResult.fail = Option.some "k_EResultFail"
connection_first_cases EResult.no_connection = Option.some "k_EResultNoConnection"
connection_first_cases EResult.invalid_password = Option.some "k_EResultInvalidPassword"
connection_first_cases EResult.logged_in_elsewhere = Option.some "k_EResultLoggedInElsewhere"
connection_first_cases EResult.invalid_protocol_ver = Option.some "k_EResultInvalidProtocolVer"
connection_first_cases EResult.invalid_param = Option.some "k_EResultInvalidParam"
connection_first_cases EResult.file_not_found = Option.some "k_EResultFileNotFound"
connection_first_cases EResult.busy = Option.some "k_EResultBusy"
connection_first_cases EResult.invalid_state = Option.some "k_EResultInvalidState"
connection_first_cases EResult.invalid_name = Option.some "k_EResultInvalidName"
connection_first_cases EResult.invalid_email = Option.some "k_EResultInvalidEmail"
connection_first_cases EResult.duplicate_name = Option.some "k_EResultDuplicateName"
connection_first_cases EResult.access_denied = Option.some "k_EResultAccessDenied"
connection_first_cases EResult.timeout = Option.some "k_EResultTimeout"
connection_first_cases EResult.banned = Option.some "k_EResultBanned"
connection_first_cases EResult.account_not_found = Option.some "k_EResultAccountNotFound"
connection_first_cases EResult.invalid_steam_id = Option.some "k_EResultInvalidSteamID"
connection_first_cases EResult.service_unavailable = Option.some "k_EResultServiceUnavailable"
connection_first_cases EResult.not_logged_on = Option.some "k_EResultNotLoggedOn"
connection_first_cases EResult.pending = Option.some "k_EResultPending"
connection_first_cases EResult.encryption_failure = Option.some "k_EResultEncryptionFailure"
connection_first_cases EResult.insufficient_privilege = Option.some "k_EResultInsufficientPrivilege"
connection_first_cases EResult.limit_exceeded = Option.some "k_EResultLimitExceeded"
connection_first_cases EResult.revoked = Option.some "k_EResultRevoked"
connection_first_cases EResult.expired = Option.some "k_EResultExpired"
connection_first_cases EResult.already_redeemed = Option.some "k_EResultAlreadyRedeemed"
connection_first_cases EResult.duplicate_request = Option.some "k_EResultDuplicateRequest"
connection_first_cases EResult.already_owned = Option.some "k_EResultAlreadyOwned"
connection_first_cases EResult.ip_not_found = Option.some "k_EResultIPNotFound"
connection_first_cases EResult.persist_failed = Option.some "k_EResultPersistFailed"
connection_first_cases EResult.locking_failed = Option.some "k_EResultLockingFailed"
connection_first_cases EResult.logon_session_replaced = Option.some "k_EResultLogonSessionReplaced"
connection_first_cases EResult.connect_failed = Option.some "k_EResultConnectFailed"
connection_first_cases EResult.handshake_failed = Option.some "k_EResultHandshakeFailed"
connection_first_cases EResult.io_failure = Option.some "k_EResultIOFailure"
connection_first_cases EResult.remote_disconnect = Option.some "k_EResultRemoteDisconnect"
connection_first_cases EResult.shopping_cart_not_found = Option.some "k_EResultShoppingCartNotFound"
connection_first_cases EResult.blocked = Option.some "k_EResultBlocked"
connection_first_cases EResult.ignored = Option.some "k_EResultIgnored"
connection_first_cases EResult.no_match = Option.some "k_EResultNoMatch"
connection_first_cases EResult.account_disabled = Option.some "k_EResultAccountDisabled"
connection_first_cases EResult.service_read_only = Option.some "k_EResultServiceReadOnly"
connection_first_cases EResult.account_not_featured = Option.some "k_EResultAccountNotFeatured"
connection_first_cases EResult.administrator_ok = Option.some "k_EResultAdministratorOK"
connection_first_cases EResult.content_version = Option.some "k_EResultContentVersion"
connection_first_cases EResult.try_another_cm = Option.some "k_EResultTryAnotherCM"
connection_first_cases EResult.password_required_to_kick_session =
    Option.some "k_EResultPasswordRequiredToKickSession"
connection_first_cases EResult.already_logged_in_elsewhere =
    Option.some "k_EResultAlreadyLoggedInElsewhere"
connection_first_cases EResult.suspended = Option.some "k_EResultSuspended"
connection_first_cases EResult.cancelled = Option.some "k_EResultCancelled"
connection_first_cases EResult.data_corruption = Option.some "k_EResultDataCorruption"
connection_first_cases EResult.disk_full = Option.some "k_EResultDiskFull"
connection_first_cases EResult.remote_call_failed = Option.some "k_EResultRemoteCallFailed"
connection_first_cases EResult.password_unset = Option.some "k_EResultPasswordUnset"
connection_first_cases EResult.external_account_unlinked =
    Option.some "k_EResultExternalAccountUnlinked"
connection_first_cases EResult.psn_ticket_invalid = Option.some "k_EResultPSNTicketInvalid"
connection_first_cases EResult.external_account_already_linked =
    Option.some "k_EResultExternalAccountAlreadyLinked"
connection_first_cases EResult.remote_file_conflict = Option.some "k_EResultRemoteFileConflict"
connection_first_cases EResult.illegal_password = Option.some "k_EResultIllegalPassword"
connection_first_cases EResult.same_as_previous_value = Option.some "k_EResultSameAsPreviousValue"
connection_first_cases EResult.account_logon_denied = Option.some "k_EResultAccountLogonDenied"
connection_first_cases EResult.cannot_use_old_password = Option.some "k_EResultCannotUseOldPassword"
connection_first_cases _ = Option.none

-- The remaining cases, and what follows the switch.
unfoldable pub connection_last_cases : EResult → String
connection_last_cases EResult.invalid_login_auth_code = "k_EResultInvalidLoginAuthCode"
connection_last_cases EResult.account_logon_denied_no_mail = "k_EResultAccountLogonDeniedNoMail"
connection_last_cases EResult.hardware_not_capable_of_ipt = "k_EResultHardwareNotCapableOfIPT"
connection_last_cases EResult.ipt_init_error = "k_EResultIPTInitError"
connection_last_cases EResult.parental_control_restricted = "k_EResultParentalControlRestricted"
connection_last_cases EResult.facebook_query_error = "k_EResultFacebookQueryError"
connection_last_cases EResult.expired_login_auth_code = "k_EResultExpiredLoginAuthCode"
connection_last_cases EResult.ip_login_restriction_failed = "k_EResultIPLoginRestrictionFailed"
connection_last_cases EResult.account_locked_down = "k_EResultAccountLockedDown"
connection_last_cases EResult.account_logon_denied_verified_email_required =
    "k_EResultAccountLogonDeniedVerifiedEmailRequired"
connection_last_cases EResult.no_matching_url = "k_EResultNoMatchingURL"
connection_last_cases EResult.bad_response = "k_EResultBadResponse"
connection_last_cases EResult.require_password_re_entry = "k_EResultRequirePasswordReEntry"
connection_last_cases EResult.value_out_of_range = "k_EResultValueOutOfRange"
connection_last_cases EResult.unexpected_error = "k_EResultUnexpectedError"
connection_last_cases EResult.disabled = "k_EResultDisabled"
connection_last_cases EResult.invalid_ceg_submission = "k_EResultInvalidCEGSubmission"
connection_last_cases EResult.restricted_device = "k_EResultRestrictedDevice"
connection_last_cases EResult.region_locked = "k_EResultRegionLocked"
connection_last_cases EResult.rate_limit_exceeded = "k_EResultRateLimitExceeded"
connection_last_cases EResult.account_login_denied_need_two_factor =
    "k_EResultAccountLoginDeniedNeedTwoFactor"
connection_last_cases EResult.item_deleted = "k_EResultItemDeleted"
connection_last_cases EResult.account_login_denied_throttle = "k_EResultAccountLoginDeniedThrottle"
connection_last_cases EResult.two_factor_code_mismatch = "k_EResultTwoFactorCodeMismatch"
connection_last_cases EResult.two_factor_activation_code_mismatch =
    "k_EResultTwoFactorActivationCodeMismatch"
connection_last_cases EResult.account_associated_to_multiple_partners =
    "k_EResultAccountAssociatedToMultiplePartners"
connection_last_cases EResult.not_modified = "k_EResultNotModified"
connection_last_cases EResult.no_mobile_device = "k_EResultNoMobileDevice"
connection_last_cases EResult.time_not_synced = "k_EResultTimeNotSynced"
connection_last_cases EResult.sms_code_failed = "k_EResultSmsCodeFailed"
connection_last_cases EResult.account_limit_exceeded = "k_EResultAccountLimitExceeded"
connection_last_cases EResult.account_activity_limit_exceeded =
    "k_EResultAccountActivityLimitExceeded"
connection_last_cases EResult.phone_activity_limit_exceeded = "k_EResultPhoneActivityLimitExceeded"
connection_last_cases EResult.refund_to_wallet = "k_EResultRefundToWallet"
connection_last_cases EResult.email_send_failure = "k_EResultEmailSendFailure"
connection_last_cases EResult.not_settled = "k_EResultNotSettled"
connection_last_cases EResult.need_captcha = "k_EResultNeedCaptcha"
connection_last_cases EResult.gslt_denied = "k_EResultGSLTDenied"
connection_last_cases EResult.gs_owner_denied = "k_EResultGSOwnerDenied"
connection_last_cases EResult.invalid_item_type = "k_EResultInvalidItemType"
connection_last_cases EResult.ip_banned = "k_EResultIPBanned"
connection_last_cases EResult.gslt_expired = "k_EResultGSLTExpired"
connection_last_cases EResult.insufficient_funds = "k_EResultInsufficientFunds"
connection_last_cases EResult.too_many_pending = "k_EResultTooManyPending"
connection_last_cases EResult.no_site_licenses_found = "k_EResultNoSiteLicensesFound"
connection_last_cases EResult.wg_network_send_exceeded = "k_EResultWGNetworkSendExceeded"
connection_last_cases EResult.account_not_friends = "k_EResultAccountNotFriends"
connection_last_cases EResult.limited_user_account = "k_EResultLimitedUserAccount"
connection_last_cases EResult.cant_remove_item = "k_EResultCantRemoveItem"
connection_last_cases EResult.account_deleted = "k_EResultAccountDeleted"
connection_last_cases EResult.existing_user_cancelled_license =
    "k_EResultExistingUserCancelledLicense"
connection_last_cases EResult.community_cooldown = "k_EResultCommunityCooldown"
connection_last_cases EResult.no_launcher_specified = "k_EResultNoLauncherSpecified"
connection_last_cases EResult.must_agree_to_ssa = "k_EResultMustAgreeToSSA"
connection_last_cases EResult.launcher_migrated = "k_EResultLauncherMigrated"
connection_last_cases EResult.steam_realm_mismatch = "k_EResultSteamRealmMismatch"
connection_last_cases EResult.invalid_signature = "k_EResultInvalidSignature"
connection_last_cases EResult.parse_failure = "k_EResultParseFailure"
connection_last_cases EResult.no_verified_phone = "k_EResultNoVerifiedPhone"
connection_last_cases EResult.insufficient_battery = "k_EResultInsufficientBattery"
connection_last_cases EResult.charger_required = "k_EResultChargerRequired"
connection_last_cases EResult.cached_credential_invalid = "k_EResultCachedCredentialInvalid"
connection_last_cases EResult.phone_number_is_voip = "K_EResultPhoneNumberIsVOIP"
connection_last_cases _ = "Unmatched"

unfoldable pub connection_convert_eresult_to_string : EResult → String
unfolding connection_first_cases connection_last_cases
connection_convert_eresult_to_string e = elim (connection_first_cases e) [
  | Option.none ↦ connection_last_cases e
  | Option.some s ↦ s
]
