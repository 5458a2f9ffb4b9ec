-- ===== src/EResult/Text/Peer.antt =====
-- `_convert_eresult_to_string` of godaemon-cpp/steam_multiplayer_peer.cpp.
use godot_godaemon_multiplay.Prelude.{String, Option}
use godot_godaemon_multiplay.EResult.{EResult}

-- The cases up to `k_EResultCannotUseOldPassword`.
unfoldable pub peer_first_cases : EResult → Option String
peer_first_cases EResult.none = Option.some "k_EResultNone"
peer_first_cases EResult.ok = Option.some "k_EResultOK"
peer_first_cases EResult.fail = Option.some "k_EResultFail"
peer_first_cases EResult.no_connection = Option.some "k_EResultNoConnection"
peer_first_cases EResult.invalid_password = Option.some "k_EResultInvalidPassword"
peer_first_cases EResult.logged_in_elsewhere = Option.some "k_EResultLoggedInElsewhere"
peer_first_cases EResult.invalid_protocol_ver = Option.some "k_EResultInvalidProtocolVer"
peer_first_cases EResult.invalid_param = Option.some "k_EResultInvalidParam"
peer_first_cases EResult.file_not_found = Option.some "k_EResultFileNotFound"
peer_first_cases EResult.busy = Option.some "k_EResultBusy"
peer_first_cases EResult.invalid_state = Option.some "k_EResultInvalidState"
peer_first_cases EResult.invalid_name = Option.some "k_EResultInvalidName"
peer_first_cases EResult.invalid_email = Option.some "k_EResultInvalidEmail"
peer_first_cases EResult.duplicate_name = Option.some "k_EResultDuplicateName"
peer_first_cases EResult.access_denied = Option.some "k_EResultAccessDenied"
peer_first_cases EResult.timeout = Option.some "k_EResultTimeout"
peer_first_cases EResult.banned = Option.some "k_EResultBanned"
peer_first_cases EResult.account_not_found = Option.some "k_EResultAccountNotFound"
peer_first_cases EResult.invalid_steam_id = Option.some "k_EResultInvalidSteamID"
peer_first_cases EResult.service_unavailable = Option.some "k_EResultServiceUnavailable"
peer_first_cases EResult.not_logged_on = Option.some "k_EResultNotLoggedOn"
peer_first_cases EResult.pending = Option.some "k_EResultPending"
peer_first_cases EResult.encryption_failure = Option.some "k_EResultEncryptionFailure"
peer_first_cases EResult.insufficient_privilege = Option.some "k_EResultInsufficientPrivilege"
peer_first_cases EResult.limit_exceeded = Option.some "k_EResultLimitExceeded"
peer_first_cases EResult.revoked = Option.some "k_EResultRevoked"
peer_first_cases EResult.expired = Option.some "k_EResultExpired"
peer_first_cases EResult.already_redeemed = Option.some "k_EResultAlreadyRedeemed"
peer_first_cases EResult.duplicate_request = Option.some "k_EResultDuplicateRequest"
peer_first_cases EResult.already_owned = Option.some "k_EResultAlreadyOwned"
peer_first_cases EResult.ip_not_found = Option.some "k_EResultIPNotFound"
peer_first_cases EResult.persist_failed = Option.some "k_EResultPersistFailed"
peer_first_cases EResult.locking_failed = Option.some "k_EResultLockingFailed"
peer_first_cases EResult.logon_session_replaced = Option.some "k_EResultLogonSessionReplaced"
peer_first_cases EResult.connect_failed = Option.some "k_EResultConnectFailed"
peer_first_cases EResult.handshake_failed = Option.some "k_EResultHandshakeFailed"
peer_first_cases EResult.io_failure = Option.some "k_EResultIOFailure"
peer_first_cases EResult.remote_disconnect = Option.some "k_EResultRemoteDisconnect"
peer_first_cases EResult.shopping_cart_not_found = Option.some "k_EResultShoppingCartNotFound"
peer_first_cases EResult.blocked = Option.some "k_EResultBlocked"
peer_first_cases EResult.ignored = Option.some "k_EResultIgnored"
peer_first_cases EResult.no_match = Option.some "k_EResultNoMatch"
peer_first_cases EResult.account_disabled = Option.some "k_EResultAccountDisabled"
peer_first_cases EResult.service_read_only = Option.some "k_EResultServiceReadOnly"
peer_first_cases EResult.account_not_featured = Option.some "k_EResultAccountNotFeatured"
peer_first_cases EResult.administrator_ok = Option.some "k_EResultAdministratorOK"
peer_first_cases EResult.content_version = Option.some "k_EResultContentVersion"
peer_first_cases EResult.try_another_cm = Option.some "k_EResultTryAnotherCM"
peer_first_cases EResult.password_required_to_kick_session =
    Option.some "k_EResultPasswordRequiredToKickSession"
peer_first_cases EResult.already_logged_in_elsewhere =
    Option.some "k_EResultAlreadyLoggedInElsewhere"
peer_first_cases EResult.suspended = Option.some "k_EResultSuspended"
peer_first_cases EResult.cancelled = Option.some "k_EResultCancelled"
peer_first_cases EResult.data_corruption = Option.some "k_EResultDataCorruption"
peer_first_cases EResult.disk_full = Option.some "k_EResultDiskFull"
peer_first_cases EResult.remote_call_failed = Option.some "k_EResultRemoteCallFailed"
peer_first_cases EResult.password_unset = Option.some "k_EResultPasswordUnset"
peer_first_cases EResult.external_account_unlinked = Option.some "k_EResultExternalAccountUnlinked"
peer_first_cases EResult.psn_ticket_invalid = Option.some "k_EResultPSNTicketInvalid"
peer_first_cases EResult.external_account_already_linked =
    Option.some "k_EResultExternalAccountAlreadyLinked"
peer_first_cases EResult.remote_file_conflict = Option.some "k_EResultRemoteFileConflict"
peer_first_cases EResult.illegal_password = Option.some "k_EResultIllegalPassword"
peer_first_cases EResult.same_as_previous_value = Option.some "k_EResultSameAsPreviousValue"
peer_first_cases EResult.account_logon_denied = Option.some "k_EResultAccountLogonDenied"
peer_first_cases EResult.cannot_use_old_password = Option.some "k_EResultCannotUseOldPassword"
peer_first_cases _ = Option.none

-- The remaining cases, and what follows the switch.
unfoldable pub peer_last_cases : EResult → String
peer_last_cases EResult.invalid_login_auth_code = "k_EResultInvalidLoginAuthCode"
peer_last_cases EResult.account_logon_denied_no_mail = "k_EResultAccountLogonDeniedNoMail"
peer_last_cases EResult.hardware_not_capable_of_ipt = "k_EResultHardwareNotCapableOfIPT"
peer_last_cases EResult.ipt_init_error = "k_EResultIPTInitError"
peer_last_cases EResult.parental_control_restricted = "k_EResultParentalControlRestricted"
peer_last_cases EResult.facebook_query_error = "k_EResultFacebookQueryError"
peer_last_cases EResult.expired_login_auth_code = "k_EResultExpiredLoginAuthCode"
peer_last_cases EResult.ip_login_restriction_failed = "k_EResultIPLoginRestrictionFailed"
peer_last_cases EResult.account_locked_down = "k_EResultAccountLockedDown"
peer_last_cases EResult.account_logon_denied_verified_email_required =
    "k_EResultAccountLogonDeniedVerifiedEmailRequired"
peer_last_cases EResult.no_matching_url = "k_EResultNoMatchingURL"
peer_last_cases EResult.bad_response = "k_EResultBadResponse"
peer_last_cases EResult.require_password_re_entry = "k_EResultRequirePasswordReEntry"
peer_last_cases EResult.value_out_of_range = "k_EResultValueOutOfRange"
peer_last_cases EResult.unexpected_error = "k_EResultUnexpectedError"
peer_last_cases EResult.disabled = "k_EResultDisabled"
peer_last_cases EResult.invalid_ceg_submission = "k_EResultInvalidCEGSubmission"
peer_last_cases EResult.restricted_device = "k_EResultRestrictedDevice"
peer_last_cases EResult.region_locked = "k_EResultRegionLocked"
peer_last_cases EResult.rate_limit_exceeded = "k_EResultRateLimitExceeded"
peer_last_cases EResult.account_login_denied_need_two_factor =
    "k_EResultAccountLoginDeniedNeedTwoFactor"
peer_last_cases EResult.item_deleted = "k_EResultItemDeleted"
peer_last_cases EResult.account_login_denied_throttle = "k_EResultAccountLoginDeniedThrottle"
peer_last_cases EResult.two_factor_code_mismatch = "k_EResultTwoFactorCodeMismatch"
peer_last_cases EResult.two_factor_activation_code_mismatch =
    "k_EResultTwoFactorActivationCodeMismatch"
peer_last_cases EResult.account_associated_to_multiple_partners =
    "k_EResultAccountAssociatedToMultiplePartners"
peer_last_cases EResult.not_modified = "k_EResultNotModified"
peer_last_cases EResult.no_mobile_device = "k_EResultNoMobileDevice"
peer_last_cases EResult.time_not_synced = "k_EResultTimeNotSynced"
peer_last_cases EResult.sms_code_failed = "k_EResultSmsCodeFailed"
peer_last_cases EResult.account_limit_exceeded = "k_EResultAccountLimitExceeded"
peer_last_cases EResult.account_activity_limit_exceeded = "k_EResultAccountActivityLimitExceeded"
peer_last_cases EResult.phone_activity_limit_exceeded = "k_EResultPhoneActivityLimitExceeded"
peer_last_cases EResult.refund_to_wallet = "k_EResultRefundToWallet"
peer_last_cases EResult.email_send_failure = "k_EResultEmailSendFailure"
peer_last_cases EResult.not_settled = "k_EResultNotSettled"
peer_last_cases EResult.need_captcha = "k_EResultNeedCaptcha"
peer_last_cases EResult.gslt_denied = "k_EResultGSLTDenied"
peer_last_cases EResult.gs_owner_denied = "k_EResultGSOwnerDenied"
peer_last_cases EResult.invalid_item_type = "k_EResultInvalidItemType"
peer_last_cases EResult.ip_banned = "k_EResultIPBanned"
peer_last_cases EResult.gslt_expired = "k_EResultGSLTExpired"
peer_last_cases EResult.insufficient_funds = "k_EResultInsufficientFunds"
peer_last_cases EResult.too_many_pending = "k_EResultTooManyPending"
peer_last_cases EResult.no_site_licenses_found = "k_EResultNoSiteLicensesFound"
peer_last_cases EResult.wg_network_send_exceeded = "k_EResultWGNetworkSendExceeded"
peer_last_cases EResult.account_not_friends = "k_EResultAccountNotFriends"
peer_last_cases EResult.limited_user_account = "k_EResultLimitedUserAccount"
peer_last_cases EResult.cant_remove_item = "k_EResultCantRemoveItem"
peer_last_cases EResult.account_deleted = "k_EResultAccountDeleted"
peer_last_cases EResult.existing_user_cancelled_license = "k_EResultExistingUserCancelledLicense"
peer_last_cases EResult.community_cooldown = "k_EResultCommunityCooldown"
peer_last_cases EResult.no_launcher_specified = "k_EResultNoLauncherSpecified"
peer_last_cases EResult.must_agree_to_ssa = "k_EResultMustAgreeToSSA"
peer_last_cases EResult.launcher_migrated = "k_EResultLauncherMigrated"
peer_last_cases EResult.steam_realm_mismatch = "k_EResultSteamRealmMismatch"
peer_last_cases EResult.invalid_signature = "k_EResultInvalidSignature"
peer_last_cases EResult.parse_failure = "k_EResultParseFailure"
peer_last_cases EResult.no_verified_phone = "k_EResultNoVerifiedPhone"
peer_last_cases EResult.insufficient_battery = "k_EResultInsufficientBattery"
peer_last_cases EResult.charger_required = "k_EResultChargerRequired"
peer_last_cases EResult.cached_credential_invalid = "k_EResultCachedCredentialInvalid"
peer_last_cases EResult.phone_number_is_voip = "K_EResultPhoneNumberIsVOIP"
peer_last_cases _ = "Unmatched"

unfoldable pub peer_convert_eresult_to_string : EResult → String
unfolding peer_first_cases peer_last_cases
peer_convert_eresult_to_string e = elim (peer_first_cases e) [
  | Option.none ↦ peer_last_cases e
  | Option.some s ↦ s
]
