-- ===== src/Errors/Tables.antt =====
-- The tables of adapters/errors.py.
use insightxadsflow.Prelude.{String, List, [], ◌∷◌}
use insightxadsflow.Models.{ErrorClass}

-- `_BY_EXCEPTION_NAME`
abbrev pub by_exception_name : List (String × ErrorClass × String)
by_exception_name =
    ("FloodWaitError", ErrorClass.rate_limit, "flood_wait")
    ∷ ("FloodPremiumWaitError", ErrorClass.rate_limit, "flood_wait")
    ∷ ("SlowModeWaitError", ErrorClass.rate_limit, "slowmode_wait")
    ∷ ("ServerError", ErrorClass.transient, "server_error")
    ∷ ("RpcCallFailError", ErrorClass.transient, "rpc_call_fail")
    ∷ ("TimedOutError", ErrorClass.transient, "timeout")
    ∷ ("AuthKeyUnregisteredError", ErrorClass.auth, "auth_key_unregistered")
    ∷ ("AuthKeyDuplicatedError", ErrorClass.auth, "auth_key_duplicated")
    ∷ ("SessionRevokedError", ErrorClass.auth, "session_revoked")
    ∷ ("SessionExpiredError", ErrorClass.auth, "session_expired")
    ∷ ("UserDeactivatedError", ErrorClass.auth, "user_deactivated")
    ∷ ("UserDeactivatedBanError", ErrorClass.auth, "user_deactivated_ban")
    ∷ ("UnauthorizedError", ErrorClass.auth, "unauthorized")
    ∷ ("PhoneCodeInvalidError", ErrorClass.auth, "login_code_invalid")
    ∷ ("PhoneCodeExpiredError", ErrorClass.auth, "login_code_expired")
    ∷ ("PhoneCodeEmptyError", ErrorClass.auth, "login_code_invalid")
    ∷ ("AuthRestartError", ErrorClass.auth, "login_restart_needed")
    ∷ ("ApiIdInvalidError", ErrorClass.auth, "api_credentials_invalid")
    ∷ ("ApiIdPublishedFloodError", ErrorClass.rate_limit, "api_credentials_flooded")
    ∷ ("PhoneNumberAppSignupForbiddenError", ErrorClass.auth, "signup_required")
    ∷ ("PhonePasswordFloodError", ErrorClass.rate_limit, "phone_number_flood")
    ∷ ("PhoneNumberInvalidError", ErrorClass.auth, "phone_number_invalid")
    ∷ ("PhoneNumberBannedError", ErrorClass.auth, "phone_number_banned")
    ∷ ("PhoneNumberUnoccupiedError", ErrorClass.auth, "phone_number_unregistered")
    ∷ ("PhoneNumberFloodError", ErrorClass.rate_limit, "phone_number_flood")
    ∷ ("PasswordHashInvalidError", ErrorClass.auth, "two_factor_password_invalid")
    ∷ ("PremiumAccountRequiredError", ErrorClass.permanent_content, "premium_emoji_required")
    ∷ ("SessionPasswordNeededError", ErrorClass.auth, "two_factor_required")
    ∷ ("ChatWriteForbiddenError", ErrorClass.permission, "write_forbidden")
    ∷ ("ChatAdminRequiredError", ErrorClass.permission, "admin_required")
    ∷ ("ChatSendMediaForbiddenError", ErrorClass.permission, "send_media_forbidden")
    ∷ ("UserBannedInChannelError", ErrorClass.permission, "banned")
    ∷ ("ChannelPrivateError", ErrorClass.permission, "channel_private")
    ∷ ("PeerIdInvalidError", ErrorClass.permission, "peer_invalid")
    ∷ ("ChatMigratedError", ErrorClass.permission, "chat_migrated")
    ∷ ("ChannelMigratedError", ErrorClass.permission, "chat_migrated")
    ∷ ("ChatForwardsRestrictedError", ErrorClass.permanent_content, "protected_content")
    ∷ ("MessageIdInvalidError", ErrorClass.permanent_content, "message_unavailable")
    ∷ ("MessageDeleteForbiddenError", ErrorClass.permanent_content, "message_unavailable")
    ∷ ("MediaEmptyError", ErrorClass.permanent_content, "media_unavailable")
    ∷ ("MessageTooLongError", ErrorClass.permanent_content, "message_too_long")
    ∷ ("TelegramRetryAfter", ErrorClass.rate_limit, "flood_wait")
    ∷ ("TelegramUnauthorizedError", ErrorClass.auth, "unauthorized")
    ∷ ("TelegramForbiddenError", ErrorClass.permission, "write_forbidden")
    ∷ ("TelegramConflictError", ErrorClass.transient, "getupdates_conflict")
    ∷ ("TelegramServerError", ErrorClass.transient, "server_error")
    ∷ ("TelegramNetworkError", ErrorClass.transient, "network_error")
    ∷ ("RestartingTelegram", ErrorClass.transient, "server_restarting")
    ∷ ("TelegramEntityTooLarge", ErrorClass.permanent_content, "entity_too_large")
    ∷ ("TelegramNotFound", ErrorClass.permanent_content, "message_unavailable")
    ∷ ("TimeoutError", ErrorClass.transient, "timeout")
    ∷ ("ConnectionError", ErrorClass.transient, "network_error")
    ∷ ("ConnectionResetError", ErrorClass.transient, "network_error")
    ∷ ("ClientConnectorError", ErrorClass.transient, "network_error")
    ∷ ("ConnectTimeout", ErrorClass.transient, "timeout")
    ∷ ("ReadTimeout", ErrorClass.transient, "timeout")
    ∷ ("OSError", ErrorClass.transient, "network_error")
    ∷ []

-- `_BY_MESSAGE_TOKEN`
abbrev pub by_message_token : List (String × ErrorClass × String)
by_message_token =
    ("CHAT_WRITE_FORBIDDEN", ErrorClass.permission, "write_forbidden")
    ∷ ("CHAT_SEND_MEDIA_FORBIDDEN", ErrorClass.permission, "send_media_forbidden")
    ∷ ("CHAT_ADMIN_REQUIRED", ErrorClass.permission, "admin_required")
    ∷ ("NOT_ENOUGH_RIGHTS", ErrorClass.permission, "write_forbidden")
    ∷ ("USER_BANNED_IN_CHANNEL", ErrorClass.permission, "banned")
    ∷ ("CHANNEL_PRIVATE", ErrorClass.permission, "channel_private")
    ∷ ("PEER_ID_INVALID", ErrorClass.permission, "peer_invalid")
    ∷ ("CHAT_NOT_FOUND", ErrorClass.permission, "peer_invalid")
    ∷ ("BOT_WAS_BLOCKED", ErrorClass.permission, "blocked")
    ∷ ("USER_IS_BLOCKED", ErrorClass.permission, "blocked")
    ∷ ("CHAT_FORWARDS_RESTRICTED", ErrorClass.permanent_content, "protected_content")
    ∷ ("MESSAGE_CANT_BE_FORWARDED", ErrorClass.permanent_content, "protected_content")
    ∷ ("MESSAGE_CANT_BE_COPIED", ErrorClass.permanent_content, "uncopyable_message")
    ∷ ("MESSAGE_ID_INVALID", ErrorClass.permanent_content, "message_unavailable")
    ∷ ("MESSAGE_TO_FORWARD_NOT_FOUND", ErrorClass.permanent_content, "message_unavailable")
    ∷ ("MESSAGE_TO_COPY_NOT_FOUND", ErrorClass.permanent_content, "message_unavailable")
    ∷ ("MSG_ID_INVALID", ErrorClass.permanent_content, "message_unavailable")
    ∷ ("MEDIA_EMPTY", ErrorClass.permanent_content, "media_unavailable")
    ∷ ("MEDIA_CAPTION_TOO_LONG", ErrorClass.permanent_content, "caption_too_long")
    ∷ ("MESSAGE_TOO_LONG", ErrorClass.permanent_content, "message_too_long")
    ∷ ("POLL_QUESTION_INVALID", ErrorClass.permanent_content, "unsupported_message")
    ∷ ("TOPIC_CLOSED", ErrorClass.permission, "topic_closed")
    ∷ ("CHAT_MIGRATED", ErrorClass.permission, "chat_migrated")
    ∷ ("GROUP CHAT WAS UPGRADED", ErrorClass.permission, "chat_migrated")
    ∷ ("AUTH_KEY_UNREGISTERED", ErrorClass.auth, "auth_key_unregistered")
    ∷ ("SESSION_REVOKED", ErrorClass.auth, "session_revoked")
    ∷ ("USER_DEACTIVATED", ErrorClass.auth, "user_deactivated")
    ∷ ("ACCESS_TOKEN_INVALID", ErrorClass.auth, "unauthorized")
    ∷ ("TOKEN_INVALID", ErrorClass.auth, "unauthorized")
    ∷ ("UNAUTHORIZED", ErrorClass.auth, "unauthorized")
    ∷ ("FLOOD_WAIT", ErrorClass.rate_limit, "flood_wait")
    ∷ ("SLOWMODE_WAIT", ErrorClass.rate_limit, "slowmode_wait")
    ∷ ("TOO MANY REQUESTS", ErrorClass.rate_limit, "flood_wait")
    ∷ ("INTERNAL_SERVER_ERROR", ErrorClass.transient, "server_error")
    ∷ ("BAD GATEWAY", ErrorClass.transient, "server_error")
    ∷ []

-- `_SAFE_MESSAGES`
abbrev pub safe_messages : ErrorClass → String
safe_messages ErrorClass.transient =
    "A temporary problem occurred. This will be retried automatically."
safe_messages ErrorClass.rate_limit =
    "Telegram asked us to slow down. Waiting before the next attempt."
safe_messages ErrorClass.auth = "This connection is no longer authorized. Reconnect it to continue."
safe_messages ErrorClass.permission = "The connection is not allowed to post in this chat."
safe_messages ErrorClass.permanent_content = "This message cannot be delivered and was skipped."
safe_messages ErrorClass.unknown =
    "An unexpected problem occurred. This has been recorded for review."
