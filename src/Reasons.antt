-- ===== src/Reasons.antt =====
-- domain/reasons.py: the closed vocabulary of reason codes, and the sentence shown for each.
pub mod Laws
use Prim.Native.String.{String}
use mathlib.Core.Option.{Option, none, some}
use mathlib.Core.List.{List, [], ◌∷◌}
use text.Mathlib.Text.{◌==◌}
use insightxadsflow.Prelude.{if◌then◌else◌}

abbrev pub ok : String
ok = "ok"

abbrev pub not_a_member : String
not_a_member = "not_a_member"

abbrev pub bot_not_admin : String
bot_not_admin = "bot_not_admin"

abbrev pub privacy_mode_enabled : String
privacy_mode_enabled = "privacy_mode_enabled"

abbrev pub write_forbidden : String
write_forbidden = "write_forbidden"

abbrev pub admin_required : String
admin_required = "admin_required"

abbrev pub send_media_forbidden : String
send_media_forbidden = "send_media_forbidden"

abbrev pub banned : String
banned = "banned"

abbrev pub blocked : String
blocked = "blocked"

abbrev pub channel_private : String
channel_private = "channel_private"

abbrev pub peer_invalid : String
peer_invalid = "peer_invalid"

abbrev pub topic_closed : String
topic_closed = "topic_closed"

abbrev pub not_a_destination_type : String
not_a_destination_type = "not_a_destination_type"

abbrev pub chat_migrated : String
chat_migrated = "chat_migrated"

abbrev pub unknown : String
unknown = "unknown"

abbrev pub protected_content : String
protected_content = "protected_content"

abbrev pub unsupported_message : String
unsupported_message = "unsupported_message"

abbrev pub uncopyable_message : String
uncopyable_message = "uncopyable_message"

abbrev pub message_unavailable : String
message_unavailable = "message_unavailable"

abbrev pub media_unavailable : String
media_unavailable = "media_unavailable"

abbrev pub caption_too_long : String
caption_too_long = "caption_too_long"

abbrev pub message_too_long : String
message_too_long = "message_too_long"

abbrev pub entity_too_large : String
entity_too_large = "entity_too_large"

abbrev pub premium_emoji_required : String
premium_emoji_required = "premium_emoji_required"

abbrev pub filtered_media_type : String
filtered_media_type = "filtered_media_type"

abbrev pub filtered_keyword_include : String
filtered_keyword_include = "filtered_keyword_include"

abbrev pub filtered_keyword_exclude : String
filtered_keyword_exclude = "filtered_keyword_exclude"

abbrev pub filtered_after_edit : String
filtered_after_edit = "filtered_after_edit"

abbrev pub slowmode_wait : String
slowmode_wait = "slowmode_wait"

abbrev pub flood_wait : String
flood_wait = "flood_wait"

abbrev pub network_error : String
network_error = "network_error"

abbrev pub timeout : String
timeout = "timeout"

abbrev pub server_error : String
server_error = "server_error"

abbrev pub server_restarting : String
server_restarting = "server_restarting"

abbrev pub rpc_call_fail : String
rpc_call_fail = "rpc_call_fail"

abbrev pub getupdates_conflict : String
getupdates_conflict = "getupdates_conflict"

abbrev pub unauthorized : String
unauthorized = "unauthorized"

abbrev pub auth_key_unregistered : String
auth_key_unregistered = "auth_key_unregistered"

abbrev pub auth_key_duplicated : String
auth_key_duplicated = "auth_key_duplicated"

abbrev pub session_revoked : String
session_revoked = "session_revoked"

abbrev pub session_expired : String
session_expired = "session_expired"

abbrev pub user_deactivated : String
user_deactivated = "user_deactivated"

abbrev pub user_deactivated_ban : String
user_deactivated_ban = "user_deactivated_ban"

abbrev pub delivered : String
delivered = "delivered"

abbrev pub duplicate_suppressed : String
duplicate_suppressed = "duplicate_suppressed"

abbrev pub destination_removed : String
destination_removed = "destination_removed"

abbrev pub destination_not_eligible : String
destination_not_eligible = "destination_not_eligible"

abbrev pub source_not_eligible : String
source_not_eligible = "source_not_eligible"

abbrev pub rule_inactive : String
rule_inactive = "rule_inactive"

abbrev pub connection_disconnected : String
connection_disconnected = "connection_disconnected"

abbrev pub ambiguous_timeout : String
ambiguous_timeout = "ambiguous_timeout"

abbrev pub max_attempts_exceeded : String
max_attempts_exceeded = "max_attempts_exceeded"

abbrev pub safety_pause : String
safety_pause = "safety_pause"

abbrev pub flood_wait_pause : String
flood_wait_pause = "flood_wait_pause"

abbrev pub auth_pause : String
auth_pause = "auth_pause"

abbrev pub partial_album : String
partial_album = "partial_album"

abbrev pub retrying : String
retrying = "retrying"

abbrev pub broadcast_inactive : String
broadcast_inactive = "broadcast_inactive"

abbrev pub broadcast_posted : String
broadcast_posted = "broadcast_posted"

abbrev pub broadcast_cancelled : String
broadcast_cancelled = "broadcast_cancelled"

abbrev pub broadcast_paused_by_customer : String
broadcast_paused_by_customer = "broadcast_paused_by_customer"

abbrev pub broadcast_being_edited : String
broadcast_being_edited = "broadcast_being_edited"

abbrev pub broadcast_flood_wait : String
broadcast_flood_wait = "broadcast_flood_wait"

abbrev pub broadcast_empty : String
broadcast_empty = "broadcast_empty"

abbrev pub auto_reply_sent : String
auto_reply_sent = "auto_reply_sent"

abbrev pub auto_reply_cooldown : String
auto_reply_cooldown = "auto_reply_cooldown"

abbrev pub auto_reply_disabled : String
auto_reply_disabled = "auto_reply_disabled"

abbrev pub auto_reply_not_advertising : String
auto_reply_not_advertising = "auto_reply_not_advertising"

abbrev pub auto_reply_not_private : String
auto_reply_not_private = "auto_reply_not_private"

abbrev pub login_code_invalid : String
login_code_invalid = "login_code_invalid"

abbrev pub login_code_expired : String
login_code_expired = "login_code_expired"

abbrev pub login_restart_needed : String
login_restart_needed = "login_restart_needed"

abbrev pub phone_number_invalid : String
phone_number_invalid = "phone_number_invalid"

abbrev pub phone_number_banned : String
phone_number_banned = "phone_number_banned"

abbrev pub phone_number_unregistered : String
phone_number_unregistered = "phone_number_unregistered"

abbrev pub phone_number_flood : String
phone_number_flood = "phone_number_flood"

abbrev pub two_factor_required : String
two_factor_required = "two_factor_required"

abbrev pub two_factor_password_invalid : String
two_factor_password_invalid = "two_factor_password_invalid"

abbrev pub api_credentials_invalid : String
api_credentials_invalid = "api_credentials_invalid"

abbrev pub api_credentials_flooded : String
api_credentials_flooded = "api_credentials_flooded"

abbrev pub signup_required : String
signup_required = "signup_required"

abbrev pub account_suspended : String
account_suspended = "account_suspended"

-- Every code that the module names, in its order.
abbrev pub vocabulary : List String
vocabulary =
    ok ∷ not_a_member ∷ bot_not_admin ∷ privacy_mode_enabled ∷ write_forbidden ∷ admin_required
    ∷ send_media_forbidden ∷ banned ∷ blocked ∷ channel_private ∷ peer_invalid ∷ topic_closed
    ∷ not_a_destination_type ∷ chat_migrated ∷ unknown ∷ protected_content ∷ unsupported_message
    ∷ uncopyable_message ∷ message_unavailable ∷ media_unavailable ∷ caption_too_long
    ∷ message_too_long ∷ entity_too_large ∷ premium_emoji_required ∷ filtered_media_type
    ∷ filtered_keyword_include ∷ filtered_keyword_exclude ∷ filtered_after_edit ∷ slowmode_wait
    ∷ flood_wait ∷ network_error ∷ timeout ∷ server_error ∷ server_restarting ∷ rpc_call_fail
    ∷ getupdates_conflict ∷ unauthorized ∷ auth_key_unregistered ∷ auth_key_duplicated
    ∷ session_revoked ∷ session_expired ∷ user_deactivated ∷ user_deactivated_ban ∷ delivered
    ∷ duplicate_suppressed ∷ destination_removed ∷ destination_not_eligible ∷ source_not_eligible
    ∷ rule_inactive ∷ connection_disconnected ∷ ambiguous_timeout ∷ max_attempts_exceeded
    ∷ safety_pause ∷ flood_wait_pause ∷ auth_pause ∷ partial_album ∷ retrying ∷ broadcast_inactive
    ∷ broadcast_posted ∷ broadcast_cancelled ∷ broadcast_paused_by_customer ∷ broadcast_being_edited
    ∷ broadcast_flood_wait ∷ broadcast_empty ∷ auto_reply_sent ∷ auto_reply_cooldown
    ∷ auto_reply_disabled ∷ auto_reply_not_advertising ∷ auto_reply_not_private ∷ login_code_invalid
    ∷ login_code_expired ∷ login_restart_needed ∷ phone_number_invalid ∷ phone_number_banned
    ∷ phone_number_unregistered ∷ phone_number_flood ∷ two_factor_required
    ∷ two_factor_password_invalid ∷ api_credentials_invalid ∷ api_credentials_flooded
    ∷ signup_required ∷ account_suspended ∷ []

-- REASON_TEXT
abbrev pub reason_text : List (String × String)
reason_text =
    (ok, "Available.")
    ∷ (not_a_member, "The connection is not a member of this chat.")
    ∷ (bot_not_admin, "The bot must be an administrator of this chat to read its messages.")
    ∷ (
      privacy_mode_enabled,
      "The bot's privacy mode is enabled, so it only sees commands and replies in this group.",
    )
    ∷ (write_forbidden, "The connection is not allowed to post in this chat.")
    ∷ (admin_required, "Administrator rights are required for this action.")
    ∷ (send_media_forbidden, "The connection is not allowed to send media in this chat.")
    ∷ (banned, "The connection is banned from this chat.")
    ∷ (blocked, "The connection has been blocked by this chat.")
    ∷ (channel_private, "This channel is private or no longer accessible to the connection.")
    ∷ (peer_invalid, "Telegram no longer recognises this chat for the connection.")
    ∷ (topic_closed, "The forum topic is closed.")
    ∷ (not_a_destination_type, "This chat type cannot be used as a destination.")
    ∷ (
      chat_migrated,
      "This group was upgraded to a supergroup, which gives it a new Telegram identifier. The old one no longer works. Synchronize the connection and add the new group to the rule.",
    )
    ∷ (unknown, "Eligibility has not been checked yet.")
    ∷ (
      protected_content,
      "This chat has content protection enabled, so its messages cannot be forwarded or copied. InsightAdFlow does not bypass content protection.",
    )
    ∷ (unsupported_message, "This message type is not supported and was skipped.")
    ∷ (uncopyable_message, "Telegram does not allow this message type to be copied.")
    ∷ (message_unavailable, "The source message is no longer available.")
    ∷ (media_unavailable, "The media attached to this message is no longer available.")
    ∷ (caption_too_long, "The caption exceeds Telegram's length limit.")
    ∷ (message_too_long, "The message exceeds Telegram's length limit.")
    ∷ (entity_too_large, "The attached file is too large for this connection type.")
    ∷ (
      premium_emoji_required,
      "This message uses premium emoji, and Telegram only lets a Telegram Premium account send those. Either subscribe on the account doing the posting, or rewrite the ad with ordinary emoji.",
    )
    ∷ (filtered_media_type, "Skipped: this media type is not selected on the rule.")
    ∷ (filtered_keyword_include, "Skipped: no required keyword was found.")
    ∷ (filtered_keyword_exclude, "Skipped: an excluded keyword was found.")
    ∷ (filtered_after_edit, "Skipped: the rule was edited and this message no longer matches.")
    ∷ (delivered, "Forwarded successfully.")
    ∷ (duplicate_suppressed, "Already delivered to this destination — not sent again.")
    ∷ (destination_removed, "Skipped: this destination was removed from the rule.")
    ∷ (destination_not_eligible, "Skipped: this destination is no longer eligible.")
    ∷ (source_not_eligible, "Skipped: this source is no longer readable by the connection.")
    ∷ (rule_inactive, "Skipped: the rule is not active.")
    ∷ (connection_disconnected, "Skipped: the Telegram connection is disconnected.")
    ∷ (
      ambiguous_timeout,
      "The request timed out and Telegram may or may not have delivered this message. It was not retried automatically, to avoid posting a duplicate. Retry manually if needed.",
    )
    ∷ (max_attempts_exceeded, "Skipped: the maximum number of attempts was reached.")
    ∷ (safety_pause, "The rule was paused automatically after repeated serious failures.")
    ∷ (flood_wait_pause, "The rule was paused because Telegram requested a long wait.")
    ∷ (auth_pause, "The connection was paused because it is no longer authorized.")
    ∷ (partial_album, "Part of a grouped-media album did not arrive in time.")
    ∷ (retrying, "A temporary failure occurred; a retry has been scheduled.")
    ∷ (broadcast_inactive, "Skipped: the broadcast is paused, cancelled or already finished.")
    ∷ (broadcast_posted, "Posted to this group.")
    ∷ (broadcast_cancelled, "Cancelled before this group was reached.")
    ∷ (
      broadcast_paused_by_customer,
      "You paused this ad. Nothing more will be posted until you resume it.",
    )
    ∷ (
      broadcast_being_edited,
      "Paused while you edit it. Save and resume to continue where it left off.",
    )
    ∷ (
      broadcast_flood_wait,
      "Telegram asked for a long wait. Posting continues by itself the moment the wait is over — nothing for you to do.",
    )
    ∷ (broadcast_empty, "The broadcast has no message to send.")
    ∷ (auto_reply_sent, "Replied automatically to an incoming direct message.")
    ∷ (
      auto_reply_cooldown,
      "Not replied: this person was already answered recently. The cooldown is what keeps an automatic reply from becoming repeat messaging.",
    )
    ∷ (auto_reply_disabled, "Not replied: auto-reply is turned off for this connection.")
    ∷ (
      auto_reply_not_private,
      "Not replied: automatic replies are only ever sent in a private chat started by the other person.",
    )
    ∷ (
      login_code_invalid,
      "Telegram rejected that login code, and almost certainly not because of a typo. Telegram cancels any login code it sees an account send inside a chat, so typing it here burns it even when the digits are right. Sending it again will fail the same way. This works only when the account you are connecting is not the one you are messaging this bot from.",
    )
    ∷ (
      login_code_expired,
      "That login code has expired. Cancel the sign-in and start again to get a new one.",
    )
    ∷ (
      login_restart_needed,
      "Telegram asked us to start the sign-in over. Begin again from Accounts.",
    )
    ∷ (
      phone_number_invalid,
      "Telegram does not recognise that phone number. Include the country code, for example +919876543210.",
    )
    ∷ (
      phone_number_banned,
      "Telegram has banned that phone number, so it cannot be connected. Nothing here can change that; contact Telegram support.",
    )
    ∷ (
      phone_number_unregistered,
      "That phone number has no Telegram account. Sign up in the Telegram app first, then connect it here.",
    )
    ∷ (
      phone_number_flood,
      "Telegram has temporarily blocked sign-in attempts for that number after too many tries. Wait — usually a day — before trying again.",
    )
    ∷ (
      api_credentials_invalid,
      "Telegram rejected this deployment's TELEGRAM_API_ID / TELEGRAM_API_HASH. They are the pair from my.telegram.org, and they must both come from the same application there. Check them in .env and restart.",
    )
    ∷ (
      api_credentials_flooded,
      "Telegram has rate-limited this deployment's TELEGRAM_API_ID, which happens when an api_id is shared widely. Create your own application at my.telegram.org and use that pair instead.",
    )
    ∷ (
      signup_required,
      "That phone number has no Telegram account yet, and accounts cannot be created from here. Sign up in the Telegram app first.",
    )
    ∷ (
      two_factor_required, "This account has two-step verification. Send the password to continue.",
    )
    ∷ (
      two_factor_password_invalid,
      "That two-step verification password was not accepted. It is the password you set in Telegram, not the login code.",
    )
    ∷ (
      account_suspended,
      "This account is suspended, so nothing is being sent. Messages already delivered are unaffected.",
    )
    ∷ (
      slowmode_wait,
      "This group has slow mode enabled, so Telegram limits how often anyone can post in it. The message will be sent once the wait has passed.",
    )
    ∷ (
      flood_wait,
      "Telegram asked us to slow down and we are waiting the full time it requested before trying again.",
    )
    ∷ (network_error, "A network problem occurred. This will be retried automatically.")
    ∷ (timeout, "The request to Telegram timed out. This will be retried automatically.")
    ∷ (server_error, "Telegram returned a server error. This will be retried automatically.")
    ∷ (server_restarting, "Telegram is restarting. This will be retried automatically.")
    ∷ (
      rpc_call_fail, "Telegram could not complete the request. This will be retried automatically.",
    )
    ∷ (
      getupdates_conflict,
      "Another process is already receiving updates for this bot token. Each bot token supports only one consumer — check that the same token is not used for both the control panel and a forwarding connection.",
    )
    ∷ (unauthorized, "Telegram rejected this connection's credentials. Reconnect it to continue.")
    ∷ (
      auth_key_unregistered,
      "This Telegram session is no longer registered. Reconnect the connection.",
    )
    ∷ (
      auth_key_duplicated,
      "This Telegram session was used from another location and Telegram invalidated it. Reconnect the connection.",
    )
    ∷ (
      session_revoked,
      "This Telegram session was revoked, most likely from your Telegram account's active-sessions list. Reconnect the connection.",
    )
    ∷ (session_expired, "This Telegram session has expired. Reconnect the connection.")
    ∷ (user_deactivated, "The Telegram account for this connection has been deactivated.")
    ∷ (
      user_deactivated_ban,
      "The Telegram account for this connection has been deactivated by Telegram.",
    )
    ∷ []

-- `REASON_TEXT.get`
unfoldable pub lookup : String → List (String × String) → Option String
lookup code [] = none
lookup code ((key, text) ∷ rest) = if key == code then some text else lookup code rest

abbrev get_or : Option String → String → String
get_or none default = default
get_or (some text) default = text

unfoldable pub describe : String → String
unfolding lookup
describe code = get_or (lookup code reason_text) (get_or (lookup unknown reason_text) "")
