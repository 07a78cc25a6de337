-- ===== src/Posting/Execution.antt =====
-- `execute_target` and `_terminal` of services/broadcast.py.
use text.Mathlib.Text.{◌==◌ as str_eq}
use insightxadsflow.Prelude.{
  ℕ, false, not, ◌&&◌, List, [], Option, some, none, if◌then◌else◌, String,
}
use insightxadsflow.Models.{
  Settings, TelegramAdapter, TelegramConnection, TelegramChat, Broadcast, BroadcastTarget,
  JobStatus, EventOutcome, ErrorClass, AccessReport, Reply, returned, raised, Send, send_text,
  send_photo, DeliveryReceipt, Database, is_connected, is_sending, class_value, get_broadcast,
  get_chat, put_target, put_connection, log_send,
}
use insightxadsflow.Text.{Unicode, is_empty, strip}
use insightxadsflow.Reasons
use insightxadsflow.Events.{set_access, to_ref}
use insightxadsflow.Broadcasts
use insightxadsflow.Users.{is_active}
use insightxadsflow.Delivery.{DeliveryOutcome, outcome, is_ambiguous, source_access}
use insightxadsflow.Posting.Rounds.{has_media, settle}
use insightxadsflow.Posting.Failure.{record_outcome, handle_failure}

abbrev or_empty : Option (List ℕ) → List ℕ
or_empty none = []
or_empty (some bytes) = bytes

-- `broadcast.media_filename or "image.jpg"`
abbrev filename_of : Option String → String
filename_of none = "image.jpg"
filename_of (some name) = if str_eq name "" then "image.jpg" else name

-- The call that posts the broadcast.
unfoldable pub posting : Broadcast → BroadcastTarget → TelegramChat → Send
unfolding has_media to_ref
posting broadcast target chat =
    if has_media broadcast
    then send_photo (to_ref chat) (or_empty broadcast.media_bytes) broadcast.body_text
        broadcast.body_entities (filename_of broadcast.media_filename) target.mtproto_random_id
    else send_text (to_ref chat) broadcast.body_text broadcast.body_entities
        target.mtproto_random_id

abbrev pub recorded :
    ℕ → Option Broadcast → Option ℕ → BroadcastTarget → String → Database → Database
recorded now none destination_id target reason_code db = db
recorded now (some broadcast) destination_id target reason_code db =
    (settle now broadcast (
      record_outcome now broadcast broadcast.connection_id destination_id target reason_code
        EventOutcome.skipped db)).1

-- `_terminal` with a broadcast
unfoldable pub terminal :
    ℕ → BroadcastTarget → String → ℕ → Option ℕ → Database → DeliveryOutcome × Database
unfolding put_target record_outcome settle get_broadcast Broadcasts.finish
terminal now target reason_code broadcast_id destination_id db =
    let target' = Broadcasts.finish now JobStatus.skipped none none (some reason_code) target in
    let db1 = put_target target' db in
    (
      outcome JobStatus.skipped reason_code none,
      recorded now (get_broadcast db1 broadcast_id) destination_id target' reason_code db1,
    )

-- `_terminal` with none
unfoldable pub terminal_without_broadcast :
    ℕ → BroadcastTarget → String → Database → DeliveryOutcome × Database
unfolding put_target Broadcasts.finish
terminal_without_broadcast now target reason_code db = (
  outcome JobStatus.skipped reason_code none,
  put_target (Broadcasts.finish now JobStatus.skipped none none (some reason_code) target) db,
)

module _ (u : Unicode) (settings : Settings) (adapter : TelegramAdapter) (uniform : ℕ → ℕ) (now : ℕ)
    (target : BroadcastTarget) (connection : TelegramConnection) where
  -- The provider may or may not have posted it. The round is not settled here.
  unfoldable pub ambiguous : Broadcast → TelegramChat → Database → DeliveryOutcome × Database
  unfolding put_target record_outcome Broadcasts.finish
  ambiguous broadcast chat db =
      let target' =
        Broadcasts.finish now JobStatus.needs_attention none (some (class_value ErrorClass.unknown))
          (some Reasons.ambiguous_timeout) target in
      (
        outcome JobStatus.needs_attention Reasons.ambiguous_timeout none,
        record_outcome now broadcast connection.id (some chat.id) target' Reasons.ambiguous_timeout
            EventOutcome.failed (put_target target' db),
      )

  unfoldable pub posted :
      Broadcast → TelegramChat → DeliveryReceipt → Database → DeliveryOutcome × Database
  unfolding put_target put_connection record_outcome settle Broadcasts.finish
  posted broadcast chat receipt db =
      let target' =
        Broadcasts.finish now JobStatus.succeeded receipt.destination_message_id none none target in
      (
        outcome JobStatus.succeeded Reasons.broadcast_posted none,
        (settle now broadcast (
            put_connection (record connection { consecutive_failure_count = 0 })
              (record_outcome now broadcast connection.id (some chat.id) target'
                Reasons.broadcast_posted EventOutcome.forwarded (put_target target' db)))).1,
      )

  -- What the send came back with.
  unfoldable pub conclude :
      Broadcast → TelegramChat → Reply DeliveryReceipt → Database → DeliveryOutcome × Database
  unfolding ambiguous posted handle_failure
  conclude broadcast chat (returned receipt) db = posted broadcast chat receipt db
  conclude broadcast chat (raised exc) db =
      if is_ambiguous exc.kind
      then ambiguous broadcast chat db
      else handle_failure settings uniform now u target broadcast chat.id exc connection
          settings.max_attempts db

  -- What the access check came back with.
  unfoldable pub after_check :
      Broadcast → TelegramChat → Reply AccessReport → Database → DeliveryOutcome × Database
  unfolding terminal handle_failure conclude log_send posting set_access
  after_check broadcast chat (raised exc) db =
      handle_failure settings uniform now u target broadcast chat.id exc connection
        settings.max_attempts db
  after_check broadcast chat (returned access) db =
      let (can_read, source_reason) = source_access chat in
      let call = posting broadcast target chat in
      if access.allowed
      then conclude broadcast chat (adapter.send call) (log_send call db)
      else terminal now target access.reason_code broadcast.id (some chat.id)
          (set_access now chat can_read source_reason false access.reason_code "pre_delivery" db)

  unfoldable pub with_chat : Broadcast → Option TelegramChat → Database → DeliveryOutcome × Database
  unfolding terminal has_media after_check
  with_chat broadcast none db = terminal now target Reasons.destination_removed broadcast.id none db
  with_chat broadcast (some chat) db =
      if is_empty (strip u broadcast.body_text) && not (has_media broadcast)
      then terminal now target Reasons.broadcast_empty broadcast.id (some chat.id) db
      else after_check broadcast chat (adapter.check_destination_access (to_ref chat)) db

  unfoldable pub guarded : Broadcast → Database → DeliveryOutcome × Database
  unfolding is_active terminal with_chat get_chat
  guarded broadcast db =
      if not (is_active db broadcast.user_id)
      then terminal now target Reasons.account_suspended broadcast.id none db
      else if not (is_connected connection.status)
      then terminal now target Reasons.connection_disconnected broadcast.id none db
      else if not (is_sending broadcast.status)
      then terminal now target Reasons.broadcast_inactive broadcast.id none db
      else with_chat broadcast (get_chat db target.chat_id) db

  unfoldable pub execute_target : Database → DeliveryOutcome × Database
  unfolding get_broadcast terminal_without_broadcast guarded
  execute_target db = elim (get_broadcast db target.broadcast_id) [
    | none ↦ terminal_without_broadcast now target Reasons.broadcast_inactive db
    | some broadcast ↦ guarded broadcast db
  ]
