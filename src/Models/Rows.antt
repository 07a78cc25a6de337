-- ===== src/Models/Rows.antt =====
-- The rows of db/models.py, with the columns that the modelled code reads or writes. What is stored
-- sealed (access hashes) stands unsealed.
use insightxadsflow.Prelude.{ℕ, String, List, Option, Bool}
use insightxadsflow.Prelude.Int.{ℤ}
use insightxadsflow.Models.Enums.{
  ConnectionStatus, PeerType, ChatKind, RuleStatus, ForwardMode, KeywordMatchMode, JobStatus,
  EventOutcome, BroadcastStatus, BroadcastMedia, ControlTaskKind, ControlTaskStatus,
}
use insightxadsflow.Models.Values.{Text, TextEntity}

pub record User : Type 0 where
  pub id : ℕ
  pub is_active : Bool
  pub suspended_at : Option ℕ
  pub suspended_reason : Option Text
  pub broadcasts_sent : ℕ

pub record TelegramConnection : Type 0 where
  pub id : ℕ
  pub user_id : ℕ
  pub label : String
  pub status : ConnectionStatus
  pub last_error_code : Option String
  pub last_error_message_safe : Option String
  pub consecutive_failure_count : ℕ

pub record ChatAccess : Type 0 where
  pub can_read_source : Bool
  pub source_reason_code : String
  pub can_post_destination : Bool
  pub destination_reason_code : String
  pub checked_at : ℕ
  pub check_source : String

pub record TelegramChat : Type 0 where
  pub id : ℕ
  pub connection_id : ℕ
  pub peer_type : PeerType
  pub peer_id : ℤ
  pub access_hash : Option ℤ
  pub title : Text
  pub chat_kind : ChatKind
  -- `None` counts as false wherever it is read
  pub has_protected_content : Bool
  pub is_active : Bool
  pub access : Option ChatAccess

pub record RuleDestination : Type 0 where
  pub chat_id : ℕ
  pub position : ℕ

pub record ForwardingRule : Type 0 where
  pub id : ℕ
  pub user_id : ℕ
  pub connection_id : ℕ
  pub name : Text
  pub status : RuleStatus
  pub version : ℕ
  pub forward_mode : ForwardMode
  pub delay_ms : ℕ
  pub keyword_include : List Text
  pub keyword_exclude : List Text
  pub keyword_match_mode : KeywordMatchMode
  pub media_types : List Text
  pub preserve_links : Bool
  pub preserve_caption : Bool
  pub max_attempts : ℕ
  pub paused_reason_code : Option String
  pub last_activity_at : Option ℕ
  -- the rows of the two association tables
  pub sources : List ℕ
  pub destinations : List RuleDestination

-- The columns that a forwarding job and a broadcast target have in common.
pub record Work : Type 0 where
  pub status : JobStatus
  pub attempt_count : ℕ
  pub not_before : ℕ
  pub lease_owner : Option String
  pub lease_expires_at : Option ℕ
  pub destination_message_id : Option ℕ
  pub last_error_class : Option String
  pub last_error_code : Option String
  -- `TimestampMixin`: written by every UPDATE of the row
  pub updated_at : ℕ

pub record ForwardingJob : Type 0 where
  pub id : ℕ
  pub rule_id : ℕ
  pub rule_version : ℕ
  pub connection_id : ℕ
  pub source_chat_id : ℕ
  pub source_message_ids : List ℕ
  pub destination_chat_id : ℕ
  pub idempotency_key : Text
  pub mtproto_random_id : Option ℕ
  pub work : Work

pub record Broadcast : Type 0 where
  pub id : ℕ
  pub user_id : ℕ
  pub connection_id : ℕ
  pub name : Text
  pub status : BroadcastStatus
  pub body_text : Text
  pub body_entities : List TextEntity
  pub media_kind : BroadcastMedia
  pub media_bytes : Option (List ℕ)
  pub media_filename : Option String
  pub delay_ms : ℕ
  pub repeat_every_s : Option ℕ
  pub repeat_count : ℕ
  pub next_run_at : Option ℕ
  pub scheduled_for : Option ℕ
  pub started_at : Option ℕ
  pub completed_at : Option ℕ
  pub paused_reason_code : Option String

pub record BroadcastTarget : Type 0 where
  pub id : ℕ
  pub broadcast_id : ℕ
  pub chat_id : ℕ
  pub position : ℕ
  pub mtproto_random_id : Option ℕ
  pub work : Work

-- An event belongs to exactly one of a rule and a broadcast.
pub data Origin : Type 0 where
  of_rule of_broadcast : ℕ → Origin

pub record ForwardingEvent : Type 0 where
  pub origin : Origin
  pub job_id : Option ℕ
  pub connection_id : ℕ
  pub source_chat_id : Option ℕ
  pub source_message_ids : List ℕ
  pub destination_chat_id : Option ℕ
  pub outcome : EventOutcome
  pub reason_code : String
  pub detail_safe : String
  pub attempt : ℕ
  pub occurred_at : ℕ

-- `rule_id` and `connection_id` say what the alert is about; its text is not kept.
pub record AdminNotification : Type 0 where
  pub user_id : ℕ
  pub kind : String
  -- the parts of `dedupe_key`, in their order
  pub dedupe_key : List String × List ℕ
  pub rule_id : Option ℕ
  pub connection_id : Option ℕ

pub record AutoReply : Type 0 where
  pub id : ℕ
  pub user_id : ℕ
  pub connection_id : ℕ
  pub enabled : Bool
  pub body_text : Text
  pub cooldown_s : ℕ
  pub sent_count : ℕ

pub record AutoReplyLog : Type 0 where
  pub connection_id : ℕ
  pub peer_type : PeerType
  pub peer_id : ℤ
  pub replied_at : ℕ
  pub reply_count : ℕ

pub record SourceCursor : Type 0 where
  pub connection_id : ℕ
  pub chat_id : ℕ
  pub last_processed_message_id : ℕ

-- Of `payload` the two keys that the worker reads.
pub record ControlTask : Type 0 where
  pub id : ℕ
  pub user_id : ℕ
  pub kind : ControlTaskKind
  pub connection_id : Option ℕ
  pub rule_id : Option ℕ
  pub payload_chat_id : Option ℕ
  pub payload_revoke : Bool
  pub status : ControlTaskStatus
  pub attempt_count : ℕ
  pub not_before : ℕ
  pub lease_owner : Option String
  pub lease_expires_at : Option ℕ
  pub last_error_code : Option String
