-- ===== src/Samples.antt =====
-- A small database that the examples run on: one user, one connection, two chats, a rule, a broadcast.
use insightxadsflow.Prelude.{◌/◌, ◌*◌, ℕ, String, [], ◌∷◌, none, some, true, false}
use insightxadsflow.Prelude.Int.{pos}
use insightxadsflow.Models.{
  ExceptionKind, raised, User, TelegramConnection, ConnectionStatus, TelegramChat, PeerType,
  ChatKind, ForwardingRule, RuleStatus, ForwardMode, KeywordMatchMode, Work, JobStatus,
  ForwardingJob, Broadcast, BroadcastStatus, BroadcastMedia, BroadcastTarget, Database,
  TelegramAdapter, ChatRef, AutoReply, returned, Exception, Attribute, other_error, absent,
  ErrorClass, InboundMessage, MediaType, second,
}
use insightxadsflow.Text.{codes}
use insightxadsflow.Errors.{ClassifiedError}
use insightxadsflow.Filters.{FilterConfig}
use insightxadsflow.Jobs.{NewJob}

abbrev pub alice : User
alice = record {
  id = 1;
  is_active = true;
  suspended_at = none;
  suspended_reason = none;
  broadcasts_sent = 0;
}

abbrev pub account : TelegramConnection
account = record {
  id = 5;
  user_id = 1;
  label = "account";
  status = ConnectionStatus.active;
  last_error_code = none;
  last_error_message_safe = none;
  consecutive_failure_count = 2;
}

abbrev pub chat : ℕ → TelegramChat
chat n = record {
  id = n;
  connection_id = 5;
  peer_type = PeerType.channel;
  peer_id = pos n;
  access_hash = none;
  title = codes "chat";
  chat_kind = ChatKind.supergroup;
  has_protected_content = false;
  is_active = true;
  access = none;
}

abbrev pub rule : ForwardingRule
rule = record {
  id = 7;
  user_id = 1;
  connection_id = 5;
  name = codes "rule";
  status = RuleStatus.active;
  version = 3;
  forward_mode = ForwardMode.forward;
  delay_ms = 0;
  keyword_include = [];
  keyword_exclude = [];
  keyword_match_mode = KeywordMatchMode.substring;
  media_types = [];
  preserve_links = true;
  preserve_caption = true;
  max_attempts = 5;
  paused_reason_code = none;
  last_activity_at = none;
  sources = 10 ∷ [];
  destinations = record { chat_id = 20; position = 0 } ∷ [];
}

abbrev pub work_of : JobStatus → Work
work_of status = record {
  status = status;
  attempt_count = 0;
  not_before = 0;
  lease_owner = none;
  lease_expires_at = none;
  destination_message_id = none;
  last_error_class = none;
  last_error_code = none;
  updated_at = 0;
}

abbrev pub leased_work : Work
leased_work = record (work_of JobStatus.leased) {
  lease_owner = some "worker";
  lease_expires_at = some 50;
}

abbrev pub job_of : ℕ → Work → ForwardingJob
job_of n work = record {
  id = n;
  rule_id = 7;
  rule_version = 3;
  connection_id = 5;
  source_chat_id = 10;
  source_message_ids = 42 ∷ [];
  destination_chat_id = 20;
  idempotency_key = n ∷ [];
  mtproto_random_id = some 99;
  work = work;
}

abbrev pub ad : Broadcast
ad = record {
  id = 8;
  user_id = 1;
  connection_id = 5;
  name = codes "ad";
  status = BroadcastStatus.sending;
  body_text = codes "for sale";
  body_entities = [];
  media_kind = BroadcastMedia.no_media;
  media_bytes = none;
  media_filename = none;
  delay_ms = 2000;
  repeat_every_s = none;
  repeat_count = 0;
  next_run_at = none;
  scheduled_for = none;
  started_at = none;
  completed_at = none;
  paused_reason_code = none;
}

abbrev pub target_of_ad : ℕ → Work → BroadcastTarget
target_of_ad n work = record {
  id = n;
  broadcast_id = 8;
  chat_id = 20;
  position = n;
  mtproto_random_id = some n;
  work = work;
}

-- Job 100 is leased, 101 pending and 102 done; target 200 is done and 201 gave up.
abbrev pub db : Database
db = record {
  users = alice ∷ [];
  connections = account ∷ [];
  chats = chat 10 ∷ chat 20 ∷ [];
  rules = rule ∷ [];
  jobs =
      job_of 100 leased_work
      ∷ job_of 101 (work_of JobStatus.pending)
      ∷ job_of 102 (work_of JobStatus.succeeded)
      ∷ [];
  broadcasts = ad ∷ [];
  targets =
      target_of_ad 200 (work_of JobStatus.succeeded)
      ∷ target_of_ad 201 (work_of JobStatus.dead_letter)
      ∷ [];
  events = [];
  notifications = [];
  auto_replies = [];
  auto_reply_log = [];
  cursors = [];
  control_tasks = [];
  sends = [];
  archived = [];
}

-- An adapter that allows and delivers everything.
abbrev pub willing : TelegramAdapter
willing = record {
  check_destination_access = λ _. returned (record { allowed = true; reason_code = "ok" });
  send = λ _. returned (record { destination_message_id = some 555 });
}

abbrev pub failure : String → Exception
failure name = record {
  kind = other_error;
  class_name = name;
  base_names = "Exception" ∷ [];
  message = [];
  retry_after = absent;
  seconds = absent;
  timeout = absent;
  status_code = none;
  code = none;
  http_status = none;
}

-- A `FloodWaitError` that names seven seconds.
abbrev pub flood : Exception
flood = record (failure "FloodWaitError") { seconds = Attribute.number (7 * second) }

abbrev pub network_down : ClassifiedError
network_down = record {
  error_class = ErrorClass.transient;
  code = "network_error";
  retry_after_s = none;
  safe_message = "";
}

abbrev pub flood_wait : ClassifiedError
flood_wait = record network_down {
  error_class = ErrorClass.rate_limit;
  code = "flood_wait";
  retry_after_s = some (7 * second);
}

-- Half of what may be drawn.
abbrev pub half : ℕ → ℕ
half b = b / 2

abbrev pub post : InboundMessage
post = record {
  source = record { peer_type = PeerType.channel; peer_id = pos 10; access_hash = none };
  message_ids = 42 ∷ [];
  media_type = MediaType.text;
  text = codes "Big SALE today";
  has_protected_content = false;
  partial_album = false;
}

abbrev pub wants_sale : FilterConfig
wants_sale = record {
  media_types = [];
  keyword_include = codes "sale" ∷ [];
  keyword_exclude = codes "spam" ∷ [];
  keyword_match_mode = KeywordMatchMode.substring;
}

abbrev pub order : NewJob
order = record {
  id = 103;
  rule_id = 7;
  rule_version = 3;
  connection_id = 5;
  source_chat_id = 10;
  source_message_ids = 43 ∷ [];
  destination_chat_id = 20;
  idempotency_key = codes "key";
  mtproto_random_id = none;
  not_before = 5;
}

-- An adapter whose send times out without an answer.
abbrev pub unsure : TelegramAdapter
unsure = record willing {
  send = λ _.
      raised (record (failure "AmbiguousDeliveryError") {
        kind = ExceptionKind.ambiguous_delivery_error;
      });
}

abbrev pub person : ℕ → ChatRef
person n = record { peer_type = PeerType.user; peer_id = pos n; access_hash = none }

-- A reply of the connection that may be repeated after a minute.
abbrev pub greeting : AutoReply
greeting = record {
  id = 1;
  user_id = 1;
  connection_id = 5;
  enabled = true;
  body_text = codes " Hello ";
  cooldown_s = 60;
  sent_count = 0;
}

abbrev pub greeting_db : Database
greeting_db = record db { auto_replies = greeting ∷ [] }

-- Chat 20 may be posted in, and chat 10 may be read.
abbrev pub open_chat : ℕ → TelegramChat
open_chat n = record (chat n) {
  access = some (record {
    can_read_source = true;
    source_reason_code = "ok";
    can_post_destination = true;
    destination_reason_code = "ok";
    checked_at = 0;
    check_source = "sync";
  });
}

abbrev pub open_db : Database
open_db = record db { chats = open_chat 10 ∷ open_chat 20 ∷ [] }
