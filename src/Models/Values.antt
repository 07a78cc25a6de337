-- ===== src/Models/Values.antt =====
-- What crosses the Telegram boundary of adapters/base.py, and the settings of config.py.
use insightxadsflow.Prelude.{ℕ, String, List, Option, Bool, ◌*◌}
use insightxadsflow.Prelude.Int.{ℤ}
use insightxadsflow.Models.Enums.{PeerType, MediaType, ErrorClass}

-- A text as its code points.
abbrev pub Text : Type 0
Text = List ℕ

abbrev pub second : ℕ
second = 1000000

abbrev pub millisecond : ℕ
millisecond = 1000

pub record ChatRef : Type 0 where
  pub peer_type : PeerType
  pub peer_id : ℤ
  pub access_hash : Option ℤ

pub record AccessReport : Type 0 where
  pub allowed : Bool
  pub reason_code : String

pub record InboundMessage : Type 0 where
  pub source : ChatRef
  pub message_ids : List ℕ
  pub media_type : MediaType
  pub text : Text
  pub has_protected_content : Bool
  pub partial_album : Bool

pub record DeliveryReceipt : Type 0 where
  pub destination_message_id : Option ℕ

-- What `getattr(exc, name, None)` gives: nothing, a value that is no non-negative number, or one, in
-- microseconds.
pub data Attribute : Type 0 where
  absent unusable : Attribute
  number : ℕ → Attribute

-- Which of the classes that the code names an exception is an instance of.
pub data ExceptionKind : Type 0 where
  adapter_error : String → ErrorClass → Option ℕ → ExceptionKind
  cancelled_error ambiguous_delivery_error other_error : ExceptionKind

pub record Exception : Type 0 where
  pub kind : ExceptionKind
  -- the names of `type(exc).__mro__` without `object`, the class itself first
  pub class_name : String
  pub base_names : List String
  pub message : Text
  pub retry_after : Attribute
  pub seconds : Attribute
  pub timeout : Attribute
  -- the attributes `status_code`, `code` and `http_status` where they are integers
  pub status_code : Option ℕ
  pub code : Option ℕ
  pub http_status : Option ℕ

-- What a call of an adapter comes back with: an answer, or an exception that `except Exception` catches,
-- so no cancellation of the task.
pub data Reply (A : Type 0) : Type 0 where
  returned : A → Reply A
  raised : Exception → Reply A

pub record TextEntity : Type 0 where
  pub type : String
  pub offset : ℕ
  pub length : ℕ
  pub url : Option String
  pub custom_emoji_id : Option String
  pub language : Option String

-- The calls that post something.
pub data Send : Type 0 where
  forward_message : ChatRef → List ℕ → ChatRef → Option ℕ → Send
  send_supported_content : ChatRef → List ℕ → ChatRef → Bool → Send
  send_text : ChatRef → Text → List TextEntity → Option ℕ → Send
  send_photo : ChatRef → List ℕ → Text → List TextEntity → String → Option ℕ → Send

-- What `execute_job`, `execute_target` and `handle_incoming` use of a `TelegramAdapter`.
pub record TelegramAdapter : Type 0 where
  pub check_destination_access : ChatRef → Reply AccessReport
  pub send : Send → Reply DeliveryReceipt

pub record Settings : Type 0 where
  pub worker_concurrency : ℕ
  pub per_connection_inflight : ℕ
  pub broadcast_inflight : ℕ
  pub safety_pause_threshold : ℕ
  pub max_attempts : ℕ
  pub max_rule_delay_ms : ℕ
  pub max_destinations_per_rule : ℕ
  pub max_rule_spread_s : ℕ
  pub max_sources_per_rule : ℕ
  pub flood_wait_pause_threshold_s : ℕ
  pub lease_seconds : ℕ
  pub max_broadcast_targets : ℕ
  pub max_broadcast_text_len : ℕ
  pub max_broadcast_caption_len : ℕ
  pub min_broadcast_repeat_s : ℕ
  pub auto_reply_after_ad_hours : ℕ

-- The values that an empty environment gives.
abbrev pub default_settings : Settings
default_settings = record {
  worker_concurrency = 16;
  per_connection_inflight = 2;
  broadcast_inflight = 8;
  safety_pause_threshold = 5;
  max_attempts = 5;
  max_rule_delay_ms = 3600000;
  max_destinations_per_rule = 500;
  max_rule_spread_s = 6 * 3600;
  max_sources_per_rule = 100;
  flood_wait_pause_threshold_s = 300;
  lease_seconds = 120;
  max_broadcast_targets = 500;
  max_broadcast_text_len = 4096;
  max_broadcast_caption_len = 1024;
  min_broadcast_repeat_s = 3600;
  auto_reply_after_ad_hours = 24;
}
