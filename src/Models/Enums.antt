-- ===== src/Models/Enums.antt =====
-- The enumerations of db/models.py and adapters/base.py. A test `x is E.name` or `x == E.name` of the
-- source is a function by clauses here.
use mathlib.Core.Bool.{Bool, true, false}
use insightxadsflow.Prelude.{String}

pub data ConnectionStatus : Type 0 where
  pending awaiting_code awaiting_2fa active error paused_safety disconnected : ConnectionStatus

pub data PeerType : Type 0 where
  user chat channel : PeerType

pub data ChatKind : Type 0 where
  private group supergroup channel other : ChatKind

pub data RuleStatus : Type 0 where
  draft active paused error disconnected : RuleStatus

pub data ForwardMode : Type 0 where
  forward copy : ForwardMode

pub data KeywordMatchMode : Type 0 where
  substring word : KeywordMatchMode

pub data JobStatus : Type 0 where
  pending leased succeeded failed skipped needs_attention dead_letter : JobStatus

pub data EventOutcome : Type 0 where
  forwarded skipped failed retry_scheduled paused : EventOutcome

pub data BroadcastStatus : Type 0 where
  draft scheduled sending paused completed cancelled : BroadcastStatus

pub data BroadcastMedia : Type 0 where
  no_media photo : BroadcastMedia

pub data MediaType : Type 0 where
  text photo video document audio voice poll sticker animation location contact service other :
      MediaType

pub data ControlTaskKind : Type 0 where
  sync_chats health_check check_chat_access retry_failed activate_rule disconnect : ControlTaskKind

pub data ControlTaskStatus : Type 0 where
  pending leased succeeded failed : ControlTaskStatus

pub data ErrorClass : Type 0 where
  transient rate_limit auth permission permanent_content unknown : ErrorClass

pub ConnectionStatus-discrete : Discrete ConnectionStatus
ConnectionStatus-discrete = hlevel

abbrev pub is_connected : ConnectionStatus → Bool
is_connected ConnectionStatus.active = true
is_connected _ = false

abbrev pub is_paused_safety : ConnectionStatus → Bool
is_paused_safety ConnectionStatus.paused_safety = true
is_paused_safety _ = false

abbrev pub is_rule_active : RuleStatus → Bool
is_rule_active RuleStatus.active = true
is_rule_active _ = false

abbrev pub is_rule_paused : RuleStatus → Bool
is_rule_paused RuleStatus.paused = true
is_rule_paused _ = false

abbrev pub is_pending : JobStatus → Bool
is_pending JobStatus.pending = true
is_pending _ = false

abbrev pub is_leased : JobStatus → Bool
is_leased JobStatus.leased = true
is_leased _ = false

abbrev pub is_succeeded : JobStatus → Bool
is_succeeded JobStatus.succeeded = true
is_succeeded _ = false

-- `status.in_([pending, leased])`
abbrev pub is_unfinished : JobStatus → Bool
is_unfinished JobStatus.pending = true
is_unfinished JobStatus.leased = true
is_unfinished _ = false

-- `status.in_([failed, needs_attention, dead_letter])`
abbrev pub is_requeueable : JobStatus → Bool
is_requeueable JobStatus.failed = true
is_requeueable JobStatus.needs_attention = true
is_requeueable JobStatus.dead_letter = true
is_requeueable _ = false

-- `TERMINAL_JOB_STATUSES`
abbrev pub is_terminal : JobStatus → Bool
is_terminal JobStatus.succeeded = true
is_terminal JobStatus.skipped = true
is_terminal JobStatus.dead_letter = true
is_terminal _ = false

-- `status.in_([failed, dead_letter])`
abbrev pub is_serious_failure : JobStatus → Bool
is_serious_failure JobStatus.failed = true
is_serious_failure JobStatus.dead_letter = true
is_serious_failure _ = false

abbrev pub is_sending : BroadcastStatus → Bool
is_sending BroadcastStatus.sending = true
is_sending _ = false

abbrev pub is_broadcast_paused : BroadcastStatus → Bool
is_broadcast_paused BroadcastStatus.paused = true
is_broadcast_paused _ = false

abbrev pub is_scheduled : BroadcastStatus → Bool
is_scheduled BroadcastStatus.scheduled = true
is_scheduled _ = false

abbrev pub is_copy : ForwardMode → Bool
is_copy ForwardMode.copy = true
is_copy _ = false

-- `PeerType.value` and `PeerKind.value`
abbrev pub peer_value : PeerType → String
peer_value PeerType.user = "user"
peer_value PeerType.chat = "chat"
peer_value PeerType.channel = "channel"

-- `ErrorClass.value`
abbrev pub class_value : ErrorClass → String
class_value ErrorClass.transient = "TRANSIENT"
class_value ErrorClass.rate_limit = "RATE_LIMIT"
class_value ErrorClass.auth = "AUTH"
class_value ErrorClass.permission = "PERMISSION"
class_value ErrorClass.permanent_content = "PERMANENT_CONTENT"
class_value ErrorClass.unknown = "UNKNOWN"

-- `NON_RETRYABLE` and `ClassifiedError.retryable`
abbrev pub is_retryable : ErrorClass → Bool
is_retryable ErrorClass.auth = false
is_retryable ErrorClass.permission = false
is_retryable ErrorClass.permanent_content = false
is_retryable _ = true

abbrev pub same_peer : PeerType → PeerType → Bool
same_peer PeerType.user PeerType.user = true
same_peer PeerType.chat PeerType.chat = true
same_peer PeerType.channel PeerType.channel = true
same_peer _ _ = false

abbrev pub is_person : PeerType → Bool
is_person PeerType.user = true
is_person _ = false

abbrev pub is_task_pending : ControlTaskStatus → Bool
is_task_pending ControlTaskStatus.pending = true
is_task_pending _ = false

abbrev pub is_task_leased : ControlTaskStatus → Bool
is_task_leased ControlTaskStatus.leased = true
is_task_leased _ = false

abbrev pub is_task_failed : ControlTaskStatus → Bool
is_task_failed ControlTaskStatus.failed = true
is_task_failed _ = false

abbrev pub same_kind : ControlTaskKind → ControlTaskKind → Bool
same_kind ControlTaskKind.sync_chats ControlTaskKind.sync_chats = true
same_kind ControlTaskKind.health_check ControlTaskKind.health_check = true
same_kind ControlTaskKind.check_chat_access ControlTaskKind.check_chat_access = true
same_kind ControlTaskKind.retry_failed ControlTaskKind.retry_failed = true
same_kind ControlTaskKind.activate_rule ControlTaskKind.activate_rule = true
same_kind ControlTaskKind.disconnect ControlTaskKind.disconnect = true
same_kind _ _ = false
