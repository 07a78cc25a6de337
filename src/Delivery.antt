-- ===== src/Delivery.antt =====
-- services/delivery.py: one forwarding job is executed.
pub mod Failure
pub mod Sends
pub mod Guards
pub mod Outcomes
pub mod Retries
unfoldable pub use Failure.{backoff_seconds, record_failure, handle_failure}
pub use Failure.{DeliveryOutcome, outcome}
use text.Mathlib.Text.{◌==◌ as str_eq}
use insightxadsflow.Prelude.{
  ℕ, Bool, true, false, not, ◌&&◌, List, [], ◌∷◌, Option, some, none, ◌==◌, if◌then◌else◌, any, min,
  String,
}
use insightxadsflow.Models.{
  Settings, TelegramAdapter, TelegramConnection, TelegramChat, ForwardingRule, ForwardingJob,
  JobStatus, EventOutcome, ErrorClass, MediaType, InboundMessage, AccessReport, Reply, returned,
  raised, Send, forward_message, send_supported_content, DeliveryReceipt, Exception, ExceptionKind,
  adapter_error, cancelled_error, ambiguous_delivery_error, other_error, Database, is_connected,
  is_rule_active, is_copy, class_value, get_rule, get_chat, put_job, put_rule, put_connection,
  log_send, of_rule,
}
use insightxadsflow.Text.{Unicode}
use insightxadsflow.Reasons
use insightxadsflow.Events.{event, record_event, set_access, to_ref}
use insightxadsflow.Filters.{FilterConfig, filter_config_for, evaluate, is_nothing}
use insightxadsflow.Jobs
use insightxadsflow.Users.{is_active}

-- `except AmbiguousDeliveryError`
abbrev pub is_ambiguous : ExceptionKind → Bool
is_ambiguous ambiguous_delivery_error = true
is_ambiguous _ = false

-- `_terminal` with a rule; the outcome of the event is always `skipped`.
unfoldable pub terminal :
    ℕ → ForwardingJob → JobStatus → String → ℕ → Option ℕ → Database → DeliveryOutcome × Database
unfolding put_job record_event event Jobs.finish
terminal now job status reason_code rule_id destination_id db =
    let job' = Jobs.finish now status none none (some reason_code) job in
    (
      outcome status reason_code none,
      record_event
          (event now (of_rule rule_id) (some job.id) job.connection_id (some job.source_chat_id)
            job.source_message_ids destination_id EventOutcome.skipped reason_code
            job'.work.attempt_count)
          (put_job job' db),
    )

-- `_terminal` with no rule: no event is recorded.
unfoldable pub terminal_without_rule :
    ℕ → ForwardingJob → JobStatus → String → Database → DeliveryOutcome × Database
unfolding put_job Jobs.finish
terminal_without_rule now job status reason_code db = (
  outcome status reason_code none,
  put_job (Jobs.finish now status none none (some reason_code) job) db,
)

abbrev pub source_access : TelegramChat → Bool × String
source_access chat = elim chat.access [
  | none ↦ (false, Reasons.unknown)
  | some a ↦ (a.can_read_source, a.source_reason_code)
]

-- `access is None or not access.allowed`: the reason to refuse with.
abbrev refusal : Reply AccessReport → Option String
refusal (raised exc) = some Reasons.destination_not_eligible
refusal (returned access) = if access.allowed then none else some access.reason_code

-- The call that posts the message.
unfoldable pub send_of : ForwardingJob → ForwardingRule → TelegramChat → TelegramChat → Send
unfolding to_ref
send_of job rule source destination =
    if is_copy rule.forward_mode
    then send_supported_content (to_ref source) job.source_message_ids (to_ref destination)
        rule.preserve_caption
    else forward_message (to_ref source) job.source_message_ids (to_ref destination)
        job.mtproto_random_id

module _ (u : Unicode) where
  -- `_handle_stale_job`
  unfoldable pub handle_stale_job :
      ForwardingJob → ForwardingRule → TelegramChat → ℕ → Option String
  unfolding filter_config_for evaluate to_ref
  handle_stale_job job rule source_chat destination_id =
      let config = filter_config_for rule in
      let decision =
        evaluate u
          (record {
            source = to_ref source_chat;
            message_ids = job.source_message_ids;
            media_type = MediaType.text;
            text = [];
            has_protected_content = false;
            partial_album = false;
          })
          config in
      if not (any (λ d. d.chat_id == destination_id) rule.destinations)
      then some Reasons.destination_removed
      else if not (is_nothing config.keyword_include && is_nothing config.keyword_exclude)
      then some Reasons.filtered_after_edit
      else if not decision.passed && not (str_eq decision.reason_code Reasons.filtered_media_type)
      then some decision.reason_code
      else none

  module _ (settings : Settings) (adapter : TelegramAdapter) (uniform : ℕ → ℕ) (now : ℕ) where
    ambiguous :
        ForwardingJob → ForwardingRule → TelegramChat → Database → DeliveryOutcome × Database
    unfolding put_job record_event event Jobs.finish
    ambiguous job rule destination db =
        let job' =
          Jobs.finish now JobStatus.needs_attention none (some (class_value ErrorClass.unknown))
            (some Reasons.ambiguous_timeout) job in
        (
          outcome JobStatus.needs_attention Reasons.ambiguous_timeout none,
          record_event
              (event now (of_rule rule.id) (some job.id) job.connection_id (some job.source_chat_id)
                job.source_message_ids (some destination.id) EventOutcome.failed
                Reasons.ambiguous_timeout job'.work.attempt_count)
              (put_job job' db),
        )

    record_success :
        ForwardingJob
        → TelegramConnection
        → ForwardingRule
        → TelegramChat
        → DeliveryReceipt
        → Database
        → DeliveryOutcome × Database
    unfolding put_job put_rule put_connection record_event event Jobs.finish
    record_success job connection rule destination receipt db =
        let job' =
          Jobs.finish now JobStatus.succeeded receipt.destination_message_id none none job in
        (
          outcome JobStatus.succeeded Reasons.delivered none,
          put_connection (record connection { consecutive_failure_count = 0 })
              (put_rule (record rule { last_activity_at = some now })
                (record_event
                  (event now (of_rule rule.id) (some job.id) job.connection_id
                    (some job.source_chat_id) job.source_message_ids (some destination.id)
                    EventOutcome.forwarded Reasons.delivered job'.work.attempt_count)
                  (put_job job' db))),
        )

    -- What the send came back with.
    conclude :
        ForwardingJob
        → TelegramConnection
        → ForwardingRule
        → TelegramChat
        → Reply DeliveryReceipt
        → Database
        → DeliveryOutcome × Database
    unfolding ambiguous record_success handle_failure
    conclude job connection rule destination (returned receipt) db =
        record_success job connection rule destination receipt db
    conclude job connection rule destination (raised exc) db =
        if is_ambiguous exc.kind
        then ambiguous job rule destination db
        else handle_failure settings uniform now u job rule.id destination.id exc connection
            (min rule.max_attempts settings.max_attempts) db

    deliver :
        ForwardingJob
        → TelegramConnection
        → ForwardingRule
        → TelegramChat
        → TelegramChat
        → Database
        → DeliveryOutcome × Database
    unfolding terminal log_send send_of conclude
    deliver job connection rule source destination db =
        let call = send_of job rule source destination in
        if is_copy rule.forward_mode && source.has_protected_content
        then terminal now job JobStatus.skipped Reasons.protected_content rule.id
            (some destination.id) db
        else conclude job connection rule destination (adapter.send call) (log_send call db)

    refuse :
        ForwardingJob
        → ForwardingRule
        → TelegramChat
        → String
        → Database
        → DeliveryOutcome × Database
    unfolding terminal set_access
    refuse job rule destination reason db =
        let (can_read, source_reason) = source_access destination in
        terminal now job JobStatus.skipped reason rule.id (some destination.id)
          (set_access now destination can_read source_reason false reason "pre_delivery" db)

    revalidate :
        ForwardingJob
        → TelegramConnection
        → ForwardingRule
        → TelegramChat
        → TelegramChat
        → Database
        → DeliveryOutcome × Database
    unfolding deliver refuse
    revalidate job connection rule source destination db =
        elim (refusal (adapter.check_destination_access (to_ref destination))) [
          | some reason ↦ refuse job rule destination reason db
          | none ↦ deliver job connection rule source destination db
        ]

    -- The rule may have been edited while the job was queued.
    unless_stale :
        ForwardingJob
        → TelegramConnection
        → ForwardingRule
        → TelegramChat
        → TelegramChat
        → Database
        → DeliveryOutcome × Database
    unfolding handle_stale_job terminal revalidate
    unless_stale job connection rule source destination db =
        if job.rule_version == rule.version
        then revalidate job connection rule source destination db
        else elim (handle_stale_job job rule source destination.id) [
          | some reason ↦ terminal now job JobStatus.skipped reason rule.id none db
          | none ↦ revalidate job connection rule source destination db
        ]

    with_chats :
        ForwardingJob
        → TelegramConnection
        → ForwardingRule
        → Option TelegramChat
        → Option TelegramChat
        → Database
        → DeliveryOutcome × Database
    unfolding terminal unless_stale
    with_chats job connection rule (some source) (some destination) db =
        unless_stale job connection rule source destination db
    with_chats job connection rule _ _ db =
        terminal now job JobStatus.skipped Reasons.destination_removed rule.id none db

    guarded :
        ForwardingJob → TelegramConnection → ForwardingRule → Database → DeliveryOutcome × Database
    unfolding is_active terminal with_chats get_chat
    guarded job connection rule db =
        if not (is_active db rule.user_id)
        then terminal now job JobStatus.skipped Reasons.account_suspended rule.id none db
        else if not (is_connected connection.status)
        then terminal now job JobStatus.skipped Reasons.connection_disconnected rule.id none db
        else if not (is_rule_active rule.status)
        then terminal now job JobStatus.skipped Reasons.rule_inactive rule.id none db
        else with_chats job connection rule (get_chat db job.source_chat_id)
            (get_chat db job.destination_chat_id) db

    unfoldable pub execute_job :
        ForwardingJob → TelegramConnection → Database → DeliveryOutcome × Database
    unfolding get_rule terminal_without_rule guarded
    execute_job job connection db = elim (get_rule db job.rule_id) [
      | none ↦ terminal_without_rule now job JobStatus.skipped Reasons.rule_inactive db
      | some rule ↦ guarded job connection rule db
    ]
