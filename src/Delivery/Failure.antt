-- ===== src/Delivery/Failure.antt =====
-- `backoff_seconds`, `_record_failure` and `_handle_failure` of services/delivery.py.
use insightxadsflow.Prelude.{
  ℕ, ◌+◌, ◌*◌, ◌/◌, ◌^◌, Bool, true, false, not, Option, some, none, if◌then◌else◌, leb, min,
  String,
}
use insightxadsflow.Models.{
  Settings, TelegramConnection, ForwardingJob, JobStatus, EventOutcome, ErrorClass, Exception,
  Database, is_retryable, class_value, second, put_job, of_rule,
}
use insightxadsflow.Text.{Unicode}
use insightxadsflow.Reasons
use insightxadsflow.Errors.{ClassifiedError, classify_error, is_rate_limit}
use insightxadsflow.Events.{event, record_event}
use insightxadsflow.Jobs
use insightxadsflow.Safety.{pause_connection, pause_rule, note_failure}

pub record DeliveryOutcome : Type 0 where
  pub status : JobStatus
  pub reason_code : String
  pub retry_after_s : Option ℕ

abbrev pub outcome : JobStatus → String → Option ℕ → DeliveryOutcome
outcome status reason_code retry_after_s = record {
  status = status;
  reason_code = reason_code;
  retry_after_s = retry_after_s;
}

abbrev pub backoff_base : ℕ → ℕ
backoff_base attempt = min (2 ^ attempt * second) (16 * second)

-- In microseconds; `uniform b` is what `random.uniform(0, b)` draws.
unfoldable pub backoff_seconds : (ℕ → ℕ) → ℕ → ℕ
backoff_seconds uniform attempt =
    let base = backoff_base attempt in base + uniform (min (base / 4) (2 * second))

abbrev pub is_auth : ErrorClass → Bool
is_auth ErrorClass.auth = true
is_auth _ = false

abbrev pub wait_or_default : Option ℕ → ℕ
wait_or_default none = 60 * second
wait_or_default (some wait) = wait

-- `job` is the row as it is when the event is recorded.
unfoldable pub record_failure :
    ℕ → ForwardingJob → ℕ → ℕ → String → EventOutcome → Database → Database
unfolding record_event event
record_failure now job rule_id destination_id reason_code event_outcome = record_event (
    event now (of_rule rule_id) (some job.id) job.connection_id (some job.source_chat_id)
      job.source_message_ids (some destination_id) event_outcome reason_code job.work.attempt_count)

module _ (settings : Settings) (uniform : ℕ → ℕ) (now : ℕ) where
  -- The branch on `ErrorClass.RATE_LIMIT`.
  unfoldable pub wait_out :
      ForwardingJob → ℕ → ℕ → ClassifiedError → Database → DeliveryOutcome × Database
  unfolding put_job record_failure pause_rule Jobs.reschedule
  wait_out job rule_id destination_id classified db =
      let wait = wait_or_default classified.retry_after_s in
      let job' =
        Jobs.reschedule now wait (class_value classified.error_class) classified.code job in
      if leb (settings.flood_wait_pause_threshold_s * second) wait
      then (
        outcome JobStatus.pending Reasons.flood_wait_pause (some wait),
        record_failure now job' rule_id destination_id Reasons.flood_wait_pause EventOutcome.paused
            (put_job job' (pause_rule now rule_id Reasons.flood_wait_pause db)),
      )
      else (
        outcome JobStatus.pending classified.code (some wait),
        record_failure now job' rule_id destination_id classified.code EventOutcome.retry_scheduled
            (put_job job' db),
      )

  -- The last part: bounded retries, then a dead letter.
  unfoldable pub retry_or_give_up :
      ForwardingJob
      → ℕ
      → ℕ
      → ClassifiedError
      → TelegramConnection
      → ℕ
      → Database
      → DeliveryOutcome × Database
  unfolding put_job record_failure note_failure Jobs.finish Jobs.reschedule backoff_seconds
  retry_or_give_up job rule_id destination_id classified connection max_attempts db =
      let error_class = class_value classified.error_class in
      let delay = backoff_seconds uniform job.work.attempt_count in
      let dead =
        Jobs.finish now JobStatus.dead_letter none (some error_class) (some classified.code) job in
      let job' = Jobs.reschedule now delay error_class classified.code job in
      if leb max_attempts (job.work.attempt_count + 1)
      then (
        outcome JobStatus.dead_letter Reasons.max_attempts_exceeded none,
        note_failure settings now rule_id connection (
            record_failure now dead rule_id destination_id Reasons.max_attempts_exceeded
              EventOutcome.failed (put_job dead db)),
      )
      else (
        outcome JobStatus.pending Reasons.retrying (some delay),
        record_failure now job' rule_id destination_id Reasons.retrying EventOutcome.retry_scheduled
            (put_job job' db),
      )

  -- `_handle_failure` after the classification.
  unfoldable pub handle_classified :
      ForwardingJob
      → ℕ
      → ℕ
      → ClassifiedError
      → TelegramConnection
      → ℕ
      → Database
      → DeliveryOutcome × Database
  unfolding put_job record_failure pause_connection Jobs.finish wait_out retry_or_give_up
  handle_classified job rule_id destination_id classified connection max_attempts db =
      let stopped = λ (status : JobStatus).
        Jobs.finish now status none (some (class_value classified.error_class))
          (some classified.code) job in
      if is_auth classified.error_class
      then (
        outcome JobStatus.failed classified.code none,
        record_failure now (stopped JobStatus.failed) rule_id destination_id classified.code
            EventOutcome.paused
            (put_job (stopped JobStatus.failed)
              (pause_connection now connection Reasons.auth_pause db)),
      )
      else if not (is_retryable classified.error_class)
      then (
        outcome JobStatus.skipped classified.code none,
        record_failure now (stopped JobStatus.skipped) rule_id destination_id classified.code
            EventOutcome.skipped (put_job (stopped JobStatus.skipped) db),
      )
      else if is_rate_limit classified.error_class
      then wait_out job rule_id destination_id classified db
      else retry_or_give_up job rule_id destination_id classified connection max_attempts db

  unfoldable pub handle_failure :
      Unicode
      → ForwardingJob
      → ℕ
      → ℕ
      → Exception
      → TelegramConnection
      → ℕ
      → Database
      → DeliveryOutcome × Database
  unfolding classify_error handle_classified
  handle_failure u job rule_id destination_id exc connection max_attempts =
      handle_classified job rule_id destination_id (classify_error u exc) connection max_attempts
