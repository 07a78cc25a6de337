-- ===== src/Posting/Failure.antt =====
-- `_handle_failure` and `_record` of services/broadcast.py.
use insightxadsflow.Prelude.{ℕ, ◌+◌, ◌*◌, not, [], Option, some, none, if◌then◌else◌, leb, String}
use insightxadsflow.Models.{
  Settings, TelegramConnection, Broadcast, BroadcastStatus, BroadcastTarget, JobStatus,
  EventOutcome, Exception, Database, is_retryable, class_value, second, put_target, put_broadcast,
  of_broadcast,
}
use insightxadsflow.Text.{Unicode}
use insightxadsflow.Reasons
use insightxadsflow.Errors.{ClassifiedError, classify_error, is_rate_limit}
use insightxadsflow.Events.{event, record_event}
use insightxadsflow.Broadcasts
use insightxadsflow.Safety.{pause_connection, note_connection_failure}
use insightxadsflow.Delivery.{DeliveryOutcome, outcome, backoff_seconds}
use insightxadsflow.Delivery.Failure.{is_auth, wait_or_default}
use insightxadsflow.Posting.Rounds.{settle}

-- `_record`; `target` is the row as it is by then.
unfoldable pub record_outcome :
    ℕ → Broadcast → ℕ → Option ℕ → BroadcastTarget → String → EventOutcome → Database → Database
unfolding record_event event
record_outcome now broadcast connection_id destination_id target reason_code event_outcome =
    record_event (
      event now (of_broadcast broadcast.id) none connection_id none [] destination_id event_outcome
        reason_code target.work.attempt_count)

-- `pause`
unfoldable pub pause : Broadcast → String → Database → Database
unfolding put_broadcast
pause broadcast reason_code =
    put_broadcast
      (record broadcast { status = BroadcastStatus.paused; paused_reason_code = some reason_code })

module _ (settings : Settings) (uniform : ℕ → ℕ) (now : ℕ) where
  -- The branch on `ErrorClass.RATE_LIMIT`.
  unfoldable pub wait_out :
      BroadcastTarget
      → Broadcast
      → ℕ
      → ClassifiedError
      → TelegramConnection
      → Database
      → DeliveryOutcome × Database
  unfolding pause put_target record_outcome Broadcasts.reschedule
  wait_out target broadcast destination_id classified connection db =
      let wait = wait_or_default classified.retry_after_s in
      let target' =
        Broadcasts.reschedule now wait (class_value classified.error_class) classified.code
          target in
      if leb (settings.flood_wait_pause_threshold_s * second) wait
      then (
        outcome JobStatus.pending Reasons.broadcast_flood_wait (some wait),
        record_outcome now broadcast connection.id (some destination_id) target'
            Reasons.broadcast_flood_wait EventOutcome.paused
            (put_target target' (pause broadcast Reasons.broadcast_flood_wait db)),
      )
      else (
        outcome JobStatus.pending classified.code (some wait),
        record_outcome now broadcast connection.id (some destination_id) target' classified.code
            EventOutcome.retry_scheduled (put_target target' db),
      )

  -- The last part: bounded retries, then a dead letter.
  unfoldable pub retry_or_give_up :
      BroadcastTarget
      → Broadcast
      → ℕ
      → ClassifiedError
      → TelegramConnection
      → ℕ
      → Database
      → DeliveryOutcome × Database
  unfolding put_target record_outcome note_connection_failure settle Broadcasts.finish
      Broadcasts.reschedule backoff_seconds
  retry_or_give_up target broadcast destination_id classified connection max_attempts db =
      let error_class = class_value classified.error_class in
      let delay = backoff_seconds uniform target.work.attempt_count in
      let dead =
        Broadcasts.finish now JobStatus.dead_letter none (some error_class) (some classified.code)
          target in
      let target' = Broadcasts.reschedule now delay error_class classified.code target in
      if leb max_attempts (target.work.attempt_count + 1)
      then (
        outcome JobStatus.dead_letter Reasons.max_attempts_exceeded none,
        (settle now broadcast (
            note_connection_failure connection (
              record_outcome now broadcast connection.id (some destination_id) dead
                Reasons.max_attempts_exceeded EventOutcome.failed (put_target dead db)))).1,
      )
      else (
        outcome JobStatus.pending Reasons.retrying (some delay),
        record_outcome now broadcast connection.id (some destination_id) target' Reasons.retrying
            EventOutcome.retry_scheduled (put_target target' db),
      )

  -- `_handle_failure` after the classification.
  unfoldable pub handle_classified :
      BroadcastTarget
      → Broadcast
      → ℕ
      → ClassifiedError
      → TelegramConnection
      → ℕ
      → Database
      → DeliveryOutcome × Database
  unfolding put_target record_outcome pause_connection settle Broadcasts.finish wait_out
      retry_or_give_up
  handle_classified target broadcast destination_id classified connection max_attempts db =
      let stopped = λ (status : JobStatus).
        Broadcasts.finish now status none (some (class_value classified.error_class))
          (some classified.code) target in
      if is_auth classified.error_class
      then (
        outcome JobStatus.failed classified.code none,
        record_outcome now broadcast connection.id (some destination_id) (stopped JobStatus.failed)
            classified.code EventOutcome.paused
            (put_target (stopped JobStatus.failed)
              (pause_connection now connection Reasons.auth_pause db)),
      )
      else if not (is_retryable classified.error_class)
      then (
        outcome JobStatus.skipped classified.code none,
        (settle now broadcast (
            record_outcome now broadcast connection.id (some destination_id)
              (stopped JobStatus.skipped) classified.code EventOutcome.skipped
              (put_target (stopped JobStatus.skipped) db))).1,
      )
      else if is_rate_limit classified.error_class
      then wait_out target broadcast destination_id classified connection db
      else retry_or_give_up target broadcast destination_id classified connection max_attempts db

  unfoldable pub handle_failure :
      Unicode
      → BroadcastTarget
      → Broadcast
      → ℕ
      → Exception
      → TelegramConnection
      → ℕ
      → Database
      → DeliveryOutcome × Database
  unfolding classify_error handle_classified
  handle_failure u target broadcast destination_id exc connection max_attempts =
      handle_classified target broadcast destination_id (classify_error u exc) connection
        max_attempts
