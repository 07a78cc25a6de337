-- ===== src/Posting.antt =====
-- services/broadcast.py: a broadcast is queued, paused, cancelled and retried, and one target of it is
-- executed.
mod Rounds
mod Failure
mod Execution
pub mod Guards
pub mod Retrying
pub mod Endings
pub mod Waiting
unfoldable pub use Rounds.{has_media, report_round, after_round, close_round, store_round, settle}
unfoldable pub use Failure.{
  pause, record_outcome, wait_out, retry_or_give_up, handle_classified, handle_failure,
}
unfoldable pub use Execution.{
  posting, terminal, terminal_without_broadcast, ambiguous, posted, conclude, after_check,
  with_chat, guarded, execute_target,
}
use insightxadsflow.Prelude.{
  ℕ, ◌+◌, ◌-◌, ◌*◌, Bool, true, false, not, ◌&&◌, Option, some, none, if◌then◌else◌, leb, ltb,
  length, ◌==◌, String,
}
use insightxadsflow.Models.{
  Settings, Broadcast, BroadcastStatus, User, Database, get_user, put_broadcast, second,
}
use insightxadsflow.Text.{Unicode, is_empty, strip}
use insightxadsflow.Users.{put_user}
use insightxadsflow.Broadcasts

-- The reasons for which `validate` raises, in their order.
pub data BroadcastValidationError : Type 0 where
  nothing_to_post too_long no_groups too_many_groups repeat_too_short repeat_overlaps
        spread_too_long :
      BroadcastValidationError

-- In milliseconds: the source divides by 1000.
unfoldable pub estimated_duration_ms : ℕ → ℕ → ℕ
estimated_duration_ms delay_ms target_count = delay_ms * (target_count - 1)

-- `if broadcast.repeat_every_s is not None`
abbrev pub validate_repeat : Settings → Broadcast → ℕ → Option ℕ → Option BroadcastValidationError
validate_repeat settings broadcast target_count none = none
validate_repeat settings broadcast target_count (some repeat_every_s) =
    if ltb repeat_every_s settings.min_broadcast_repeat_s
    then some repeat_too_short
    else if leb (repeat_every_s * 1000) (estimated_duration_ms broadcast.delay_ms target_count)
    then some repeat_overlaps
    else none

abbrev pub validate_spread : Settings → Broadcast → ℕ → Option BroadcastValidationError
validate_spread settings broadcast target_count =
    if ltb (settings.max_rule_spread_s * 1000) (broadcast.delay_ms * (target_count - 1))
    then some spread_too_long
    else none

-- `none` where nothing is raised.
unfoldable pub validate : Unicode → Settings → Broadcast → ℕ → Option BroadcastValidationError
unfolding has_media
validate u settings broadcast target_count =
    let limit =
      if has_media broadcast
      then settings.max_broadcast_caption_len
      else settings.max_broadcast_text_len in
    if is_empty (strip u broadcast.body_text) && not (has_media broadcast)
    then some nothing_to_post
    else if ltb limit (length broadcast.body_text)
    then some too_long
    else if target_count == 0
    then some no_groups
    else if ltb settings.max_broadcast_targets target_count
    then some too_many_groups
    else elim (validate_repeat settings broadcast target_count broadcast.repeat_every_s) [
      | some e ↦ some e
      | none ↦ validate_spread settings broadcast target_count
    ]

abbrev pub count_broadcast : Option User → Database → Database
count_broadcast none db = db
count_broadcast (some owner) db =
    put_user (record owner { broadcasts_sent = owner.broadcasts_sent + 1 }) db

abbrev pub sending_again : Broadcast → Broadcast
sending_again broadcast = record broadcast {
  status = BroadcastStatus.sending;
  completed_at = none;
  paused_reason_code = none;
}

-- `queue` past the validation.
unfoldable pub start : ℕ → Broadcast → Option ℕ → Database → ℕ × Database
unfolding put_broadcast put_user get_user Broadcasts.schedule_targets
start now broadcast start_at db =
    let broadcast' = record (sending_again broadcast) { started_at = some now } in
    let (queued, db1) =
      Broadcasts.schedule_targets now broadcast' start_at (put_broadcast broadcast' db) in
    (queued, count_broadcast (get_user db1 broadcast.user_id) db1)

-- What `queue` returns, or the error that it raises, which leaves the database as it is.
pub data Queued : Type 0 where
  queued : ℕ → Queued
  rejected : BroadcastValidationError → Queued

unfoldable pub queue : Unicode → Settings → ℕ → Broadcast → Option ℕ → Database → Queued × Database
unfolding validate start
queue u settings now broadcast start_at db =
    elim (validate u settings broadcast (length (Broadcasts.target_chat_ids db broadcast.id))) [
      | some e ↦ (rejected e, db)
      | none ↦ (let (n, db') = start now broadcast start_at db in (queued n, db'))
    ]

-- Handing the round to the archive is kept as its id; a failure of it is only logged.
unfoldable pub cancel : ℕ → Broadcast → Database → ℕ × Database
unfolding put_broadcast Broadcasts.cancel_pending
cancel now broadcast db = Broadcasts.cancel_pending now broadcast.id (
    put_broadcast (record broadcast { status = BroadcastStatus.cancelled; completed_at = some now })
      (store_round broadcast db))

unfoldable pub retry_unfinished : ℕ → Broadcast → Database → ℕ × Database
unfolding put_broadcast Broadcasts.requeue_failed Broadcasts.schedule_targets
retry_unfinished now broadcast db =
    let (requeued, db1) = Broadcasts.requeue_failed now broadcast.id db in
    if requeued == 0 then (0, db1) else (
      requeued,
      (Broadcasts.schedule_targets now (sending_again broadcast) none
          (put_broadcast (sending_again broadcast) db1)).1,
    )
