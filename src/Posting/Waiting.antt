-- ===== src/Posting/Waiting.antt =====
-- How services/broadcast.py serves a wait that Telegram asked for.
use insightxadsflow.Prelude.{
  ℕ, ◌*◌, ◌≡◌, refl, ◌∙◌, true, some, leb, Bool-cases, inl, inr, is_some, ◌==◌, ==-refl,
  find_where-replace,
}
use insightxadsflow.Models.{
  Settings, TelegramConnection, Broadcast, BroadcastTarget, Database, second, class_value,
  get_target, put_target, put_broadcast,
}
use insightxadsflow.Errors.{ClassifiedError, is_rate_limit}
use insightxadsflow.Events.{record_event}
use insightxadsflow.Leases.{rescheduled}
use insightxadsflow.Broadcasts
use insightxadsflow.Delivery.Failure.{wait_or_default}
use insightxadsflow.Delivery.Retries.{rate_limit_is_no_auth, rate_limit_is_retryable}
use insightxadsflow.Posting.Failure.{pause, record_outcome, wait_out, handle_classified}

get_target-put_target :
    (t : BroadcastTarget) (db : Database)
    → is_some (get_target db t.id) ≡ true
    → get_target (put_target t db) t.id ≡ some t
unfolding get_target put_target
get_target-put_target t db h = find_where-replace (λ r. r.id == t.id) t (==-refl t.id) db.targets h

get_target_of :
    (db db' : Database) (i : ℕ) → db'.targets ≡ db.targets → get_target db' i ≡ get_target db i
unfolding get_target
get_target_of db db' i e = rw e

module _ (settings : Settings) (uniform : ℕ → ℕ) (now : ℕ) (target : BroadcastTarget)
    (broadcast : Broadcast) (destination_id : ℕ) (classified : ClassifiedError)
    (connection : TelegramConnection) (max_attempts : ℕ) (db : Database) where
  -- The row after a failure that is tried again `delay` later.
  abbrev pub retried_after : ℕ → BroadcastTarget
  retried_after delay =
      Broadcasts.reschedule now delay (class_value classified.error_class) classified.code target

  wait_out_row :
      is_some (get_target db target.id) ≡ true
      → get_target
          (wait_out settings uniform now target broadcast destination_id classified connection db).1
          target.id
        ≡ some (retried_after (wait_or_default classified.retry_after_s))
  unfolding wait_out record_outcome record_event pause put_broadcast Broadcasts.reschedule
      rescheduled
  wait_out_row there =
      let row = retried_after (wait_or_default classified.retry_after_s) in
      let written = get_target-put_target row db there in
      elim (Bool-cases (
        leb (settings.flood_wait_pause_threshold_s * second)
          (wait_or_default classified.retry_after_s))) [
            | inl e ↦ rw e (get_target_of (put_target row db) _ target.id refl ∙ written)
            | inr e ↦ rw e (get_target_of (put_target row db) _ target.id refl ∙ written)
          ]

  -- A rate limit is waited out: the row of the target is queued again, not to be claimed before
  -- exactly the time that the provider asked for has passed, or a minute where it named none, whether
  -- or not the wait is long enough to pause the broadcast.
  pub target_waits :
      is_some (get_target db target.id) ≡ true
      → is_rate_limit classified.error_class ≡ true
      → get_target
          (handle_classified settings uniform now target broadcast destination_id classified
            connection max_attempts db).1
          target.id
        ≡ some (retried_after (wait_or_default classified.retry_after_s))
  unfolding handle_classified
  target_waits there limited =
      rw
        (
          rate_limit_is_no_auth classified.error_class limited,
          rate_limit_is_retryable classified.error_class limited,
          limited,
        )
        (wait_out_row there)
