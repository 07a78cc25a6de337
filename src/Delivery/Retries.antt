-- ===== src/Delivery/Retries.antt =====
-- How long `services/delivery.py` waits before it sends again, and when it stops.
use insightxadsflow.Prelude.{
  refl, inr, inl, leb, Bool-cases, none, is_some, ap, ◌∙◌, ◌<◌, ◌+◌, true, false, some, ◌⊎◌, true,
  ◌≡◌, ℕ, ◌*◌, ◌^◌, ◌≤◌, ◌/◌, arith, min, sym, some_injective, Option, String,
}
use insightxadsflow.Errors.{ClassifiedError, is_rate_limit}
use insightxadsflow.Delivery.{record_failure}
use insightxadsflow.Jobs
use insightxadsflow.Leases.{finished, rescheduled}
use insightxadsflow.Reasons
use insightxadsflow.Events.{record_event}
use insightxadsflow.Safety.{pause_rule}
use insightxadsflow.Delivery.Outcomes.{
  get_job_of_jobs, get_job-put_job, jobs-pause_rule, jobs-note_failure, handle_classified-IsSettled,
}
use insightxadsflow.Models.{
  ErrorClass, get_job, put_job, class_value, is_retryable, TelegramConnection, JobStatus, Settings,
  ForwardingJob, Database, is_retryable, Database, TelegramConnection, ForwardingJob, Settings,
  is_pending, second,
}
use insightxadsflow.Delivery.Failure.{
  handle_classified, wait_out, retry_or_give_up, wait_or_default, is_auth, retry_or_give_up,
  wait_out, handle_classified, backoff_seconds,
}
use insightxadsflow.Errors.{ClassifiedError}

-- In microseconds: one second doubled with each attempt, and sixteen at most; the random part is at most
-- a quarter of that, and two seconds.
abbrev pub least_wait : ℕ → ℕ
least_wait attempt = min (2 ^ attempt * 1000000) 16000000

abbrev pub most_wait : ℕ → ℕ
most_wait attempt = least_wait attempt + min (least_wait attempt / 4) 2000000

-- What the provider named, or a minute.
abbrev pub named_wait : Option ℕ → ℕ
named_wait none = 60000000
named_wait (some wait) = wait

-- The job's row waits for its next attempt, which is not before `low` and not after `high` from now.
pub record IsQueuedAgain (now low high : ℕ) (code : String) (job : ForwardingJob) (after : Database)
    : Type 0 where
  pub row : ForwardingJob
  pub found : get_job after job.id ≡ some row
  pub status : row.work.status ≡ JobStatus.pending
  pub one_attempt_more : row.work.attempt_count ≡ job.work.attempt_count + 1
  pub no_sooner : now + low ≤ row.work.not_before
  pub no_later : row.work.not_before ≤ now + high
  pub no_owner : row.work.lease_owner ≡ none
  pub no_deadline : row.work.lease_expires_at ≡ none
  pub error_code : row.work.last_error_code ≡ some code

-- The job is over.
pub record IsDeadLetter (code : String) (job : ForwardingJob) (after : Database) : Type 0 where
  pub row : ForwardingJob
  pub found : get_job after job.id ≡ some row
  pub status : row.work.status ≡ JobStatus.dead_letter
  pub no_owner : row.work.lease_owner ≡ none
  pub no_deadline : row.work.lease_expires_at ≡ none
  pub error_code : row.work.last_error_code ≡ some code

used_up : (a b : ℕ) → leb a b ≡ true → a ≤ b
used_up a b h = ground arith

left_over : (a b : ℕ) → leb a b ≡ false → b < a
left_over a b h = ground arith

pub rate_limit_is_no_auth : (c : ErrorClass) → is_rate_limit c ≡ true → is_auth c ≡ false
rate_limit_is_no_auth c h = ground arith

pub rate_limit_is_retryable : (c : ErrorClass) → is_rate_limit c ≡ true → is_retryable c ≡ true
rate_limit_is_retryable c h = ground arith

retryable_is_no_auth : (c : ErrorClass) → is_retryable c ≡ true → is_auth c ≡ false
retryable_is_no_auth c h = ground arith

module _ (settings : Settings) (uniform : ℕ → ℕ) (now : ℕ) (job : ForwardingJob)
    (rule_id destination_id : ℕ) (classified : ClassifiedError) (connection : TelegramConnection)
    (max_attempts : ℕ) (db : Database) where
  outcome_pending_only_if :
      is_pending
          (handle_classified settings uniform now job rule_id destination_id classified connection
            max_attempts db).0.status
        ≡ true
      → (is_retryable classified.error_class ≡ true)
        × ((is_rate_limit classified.error_class ≡ true)
            ⊎ (job.work.attempt_count + 1 < max_attempts))
  unfolding handle_classified wait_out retry_or_give_up
  outcome_pending_only_if h = ground arith

  -- For a job whose row is in the table, the row is pending after a failure only for a retryable class,
  -- and then only if the class is a rate limit or the attempts are not used up.
  pub queued_again_only_if :
      (there : is_some (get_job db job.id) ≡ true) (row : ForwardingJob)
      (found : get_job
          (handle_classified settings uniform now job rule_id destination_id classified connection
            max_attempts db).1
          job.id
        ≡ some row)
      (queued : row.work.status ≡ JobStatus.pending)
      → (is_retryable classified.error_class ≡ true)
        × ((is_rate_limit classified.error_class ≡ true)
            ⊎ (job.work.attempt_count + 1 < max_attempts))
  queued_again_only_if there row found queued =
      let settled =
        handle_classified-IsSettled settings uniform now job connection rule_id destination_id
          max_attempts db there classified in
      let same : settled.row ≡ row = some_injective (sym settled.found ∙ found) in
      outcome_pending_only_if (
        ap is_pending
          (sym settled.status ∙ ap (λ (r : ForwardingJob). r.work.status) same ∙ queued))

  -- The row after a failure that is tried again `delay` later.
  abbrev pub retried_after : ℕ → ForwardingJob
  retried_after delay =
      Jobs.reschedule now delay (class_value classified.error_class) classified.code job

  rate_limit_waited_out :
      is_some (get_job db job.id) ≡ true
      → get_job (wait_out settings uniform now job rule_id destination_id classified db).1 job.id
        ≡ some (retried_after (wait_or_default classified.retry_after_s))
  unfolding wait_out record_failure record_event Jobs.reschedule rescheduled
  rate_limit_waited_out there =
      let job' = retried_after (wait_or_default classified.retry_after_s) in
      let paused = pause_rule now rule_id Reasons.flood_wait_pause db in
      elim (Bool-cases (
        leb (settings.flood_wait_pause_threshold_s * second)
          (wait_or_default classified.retry_after_s))) [
            | inl e ↦ rw e (
                get_job_of_jobs (put_job job' paused) _ job.id refl
                ∙ get_job-put_job job' paused (
                    ap is_some (
                      get_job_of_jobs db paused job.id
                        (jobs-pause_rule now rule_id Reasons.flood_wait_pause db))
                    ∙ there))
            | inr e ↦
                rw e
                  (get_job_of_jobs (put_job job' db) _ job.id refl ∙ get_job-put_job job' db there)
          ]

  wait_or_default_lem : (w : Option ℕ) → wait_or_default w ≡ named_wait w
  wait_or_default_lem none = refl
  wait_or_default_lem (some w) = refl

  -- What `retried_after` writes.
  retried-IsQueuedAgain :
      (delay low high : ℕ) (after : Database)
      → get_job after job.id ≡ some (retried_after delay)
      → low ≤ delay
      → delay ≤ high
      → IsQueuedAgain now low high classified.code job after
  unfolding Jobs.reschedule rescheduled
  retried-IsQueuedAgain delay low high after found above below = record {
    row = retried_after delay;
    found = found;
    status = refl;
    one_attempt_more = refl;
    no_sooner = omega (arith, above);
    no_later = omega (arith, below);
    no_owner = refl;
    no_deadline = refl;
    error_code = refl;
  }

  -- A rate limit is waited out: for a job whose row is in the table, the row is pending with one attempt
  -- more, no lease and the error's code, not to be claimed before exactly the time that the provider
  -- named has passed, or a minute where it named none.
  pub rate_limit_obeyed :
      (there : is_some (get_job db job.id) ≡ true)
      (limited : is_rate_limit classified.error_class ≡ true)
      → IsQueuedAgain now
          (named_wait classified.retry_after_s)
          (named_wait classified.retry_after_s)
          classified.code
          job
          (handle_classified settings uniform now job rule_id destination_id classified connection
            max_attempts db).1
  unfolding handle_classified
  rate_limit_obeyed there limited =
      let same = wait_or_default_lem classified.retry_after_s in
      rw
        (
          rate_limit_is_no_auth classified.error_class limited,
          rate_limit_is_retryable classified.error_class limited,
          limited,
        )
        (retried-IsQueuedAgain (wait_or_default classified.retry_after_s) _ _ _
          (rate_limit_waited_out there) (omega (arith, same)) (omega (arith, same)))

  retry_or_give_up_lem :
      (bound : (b : ℕ) → uniform b ≤ b) (there : is_some (get_job db job.id) ≡ true)
      → let after =
          (retry_or_give_up settings uniform now job rule_id destination_id classified connection
            max_attempts db).1 in
        ((job.work.attempt_count + 1 < max_attempts)
          × IsQueuedAgain now
              (least_wait job.work.attempt_count)
              (most_wait job.work.attempt_count)
              classified.code
              job
              after)
        ⊎ ((max_attempts ≤ job.work.attempt_count + 1) × IsDeadLetter classified.code job after)
  unfolding retry_or_give_up record_failure record_event Jobs.reschedule rescheduled Jobs.finish
      finished backoff_seconds
  retry_or_give_up_lem bound there =
      let delay = backoff_seconds uniform job.work.attempt_count in
      let job' = retried_after delay in
      let dead =
        Jobs.finish now JobStatus.dead_letter none (some (class_value classified.error_class))
          (some classified.code) job in
      let drawn = bound (min (least_wait job.work.attempt_count / 4) (2 * second)) in
      elim (Bool-cases (leb max_attempts (job.work.attempt_count + 1))) [
        | inl e ↦ rw e (
            inr (
              used_up _ _ e,
              record {
                row = dead;
                found =
                    get_job_of_jobs (put_job dead db) _ job.id
                      (jobs-note_failure settings now rule_id connection _)
                    ∙ get_job-put_job dead db there;
                status = refl;
                no_owner = refl;
                no_deadline = refl;
                error_code = refl;
              },
            ))
        | inr e ↦ rw e (
            inl (
              left_over _ _ e,
              retried-IsQueuedAgain delay _ _ _
                  (get_job_of_jobs (put_job job' db) _ job.id refl ∙ get_job-put_job job' db there)
                  (omega arith) (omega (arith, drawn)),
            ))
      ]

  -- Where a draw stays within its bound, any other retryable failure of a job whose row is in the table
  -- queues the job again while attempts are left, with one attempt more, after the doubled wait of the
  -- attempt and a random part of at most a quarter of it; and after the last attempt the job is a dead
  -- letter. The row says so in both cases, and holds no lease.
  pub attempts_are_bounded :
      (bound : (b : ℕ) → uniform b ≤ b) (there : is_some (get_job db job.id) ≡ true)
      (retryable : is_retryable classified.error_class ≡ true)
      (unlimited : is_rate_limit classified.error_class ≡ false)
      → let after =
          (handle_classified settings uniform now job rule_id destination_id classified connection
            max_attempts db).1 in
        ((job.work.attempt_count + 1 < max_attempts)
          × IsQueuedAgain now
              (least_wait job.work.attempt_count)
              (most_wait job.work.attempt_count)
              classified.code
              job
              after)
        ⊎ ((max_attempts ≤ job.work.attempt_count + 1) × IsDeadLetter classified.code job after)
  unfolding handle_classified
  attempts_are_bounded bound there retryable unlimited =
      rw (retryable_is_no_auth classified.error_class retryable, retryable, unlimited)
        (retry_or_give_up_lem bound there)
