-- ===== src/Examples.antt =====
-- The theorems on jobs, errors, filters, pauses and suspension at work on the small database.
use insightxadsflow.Prelude.{
  ◌≢◌, ℕ, ◌≡◌, ◌≤◌, ◌<◌, ◌*◌, ◌↔◌, ◌⊎◌, refl, true, false, [], ◌∷◌, some, none, arith, is_some,
  length,
}
use insightxadsflow.Models.{
  default_settings, default_settings, JobStatus, ErrorClass, second, get_job, Database,
  ForwardingJob,
}
use insightxadsflow.Text.{ascii}
use insightxadsflow.Reasons
use insightxadsflow.Errors.{
  first_mapped, classify_provider_error, mapped_name, first_number, classify_error,
  extract_retry_after,
}
use insightxadsflow.Errors.Laws.{wait_only_on_rate_limit}
use insightxadsflow.Leases.{rescheduled}
use insightxadsflow.Filters.{evaluate}
use insightxadsflow.Filters.Laws.{Passes, evaluate_iff}
use insightxadsflow.Leases.Tables.{IsSound}
use insightxadsflow.Jobs
use insightxadsflow.Jobs.{job_table, create_if_absent}
use insightxadsflow.Jobs.Histories.{
  claim, reclaim, requeue, perform_all, history-IsSound, history-succeeded,
}
use insightxadsflow.Safety.{pause_connection}
use insightxadsflow.Safety.Stopped.{IsStopped, pause_connection-IsStopped}
use insightxadsflow.Users.{suspend}
use insightxadsflow.Users.Suspended.{IsSuspended, suspend-IsSuspended}
use insightxadsflow.Delivery.{execute_job, backoff_seconds}
use insightxadsflow.Delivery.Failure.{handle_classified}
use insightxadsflow.Delivery.Guards.{PostsAtMostOnce, execute_job_posts_guarded}
use insightxadsflow.Delivery.Outcomes.{IsSettled, execute_job-IsSettled}
use insightxadsflow.Delivery.Retries.{
  queued_again_only_if, rate_limit_obeyed, attempts_are_bounded, IsQueuedAgain, IsDeadLetter,
  least_wait, most_wait,
}
use insightxadsflow.Samples.{
  alice, account, work_of, leased_work, job_of, db, willing, flood, network_down, flood_wait, half,
  post, wants_sale,
}

job_there : is_some (get_job db 100) ≡ true
unfolding get_job
job_there = refl

half_within : (b : ℕ) → half b ≤ b
half_within b = omega arith

job_posts_guarded_example :
    PostsAtMostOnce ascii default_settings willing half 9
      (job_of 100 leased_work)
      account
      db
      (execute_job ascii default_settings willing half 9
        (job_of 100 leased_work)
        account
        db).1.sends
job_posts_guarded_example =
    execute_job_posts_guarded ascii default_settings willing half 9 (job_of 100 leased_work) account
      db

job_posts :
    length
      (execute_job ascii default_settings willing half 9
        (job_of 100 leased_work)
        account
        db).1.sends
    ≡ 1
unfolding execute_job
job_posts = refl

execute_job-IsSettled_example :
    IsSettled 100
      (execute_job ascii default_settings willing half 9 (job_of 100 leased_work) account db)
execute_job-IsSettled_example =
    execute_job-IsSettled ascii default_settings willing half 9 (job_of 100 leased_work) account db
      job_there

abbrev after_failure : Database
after_failure =
    (handle_classified default_settings half 9 (job_of 100 leased_work) 7 20 network_down account 5
      db).1

attempts_are_bounded_example :
    ((1 < 5)
      × IsQueuedAgain 9
          (least_wait 0)
          (most_wait 0)
          "network_error"
          (job_of 100 leased_work)
          after_failure)
    ⊎ ((5 ≤ 1) × IsDeadLetter "network_error" (job_of 100 leased_work) after_failure)
attempts_are_bounded_example =
    attempts_are_bounded default_settings half 9 (job_of 100 leased_work) 7 20 network_down account
      5 db half_within job_there refl refl

rate_limit_obeyed_example :
    IsQueuedAgain 9
      (7 * second)
      (7 * second)
      "flood_wait"
      (job_of 100 leased_work)
      (handle_classified default_settings half 9
        (job_of 100 leased_work)
        7
        20
        flood_wait
        account
        5
        db).1
rate_limit_obeyed_example =
    rate_limit_obeyed default_settings half 9 (job_of 100 leased_work) 7 20 flood_wait account 5 db
      job_there refl

abbrev queued_row : ForwardingJob
queued_row =
    Jobs.reschedule 9 (backoff_seconds half 0) "TRANSIENT" "network_error" (job_of 100 leased_work)

row_after_failure : get_job after_failure 100 ≡ some queued_row
unfolding handle_classified get_job
row_after_failure = refl

row_is_queued : queued_row.work.status ≡ JobStatus.pending
unfolding Jobs.reschedule rescheduled
row_is_queued = refl

flood_names_a_wait : (classify_error ascii flood).retry_after_s ≢ none
unfolding classify_error classify_provider_error first_mapped mapped_name extract_retry_after
    first_number
flood_names_a_wait h = ground arith

queued_again_example : (true ≡ true) × ((false ≡ true) ⊎ (1 < 5))
queued_again_example =
    queued_again_only_if default_settings half 9 (job_of 100 leased_work) 7 20 network_down account
      5 db job_there queued_row row_after_failure row_is_queued

-- Distinct keys, and leases where they belong.
jobs-IsSound : IsSound job_table db.jobs
jobs-IsSound = record {
  unique = ((refl, (refl, tt)), ((refl, tt), (tt, tt)));
  exact = (
    record { owner = refl; deadline = refl },
    (record { owner = refl; deadline = refl }, (record { owner = refl; deadline = refl }, tt)),
  );
}

pause_connection_example : IsStopped 5 (pause_connection 9 account Reasons.auth_pause db)
pause_connection_example = pause_connection-IsStopped 9 account Reasons.auth_pause db refl

suspend_example : IsSuspended 1 (account ∷ []) (suspend 9 alice none db).1
suspend_example = suspend-IsSuspended 9 alice none db refl

history-IsSound_example :
    IsSound job_table (perform_all (claim (λ _. false) "w" 10 120 9 ∷ reclaim 200 60 ∷ []) db).jobs
history-IsSound_example =
    history-IsSound (claim (λ _. false) "w" 10 120 9 ∷ reclaim 200 60 ∷ []) db jobs-IsSound

history_succeeded_example :
    get_job (perform_all (claim (λ _. false) "w" 10 120 9 ∷ requeue 60 7 ∷ []) db) 102
    ≡ some (job_of 102 (work_of JobStatus.succeeded))
unfolding get_job
history_succeeded_example =
    history-succeeded (claim (λ _. false) "w" 10 120 9 ∷ requeue 60 7 ∷ []) db 102 jobs-IsSound refl
      refl

evaluate_example : ((evaluate ascii post wants_sale).passed ≡ true) ↔ Passes ascii post wants_sale
evaluate_example = evaluate_iff ascii post wants_sale

wait_only_example :
    ((classify_error ascii flood).error_class ≡ ErrorClass.rate_limit)
    × ((classify_error ascii flood).retry_after_s ≡ extract_retry_after ascii flood)
wait_only_example = wait_only_on_rate_limit ascii flood refl flood_names_a_wait
